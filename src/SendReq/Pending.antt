-- ===== src/SendReq/Pending.antt =====
-- The list of requests: each at most once, in the order in which they came.
use c_router.Base.{
  ℕ, ◌+◌, ◌≤◌, ◌≡◌, refl, ◌++◌, length, length-append, List, [], ◌∷◌, Bool, true, false, Bool-cases,
  inl, inr, ◌==◌, ◌&&◌, ◌||◌, not, arith, All, All-append,
}
use c_router.Device.{DeviceNo, dev0, dev1, Env}
use c_router.SendReq.{same_dev, pending, append_send_req_data}

-- No request stands in the list twice.
abbrev pub distinct : List (DeviceNo × ℕ) → Bool
distinct [] = true
distinct ((d, i) ∷ reqs) = not (pending d i reqs) && distinct reqs

pub same_dev-sym : (d e : DeviceNo) → same_dev d e ≡ same_dev e d
same_dev-sym dev0 dev0 = refl
same_dev-sym dev0 dev1 = refl
same_dev-sym dev1 dev0 = refl
same_dev-sym dev1 dev1 = refl

pub same_dev_refl : (d : DeviceNo) → same_dev d d ≡ true
same_dev_refl dev0 = refl
same_dev_refl dev1 = refl

pub pending-append :
    (d e : DeviceNo) (i j : ℕ) (reqs : List (DeviceNo × ℕ))
    → pending d i (reqs ++ ((e, j) ∷ [])) ≡ (pending d i reqs || (same_dev e d && j == i))
unfolding pending
pending-append d e i j [] = ground arith
pending-append d e i j ((d', i') ∷ reqs) = ground (arith, pending-append d e i j reqs)

distinct-append :
    (d : DeviceNo) (i : ℕ) (reqs : List (DeviceNo × ℕ))
    → distinct reqs ≡ true
    → pending d i reqs ≡ false
    → distinct (reqs ++ ((d, i) ∷ [])) ≡ true
unfolding pending
distinct-append d i [] h out = refl
distinct-append d i ((e, j) ∷ reqs) h out =
    ground (arith, pending-append e d j i reqs, same_dev-sym d e, distinct-append d i reqs)

-- `AppendSendReqData` keeps the requests distinct.
pub append_send_req_data-distinct :
    (env : Env) (d : DeviceNo) (i : ℕ) (reqs : List (DeviceNo × ℕ))
    → distinct reqs ≡ true
    → distinct (append_send_req_data env d i reqs).1 ≡ true
unfolding append_send_req_data
append_send_req_data-distinct env d i reqs h = ground (arith, distinct-append d i reqs)

-- Where the lock is taken and the allocation succeeds, the request is in the list after
-- `AppendSendReqData`.
pub append_send_req_data-pending :
    (env : Env) (d : DeviceNo) (i : ℕ) (reqs : List (DeviceNo × ℕ))
    → env.lock_req ≡ true
    → env.alloc_req ≡ true
    → pending d i (append_send_req_data env d i reqs).1 ≡ true
unfolding append_send_req_data
append_send_req_data-pending env d i reqs locked alloc =
    ground (arith, pending-append d d i i reqs, same_dev_refl d)

-- What holds of all requests and of the new one holds of the list afterwards.
pub append_send_req_data-All {κ} :
    (P : DeviceNo × ℕ → Type κ) (env : Env) (d : DeviceNo) (i : ℕ) (reqs : List (DeviceNo × ℕ))
    → All P reqs
    → P (d, i)
    → All P (append_send_req_data env d i reqs).1
unfolding append_send_req_data
append_send_req_data-All P env d i reqs h p = elim (Bool-cases env.lock_req) [
  | inr failed ↦ rw failed h
  | inl locked ↦ elim (Bool-cases (pending d i reqs)) [
    | inl there ↦ rw (locked, there) h
    | inr absent ↦ elim (Bool-cases env.alloc_req) [
      | inl alloc ↦ rw (locked, absent, alloc) (All-append P reqs ((d, i) ∷ []) h (p, tt))
      | inr failed ↦ rw (locked, absent, failed) h
    ]
  ]
]

-- `AppendSendReqData` adds one request at most.
pub length-append_send_req_data :
    (env : Env) (d : DeviceNo) (i : ℕ) (reqs : List (DeviceNo × ℕ))
    → length (append_send_req_data env d i reqs).1 ≤ 1 + length reqs
unfolding append_send_req_data
length-append_send_req_data env d i reqs = ground (arith, length-append reqs ((d, i) ∷ []))

-- The first request.
pub append_send_req_data_first :
    (env : Env) (d : DeviceNo) (i : ℕ) (reqs : List (DeviceNo × ℕ))
    → env.lock_req ≡ true
    → env.alloc_req ≡ true
    → reqs ≡ []
    → (append_send_req_data env d i reqs).1 ≡ (d, i) ∷ []
unfolding append_send_req_data pending
append_send_req_data_first env d i reqs locks alloc none_wait = rw (none_wait, locks, alloc) refl

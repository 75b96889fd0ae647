-- ===== src/Links/Requests.antt =====
-- `AppendSendReqData` and `GetSendReqData` of router/ip2mac.c with the pointers of `SendReq`: they do
-- what the functions on lists in SendReq do.
use c_router.Base.{
  ℕ, zero, suc, ◌≤◌, ◌≡◌, refl, sym, ap, subst, ◌∙◌, List, [], ◌∷◌, Bool, Bool-cases, inl, inr,
  true, false, Option, none, some, ◌==◌, ◌&&◌, if◌then◌else◌, not, ℤ, pos, minus_one, Outcome, ok,
  fault, ◌>>=◌, arith, length, All,
}
use c_router.Device.{DeviceNo, Env}
use c_router.SendReq.{same_dev, pending, append_send_req_data, get_send_req_data}
use c_router.Links.{Node, Heap, Links, read, write, append, drop_top}
use c_router.Links.Chain.{NotIn, first, Chain, Chain-frame, write_self, write_other}
use c_router.Links.Queue.{IsLinked, append-IsLinked}

-- `SEND_REQ_DATA` without its links.
abbrev pub Request : Type 0
Request = DeviceNo × ℕ

-- The loop that looks for a request, from a structure on, in at most so many rounds.
pub searched : ℕ → DeviceNo → ℕ → Option ℕ → Heap Request → Outcome Bool
searched rounds d i none h = ok false
searched zero d i (some p) h = fault
searched (suc rounds) d i (some p) h = do
  node ← read h p
  let rest = searched rounds d i node.next h
  if same_dev node.item.0 d && node.item.1 == i then ok true else rest

-- `p` is the address that `malloc` returns.
pub append_req_links : Env → ℕ → ℕ → DeviceNo → ℕ → Links Request → Outcome (ℤ × Links Request)
append_req_links env rounds p d i l = if not env.lock_req then ok (minus_one, l) else (do
  there ← searched rounds d i l.top l.heap
  let appended = append p (d, i) l
  if there
      then ok (pos 1, l)
      else if not env.alloc_req
      then ok (minus_one, l)
      else (do l' ← append p (d, i) l; ok (pos 0, l')))

-- The top is not `NULL`: it is taken out and read, and stays allocated.
pub detach : ℕ → Links Request → Outcome (Option Request × Links Request)
detach d l = do
  node ← read l.heap d
  l' ← drop_top node.next l
  taken ← read l'.heap d
  ok (some taken.item, l')

-- By `SendReq.top`.
pub take_req : Env → Option ℕ → Links Request → Outcome (Option Request × Links Request)
take_req env none l = ok (none, l)
take_req env (some d) l = if not env.lock_req then ok (none, l) else detach d l

pub get_req_links : Env → Links Request → Outcome (Option Request × Links Request)
get_req_links env l = take_req env l.top l

-- The result on pointers is that on the list, and the structures hold the same requests.
abbrev pub Implements {ℓ} : {B : Type ℓ} → B × List Request → Outcome (B × Links Request) → Type ℓ
Implements (b, reqs) out =
    (l' : Links Request) × ((ps' : List ℕ) × ((out ≡ ok (b, l')) × IsLinked l' ps' reqs))

-- The loop ends within a round for each request, and finds what is in the list.
searched-pending :
    (rounds : ℕ) (d : DeviceNo) (i : ℕ) (h : Heap Request) (b : Option ℕ) (ps : List ℕ)
    (reqs : List Request)
    → Chain h b ps reqs
    → length reqs ≤ rounds
    → searched rounds d i (first ps) h ≡ ok (pending d i reqs)
unfolding searched pending
searched-pending rounds d i h b [] [] c le = refl
searched-pending rounds d i h b [] (r ∷ reqs) c le = absurd c
searched-pending rounds d i h b (p ∷ ps) [] c le = absurd c
searched-pending zero d i h b (p ∷ ps) (r ∷ reqs) c le = absurd (omega arith)
searched-pending (suc rounds) d i h b (p ∷ ps) ((e, j) ∷ reqs) c le =
    let rest : searched rounds d i (first ps) h ≡ ok (pending d i reqs) =
      searched-pending rounds d i h (some p) ps reqs c.1 (omega arith) in
    elim (Bool-cases (same_dev e d && j == i)) [
      | inl there ↦ rw (c.0, there) refl
      | inr absent ↦ rw (c.0, absent, rest) refl
    ]

unchanged :
    {B : Type 0} (l : Links Request) (ps : List ℕ) (reqs : List Request)
    → IsLinked l ps reqs
    → (b : B) → Implements (b, reqs) (ok (b, l))
unchanged l ps reqs v b = (l, (ps, (refl, v)))

-- `AppendSendReqData` with pointers does what it does on the list, on every branch: its loop ends
-- within a round for each request, and a new structure, at an address that is none of those of the
-- list, is linked in at the end in both directions.
pub append_req_links-Implements :
    (env : Env) (rounds p : ℕ) (d : DeviceNo) (i : ℕ) (l : Links Request) (ps : List ℕ)
    (reqs : List Request)
    → IsLinked l ps reqs
    → NotIn p ps
    → length reqs ≤ rounds
    → Implements (append_send_req_data env d i reqs) (append_req_links env rounds p d i l)
unfolding append_req_links append_send_req_data
append_req_links-Implements env rounds p d i l ps reqs v new enough =
    elim (Bool-cases env.lock_req) [
      | inr failed ↦ rw failed (unchanged l ps reqs v minus_one)
      | inl locked ↦ elim (Bool-cases (pending d i reqs)) [
        | inl there ↦ rw (locked, search, there) (unchanged l ps reqs v (pos 1))
        | inr absent ↦ elim (Bool-cases env.alloc_req) [
          | inr failed ↦ rw (locked, search, absent, failed) (unchanged l ps reqs v minus_one)
          | inl alloc ↦
              let (l', (made, linked)) = append-IsLinked l ps reqs p (d, i) v new in
              rw (locked, search, absent, alloc, made) (_, (_, (refl, linked)))
        ]
      ]
    ]
  where
    search : searched rounds d i l.top l.heap ≡ ok (pending d i reqs)
    search =
        ap (λ (top : Option ℕ). searched rounds d i top l.heap) v.top
        ∙ searched-pending rounds d i l.heap none ps reqs v.chain enough

written_others :
    (h : Heap Request) (t : ℕ) (n : Node Request) (ps : List ℕ)
    → NotIn t ps
    → All (λ q. write t n h q ≡ h q) ps
written_others h t n [] out = tt
written_others h t n (q ∷ ps) out = (write_other t q n h out.0, written_others h t n ps out.1)

detach-IsLinked :
    (l : Links Request) (p : ℕ) (ps : List ℕ) (r : Request) (reqs : List Request)
    → IsLinked l (p ∷ ps) (r ∷ reqs)
    → (l' : Links Request) × ((detach p l ≡ ok (some r, l')) × IsLinked l' ps reqs)
unfolding detach drop_top
detach-IsLinked l p [] r [] v = (
  record l { top = none; bottom = none },
  (rw (v.chain.0, v.chain.0) refl, record { chain = tt; distinct = tt; top = refl; bottom = refl }),
)
detach-IsLinked l p [] r (y ∷ reqs) v = absurd v.chain.1
detach-IsLinked l p (t ∷ ps) r [] v = absurd v.chain.1
detach-IsLinked l p (t ∷ ps) r (y ∷ reqs) v = (
  record { top = some t; bottom = l.bottom; heap = moved },
  (
    rw (v.chain.0, v.chain.1.0, still) refl,
    record {
      chain = (
        write_self t new_top l.heap,
        Chain-frame l.heap moved (some t) ps reqs
            (written_others l.heap t new_top ps v.distinct.1.0) v.chain.1.1,
      );
      distinct = v.distinct.1;
      top = refl;
      bottom = v.bottom;
    },
  ),
)
  where
    new_top : Node Request
    new_top = record { next = first ps; before = none; item = y }

    moved : Heap Request
    moved = write t new_top l.heap

    still : moved p ≡ some (record { next = some t; before = none; item = r })
    still = write_other t p new_top l.heap (λ e. v.distinct.0.0 (sym e)) ∙ v.chain.0

by_structures :
    (env : Env) (l : Links Request) (ps : List ℕ) (reqs : List Request)
    → IsLinked l ps reqs
    → Implements (get_send_req_data env reqs) (take_req env (first ps) l)
unfolding take_req get_send_req_data
by_structures env l [] [] v = unchanged l [] [] v none
by_structures env l [] (r ∷ reqs) v = absurd v.chain
by_structures env l (p ∷ ps) [] v = absurd v.chain
by_structures env l (p ∷ ps) (r ∷ reqs) v = elim (Bool-cases env.lock_req) [
  | inr failed ↦ rw failed (unchanged l (p ∷ ps) (r ∷ reqs) v none)
  | inl locked ↦
      let (l', (made, linked)) = detach-IsLinked l p ps r reqs v in
      rw (locked, made) (_, (_, (refl, linked)))
]

-- `GetSendReqData` with pointers does what it does on the list, on every branch.
pub get_req_links-Implements :
    (env : Env) (l : Links Request) (ps : List ℕ) (reqs : List Request)
    → IsLinked l ps reqs
    → Implements (get_send_req_data env reqs) (get_req_links env l)
unfolding get_req_links
get_req_links-Implements env l ps reqs v =
    subst (λ (top : Option ℕ). Implements (get_send_req_data env reqs) (take_req env top l))
      (sym v.top) (by_structures env l ps reqs v)

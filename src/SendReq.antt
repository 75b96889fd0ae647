-- ===== src/SendReq.antt =====
-- The requests to the sending thread in router/ip2mac.c: `AppendSendReqData`, `GetSendReqData`.
pub mod Pending
use c_router.Base.{
  ℕ, ◌++◌, List, [], ◌∷◌, Bool, true, false, Option, none, some, ◌==◌, ◌&&◌, ◌||◌, if◌then◌else◌,
  not, ℤ, pos, minus_one,
}
use c_router.Device.{DeviceNo, dev0, dev1, Env}

abbrev pub same_dev : DeviceNo → DeviceNo → Bool
same_dev dev0 dev0 = true
same_dev dev1 dev1 = true
same_dev d e = false

-- The loop over `SendReq`: is the request there?
unfoldable pub pending : DeviceNo → ℕ → List (DeviceNo × ℕ) → Bool
pending d i [] = false
pending d i ((e, j) ∷ reqs) = (same_dev e d && j == i) || pending d i reqs

-- `AppendSendReqData`: the return code and the list.
unfoldable pub append_send_req_data :
    Env → DeviceNo → ℕ → List (DeviceNo × ℕ) → ℤ × List (DeviceNo × ℕ)
append_send_req_data env d i reqs =
    if not env.lock_req
    then (minus_one, reqs)
    else if pending d i reqs
    then (pos 1, reqs)
    else if not env.alloc_req
    then (minus_one, reqs)
    else (pos 0, reqs ++ ((d, i) ∷ []))

-- `GetSendReqData`: `none` is the -1, and `some` what goes through its two pointers.
unfoldable pub get_send_req_data :
    Env → List (DeviceNo × ℕ) → Option (DeviceNo × ℕ) × List (DeviceNo × ℕ)
get_send_req_data env [] = (none, [])
get_send_req_data env (r ∷ reqs) = if not env.lock_req then (none, r ∷ reqs) else (some r, reqs)

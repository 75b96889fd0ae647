-- ===== src/Ip2Mac/Search.antt =====
-- What `Ip2MacSearch` returns and what it leaves behind.
pub mod Cases
use c_router.Base.{
  ℕ, zero, suc, ◌+◌, ◌-◌, ◌≤◌, ◌<◌, ◌≡◌, ◌≢◌, refl, sym, ◌∙◌, ap, ◌⊎◌, inl, inr, List, [], ◌∷◌,
  ◌++◌, Bool, true, false, ◌&&◌, ◌||◌, not, Option, none, some, ltb, leb, Bool-cases, ◌==◌,
  if◌then◌else◌, arith, length, length-append, length-set, set, get_elem?, get_elem?-set_self,
  get_elem?-append_length, lt_of_get_elem?, All, All-set, All-append, Outcome, ok, fault,
}
use c_router.Device.{
  DeviceNo, dev0, dev1, Flag, flag_free, flag_ok, flag_ng, Ip2mac, Ip2macs, World, Env, table,
  with_table,
}
use c_router.Device.Cmd.{◌>>=◌, ◌>>◌}
use c_router.SendBuf.{is_nonempty}
use c_router.SendReq.{append_send_req_data}
use c_router.Ip2Mac.{
  is_free, is_ok, is_ng, expired, touch, visit_match, Scanned, found, missed, scan, new_entry,
  grown, settle, request_sending, ip2mac_search,
}
use c_router.Ip2Mac.Scan.{
  holds, distinct, entries_of, is_missed, Finds, IsHit, scan-Finds, Slots, scan-Slots, length-scan,
  distinct-scan, holds-missed,
}
use c_router.Ip2Mac.Cache.{resolve, resolve-scan, resolve-set, resolve-append}
use c_router.Ip2Mac.Entry.{IsMac?, IsEntry, new_entry-IsEntry, scan-IsEntry}
use c_router.Ip2Mac.Table.{distinct-set, distinct-append}

-- The entry has the MAC address that the caller gave; a caller that gave none finds an entry in
-- `FLAG_OK` with its time limit started again.
abbrev pub Learned : ℕ → Option (List ℕ) → Ip2mac → Type 0
Learned now (some mac) e = (e.flag ≡ flag_ok) × (e.hwaddr ≡ mac)
Learned now none e = (not (is_ok e.flag) || e.last_time == now) ≡ true

-- The request that a new MAC address makes where frames wait for it.
abbrev pub woken : Option (List ℕ) → Ip2mac → Bool
woken none e = false
woken (some mac) e = is_nonempty e.sd.bufs

abbrev pub requests :
    Env → DeviceNo → Option (List ℕ) → ℕ → Ip2mac → List (DeviceNo × ℕ) → List (DeviceNo × ℕ)
requests env d hwaddr i e reqs =
    if woken hwaddr e then (append_send_req_data env d i reqs).1 else reqs

-- The result of a search that did not fault.
pub record Searched (env : Env) (d : DeviceNo) (addr : ℕ) (hwaddr : Option (List ℕ)) (w : World)
    (out : Outcome (ℕ × World)) : Type 0 where
  pub index : ℕ
  pub after : Ip2macs
  pub reqs : List (DeviceNo × ℕ)
  pub entry : Ip2mac
  pub returns : out ≡ ok (index, record (with_table d after w) { send_req = reqs })
  pub here : get_elem? after.entries index ≡ some entry
  pub for_addr : entry.addr ≡ addr
  pub in_use : is_free entry.flag ≡ false
  pub learned : Learned env.now hwaddr entry
  pub wakes : reqs ≡ requests env d hwaddr index entry w.send_req
  pub unique : distinct (table d w).entries ≡ true → distinct after.entries ≡ true
  pub room : length (table d w).entries ≤ (table d w).size → length after.entries ≤ after.size
  pub grows : length (table d w).entries ≤ length after.entries
  pub sound : IsMac? hwaddr → All (IsEntry d) (table d w).entries → All (IsEntry d) after.entries
  pub others :
      (a : ℕ) → a ≢ addr → resolve env.now a after.entries ≡ resolve env.now a (table d w).entries

pub new_entry_lem :
    (env : Env) (d : DeviceNo) (addr : ℕ) (hwaddr : Option (List ℕ))
    → let e = new_entry env d addr hwaddr in
      (e.addr ≡ addr) × (is_free e.flag ≡ false) × (e.sd.bufs ≡ []) × Learned env.now hwaddr e
unfolding new_entry
new_entry_lem env d addr none = (refl, refl, refl, ground arith)
new_entry_lem env d addr (some mac) = (refl, refl, refl, (refl, refl))

-- What a hit says of the entry.
pub IsHit_lem :
    (env : Env) (addr : ℕ) (hwaddr : Option (List ℕ)) (wake : Bool) (e' : Ip2mac)
    → IsHit env addr hwaddr wake e'
    → (e'.addr ≡ addr)
      × (is_free e'.flag ≡ false)
      × Learned env.now hwaddr e'
      × (wake ≡ woken hwaddr e')
unfolding visit_match
IsHit_lem env addr none wake e' (e, at, used, is) =
    (ground arith, ground arith, ground arith, ground arith)
IsHit_lem env addr (some mac) wake e' (e, at, used, is) =
    (ground arith, ground arith, (ground arith, ground arith), ground arith)

pub grown_lem :
    (env : Env) (used size : ℕ)
    → env.alloc_table ≡ true
    → (size' : ℕ) × (grown env used size ≡ ok size') × (used ≤ size → suc used ≤ size')
unfolding grown
grown_lem env used size alloc = elim (Bool-cases (leb size used)) [
  | inl full ↦ (if size == 0 then 1024 else size + 1024, ground arith, λ h. ground arith)
  | inr space ↦ (size, ground arith, λ h. ground arith)
]

pub found_returns :
    (env : Env) (d : DeviceNo) (addr : ℕ) (hwaddr : Option (List ℕ)) (size : ℕ) (wake : Bool)
    (i : ℕ) (es : List Ip2mac) (w : World)
    → settle env d addr hwaddr size (found wake i es) w
      ≡ ok (
        i,
        record (with_table d (record { entries = es; size = size }) w) {
          send_req = if wake then (append_send_req_data env d i w.send_req).1 else w.send_req;
        },
      )
unfolding settle request_sending
found_returns env dev0 addr hwaddr size true i es w = refl
found_returns env dev0 addr hwaddr size false i es w = refl
found_returns env dev1 addr hwaddr size true i es w = refl
found_returns env dev1 addr hwaddr size false i es w = refl

-- The world after a search that sends no request.
abbrev pub left_with : DeviceNo → List Ip2mac → ℕ → World → World
left_with d es size w = record (with_table d (record { entries = es; size = size }) w) {
  send_req = w.send_req;
}

pub slot_returns :
    (env : Env) (d : DeviceNo) (addr : ℕ) (hwaddr : Option (List ℕ)) (size k : ℕ) (es : List Ip2mac)
    (w : World)
    → settle env d addr hwaddr size (missed (some k) es) w
      ≡ ok (k, left_with d (set es k (new_entry env d addr hwaddr)) size w)
unfolding settle
slot_returns env dev0 addr hwaddr size k es w = refl
slot_returns env dev1 addr hwaddr size k es w = refl

pub behind_returns :
    (env : Env) (d : DeviceNo) (addr : ℕ) (hwaddr : Option (List ℕ)) (size size' : ℕ)
    (es : List Ip2mac) (w : World)
    → grown env (length es) size ≡ ok size'
    → settle env d addr hwaddr size (missed none es) w
      ≡ ok (length es, left_with d (es ++ (new_entry env d addr hwaddr ∷ [])) size' w)
unfolding settle
behind_returns env dev0 addr hwaddr size size' es w e = rw (e, settle)
behind_returns env dev1 addr hwaddr size size' es w e = rw (e, settle)

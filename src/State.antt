-- ===== src/State.antt =====
-- The invariant of the state that the functions of router/ share, and what `Ip2Mac` does to it.
pub mod Resolve
pub mod Others
pub mod Kept
use c_router.Base.{
  ℕ, ◌+◌, ◌≤◌, ◌<◌, ◌≡◌, ◌≢◌, refl, sym, subst, ◌∙◌, List, [], ◌∷◌, ◌++◌, Bool, true, false,
  Bool-cases, inl, inr, not, Option, none, some, ◌==◌, ◌&&◌, ◌||◌, if◌then◌else◌, Outcome, ok,
  fault, arith, length, get_elem?, set, All, length-set, lt_of_get_elem?,
}
use c_router.Device.{
  DeviceNo, dev0, dev1, Device, Config, Flag, flag_free, flag_ok, flag_ng, Ip2mac, Ip2macs, World,
  Env, table, with_table,
}
use c_router.Device.Cmd.{M, write}
use c_router.Device.Returns.{Returns}
use c_router.SendBuf.{is_nonempty}
use c_router.SendReq.{append_send_req_data}
use c_router.SendReq.Pending
use c_router.Ip2Mac.{is_free, is_ok, ip2mac_search, ip2mac, entry_at}
use c_router.Ip2Mac.Scan.{distinct}
use c_router.Ip2Mac.Entry.{IsEntry, IsMac, IsMac?}
use c_router.Ip2Mac.Search.{Searched, Learned, requests}
use c_router.Ip2Mac.Search.Cases.{ip2mac_search-Searched}

-- A table of one device: within its room, at most one entry in use for an address, right entries.
pub record IsTable (d : DeviceNo) (t : Ip2macs) : Type 0 where
  pub room : length t.entries ≤ t.size
  pub unique : distinct t.entries ≡ true
  pub sound : All (IsEntry d) t.entries

-- A request names an entry.
abbrev pub Names : World → DeviceNo × ℕ → Type 0
Names w (d, i) = i < length (table d w).entries

pub record IsWorld (w : World) : Type 0 where
  pub tables : (d : DeviceNo) → IsTable d (table d w)
  pub named : All (Names w) w.send_req
  pub once : Pending.distinct w.send_req ≡ true

-- The devices have MAC addresses.
pub record IsConfig (cfg : Config) : Type 0 where
  pub macs : (d : DeviceNo) → IsMac (cfg.device d).hwaddr

pub All-mono {ℓ κ λ'} :
    {A : Type ℓ} (P : A → Type κ) (Q : A → Type λ') (xs : List A)
    → ((a : A) → P a → Q a)
    → All P xs
    → All Q xs
All-mono P Q [] f h = tt
All-mono P Q (x ∷ xs) f h = (f x h.0, All-mono P Q xs f h.1)

-- One table and the requests written.
abbrev pub updated : DeviceNo → Ip2macs → List (DeviceNo × ℕ) → World → World
updated d t reqs w = record (with_table d t w) { send_req = reqs }

pub table_self :
    (d : DeviceNo) (t : Ip2macs) (reqs : List (DeviceNo × ℕ)) (w : World)
    → table d (updated d t reqs w) ≡ t
table_self dev0 t reqs w = refl
table_self dev1 t reqs w = refl

pub sent_updated :
    (d : DeviceNo) (t : Ip2macs) (reqs : List (DeviceNo × ℕ)) (w : World)
    → (updated d t reqs w).sent ≡ w.sent
sent_updated dev0 t reqs w = refl
sent_updated dev1 t reqs w = refl

updated-IsTable :
    (d : DeviceNo) (t : Ip2macs) (reqs : List (DeviceNo × ℕ)) (w : World)
    → ((e : DeviceNo) → IsTable e (table e w))
    → IsTable d t
    → (e : DeviceNo) → IsTable e (table e (updated d t reqs w))
updated-IsTable dev0 t reqs w h v dev0 = v
updated-IsTable dev0 t reqs w h v dev1 = h dev1
updated-IsTable dev1 t reqs w h v dev0 = h dev0
updated-IsTable dev1 t reqs w h v dev1 = v

-- A table that has not shrunk still has the entries that are named.
updated-Names :
    (d : DeviceNo) (t : Ip2macs) (reqs : List (DeviceNo × ℕ)) (w : World)
    → length (table d w).entries ≤ length t.entries
    → (r : DeviceNo × ℕ) → Names w r
    → Names (updated d t reqs w) r
updated-Names dev0 t reqs w h (dev0, i) v = omega arith
updated-Names dev0 t reqs w h (dev1, i) v = v
updated-Names dev1 t reqs w h (dev0, i) v = v
updated-Names dev1 t reqs w h (dev1, i) v = omega arith

pub updated-IsWorld :
    (d : DeviceNo) (t : Ip2macs) (reqs : List (DeviceNo × ℕ)) (w : World)
    → IsWorld w
    → IsTable d t
    → length (table d w).entries ≤ length t.entries
    → (All (Names (updated d t reqs w)) w.send_req → All (Names (updated d t reqs w)) reqs)
    → Pending.distinct reqs ≡ true
    → IsWorld (updated d t reqs w)
updated-IsWorld d t reqs w v is grows named once = record {
  tables = updated-IsTable d t reqs w v.tables is;
  named = named (
      All-mono (Names w) (Names (updated d t reqs w)) w.send_req (updated-Names d t reqs w grows)
        v.named);
  once = once;
}

-- The frames sent do not matter.
sent-Names :
    (w : World) (frames : List (ℕ × List ℕ)) (r : DeviceNo × ℕ)
    → Names w r
    → Names (record w { sent = frames }) r
sent-Names w frames (dev0, i) h = h
sent-Names w frames (dev1, i) h = h

sent-IsTable :
    (w : World) (frames : List (ℕ × List ℕ))
    → ((d : DeviceNo) → IsTable d (table d w))
    → (d : DeviceNo) → IsTable d (table d (record w { sent = frames }))
sent-IsTable w frames h dev0 = h dev0
sent-IsTable w frames h dev1 = h dev1

pub sent-IsWorld :
    (w : World) (frames : List (ℕ × List ℕ)) → IsWorld w → IsWorld (record w { sent = frames })
sent-IsWorld w frames v = record {
  tables = sent-IsTable w frames v.tables;
  named =
      All-mono (Names w) (Names (record w { sent = frames })) w.send_req (sent-Names w frames)
        v.named;
  once = v.once;
}

pub table-sent :
    (d : DeviceNo) (w : World) (frames : List (ℕ × List ℕ))
    → table d (record w { sent = frames }) ≡ table d w
table-sent dev0 w frames = refl
table-sent dev1 w frames = refl

-- What a search says of the entry that it returns, in the world that it leaves.
pub record Holds (env : Env) (d : DeviceNo) (addr : ℕ) (hwaddr : Option (List ℕ)) (i : ℕ)
    (w : World) : Type 0 where
  pub entry : Ip2mac
  pub here : get_elem? (table d w).entries i ≡ some entry
  pub for_addr : entry.addr ≡ addr
  pub in_use : is_free entry.flag ≡ false
  pub learned : Learned env.now hwaddr entry

requests-All :
    (P : DeviceNo × ℕ → Type 0) (env : Env) (d : DeviceNo) (hwaddr : Option (List ℕ)) (i : ℕ)
    (e : Ip2mac) (reqs : List (DeviceNo × ℕ))
    → All P reqs
    → P (d, i)
    → All P (requests env d hwaddr i e reqs)
requests-All P env d none i e reqs h p = h
requests-All P env d (some mac) i e reqs h p = elim (Bool-cases (is_nonempty e.sd.bufs)) [
  | inl waits ↦ rw waits (Pending.append_send_req_data-All P env d i reqs h p)
  | inr idle ↦ rw idle h
]

requests-distinct :
    (env : Env) (d : DeviceNo) (hwaddr : Option (List ℕ)) (i : ℕ) (e : Ip2mac)
    (reqs : List (DeviceNo × ℕ))
    → Pending.distinct reqs ≡ true
    → Pending.distinct (requests env d hwaddr i e reqs) ≡ true
requests-distinct env d none i e reqs h = h
requests-distinct env d (some mac) i e reqs h = elim (Bool-cases (is_nonempty e.sd.bufs)) [
  | inl waits ↦ rw waits (Pending.append_send_req_data-distinct env d i reqs h)
  | inr idle ↦ rw idle h
]

module _ (env : Env) (d : DeviceNo) (addr : ℕ) (hwaddr : Option (List ℕ)) (w : World) where
  search-IsWorld :
      IsWorld w
      → IsMac? hwaddr
      → {out : Outcome (ℕ × World)} → Searched env d addr hwaddr w out
      → Returns (λ i w'. IsWorld w' × Holds env d addr hwaddr i w' × (w'.sent ≡ w.sent)) out
  search-IsWorld v m s =
      let t = v.tables d in
      let after' = updated d s.after s.reqs w in
      let same = table_self d s.after s.reqs w in
      let is : IsTable d s.after = record {
        room = s.room t.room;
        unique = s.unique t.unique;
        sound = s.sound m t.sound;
      } in
      let here : get_elem? (table d after').entries s.index ≡ some s.entry = rw same s.here in
      let at : s.index < length (table d after').entries = lt_of_get_elem? _ _ here in
      rw s.returns (
        updated-IsWorld d s.after s.reqs w v is s.grows
            (λ named.
              subst (All (Names after')) (sym s.wakes)
                (requests-All (Names after') env d hwaddr s.index s.entry w.send_req named at))
            (rw s.wakes (requests-distinct env d hwaddr s.index s.entry w.send_req v.once)),
        record {
          entry = s.entry;
          here = here;
          for_addr = s.for_addr;
          in_use = s.in_use;
          learned = s.learned;
        },
        sent_updated d s.after s.reqs w,
      )

  -- From a right state, with a MAC address of 6 bytes or none, and where a table can be allocated,
  -- `Ip2MacSearch` returns an entry in use for the address, with the MAC address that was given,
  -- if any, and leaves a right state: at most one entry in use for an address, no more entries
  -- than the room allocated, right queues, and distinct requests that name entries. It sends
  -- nothing.
  pub ip2mac_search-IsWorld :
      IsWorld w
      → IsMac? hwaddr
      → env.alloc_table ≡ true
      → Returns
          (λ i w'. IsWorld w' × Holds env d addr hwaddr i w' × (w'.sent ≡ w.sent))
          (ip2mac_search env d addr hwaddr w)
  ip2mac_search-IsWorld v m alloc =
      search-IsWorld v m (ip2mac_search-Searched env d addr hwaddr w alloc)

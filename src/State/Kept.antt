-- ===== src/State/Kept.antt =====
-- What a call leaves alone that works at one entry: the requests and the other entries; and a state
-- without its first request.
use c_router.Base.{
  ℕ, ◌≡◌, refl, sym, ap, subst, ◌∙◌, List, ◌∷◌, Bool, true, false, ◌&&◌, ◌==◌, some, get_elem?, set,
  All, arith, get_elem?-set_other,
}
use c_router.Device.{DeviceNo, dev0, dev1, Ip2mac, World, table, with_table}
use c_router.Device.Returns.{Returns}
use c_router.SendReq.{same_dev}
use c_router.SendReq.Pending
use c_router.State.{IsTable, Names, IsWorld, All-mono}
use c_router.Router.{put_entry}

-- The request is for entry `i` of device `d`.
abbrev pub is_for : DeviceNo → ℕ → DeviceNo × ℕ → Bool
is_for d i (e, j) = same_dev e d && j == i

-- What stands at a request's index.
abbrev pub SameAt : DeviceNo × ℕ → World → World → Type 0
SameAt (d, i) w w' = get_elem? (table d w').entries i ≡ get_elem? (table d w).entries i

pub record Kept (d : DeviceNo) (i : ℕ) (w w' : World) : Type 0 where
  pub requests : w'.send_req ≡ w.send_req
  pub others : (r : DeviceNo × ℕ) → is_for d i r ≡ false → SameAt r w w'

pub Kept-refl : (d : DeviceNo) (i : ℕ) (w : World) → Kept d i w w
Kept-refl d i w = record { requests = refl; others = λ r h. refl }

pub SameAt-trans : (r : DeviceNo × ℕ) (u v w : World) → SameAt r u v → SameAt r v w → SameAt r u w
SameAt-trans (d, i) u v w h k = k ∙ h

pub Kept-trans : (d : DeviceNo) (i : ℕ) (u v w : World) → Kept d i u v → Kept d i v w → Kept d i u w
Kept-trans d i u v w h k = record {
  requests = k.requests ∙ h.requests;
  others = λ r out. SameAt-trans r u v w (h.others r out) (k.others r out);
}

-- The frames sent and the requests do not matter.
pub sent-Kept :
    (d : DeviceNo) (i : ℕ) (w : World) (frames : List (ℕ × List ℕ))
    → Kept d i w (record w { sent = frames })
sent-Kept d i w frames = record { requests = refl; others = at }
  where
    at : (r : DeviceNo × ℕ) → is_for d i r ≡ false → SameAt r w (record w { sent = frames })
    at (dev0, j) h = refl
    at (dev1, j) h = refl

pub popped-SameAt :
    (w : World) (reqs : List (DeviceNo × ℕ)) (r : DeviceNo × ℕ)
    → SameAt r w (record w { send_req = reqs })
popped-SameAt w reqs (dev0, i) = refl
popped-SameAt w reqs (dev1, i) = refl

-- The world after a write through the pointer to an entry.
abbrev written : DeviceNo → ℕ → Ip2mac → World → World
written d i e w = with_table d (record (table d w) { entries = set (table d w).entries i e }) w

written_others :
    (d : DeviceNo) (i : ℕ) (e : Ip2mac) (w : World) (r : DeviceNo × ℕ)
    → is_for d i r ≡ false
    → SameAt r w (written d i e w)
written_others dev0 i e w (dev0, j) h = get_elem?-set_other w.table0.entries i j e h
written_others dev0 i e w (dev1, j) h = refl
written_others dev1 i e w (dev0, j) h = refl
written_others dev1 i e w (dev1, j) h = get_elem?-set_other w.table1.entries i j e h

written_requests :
    (d : DeviceNo) (i : ℕ) (e : Ip2mac) (w : World) → (written d i e w).send_req ≡ w.send_req
written_requests dev0 i e w = refl
written_requests dev1 i e w = refl

pub put_entry-Kept :
    (d : DeviceNo) (i : ℕ) (e : Ip2mac) (w : World)
    → Returns (λ _ w'. Kept d i w w') (put_entry d i e w)
unfolding put_entry
put_entry-Kept d i e w = record {
  requests = written_requests d i e w;
  others = written_others d i e w;
}

popped-Names :
    (w : World) (reqs : List (DeviceNo × ℕ)) (r : DeviceNo × ℕ)
    → Names w r
    → Names (record w { send_req = reqs }) r
popped-Names w reqs (dev0, i) h = h
popped-Names w reqs (dev1, i) h = h

popped-IsTable :
    (w : World) (reqs : List (DeviceNo × ℕ))
    → ((d : DeviceNo) → IsTable d (table d w))
    → (d : DeviceNo) → IsTable d (table d (record w { send_req = reqs }))
popped-IsTable w reqs h dev0 = h dev0
popped-IsTable w reqs h dev1 = h dev1

tail_distinct :
    (r : DeviceNo × ℕ) (reqs : List (DeviceNo × ℕ))
    → Pending.distinct (r ∷ reqs) ≡ true
    → Pending.distinct reqs ≡ true
tail_distinct (d, i) reqs h = ground arith

-- A right state without its first request is right.
pub popped-IsWorld :
    (w : World) (r : DeviceNo × ℕ) (reqs : List (DeviceNo × ℕ))
    → w.send_req ≡ r ∷ reqs
    → IsWorld w
    → IsWorld (record w { send_req = reqs })
popped-IsWorld w r reqs e v = record {
  tables = popped-IsTable w reqs v.tables;
  named =
      let all : Names w r × All (Names w) reqs = subst (All (Names w)) e v.named in
      All-mono (Names w) (Names (record w { send_req = reqs })) reqs (popped-Names w reqs) all.1;
  once = tail_distinct r reqs (ap Pending.distinct (sym e) ∙ v.once);
}

pub popped-entry :
    (d : DeviceNo) (w : World) (reqs : List (DeviceNo × ℕ)) (i : ℕ) (e : Ip2mac)
    → get_elem? (table d w).entries i ≡ some e
    → get_elem? (table d (record w { send_req = reqs })).entries i ≡ some e
popped-entry dev0 w reqs i e h = h
popped-entry dev1 w reqs i e h = h

-- ===== src/State/Others.antt =====
-- What `Ip2MacSearch` leaves alone.
use c_router.Base.{ℕ, ◌≡◌, ◌≢◌, refl, ap, ◌∙◌, List, true, Option, Outcome}
use c_router.Device.{DeviceNo, dev0, dev1, other, Ip2macs, World, Env, table}
use c_router.Device.Returns.{Returns}
use c_router.Ip2Mac.{ip2mac_search}
use c_router.Ip2Mac.Cache.{resolve}
use c_router.Ip2Mac.Search.{Searched}
use c_router.Ip2Mac.Search.Cases.{ip2mac_search-Searched}
use c_router.State.{updated, table_self}

table-other :
    (d : DeviceNo) (t : Ip2macs) (reqs : List (DeviceNo × ℕ)) (w : World)
    → table (other d) (updated d t reqs w) ≡ table (other d) w
unfolding other
table-other dev0 t reqs w = refl
table-other dev1 t reqs w = refl

module _ (env : Env) (d : DeviceNo) (addr : ℕ) (hwaddr : Option (List ℕ)) (w : World) (a : ℕ) where
  -- For another address the same MAC address is known as before, or none as before; and the other table.
  abbrev pub Unchanged : ℕ → World → Type 0
  Unchanged i w' =
      (resolve env.now a (table d w').entries ≡ resolve env.now a (table d w).entries)
      × (table (other d) w' ≡ table (other d) w)

  unchanged :
      a ≢ addr
      → {out : Outcome (ℕ × World)} → Searched env d addr hwaddr w out
      → Returns Unchanged out
  unchanged ne s = rw s.returns (
    ap (λ (t : Ip2macs). resolve env.now a t.entries) (table_self d s.after s.reqs w)
        ∙ s.others a ne,
    table-other d s.after s.reqs w,
  )

  -- Where a table can be allocated, `Ip2MacSearch` for an address changes nothing for any other
  -- address: the MAC address known for it, that of an entry in `FLAG_OK` that is not too old, is
  -- the same before and after, and the table of the other device is untouched.
  pub ip2mac_search-Unchanged :
      env.alloc_table ≡ true → a ≢ addr → Returns Unchanged (ip2mac_search env d addr hwaddr w)
  ip2mac_search-Unchanged alloc ne = unchanged ne (ip2mac_search-Searched env d addr hwaddr w alloc)

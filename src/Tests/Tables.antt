-- ===== src/Tests/Tables.antt =====
-- The address table.
use c_router.Base.{◌≡◌, refl, none, some, arith}
use c_router.Device.{dev1}
use c_router.Device.Returns.{Returns}
use c_router.Ip2Mac.{ip2mac_search, ip2mac}
use c_router.State.{IsWorld, Holds, ip2mac_search-IsWorld}
use c_router.State.Others.{Unchanged, ip2mac_search-Unchanged}
use c_router.State.Resolve.{Resolved, ip2mac-Resolved}
use c_router.Tests.{
  config, working, mac, idle_entry, busy_entry, world_of, idle-IsWorld, busy-IsWorld,
}

ip2mac_search-IsWorld_example :
    let w = world_of busy_entry in
    Returns
      (λ i w'. IsWorld w' × Holds working dev1 33663168 (some (mac 4)) i w' × (w'.sent ≡ w.sent))
      (ip2mac_search working dev1 33663168 (some (mac 4)) w)
ip2mac_search-IsWorld_example =
    ip2mac_search-IsWorld working dev1 33663168 (some (mac 4)) (world_of busy_entry) busy-IsWorld
      (refl, omega arith) refl

ip2mac_search-Unchanged_example :
    let w = world_of idle_entry in
    Returns (Unchanged working dev1 5 none w 33663168) (ip2mac_search working dev1 5 none w)
ip2mac_search-Unchanged_example =
    ip2mac_search-Unchanged working dev1 5 none (world_of idle_entry) 33663168 refl (omega arith)

ip2mac-Resolved_example :
    let w = world_of idle_entry in
    Returns (Resolved config working dev1 5 none w) (ip2mac config working dev1 5 none w)
ip2mac-Resolved_example =
    ip2mac-Resolved config working dev1 5 none (world_of idle_entry) idle-IsWorld tt refl

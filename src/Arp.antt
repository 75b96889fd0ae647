-- ===== src/Arp.antt =====
-- `SendArpRequestB` of router/netutil.c.
use c_router.Base.{ℕ, List, [], ◌∷◌, ◌++◌, bytes4, replicate}
use c_router.Device.Cmd.{M, write}

-- The 14 bytes of an Ethernet header, its type in network order.
abbrev pub ether_header : List ℕ → List ℕ → ℕ → ℕ → List ℕ
ether_header dhost shost type_hi type_lo = dhost ++ (shost ++ (type_hi ∷ type_lo ∷ []))

-- The 28 bytes of `struct ether_arp`: hardware Ethernet, protocol IP, lengths 6 and 4, a request.
-- The union `lc` takes an address to its bytes in memory.
abbrev pub arp_request : List ℕ → ℕ → ℕ → List ℕ
arp_request my_mac my_ip target_ip =
    0
    ∷ 1
    ∷ 8
    ∷ 0
    ∷ 6
    ∷ 4
    ∷ 0
    ∷ 1
    ∷ (my_mac ++ (bytes4 my_ip ++ (replicate 6 0 ++ bytes4 target_ip)))

-- `arp_frame target_ip target_mac my_ip my_mac`
pub arp_frame : ℕ → List ℕ → ℕ → List ℕ → List ℕ
arp_frame target_ip target_mac my_ip my_mac =
    ether_header target_mac my_mac 8 6 ++ arp_request my_mac my_ip target_ip

unfoldable pub send_arp_request_b : ℕ → ℕ → List ℕ → ℕ → List ℕ → M (Unit {0})
send_arp_request_b soc target_ip target_mac my_ip my_mac =
    write soc (arp_frame target_ip target_mac my_ip my_mac)

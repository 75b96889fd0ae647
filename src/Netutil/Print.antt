-- ===== src/Netutil/Print.antt =====
-- Printing in router/netutil.c: `PrintEtherHeader`, and the texts of addresses.
use c_router.Base.{ℕ, List, [], ◌∷◌, Outcome, ok, ◌>>=◌, drop}
use c_router.Frame.{u16_net}
use c_router.Text.{codes, concat, hex_upper, my_ether_ntoa_r, ip_ip2str}
use c_router.Pcap.Print.{protocol_label}

pub print_ether_header : List ℕ → Outcome (List ℕ)
print_ether_header eh = do
  dhost ← my_ether_ntoa_r eh 80
  shost ← my_ether_ntoa_r (drop 6 eh) 80
  ether_type ← u16_net eh 12
  ok (
      concat (
        codes "-------------ether_header-------------\n"
        ∷ codes "ether_dhost="
        ∷ dhost
        ∷ codes "\n"
        ∷ codes "ether_shost="
        ∷ shost
        ∷ codes "\n"
        ∷ codes "ether_type="
        ∷ hex_upper ether_type
        ∷ codes "\n"
        ∷ protocol_label ether_type
        ∷ codes "----------ether_header(end)-----------\n"
        ∷ []))

-- `my_ether_ntoa_r`, `my_inet_ntoa_r` and `in_addr_t2str` of router/netutil.c.
pub ether_text : List ℕ → ℕ → Outcome (List ℕ)
ether_text hwaddr size = my_ether_ntoa_r hwaddr size

pub in_addr_t2str : ℕ → List ℕ → ℕ → List ℕ
in_addr_t2str addr buf size = ip_ip2str addr buf size

pub my_inet_ntoa_r : ℕ → List ℕ → ℕ → List ℕ
my_inet_ntoa_r addr buf size = ip_ip2str addr buf size

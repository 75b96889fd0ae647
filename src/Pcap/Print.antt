-- ===== src/Pcap/Print.antt =====
-- pcap/print.c, up to `PrintIp6Header`: the text that each function prints on `fp`. The memory behind its pointer is a list
-- of bytes; `inet_ntop` of an IPv6 address is a parameter.
pub mod Tables
pub mod Total
use Prim.Native.String.{String}
use c_router.Base.{
  ℕ, zero, suc, ◌+◌, ◌-◌, ◌*◌, ◌/◌, ◌%◌, ◌^◌, List, [], ◌∷◌, ◌++◌, Bool, true, false, ◌||◌, leb,
  ◌==◌, if◌then◌else◌, ℤ, pos_part, Outcome, ok, fault, ◌>>=◌, word, drop, load,
}
use c_router.Frame.{u8, u16_net, in_addr}
use c_router.Text.{
  codes, concat, dec, hex, hex_byte, hex_upper, entry, my_ether_ntoa_r, arp_ip2str, ip_ip2str,
}

-- A field that is printed without `ntohs`.
unfoldable pub u16_raw : List ℕ → ℕ → Outcome ℕ
u16_raw mem off = do lo ← u8 mem off; hi ← u8 mem (off + 1); ok (word lo hi)

abbrev pub ethertype_ipv6 : ℕ
ethertype_ipv6 = 0x86dd

pub protocol_label : ℕ → List ℕ
protocol_label ether_type =
    if ether_type == 0x0800
    then codes "(IP)\n"
    else if ether_type == ethertype_ipv6
    then codes "(IPv6)\n"
    else if ether_type == 0x0806
    then codes "(ARP)\n"
    else codes "(unknown)\n"

pub print_ether_header : List ℕ → Outcome (List ℕ)
print_ether_header eh = do
  dhost ← my_ether_ntoa_r eh 80
  shost ← my_ether_ntoa_r (drop 6 eh) 80
  ether_type ← u16_net eh 12
  ok (
      concat (
        codes "ether_header-----------------------\n"
        ∷ codes "ether_dhost="
        ∷ dhost
        ∷ codes "\n"
        ∷ codes "ether_shost="
        ∷ shost
        ∷ codes "\n"
        ∷ codes "ether_type="
        ∷ hex_upper ether_type
        ∷ codes "\n"
        ∷ protocol_label ether_type
        ∷ []))

abbrev pub hrd : List String
hrd =
    "From KA9Q: NET/ROM pseudo" ∷ "Ethernet 10/100Mbps." ∷ "Experimental Ethernet."
    ∷ "AX.25 Level 2" ∷ "PROnet token ring." ∷ "Chaosnet." ∷ "IEEE 802.2 Ethernet/TR/TB." ∷ "ARCnet"
    ∷ "APPLEtalk." ∷ "undefine" ∷ "undefine" ∷ "undefine" ∷ "undefine" ∷ "undefine" ∷ "undefine"
    ∷ "Frame Relay DLCI." ∷ "undefine" ∷ "undefine" ∷ "undefine" ∷ "ATM." ∷ "undefine" ∷ "undefine"
    ∷ "undefine" ∷ "Metricom STRIP (new IANA id)." ∷ []

abbrev pub op : List String
op =
    "undefine" ∷ "ARP request" ∷ "ARP reply" ∷ "RARP request" ∷ "RARP reply" ∷ "undefine"
    ∷ "undefine" ∷ "undefine" ∷ "InARP request" ∷ "InARP reply" ∷ "(ATM)ARP NAK." ∷ []

pub arp_protocol_label : ℕ → List ℕ
arp_protocol_label pro =
    if pro == 0x0800
    then codes "(IP)\n"
    else if pro == 0x0806
    then codes "(ARP)\n"
    else if pro == ethertype_ipv6
    then codes "(IPv6)\n"
    else codes "(unknown)\n"

-- `if (i <= last) … table[i] … else other`
pub label : List String → ℕ → String → ℕ → Outcome (List ℕ)
label table last other i = if leb i last then entry table i else ok (codes other)

pub print_arp : List ℕ → Outcome (List ℕ)
print_arp arp = do
  arp_hrd ← u16_net arp 0
  hrd_label ← label hrd 23 "undefined" arp_hrd
  arp_pro ← u16_net arp 2
  arp_hln ← u8 arp 4
  arp_pln ← u8 arp 5
  arp_op ← u16_net arp 6
  op_label ← label op 10 "undefine" arp_op
  arp_sha ← my_ether_ntoa_r (drop 8 arp) 80
  arp_spa ← arp_ip2str (drop 14 arp) 80
  arp_tha ← my_ether_ntoa_r (drop 18 arp) 80
  arp_tpa ← arp_ip2str (drop 24 arp) 80
  ok (
      concat (
        codes "arp--------------------------------\n"
        ∷ codes "arp_hrd="
        ∷ dec arp_hrd
        ∷ codes "\n"
        ∷ codes "("
        ∷ hrd_label
        ∷ codes "), "
        ∷ codes "arp_pro="
        ∷ dec arp_pro
        ∷ codes "\n"
        ∷ arp_protocol_label arp_pro
        ∷ codes "arp_hln="
        ∷ dec arp_hln
        ∷ codes "\n"
        ∷ codes "arp_pln="
        ∷ dec arp_pln
        ∷ codes "\n"
        ∷ codes "arp_op="
        ∷ dec arp_op
        ∷ codes "\n"
        ∷ codes "("
        ∷ op_label
        ∷ codes ")\n"
        ∷ codes "arp_sha"
        ∷ arp_sha
        ∷ codes "\n"
        ∷ codes "arp_spa"
        ∷ arp_spa
        ∷ codes "\n"
        ∷ codes "arp_tha"
        ∷ arp_tha
        ∷ codes "\n"
        ∷ codes "arp_tpa"
        ∷ arp_tpa
        ∷ codes "\n"
        ∷ []))

abbrev pub proto : List String
proto =
    "undifined" ∷ "ICMP" ∷ "IGMP" ∷ "undifined" ∷ "IPIP" ∷ "undifined" ∷ "TCP" ∷ "undifined" ∷ "EGP"
    ∷ "undifined" ∷ "undifined" ∷ "undifined" ∷ "PUP" ∷ "undifined" ∷ "undifined" ∷ "undifined"
    ∷ "undifined" ∷ "UDP" ∷ []

-- The loop over the options: `first` at `i == 0`.
pub print_option : Bool → ℕ → List ℕ → Outcome (List ℕ)
print_option first zero option = ok []
print_option first (suc n) [] = fault
print_option first (suc n) (b ∷ option) = do
  rest ← print_option false n option
  ok (if first then hex_byte b ++ rest else 58 ∷ (hex_byte b ++ rest))

-- `daddr` is printed from `iphdr->saddr`, as in the source.
pub print_ip_header : List ℕ → List ℕ → ℤ → Outcome (List ℕ)
print_ip_header iphdr option option_len = do
  version_ihl ← u8 iphdr 0
  tos ← u8 iphdr 1
  tot_len ← u16_net iphdr 2
  id ← u16_net iphdr 4
  frag_off ← u16_net iphdr 6
  ttl ← u8 iphdr 8
  protocol ← u8 iphdr 9
  protocol_name ← label proto 17 "undifined" protocol
  check ← u16_raw iphdr 10
  saddr ← in_addr iphdr 12
  option_text ← print_option true (pos_part option_len) option
  ok (
      concat (
        codes "ip---------------------------------\n"
        ∷ codes "version="
        ∷ dec (version_ihl / 16)
        ∷ codes ", "
        ∷ codes "ihl="
        ∷ dec (version_ihl % 16)
        ∷ codes ", "
        ∷ codes "tos="
        ∷ hex tos
        ∷ codes ", "
        ∷ codes "tot_len="
        ∷ dec tot_len
        ∷ codes ", "
        ∷ codes "id="
        ∷ dec id
        ∷ codes ", "
        ∷ codes "frag_off="
        ∷ hex (frag_off / 2 ^ 13)
        ∷ codes ", "
        ∷ dec (frag_off % 2 ^ 13)
        ∷ codes ", "
        ∷ codes "ttl="
        ∷ dec ttl
        ∷ codes ", "
        ∷ codes "protocol="
        ∷ dec protocol
        ∷ codes ", "
        ∷ codes "("
        ∷ protocol_name
        ∷ codes "), "
        ∷ codes "check="
        ∷ hex check
        ∷ codes "\n"
        ∷ codes "saddr="
        ∷ ip_ip2str saddr [] 80
        ∷ codes ", "
        ∷ codes "daddr="
        ∷ ip_ip2str saddr [] 80
        ∷ codes ", "
        ∷ (if pos_part option_len == 0 then [] else codes "option:" ++ option_text)
        ∷ []))

pub print_ip6_header : (List ℕ → List ℕ) → List ℕ → Outcome (List ℕ)
print_ip6_header inet_ntop ip6 = do
  ip6_flow ← in_addr ip6 0
  ip6_plen ← u16_net ip6 4
  ip6_nxt ← u8 ip6 6
  ip6_nxt_name ← label proto 17 "undifined" ip6_nxt
  ip6_hlim ← u8 ip6 7
  ip6_src ← load ip6 8 16
  ip6_dst ← load ip6 24 16
  ok (
      concat (
        codes "ip6--------------------------------\n"
        ∷ codes "ip6_flow="
        ∷ hex ip6_flow
        ∷ codes ", "
        ∷ codes "ip6_plen="
        ∷ dec ip6_plen
        ∷ codes ", "
        ∷ codes "ip6_nxt="
        ∷ dec ip6_nxt
        ∷ codes ", "
        ∷ codes "("
        ∷ ip6_nxt_name
        ∷ codes "), "
        ∷ codes "ip6_hlim="
        ∷ dec ip6_hlim
        ∷ codes ", "
        ∷ codes "ip6_src="
        ∷ inet_ntop ip6_src
        ∷ codes "\n"
        ∷ codes "ip6_dst="
        ∷ inet_ntop ip6_dst
        ∷ codes "\n"
        ∷ []))

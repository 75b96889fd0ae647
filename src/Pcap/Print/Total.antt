-- ===== src/Pcap/Print/Total.antt =====
-- The functions of pcap/print.c read nothing out of range of a structure that is there.
use c_router.Base.{
  ℕ, zero, suc, ◌+◌, ◌≤◌, ◌≡◌, ◌≢◌, refl, List, [], ◌∷◌, ◌++◌, Bool, true, false, ◌||◌, ◌==◌, ℤ,
  pos_part, inl, inr, Outcome, Outcome-cases, ok, fault, arith, length, drop, length-drop, byte_at,
  word, load-ok, if◌then◌else◌,
}
use c_router.Frame.{u8-ok}
use c_router.Router.Fields.{net16_at, u16_net-ok, in_addr-ok}
use c_router.Text.{hex_byte}
use c_router.Text.Addresses.{my_ether_ntoa_r-ok, arp_ip2str-ok}
use c_router.Pcap.Print.{
  u16_raw, hrd, op, proto, print_option, print_ether_header, print_arp, print_ip_header,
  print_ip6_header,
}
use c_router.Pcap.Messages.{print_icmp, print_icmp6, print_tcp, print_udp}
use c_router.Pcap.Print.Tables.{label-ok, print_echo-ok, print_icmp-fault}

-- A text was printed.
abbrev pub IsPrinted : Outcome (List ℕ) → Type 0
IsPrinted (ok text) = Unit
IsPrinted fault = ⊥

pub printed : (o : Outcome (List ℕ)) → IsPrinted o → (text : List ℕ) × (o ≡ ok text)
printed (ok text) h = (text, refl)
printed fault h = absurd h

pub u16_raw-ok :
    (mem : List ℕ) (off : ℕ)
    → off + 2 ≤ length mem
    → u16_raw mem off ≡ ok (word (byte_at mem off) (byte_at mem (off + 1)))
unfolding u16_raw
u16_raw-ok mem off h = rw (u8-ok mem off (omega arith), u8-ok mem (off + 1) (omega arith))

print_option-ok :
    (first : Bool) (n : ℕ) (option : List ℕ)
    → n ≤ length option
    → (text : List ℕ) × (print_option first n option ≡ ok text)
unfolding print_option
print_option-ok first zero option h = ([], refl)
print_option-ok first (suc n) [] h = absurd (omega arith)
print_option-ok first (suc n) (b ∷ option) h =
    let (rest, e) = print_option-ok false n option (omega arith) in
    (if first then hex_byte b ++ rest else 58 ∷ (hex_byte b ++ rest), rw e)

pub print_ether_header-IsPrinted :
    (eh : List ℕ) → 14 ≤ length eh → IsPrinted (print_ether_header eh)
unfolding print_ether_header
print_ether_header-IsPrinted eh h =
    let (dhost, e0) = my_ether_ntoa_r-ok eh 80 (omega arith) in
    let (shost, e1) = my_ether_ntoa_r-ok (drop 6 eh) 80 (omega (arith, length-drop {0} 6 eh)) in
    rw (e0, e1, u16_net-ok eh 12 (omega arith)) tt

pub print_arp-IsPrinted : (arp : List ℕ) → 28 ≤ length arp → IsPrinted (print_arp arp)
unfolding print_arp
print_arp-IsPrinted arp h =
    let (hrd_label, e0) = label-ok hrd 23 "undefined" (net16_at arp 0) (omega arith) in
    let (op_label, e1) = label-ok op 10 "undefine" (net16_at arp 6) (omega arith) in
    let (sha, e2) = my_ether_ntoa_r-ok (drop 8 arp) 80 (omega (arith, length-drop {0} 8 arp)) in
    let (spa, e3) = arp_ip2str-ok (drop 14 arp) 80 (omega (arith, length-drop {0} 14 arp)) in
    let (tha, e4) = my_ether_ntoa_r-ok (drop 18 arp) 80 (omega (arith, length-drop {0} 18 arp)) in
    let (tpa, e5) = arp_ip2str-ok (drop 24 arp) 80 (omega (arith, length-drop {0} 24 arp)) in
    rw
      (
        u16_net-ok arp 0 (omega arith),
        e0,
        u16_net-ok arp 2 (omega arith),
        u8-ok arp 4 (omega arith),
        u8-ok arp 5 (omega arith),
        u16_net-ok arp 6 (omega arith),
        e1,
        e2,
        e3,
        e4,
        e5,
      )
      tt

pub print_ip_header-IsPrinted :
    (iphdr option : List ℕ) (option_len : ℤ)
    → 20 ≤ length iphdr
    → pos_part option_len ≤ length option
    → IsPrinted (print_ip_header iphdr option option_len)
unfolding print_ip_header
print_ip_header-IsPrinted iphdr option option_len h fits =
    let (name, e0) = label-ok proto 17 "undifined" (byte_at iphdr 9) (omega arith) in
    let (text, e1) = print_option-ok true (pos_part option_len) option fits in
    rw
      (
        u8-ok iphdr 0 (omega arith),
        u8-ok iphdr 1 (omega arith),
        u16_net-ok iphdr 2 (omega arith),
        u16_net-ok iphdr 4 (omega arith),
        u16_net-ok iphdr 6 (omega arith),
        u8-ok iphdr 8 (omega arith),
        u8-ok iphdr 9 (omega arith),
        e0,
        u16_raw-ok iphdr 10 (omega arith),
        in_addr-ok iphdr 12 (omega arith),
        e1,
      )
      tt

pub print_ip6_header-IsPrinted :
    (inet_ntop : List ℕ → List ℕ) (ip6 : List ℕ)
    → 40 ≤ length ip6
    → IsPrinted (print_ip6_header inet_ntop ip6)
unfolding print_ip6_header
print_ip6_header-IsPrinted inet_ntop ip6 h =
    let (name, e0) = label-ok proto 17 "undifined" (byte_at ip6 6) (omega arith) in
    rw
      (
        in_addr-ok ip6 0 (omega arith),
        u16_net-ok ip6 4 (omega arith),
        u8-ok ip6 6 (omega arith),
        e0,
        u8-ok ip6 7 (omega arith),
        load-ok ip6 8 16 (omega arith),
        load-ok ip6 24 16 (omega arith),
      )
      tt

pub print_icmp-IsPrinted :
    (icmp : List ℕ) → 8 ≤ length icmp → byte_at icmp 0 ≢ 18 → IsPrinted (print_icmp icmp)
print_icmp-IsPrinted icmp h known = elim (Outcome-cases (print_icmp icmp)) [
  | inl out ↦ absurd (known ((print_icmp-fault icmp h).0 out))
  | inr (text, e) ↦ rw e tt
]

pub print_icmp6-IsPrinted : (icmp6 : List ℕ) → 8 ≤ length icmp6 → IsPrinted (print_icmp6 icmp6)
unfolding print_icmp6
print_icmp6-IsPrinted icmp6 h =
    let type = byte_at icmp6 0 in
    let (echo, e) = print_echo-ok (type == 128 || type == 129) "icmp6_id=" "icmp6_seq=" icmp6 h in
    rw
      (
        u8-ok icmp6 0 (omega arith),
        u8-ok icmp6 1 (omega arith),
        u16_net-ok icmp6 2 (omega arith),
        e,
      )
      tt

pub print_tcp-IsPrinted : (tcphdr : List ℕ) → 20 ≤ length tcphdr → IsPrinted (print_tcp tcphdr)
unfolding print_tcp
print_tcp-IsPrinted tcphdr h =
    rw
      (
        u16_net-ok tcphdr 0 (omega arith),
        u16_net-ok tcphdr 2 (omega arith),
        u16_net-ok tcphdr 4 (omega arith),
        u16_net-ok tcphdr 8 (omega arith),
        u8-ok tcphdr 12 (omega arith),
        u8-ok tcphdr 13 (omega arith),
        u16_net-ok tcphdr 14 (omega arith),
        u16_net-ok tcphdr 16 (omega arith),
        u16_net-ok tcphdr 18 (omega arith),
      )
      tt

pub print_udp-IsPrinted : (udphdr : List ℕ) → 8 ≤ length udphdr → IsPrinted (print_udp udphdr)
unfolding print_udp
print_udp-IsPrinted udphdr h =
    rw
      (
        u16_net-ok udphdr 0 (omega arith),
        u16_net-ok udphdr 2 (omega arith),
        u16_raw-ok udphdr 4 (omega arith),
        u16_net-ok udphdr 6 (omega arith),
      )
      tt

-- ===== src/Pcap/Analyze.antt =====
-- pcap/analyze.c: what each function returns, and the text that it prints on `stdout`. The memory
-- from a pointer on is a list of bytes. The messages on `stderr` are left out.
pub mod Payload
pub mod Datagram
pub mod Capture
pub mod Version6
use c_router.Base.{
  ℕ, zero, suc, ◌+◌, ◌-◌, ◌*◌, ◌%◌, List, [], ◌++◌, Bool, true, false, ◌||◌, not, ltb, ◌==◌,
  if◌then◌else◌, ℤ, pos, negsuc, pos_part, sub_ℕ, minus_one, Outcome, ok, fault, ◌>>=◌, drop,
}
use c_router.Frame.{
  sizeof_ether_header, sizeof_ether_arp, ethertype_ip, ethertype_arp, u8, u16_net, option_length,
}
use c_router.Checksum.{sizeof_iphdr, accepts}
use c_router.Router.{too_big}
use c_router.Pcap.Print.{
  u16_raw, ethertype_ipv6, print_ether_header, print_arp, print_ip_header, print_ip6_header,
}
use c_router.Pcap.Messages.{print_icmp, print_icmp6, print_tcp, print_udp}
use c_router.Pcap.Sums.{
  checksum, check_ip_checksum, check_ip_data_checksum, check_ip6_data_checksum,
}

-- The return code and the text.
abbrev pub Analysis : Type 0
Analysis = Outcome (ℤ × List ℕ)

-- `lest < sizeof(…)`: the comparison is unsigned, and a negative `lest` is not less.
abbrev pub less : ℤ → ℕ → Bool
less (pos lest) sizeof = ltb lest sizeof
less (negsuc lest) sizeof = false

-- `lest -= n`
abbrev pub minus : ℤ → ℕ → ℤ
minus (pos lest) n = sub_ℕ lest n
minus (negsuc lest) n = negsuc (lest + n)

-- Printing, then `return (0)`.
abbrev pub returns_zero : Outcome (List ℕ) → Analysis
returns_zero printing = do text ← printing; ok (pos 0, text)

pub analyze_arp : List ℕ → ℤ → Analysis
analyze_arp bytes size =
    if less size sizeof_ether_arp then ok (minus_one, []) else returns_zero (print_arp bytes)

-- The test on `lest` has no `return`, so it makes no difference.
pub analyze_icmp : List ℕ → ℤ → Analysis
analyze_icmp bytes size = returns_zero (print_icmp bytes)

pub analyze_icmp6 : List ℕ → ℤ → Analysis
analyze_icmp6 bytes size =
    if less size 8 then ok (minus_one, []) else returns_zero (print_icmp6 bytes)

pub analyze_tcp : List ℕ → ℤ → Analysis
analyze_tcp bytes size = if less size 20 then ok (minus_one, []) else returns_zero (print_tcp bytes)

pub analyze_udp : List ℕ → ℤ → Analysis
analyze_udp bytes size = if less size 8 then ok (minus_one, []) else returns_zero (print_udp bytes)

-- `bad … checksum`, or the payload, whose return code is not used.
pub verified : Outcome Bool → Analysis → Analysis
verified check analysis = do
  good ← check
  if not good then ok (minus_one, []) else do (code, text) ← analysis; ok (pos 0, text)

-- A text, then an analysis that prints more.
abbrev pub after : List ℕ → Analysis → Analysis
after text analysis = do (code, more) ← analysis; ok (code, text ++ more)

-- `sum != 0 && sum != 0xFFFF` of the ICMP message, negated.
pub check_icmp : List ℕ → ℤ → Outcome Bool
check_icmp ptr len = do sum ← checksum ptr len; ok (accepts sum)

-- `udphdr->check != 0 && checkIPchecksum(iphdr, ptr, len) == 0`, negated.
pub check_udp : List ℕ → List ℕ → ℤ → Outcome Bool
check_udp iphdr ptr len = do
  check ← u16_raw ptr 6
  if check == 0 then ok true else check_ip_checksum iphdr ptr len

-- The branches on `iphdr->protocol`.
pub analyze_payload : ℕ → List ℕ → List ℕ → ℤ → ℤ → Analysis
analyze_payload protocol iphdr ptr len lest =
    if protocol == 1
    then verified (check_icmp ptr len) (analyze_icmp ptr lest)
    else if protocol == 6
    then verified (check_ip_data_checksum iphdr ptr len) (analyze_tcp ptr lest)
    else if protocol == 17
    then verified (check_udp iphdr ptr len) (analyze_udp ptr lest)
    else ok (pos 0, [])

-- `option` is not read where there are no options.
pub analyze_ip : List ℕ → ℤ → Analysis
analyze_ip bytes size = if less size sizeof_iphdr then ok (minus_one, []) else do
  version_ihl ← u8 bytes 0
  let option_len = option_length version_ihl
  let option = drop sizeof_iphdr bytes
  let ptr = drop (pos_part option_len) option
  let lest = minus (minus size sizeof_iphdr) (pos_part option_len)
  if too_big option_len then ok (minus_one, []) else do
    good ← check_ip_checksum bytes option option_len
    if not good then ok (minus_one, []) else do
      text ← print_ip_header bytes option option_len
      protocol ← u8 bytes 9
      tot_len ← u16_net bytes 2
      after text (analyze_payload protocol bytes ptr (sub_ℕ tot_len (version_ihl % 16 * 4)) lest)

-- The branches on `ip6->ip6_nxt`.
pub analyze_payload6 : ℕ → List ℕ → List ℕ → ℕ → ℤ → Analysis
analyze_payload6 nxt ip6 ptr plen lest =
    let check = check_ip6_data_checksum ip6 ptr (pos plen) in
    if nxt == 58
    then verified check (analyze_icmp6 ptr lest)
    else if nxt == 6
    then verified check (analyze_tcp ptr lest)
    else if nxt == 17
    then verified check (analyze_udp ptr lest)
    else ok (pos 0, [])

pub analyze_ipv6 : (List ℕ → List ℕ) → List ℕ → ℤ → Analysis
analyze_ipv6 inet_ntop bytes size = if less size 40 then ok (minus_one, []) else do
  text ← print_ip6_header inet_ntop bytes
  nxt ← u8 bytes 6
  plen ← u16_net bytes 4
  after text (analyze_payload6 nxt bytes (drop 40 bytes) plen (minus size 40))

-- The ethernet header, then a protocol, whose return code is not used.
pub show_frame : List ℕ → Analysis → Analysis
show_frame eh analysis = do
  text ← print_ether_header eh
  (code, more) ← analysis
  ok (pos 0, text ++ more)

-- IPv6 goes to `AnalyzeIp`, as in the source.
pub analyze_packet : List ℕ → ℤ → Analysis
analyze_packet bytes size = if less size sizeof_ether_header then ok (minus_one, []) else do
  ether_type ← u16_net bytes 12
  let ptr = drop sizeof_ether_header bytes
  let lest = minus size sizeof_ether_header
  if ether_type == ethertype_arp
      then show_frame bytes (analyze_arp ptr lest)
      else if ether_type == ethertype_ip
      then show_frame bytes (analyze_ip ptr lest)
      else if ether_type == ethertype_ipv6
      then show_frame bytes (analyze_ip ptr lest)
      else ok (pos 0, [])

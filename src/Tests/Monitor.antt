-- ===== src/Tests/Monitor.antt =====
-- The packet monitor pcap/, and the texts of addresses.
use c_router.Base.{
  ℕ, ◌+◌, ◌%◌, ◌↔◌, true, ◌≤◌, ◌≡◌, refl, List, [], ◌∷◌, pos, pos_part, ok, arith, length-drop,
  drop, slice, replicate, All-drop, IsByte,
}
use c_router.Router.Fields.{IsBuffer}
use c_router.Checksum.Ones.{total}
use c_router.Pcap.Sums.Pseudo.{rfc793}
use c_router.Pcap.Analyze.{check_udp, analyze_packet}
use c_router.Pcap.Analyze.Datagram.{
  options_len, payload_len, IsDatagram, Analyzed, analyze_ip-Analyzed,
}
use c_router.Pcap.Analyze.Version6.{Analyzed6, analyze_ipv6-Analyzed6}
use c_router.Pcap.Analyze.Capture.{check_udp_iff, analyze_packet-returns}
use c_router.Tests.{live, buffer, buffer-IsBuffer}

abbrev iphdr : List ℕ
iphdr = slice live 14 20

-- A UDP datagram of 2 bytes, its checksum set.
abbrev datagram : List ℕ
datagram = 0 ∷ 53 ∷ 0 ∷ 53 ∷ 0 ∷ 10 ∷ 124 ∷ 25 ∷ 1 ∷ 2 ∷ []

check_udp_iff_example :
    (check_udp iphdr datagram (pos 10) ≡ ok true) ↔ (total (rfc793 iphdr 10) % 65535 ≡ 0)
check_udp_iff_example =
    check_udp_iff iphdr datagram 10 (omega arith) (omega arith) (omega arith) (omega arith)
      (omega arith) (λ e. absurd (omega (arith, e))) refl refl

in_buffer :
    (bytes : List ℕ)
    → IsBuffer bytes
    → pos_part (options_len (drop 14 bytes)) + pos_part (payload_len (drop 14 bytes)) ≤ 2000
    → IsDatagram (drop 14 bytes)
in_buffer bytes v fits = record {
  octets = All-drop IsByte 14 bytes v.octets;
  headers = omega (arith, v.size, length-drop {0} 14 bytes);
  fits = omega (arith, v.size, length-drop {0} 14 bytes, fits);
}

pub live-IsDatagram : IsDatagram (drop 14 (buffer live))
live-IsDatagram =
    in_buffer (buffer live) (buffer-IsBuffer live (omega arith) (omega arith)) (omega arith)

analyze_ip-Analyzed_example : Analyzed (drop 14 (buffer live)) 32
analyze_ip-Analyzed_example =
    analyze_ip-Analyzed (drop 14 (buffer live)) 32 (omega arith) live-IsDatagram

analyze_packet-returns_example :
    (text : List ℕ) × (analyze_packet (buffer live) (pos 46) ≡ ok (pos 0, text))
analyze_packet-returns_example = analyze_packet-returns (buffer live) 46 live-IsDatagram

-- An IPv6 packet with 20 bytes of TCP.
abbrev packet6 : List ℕ
packet6 = 96 ∷ 0 ∷ 0 ∷ 0 ∷ 0 ∷ 20 ∷ 6 ∷ 64 ∷ replicate 52 1

analyze_ipv6-Analyzed6_example : Analyzed6 (λ bytes. []) packet6 60
analyze_ipv6-Analyzed6_example =
    analyze_ipv6-Analyzed6 (λ bytes. []) packet6 60 (omega arith)
      (record { octets = omega arith; headers = omega arith; fits = omega arith })

-- ===== src/Pcap/Analyze/Capture.antt =====
-- `AnalyzePacket` of pcap/analyze.c on a frame, and the check of UDP.
use c_router.Base.{
  ℕ, ◌+◌, ◌-◌, ◌%◌, ◌/◌, ◌≤◌, ◌≡◌, ◌≢◌, ◌↔◌, refl, List, [], ◌∷◌, ◌++◌, Bool, Bool-cases, inl, inr,
  true, false, not, ◌&&◌, ◌||◌, ◌==◌, ltb, leb, leb→le, if◌then◌else◌, ℤ, pos, minus_one, ok, fault,
  arith, length, length-append, take, length-take, slice, length-slice, drop, length-drop, byte_at,
  IsBytes, word,
}
use c_router.Checksum.Ones.{total}
use c_router.Checksum.Split.{total-append}
use c_router.Router.Fields.{net16_at, u16_net-ok}
use c_router.Pcap.Print.{print_ether_header}
use c_router.Pcap.Print.Total.{printed, print_ether_header-IsPrinted}
use c_router.Pcap.Sums.Pseudo.{rfc793}
use c_router.Pcap.Analyze.{Analysis, show_frame, analyze_arp, analyze_ip, check_udp, analyze_packet}
use c_router.Pcap.Analyze.Payload.{check_udp-value, returned, analyze_arp-IsDone}
use c_router.Pcap.Analyze.Datagram.{
  header_good, payload_good, payload_past, IsDatagram, analyze_ip-Analyzed,
}

-- A UDP datagram that is valid by RFC 768, its checksum set, under an IP header of 20 bytes that
-- adds up to a multiple of 65535: it passes the test of `AnalyzeIp` exactly when its pseudo header
-- alone adds up to such a multiple, since the IP header is summed in place of the pseudo header.
pub check_udp_iff :
    (iphdr ptr : List ℕ) (len : ℕ)
    → 20 ≤ length iphdr
    → 8 ≤ length ptr
    → len ≤ length ptr
    → IsBytes iphdr
    → IsBytes ptr
    → word (byte_at ptr 6) (byte_at ptr 7) ≢ 0
    → total (take 20 iphdr) % 65535 ≡ 0
    → total (rfc793 iphdr len ++ take len ptr) % 65535 ≡ 0
    → (check_udp iphdr ptr (pos len) ≡ ok true) ↔ (total (rfc793 iphdr len) % 65535 ≡ 0)
check_udp_iff iphdr ptr len long header fits hb hp used good valid =
    rw
      (
        check_udp-value iphdr ptr (pos len) long header fits hb hp,
        total-append (take 20 iphdr) (take len ptr) (rw header_length refl),
      )
      (ground (arith, used, good, valid, split))
  where
    header_length : length (take 20 iphdr) ≡ 20
    header_length = omega (arith, length-take 20 iphdr)

    pseudo_length : length (rfc793 iphdr len) ≡ 12
    pseudo_length = omega (
      arith,
      length-append (slice iphdr 12 4)
          (slice iphdr 16 4 ++ (0 ∷ byte_at iphdr 9 ∷ (len / 256) ∷ (len % 256) ∷ [])),
      length-append (slice iphdr 16 4) (0 ∷ byte_at iphdr 9 ∷ (len / 256) ∷ (len % 256) ∷ []),
      length-slice iphdr 12 4 (omega arith),
      length-slice iphdr 16 4 (omega arith),
    )

    split :
        total (rfc793 iphdr len ++ take len ptr) ≡ total (rfc793 iphdr len) + total (take len ptr)
    split = total-append (rfc793 iphdr len) (take len ptr) (rw pseudo_length refl)

-- Where `AnalyzeIp` reads past the table of ICMP types.
abbrev pub ip_past : List ℕ → ℕ → Bool
ip_past bytes size =
    leb 20 size && (header_good bytes && (payload_good bytes && payload_past bytes))

-- Where `AnalyzePacket` does: IPv6 is taken for IP.
abbrev pub packet_past : List ℕ → ℕ → Bool
packet_past bytes size =
    leb 14 size
    && ((net16_at bytes 12 == 0x0800 || net16_at bytes 12 == 0x86dd)
        && ip_past (drop 14 bytes) (size - 14))

-- An analysis that reads out of range where `past` holds, and else returns.
abbrev Ends : Bool → Analysis → Type 0
Ends past analysis =
    (code : ℤ) × ((text : List ℕ) × (analysis ≡ (if past then fault else ok (code, text))))

analyze_ip-short :
    (bytes : List ℕ) (size : ℕ) → ltb size 20 ≡ true → Ends false (analyze_ip bytes (pos size))
unfolding analyze_ip
analyze_ip-short bytes size short = (minus_one, ([], rw short refl))

analyze_ip-Ends :
    (bytes : List ℕ) (size : ℕ)
    → IsDatagram bytes
    → Ends (ip_past bytes size) (analyze_ip bytes (pos size))
analyze_ip-Ends bytes size d = elim (Bool-cases (leb 20 size)) [
  | inr short ↦ rw short (analyze_ip-short bytes size (ground (arith, short)))
  | inl enough ↦
      let a = analyze_ip-Analyzed bytes size (leb→le 20 size enough) d in
      rw (enough, a.result)
        (by_tests (header_good bytes) (payload_good bytes) (payload_past bytes) a.header a.shown)
]
  where
    by_tests :
        (good right past : Bool) (header shown : List ℕ)
        → Ends (good && (right && past)) (
            if not good
            then ok (minus_one, [])
            else if not right
            then ok (minus_one, header)
            else if past
            then fault
            else ok (pos 0, header ++ shown))
    by_tests false right past header shown = (minus_one, ([], refl))
    by_tests true false past header shown = (minus_one, (header, refl))
    by_tests true true true header shown = (pos 0, ([], refl))
    by_tests true true false header shown = (pos 0, (header ++ shown, refl))

-- An analysis that returns 0, unless it reads out of range.
abbrev Prints : Bool → Analysis → Type 0
Prints past analysis = (text : List ℕ) × (analysis ≡ (if past then fault else ok (pos 0, text)))

by_type :
    (arp ip ip6 past : Bool) (x y : Analysis)
    → (arp ≡ true → (ip || ip6) ≡ false)
    → Prints false x
    → Prints past y
    → Prints
        ((ip || ip6) && past)
        (if arp then x else if ip then y else if ip6 then y else ok (pos 0, []))
by_type true true ip6 past x y apart h k = absurd (ground (arith, apart refl))
by_type true false true past x y apart h k = absurd (ground (arith, apart refl))
by_type true false false past x y apart h k = h
by_type false true ip6 past x y apart h k = k
by_type false false true past x y apart h k = k
by_type false false false past x y apart h k = ([], refl)

-- Of a frame in a buffer that holds what the frame's total length tells, `AnalyzePacket` reads
-- nothing out of range, but for an IP frame, or one of IPv6, whose header and payload pass as in
-- `AnalyzeIp` and whose payload is an ICMP message of type 18: there it reads past the table of the
-- names of the types. Else it returns -1 exactly where there is no whole ethernet header, whatever
-- the analysis of the protocol returns.
pub analyze_packet-returns :
    (bytes : List ℕ) (size : ℕ)
    → IsDatagram (drop 14 bytes)
    → (text : List ℕ) × (analyze_packet bytes (pos size) ≡ (
        if packet_past bytes size
        then fault
        else ok (if ltb size 14 then minus_one else pos 0, text)))
unfolding analyze_packet show_frame
analyze_packet-returns bytes size d = elim (Bool-cases (leb 14 size)) [
  | inr small ↦
      let short : ltb size 14 ≡ true = ground (arith, small) in ([], rw (small, short) refl)
  | inl enough ↦
      let long_enough : ltb size 14 ≡ false = ground (arith, enough) in
      rw (long_enough, enough, u16_net-ok bytes 12 (omega (arith, long)))
        (by_type (net16_at bytes 12 == 0x0806) (net16_at bytes 12 == 0x0800)
          (net16_at bytes 12 == 0x86dd) (ip_past (drop 14 bytes) (size - 14)) _ _ (apart _) arp ip)
]
  where
    long : 94 ≤ length bytes
    long = omega (arith, length-drop {0} 14 bytes, d.headers)

    apart : (n : ℕ) → (n == 0x0806) ≡ true → (n == 0x0800 || n == 0x86dd) ≡ false
    apart n is = ground (arith, is)

    shown_frame :
        (past : Bool) (analysis : Analysis)
        → Ends past analysis
        → Prints past (show_frame bytes analysis)
    shown_frame past analysis (code, (shown, e1)) =
        let (header, e0) =
          printed (print_ether_header bytes)
            (print_ether_header-IsPrinted bytes (omega (arith, long))) in
        elim (Bool-cases past) [
          | inl out ↦ ([], rw (e0, e1, out) refl)
          | inr within ↦ (header ++ shown, rw (e0, e1, within) refl)
        ]

    arp : Prints false (show_frame bytes (analyze_arp (drop 14 bytes) (pos (size - 14))))
    arp = shown_frame false (analyze_arp (drop 14 bytes) (pos (size - 14))) (
        returned (analyze_arp (drop 14 bytes) (pos (size - 14)))
          (analyze_arp-IsDone (drop 14 bytes) (pos (size - 14)) (omega (arith, d.headers))))

    ip :
        Prints
          (ip_past (drop 14 bytes) (size - 14))
          (show_frame bytes (analyze_ip (drop 14 bytes) (pos (size - 14))))
    ip =
        shown_frame (ip_past (drop 14 bytes) (size - 14))
          (analyze_ip (drop 14 bytes) (pos (size - 14)))
          (analyze_ip-Ends (drop 14 bytes) (size - 14) d)

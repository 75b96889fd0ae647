-- ===== src/Pcap/Analyze/Version6.antt =====
-- `AnalyzeIpv6` of pcap/analyze.c, on a packet that is in the buffer.
use c_router.Base.{
  ℕ, ◌+◌, ◌-◌, ◌%◌, ◌≤◌, ◌≡◌, refl, ap, ◌∙◌, List, [], ◌++◌, append-nil, Bool, Bool-cases, inl, inr,
  true, false, ◌||◌, not, ◌==◌, ltb, le→leb, if◌then◌else◌, ℤ, pos, minus_one, ok, arith, length,
  take, drop, length-drop, All-drop, IsByte, byte_at, IsBytes,
}
use c_router.Checksum.Ones.{total}
use c_router.Frame.{u8-ok}
use c_router.Router.Fields.{net16_at, u16_net-ok}
use c_router.Pcap.Print.{print_ip6_header}
use c_router.Pcap.Print.Total.{printed, print_ip6_header-IsPrinted}
use c_router.Pcap.Sums.{check_ip6_data_checksum}
use c_router.Pcap.Sums.Value.{pseudo6_at, check_ip6_data_checksum-value}
use c_router.Pcap.Sums.Pseudo.{rfc8200, total-rfc8200}
use c_router.Pcap.Analyze.{
  Analysis, verified, analyze_icmp6, analyze_tcp, analyze_udp, analyze_payload6, analyze_ipv6,
}
use c_router.Pcap.Analyze.Payload.{
  zero_sum, accepts-canon, IsDone, analyze_icmp6-IsDone, analyze_tcp-IsDone, analyze_udp-IsDone,
  returned,
}

abbrev pub payload6 : List ℕ → List ℕ
payload6 bytes = take (net16_at bytes 4) (drop 40 bytes)

-- ICMPv6, TCP and UDP pass by the sum with the pseudo header of RFC 8200; the others are not checked.
abbrev pub passes6 : List ℕ → Bool
passes6 bytes =
    let nxt = byte_at bytes 6 in
    not (nxt == 58 || nxt == 6 || nxt == 17) || zero_sum (rfc8200 bytes ++ payload6 bytes)

abbrev pub shows6 : ℕ → List ℕ → ℤ → Analysis
shows6 nxt ptr lest =
    if nxt == 58
    then analyze_icmp6 ptr lest
    else if nxt == 6
    then analyze_tcp ptr lest
    else if nxt == 17
    then analyze_udp ptr lest
    else ok (pos 0, [])

shows6-IsDone : (nxt : ℕ) (ptr : List ℕ) (lest : ℤ) → 20 ≤ length ptr → IsDone (shows6 nxt ptr lest)
shows6-IsDone nxt ptr lest long =
    choose (nxt == 58) _ _ (analyze_icmp6-IsDone ptr lest (omega arith)) (
      choose (nxt == 6) _ _ (analyze_tcp-IsDone ptr lest long)
        (choose (nxt == 17) _ _ (analyze_udp-IsDone ptr lest (omega arith)) tt))
  where
    choose : (test : Bool) (x y : Analysis) → IsDone x → IsDone y → IsDone (if test then x else y)
    choose true x y h k = h
    choose false x y h k = k

analyze_payload6-value :
    (nxt : ℕ) (ip6 ptr : List ℕ) (plen : ℕ) (lest : ℤ) (good : Bool)
    → check_ip6_data_checksum ip6 ptr (pos plen) ≡ ok good
    → analyze_payload6 nxt ip6 ptr plen lest
      ≡ verified (ok (not (nxt == 58 || nxt == 6 || nxt == 17) || good)) (shows6 nxt ptr lest)
unfolding analyze_payload6 verified
analyze_payload6-value nxt ip6 ptr plen lest good checked = elim (Bool-cases (nxt == 58)) [
  | inl icmp6 ↦ rw (icmp6, checked) refl
  | inr not_icmp6 ↦ elim (Bool-cases (nxt == 6)) [
    | inl tcp ↦ rw (not_icmp6, tcp, checked) refl
    | inr not_tcp ↦ elim (Bool-cases (nxt == 17)) [
      | inl udp ↦ rw (not_icmp6, not_tcp, udp, checked) refl
      | inr other ↦ rw (not_icmp6, not_tcp, other) refl
    ]
  ]
]

-- The buffer holds the header, what the payload length tells, and a header of TCP.
pub record IsPacket6 (bytes : List ℕ) : Type 0 where
  pub octets : IsBytes bytes
  pub headers : 60 ≤ length bytes
  pub fits : 40 + net16_at bytes 4 ≤ length bytes

-- What `AnalyzeIpv6` does with `size` bytes.
pub record Analyzed6 (inet_ntop : List ℕ → List ℕ) (bytes : List ℕ) (size : ℕ) : Type 0 where
  pub header : List ℕ
  pub shown : List ℕ
  pub code : ℤ
  pub header_printed : print_ip6_header inet_ntop bytes ≡ ok header
  pub payload_shown : shows6 (byte_at bytes 6) (drop 40 bytes) (pos (size - 40)) ≡ ok (code, shown)
  pub result :
      analyze_ipv6 inet_ntop bytes (pos size)
      ≡ ok (if passes6 bytes then (pos 0, header ++ shown) else (minus_one, header))

-- On an IPv6 packet that is in the buffer, `AnalyzeIpv6` reads nothing out of range and prints the
-- header. It returns -1 exactly where the next header is ICMPv6, TCP or UDP and the words of the
-- pseudo header of RFC 8200 and of the payload do not add up to a multiple of 65535; else it returns
-- 0 and prints the payload too.
pub analyze_ipv6-Analyzed6 :
    (inet_ntop : List ℕ → List ℕ) (bytes : List ℕ) (size : ℕ)
    → 40 ≤ size
    → IsPacket6 bytes
    → Analyzed6 inet_ntop bytes size
unfolding analyze_ipv6 verified
analyze_ipv6-Analyzed6 inet_ntop bytes size enough v =
    let (header, e0) =
      printed (print_ip6_header inet_ntop bytes)
        (print_ip6_header-IsPrinted inet_ntop bytes (omega (arith, v.headers))) in
    let (code, (shown, e1)) =
      returned (shows6 (byte_at bytes 6) (drop 40 bytes) (pos (size - 40))) (
        shows6-IsDone (byte_at bytes 6) (drop 40 bytes) (pos (size - 40))
          (omega (arith, length-drop {0} 40 bytes, v.headers))) in
    record {
      header = header;
      shown = shown;
      code = code;
      header_printed = e0;
      payload_shown = e1;
      result =
          rw
            (
              not_less,
              le→leb 40 size enough,
              e0,
              u8-ok bytes 6 (omega (arith, v.headers)),
              u16_net-ok bytes 4 (omega (arith, v.headers)),
              payload_value,
              e1,
            )
            (elim (Bool-cases (passes6 bytes)) [
              | inl right ↦ rw right refl
              | inr wrong ↦ rw wrong (ap (λ (h : List ℕ). ok (minus_one, h)) (append-nil header))
            ]);
    }
  where
    not_less : ltb size 40 ≡ false
    not_less = ground arith

    checked :
        check_ip6_data_checksum bytes (drop 40 bytes) (pos (net16_at bytes 4))
        ≡ ok (zero_sum (rfc8200 bytes ++ payload6 bytes))
    checked =
        check_ip6_data_checksum-value bytes (omega (arith, v.headers)) (drop 40 bytes)
          (net16_at bytes 4) (omega (arith, length-drop {0} 40 bytes, v.fits)) v.octets
          (All-drop IsByte 40 bytes v.octets)
        ∙ ap ok (accepts-canon (total (pseudo6_at bytes ++ payload6 bytes)))
        ∙ ap (λ (n : ℕ). ok (n % 65535 == 0))
            (total-rfc8200 bytes (drop 40 bytes) (net16_at bytes 4) (omega (arith, v.headers)))

    payload_value :
        analyze_payload6
          (byte_at bytes 6)
          bytes
          (drop 40 bytes)
          (net16_at bytes 4)
          (pos (size - 40))
        ≡ verified (ok (passes6 bytes)) (shows6 (byte_at bytes 6) (drop 40 bytes) (pos (size - 40)))
    payload_value =
        analyze_payload6-value (byte_at bytes 6) bytes (drop 40 bytes) (net16_at bytes 4)
          (pos (size - 40)) (zero_sum (rfc8200 bytes ++ payload6 bytes)) checked

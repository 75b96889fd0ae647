-- ===== src/Pcap/Analyze/Payload.antt =====
-- `AnalyzeIp` of pcap/analyze.c: the checksums that it asks for, and what it does with the payload.
use c_router.Base.{
  ℕ, ◌-◌, ◌%◌, ◌≤◌, ◌≡◌, ◌≢◌, refl, ap, ◌∙◌, List, [], ◌++◌, Bool, Bool-cases, inl, inr, true,
  false, ◌&&◌, ◌||◌, ◌==◌, if◌then◌else◌, ℤ, pos, pos_part, minus_one, Outcome, ok, fault, ==_iff,
  arith, length, take, All-take, IsByte, byte_at, IsBytes, word,
}
use c_router.Checksum.{accepts}
use c_router.Checksum.Ones.{total, canon, ones_sum-canon}
use c_router.Checksum.Header.{covered, covered-IsBytes, check_ip_checksum-value}
use c_router.Pcap.Print.Total.{
  IsPrinted, u16_raw-ok, print_arp-IsPrinted, print_icmp-IsPrinted, print_icmp6-IsPrinted,
  print_tcp-IsPrinted, print_udp-IsPrinted,
}
use c_router.Pcap.Messages.{print_icmp}
use c_router.Pcap.Print.Tables.{print_icmp-fault}
use c_router.Pcap.Sums.{check_ip_checksum, check_ip_data_checksum}
use c_router.Pcap.Sums.Value.{
  checksum-value, check_ip_checksum-router, pseudo_at, check_ip_data_checksum-value,
}
use c_router.Pcap.Analyze.{
  Analysis, less, returns_zero, analyze_arp, analyze_icmp, analyze_icmp6, analyze_tcp, analyze_udp,
  verified, check_icmp, check_udp, analyze_payload,
}

-- The words add up to a multiple of 65535: to 0 in ones' complement.
abbrev pub zero_sum : List ℕ → Bool
zero_sum bytes = total bytes % 65535 == 0

pub accepts-canon : (n : ℕ) → accepts (65535 - canon n) ≡ (n % 65535 == 0)
accepts-canon n = ground arith

pub check_ip_checksum-zero_sum :
    (iphdr option : List ℕ) (option_len : ℤ)
    → 20 ≤ length iphdr
    → pos_part option_len ≤ length option
    → IsBytes iphdr
    → IsBytes option
    → check_ip_checksum iphdr option option_len ≡ ok (zero_sum (covered iphdr option option_len))
check_ip_checksum-zero_sum iphdr option option_len long fits hb ho =
    rw
      (
        check_ip_checksum-router iphdr option option_len long fits hb ho,
        check_ip_checksum-value iphdr option option_len long fits hb ho,
        ones_sum-canon (covered iphdr option option_len)
            (covered-IsBytes iphdr option option_len hb ho),
        accepts-canon (total (covered iphdr option option_len)),
      )
      refl

-- Whether the payload passes: ICMP by its own sum, TCP with its pseudo header, UDP with the header
-- of the datagram, unless its checksum field is 0.
abbrev pub passes : ℕ → List ℕ → List ℕ → ℤ → Bool
passes protocol iphdr ptr len =
    if protocol == 1
    then zero_sum (take (pos_part len) ptr)
    else if protocol == 6
    then zero_sum (pseudo_at iphdr len ++ take (pos_part len) ptr)
    else if protocol == 17
    then word (byte_at ptr 6) (byte_at ptr 7) == 0 || zero_sum (covered iphdr ptr len)
    else true

-- What prints the payload.
abbrev pub shows : ℕ → List ℕ → ℤ → Analysis
shows protocol ptr lest =
    if protocol == 1
    then analyze_icmp ptr lest
    else if protocol == 6
    then analyze_tcp ptr lest
    else if protocol == 17
    then analyze_udp ptr lest
    else ok (pos 0, [])

module _ (iphdr ptr : List ℕ) (len : ℤ) (long : 20 ≤ length iphdr) (header : 8 ≤ length ptr)
    (fits : pos_part len ≤ length ptr) (hb : IsBytes iphdr) (hp : IsBytes ptr) where
  check_icmp-value : check_icmp ptr len ≡ ok (zero_sum (take (pos_part len) ptr))
  unfolding check_icmp
  check_icmp-value =
      rw
        (
          checksum-value ptr len fits hp,
          ones_sum-canon (take (pos_part len) ptr) (All-take IsByte (pos_part len) ptr hp),
          accepts-canon (total (take (pos_part len) ptr)),
        )
        refl

  pub check_udp-value :
      check_udp iphdr ptr len
      ≡ ok (word (byte_at ptr 6) (byte_at ptr 7) == 0 || zero_sum (covered iphdr ptr len))
  unfolding check_udp
  check_udp-value =
      rw (u16_raw-ok ptr 6 (omega arith), check_ip_checksum-zero_sum iphdr ptr len long fits hb hp)
        (by_field (word (byte_at ptr 6) (byte_at ptr 7) == 0))
    where
      by_field :
          (unset : Bool)
          → (if unset then ok true else ok (zero_sum (covered iphdr ptr len)))
            ≡ ok (unset || zero_sum (covered iphdr ptr len))
      by_field true = refl
      by_field false = refl

  -- The payload, on all protocols.
  pub analyze_payload-value :
      (protocol : ℕ) (lest : ℤ)
      → analyze_payload protocol iphdr ptr len lest
        ≡ verified (ok (passes protocol iphdr ptr len)) (shows protocol ptr lest)
  unfolding analyze_payload verified
  analyze_payload-value protocol lest = elim (Bool-cases (protocol == 1)) [
    | inl icmp ↦ rw (icmp, check_icmp-value) refl
    | inr not_icmp ↦ elim (Bool-cases (protocol == 6)) [
      | inl tcp ↦ rw (not_icmp, tcp, data_check) refl
      | inr not_tcp ↦ elim (Bool-cases (protocol == 17)) [
        | inl udp ↦ rw (not_icmp, not_tcp, udp, check_udp-value) refl
        | inr other ↦ rw (not_icmp, not_tcp, other) refl
      ]
    ]
  ]
    where
      data_check :
          check_ip_data_checksum iphdr ptr len
          ≡ ok (zero_sum (pseudo_at iphdr len ++ take (pos_part len) ptr))
      data_check =
          check_ip_data_checksum-value iphdr ptr len long fits hb hp
          ∙ ap ok (accepts-canon (total (pseudo_at iphdr len ++ take (pos_part len) ptr)))

-- An analysis that returns.
abbrev pub IsDone : Analysis → Type 0
IsDone (ok result) = Unit
IsDone fault = ⊥

pub returns_zero-IsDone : (o : Outcome (List ℕ)) → IsPrinted o → IsDone (returns_zero o)
returns_zero-IsDone (ok text) h = tt
returns_zero-IsDone fault h = absurd h

guarded-IsDone :
    (short : Bool) (analysis : Analysis)
    → IsDone analysis
    → IsDone (if short then ok (minus_one, []) else analysis)
guarded-IsDone true analysis h = tt
guarded-IsDone false analysis h = h

pub analyze_arp-IsDone : (ptr : List ℕ) (lest : ℤ) → 28 ≤ length ptr → IsDone (analyze_arp ptr lest)
unfolding analyze_arp
analyze_arp-IsDone ptr lest long =
    guarded-IsDone (less lest 28) _ (returns_zero-IsDone _ (print_arp-IsPrinted ptr long))

pub analyze_icmp6-IsDone :
    (ptr : List ℕ) (lest : ℤ) → 8 ≤ length ptr → IsDone (analyze_icmp6 ptr lest)
unfolding analyze_icmp6
analyze_icmp6-IsDone ptr lest long =
    guarded-IsDone (less lest 8) _ (returns_zero-IsDone _ (print_icmp6-IsPrinted ptr long))

pub analyze_tcp-IsDone : (ptr : List ℕ) (lest : ℤ) → 20 ≤ length ptr → IsDone (analyze_tcp ptr lest)
unfolding analyze_tcp
analyze_tcp-IsDone ptr lest long =
    guarded-IsDone (less lest 20) _ (returns_zero-IsDone _ (print_tcp-IsPrinted ptr long))

pub analyze_udp-IsDone : (ptr : List ℕ) (lest : ℤ) → 8 ≤ length ptr → IsDone (analyze_udp ptr lest)
unfolding analyze_udp
analyze_udp-IsDone ptr lest long =
    guarded-IsDone (less lest 8) _ (returns_zero-IsDone _ (print_udp-IsPrinted ptr long))

shows-IsDone :
    (protocol : ℕ) (ptr : List ℕ) (lest : ℤ)
    → 20 ≤ length ptr
    → (protocol ≡ 1 → byte_at ptr 0 ≢ 18)
    → IsDone (shows protocol ptr lest)
unfolding analyze_icmp
shows-IsDone protocol ptr lest long known = elim (Bool-cases (protocol == 1)) [
  | inl icmp ↦ rw icmp (
      returns_zero-IsDone _
        (print_icmp-IsPrinted ptr (omega arith) (known ((==_iff protocol 1).0 icmp))))
  | inr not_icmp ↦ elim (Bool-cases (protocol == 6)) [
    | inl tcp ↦ rw (not_icmp, tcp) (analyze_tcp-IsDone ptr lest long)
    | inr not_tcp ↦ elim (Bool-cases (protocol == 17)) [
      | inl udp ↦ rw (not_icmp, not_tcp, udp) (analyze_udp-IsDone ptr lest (omega arith))
      | inr other ↦ rw (not_icmp, not_tcp, other) tt
    ]
  ]
]

-- An ICMP message of type 18, whose name is not in the table of `PrintIcmp`.
abbrev pub past_table : ℕ → List ℕ → Bool
past_table protocol ptr = protocol == 1 && byte_at ptr 0 == 18

pub returned : (a : Analysis) → IsDone a → (code : ℤ) × ((shown : List ℕ) × (a ≡ ok (code, shown)))
returned (ok (code, shown)) h = (code, (shown, refl))
returned fault h = absurd h

shows_past : (ptr : List ℕ) (lest : ℤ) → print_icmp ptr ≡ fault → shows 1 ptr lest ≡ fault
unfolding analyze_icmp
shows_past ptr lest e = rw e refl

-- The payload is printed, but that the name of an ICMP type 18 is read out of range.
pub shows-value :
    (protocol : ℕ) (ptr : List ℕ) (lest : ℤ)
    → 20 ≤ length ptr
    → (code : ℤ) × ((shown : List ℕ) × (shows protocol ptr lest
          ≡ (if past_table protocol ptr then fault else ok (code, shown))))
shows-value protocol ptr lest long = elim (Bool-cases (past_table protocol ptr)) [
  | inl past ↦
      let icmp : protocol ≡ 1 = ground (arith, past) in
      let type : byte_at ptr 0 ≡ 18 = ground (arith, past) in
      (
        pos 0,
        (
          [],
          rw past (
              ap (λ (n : ℕ). shows n ptr lest) icmp
              ∙ shows_past ptr lest ((print_icmp-fault ptr (omega arith)).1 type)),
        ),
      )
  | inr known ↦
      let (code, (shown, e)) = returned (shows protocol ptr lest) (
        shows-IsDone protocol ptr lest long
          (λ icmp type. absurd (ground (arith, known, icmp, type)))) in
      (code, (shown, rw known e))
]

-- ===== src/Pcap/Analyze/Datagram.antt =====
-- `AnalyzeIp` of pcap/analyze.c, on a datagram that is in the buffer.
use c_router.Base.{
  ℕ, ◌+◌, ◌-◌, ◌*◌, ◌%◌, ◌≤◌, ◌≡◌, refl, ap, List, [], ◌++◌, append-nil, Bool, Bool-cases, inl, inr,
  false, not, ltb, le→leb, if◌then◌else◌, ℤ, pos, pos_part, sub_ℕ, minus_one, ok, fault, arith,
  length, drop, length-drop, All-drop, IsByte, byte_at, IsBytes,
}
use c_router.Checksum.Header.{covered}
use c_router.Frame.{option_length, u8-ok}
use c_router.Router.Fields.{net16_at, u16_net-ok, option_length-le, too_big-option_length}
use c_router.Pcap.Print.{print_ip_header}
use c_router.Pcap.Print.Total.{printed, print_ip_header-IsPrinted}
use c_router.Pcap.Analyze.{minus, verified, analyze_payload, analyze_ip}
use c_router.Pcap.Analyze.Payload.{
  zero_sum, check_ip_checksum-zero_sum, passes, shows, analyze_payload-value, past_table,
  shows-value,
}

abbrev pub options_len : List ℕ → ℤ
options_len bytes = option_length (byte_at bytes 0)

abbrev pub payload : List ℕ → List ℕ
payload bytes = drop (pos_part (options_len bytes)) (drop 20 bytes)

-- The total length less the length of the header, which can be negative.
abbrev pub payload_len : List ℕ → ℤ
payload_len bytes = sub_ℕ (net16_at bytes 2) (byte_at bytes 0 % 16 * 4)

-- What is left of the `size` bytes.
abbrev pub payload_lest : List ℕ → ℕ → ℤ
payload_lest bytes size = minus (pos (size - 20)) (pos_part (options_len bytes))

-- The buffer holds the longest header and what the total length tells.
pub record IsDatagram (bytes : List ℕ) : Type 0 where
  pub octets : IsBytes bytes
  pub headers : 80 ≤ length bytes
  pub fits : 20 + pos_part (options_len bytes) + pos_part (payload_len bytes) ≤ length bytes

abbrev pub header_good : List ℕ → Bool
header_good bytes = zero_sum (covered bytes (drop 20 bytes) (options_len bytes))

abbrev pub payload_good : List ℕ → Bool
payload_good bytes = passes (byte_at bytes 9) bytes (payload bytes) (payload_len bytes)

-- An ICMP message of type 18.
abbrev pub payload_past : List ℕ → Bool
payload_past bytes = past_table (byte_at bytes 9) (payload bytes)

-- What `AnalyzeIp` does with `size` bytes.
pub record Analyzed (bytes : List ℕ) (size : ℕ) : Type 0 where
  pub header : List ℕ
  pub shown : List ℕ
  pub code : ℤ
  pub header_printed : print_ip_header bytes (drop 20 bytes) (options_len bytes) ≡ ok header
  pub payload_shown :
      shows (byte_at bytes 9) (payload bytes) (payload_lest bytes size)
      ≡ (if payload_past bytes then fault else ok (code, shown))
  pub result : analyze_ip bytes (pos size) ≡ (
      if not (header_good bytes)
      then ok (minus_one, [])
      else if not (payload_good bytes)
      then ok (minus_one, header)
      else if payload_past bytes
      then fault
      else ok (pos 0, header ++ shown))

-- On a datagram that is in the buffer, `AnalyzeIp` reads nothing out of range, but where the header
-- and the payload pass and the payload is an ICMP message of type 18: there it reads past the table
-- of the names of the types. It returns -1 and prints nothing where the header does not sum to 0 in
-- ones' complement; it prints the header and returns -1 where the payload does not pass; and else
-- it returns 0 and prints the header, then the payload. ICMP passes by its own sum, TCP with that of
-- its pseudo header, UDP if its checksum field is 0 or with the IP header summed in place of the
-- pseudo header, each to 0; a payload of another protocol passes and prints nothing.
pub analyze_ip-Analyzed :
    (bytes : List ℕ) (size : ℕ) → 20 ≤ size → IsDatagram bytes → Analyzed bytes size
unfolding analyze_ip verified
analyze_ip-Analyzed bytes size enough d =
    let (header, e0) =
      printed (print_ip_header bytes (drop 20 bytes) (options_len bytes))
        (print_ip_header-IsPrinted bytes (drop 20 bytes) (options_len bytes) long opt_fits) in
    let (code, (shown, e1)) =
      shows-value (byte_at bytes 9) (payload bytes) (payload_lest bytes size) room in
    record {
      header = header;
      shown = shown;
      code = code;
      header_printed = e0;
      payload_shown = e1;
      result =
          rw
            (
              not_less,
              le→leb 20 size enough,
              u8-ok bytes 0 (omega arith),
              too_big-option_length (byte_at bytes 0),
              check_ip_checksum-zero_sum bytes (drop 20 bytes) (options_len bytes) long opt_fits
                  d.octets (All-drop IsByte 20 bytes d.octets),
              e0,
              u8-ok bytes 9 (omega arith),
              u16_net-ok bytes 2 (omega arith),
              payload_value,
              e1,
            )
            (elim (Bool-cases (header_good bytes)) [
              | inr bad ↦ rw bad refl
              | inl good ↦ elim (Bool-cases (payload_good bytes)) [
                | inr wrong ↦
                    rw (good, wrong) (ap (λ (h : List ℕ). ok (minus_one, h)) (append-nil header))
                | inl right ↦ elim (Bool-cases (payload_past bytes)) [
                  | inl past ↦ rw (good, right, past) refl
                  | inr known ↦ rw (good, right, known) refl
                ]
              ]
            ]);
    }
  where
    not_less : ltb size 20 ≡ false
    not_less = ground arith

    long : 20 ≤ length bytes
    long = omega (arith, d.headers)

    rest_length : length (drop 20 bytes) + 20 ≡ length bytes
    rest_length = omega (arith, length-drop {0} 20 bytes, d.headers)

    opt_fits : pos_part (options_len bytes) ≤ length (drop 20 bytes)
    opt_fits = omega (arith, d.fits, rest_length)

    payload_length : length (payload bytes) + pos_part (options_len bytes) ≡ length (drop 20 bytes)
    payload_length =
        omega (arith, length-drop {0} (pos_part (options_len bytes)) (drop 20 bytes), opt_fits)

    room : 20 ≤ length (payload bytes)
    room = omega (arith, payload_length, rest_length, d.headers, option_length-le (byte_at bytes 0))

    payload_fits : pos_part (payload_len bytes) ≤ length (payload bytes)
    payload_fits = omega (arith, payload_length, rest_length, d.fits)

    payload_value :
        analyze_payload
          (byte_at bytes 9)
          bytes
          (payload bytes)
          (payload_len bytes)
          (payload_lest bytes size)
        ≡ verified
            (ok (payload_good bytes))
            (shows (byte_at bytes 9) (payload bytes) (payload_lest bytes size))
    payload_value =
        analyze_payload-value bytes (payload bytes) (payload_len bytes) long (omega (arith, room))
          payload_fits d.octets
          (All-drop IsByte (pos_part (options_len bytes)) (drop 20 bytes)
            (All-drop IsByte 20 bytes d.octets))
          (byte_at bytes 9) (payload_lest bytes size)

-- ===== src/Pcap/Sums/Value.antt =====
-- What the checks of pcap/checksum.c return on memory that is there.
use c_router.Base.{
  ℕ, zero, suc, ◌-◌, ◌%◌, ◌≤◌, ◌≡◌, refl, ap, ◌∙◌, List, [], ◌∷◌, ◌++◌, append-nil, ℤ, pos, negsuc,
  pos_part, replicate, ok, arith, length, length-append, take, drop, take_of_length_le, load-ok,
  slice, length-slice, byte_at, IsBytes, IsByte, All-take, All-drop, All-append,
}
use c_router.Checksum.{accepts, check_ip_checksum as router_check}
use c_router.Checksum.Ones.{ones_sum, total, canon, ones_sum-canon, checksum-ones_sum}
use c_router.Checksum.Split.{checksum2-ones_sum}
use c_router.Checksum.Header.{check_ip_checksum-value}
use c_router.Frame.{u8-ok}
use c_router.Pcap.Sums.{
  checksum, checksum2, check_ip_checksum, net16, pseudo_ip, check_ip_data_checksum, pseudo_ip6_hdr,
  check_ip6_data_checksum,
}

-- On a header and options that are there, `checkIPchecksum` of pcap/ is that of router/, which sums a copy.
pub check_ip_checksum-router :
    (iphdr option : List ℕ) (option_len : ℤ)
    → 20 ≤ length iphdr
    → pos_part option_len ≤ length option
    → IsBytes iphdr
    → IsBytes option
    → check_ip_checksum iphdr option option_len ≡ router_check iphdr option option_len
unfolding check_ip_checksum checksum checksum2
check_ip_checksum-router iphdr option (pos zero) long opt_long hb ho = rw (
  checksum-ones_sum iphdr 20 long hb,
  check_ip_checksum-value iphdr option (pos 0) long opt_long hb ho,
  append-nil (take 20 iphdr),
)
check_ip_checksum-router iphdr option (pos (suc n)) long opt_long hb ho = rw (
  checksum2-ones_sum iphdr 20 option (pos (suc n)) refl long opt_long hb ho,
  check_ip_checksum-value iphdr option (pos (suc n)) long opt_long hb ho,
)
check_ip_checksum-router iphdr option (negsuc n) long opt_long hb ho = rw (
  checksum2-ones_sum iphdr 20 option (negsuc n) refl long opt_long hb ho,
  check_ip_checksum-value iphdr option (negsuc n) long opt_long hb ho,
)

-- A negative length counts as 0.
pub checksum-value :
    (bytes : List ℕ) (len : ℤ)
    → pos_part len ≤ length bytes
    → IsBytes bytes
    → checksum bytes len ≡ ok (65535 - ones_sum (take (pos_part len) bytes))
unfolding checksum
checksum-value bytes len fits hb = checksum-ones_sum bytes (pos_part len) fits hb

pub byte_at-IsByte : (mem : List ℕ) (i : ℕ) → IsBytes mem → IsByte (byte_at mem i)
byte_at-IsByte [] i h = omega arith
byte_at-IsByte (x ∷ mem) zero h = h.0
byte_at-IsByte (x ∷ mem) (suc i) h = byte_at-IsByte mem i h.1

pub slice-IsBytes : (mem : List ℕ) (s n : ℕ) → IsBytes mem → IsBytes (slice mem s n)
slice-IsBytes mem s n h = All-take IsByte n (drop s mem) (All-drop IsByte s mem h)

-- The sum of a pseudo header and the data after it.
sum_value :
    (pseudo bytes : List ℕ) (n : ℕ) (len : ℤ)
    → n % 2 ≡ 0
    → length pseudo ≡ n
    → pos_part len ≤ length bytes
    → IsBytes pseudo
    → IsBytes bytes
    → checksum2 pseudo n bytes len
      ≡ ok (65535 - canon (total (pseudo ++ take (pos_part len) bytes)))
unfolding checksum2
sum_value pseudo bytes n len even size fits hp hb =
    checksum2-ones_sum pseudo n bytes len even (omega (arith, size)) fits hp hb
    ∙ ap (λ h. ok (65535 - ones_sum (h ++ take (pos_part len) bytes)))
        (take_of_length_le n pseudo (omega (arith, size)))
    ∙ ap (λ (k : ℕ). ok (65535 - k))
        (ones_sum-canon (pseudo ++ take (pos_part len) bytes) (
          All-append IsByte pseudo (take (pos_part len) bytes) hp
            (All-take IsByte (pos_part len) bytes hb)))

-- The pseudo header that `checkIPDATAchecksum` builds.
abbrev pub pseudo_at : List ℕ → ℤ → List ℕ
pseudo_at iphdr len = pseudo_ip (slice iphdr 12 4) (slice iphdr 16 4) (byte_at iphdr 9) len

length-pseudo_at :
    (iphdr : List ℕ) (len : ℤ) → 20 ≤ length iphdr → length (pseudo_at iphdr len) ≡ 12
length-pseudo_at iphdr len long = omega (
  arith,
  length-append (slice iphdr 12 4) (slice iphdr 16 4 ++ (0 ∷ byte_at iphdr 9 ∷ net16 len)),
  length-append (slice iphdr 16 4) (0 ∷ byte_at iphdr 9 ∷ net16 len),
  length-slice iphdr 12 4 (omega arith),
  length-slice iphdr 16 4 (omega arith),
  length-net16 len,
)
  where
    length-net16 : (n : ℤ) → length (net16 n) ≡ 2
    length-net16 (pos n) = refl
    length-net16 (negsuc n) = refl

pseudo_at-IsBytes : (iphdr : List ℕ) (len : ℤ) → IsBytes iphdr → IsBytes (pseudo_at iphdr len)
pseudo_at-IsBytes iphdr len hb =
    All-append IsByte (slice iphdr 12 4) _ (slice-IsBytes iphdr 12 4 hb) (
      All-append IsByte (slice iphdr 16 4) _ (slice-IsBytes iphdr 16 4 hb)
        (omega arith, (byte_at-IsByte iphdr 9 hb, net16-IsBytes len)))
  where
    net16-IsBytes : (n : ℤ) → IsBytes (net16 n)
    net16-IsBytes (pos n) = (omega arith, (omega arith, tt))
    net16-IsBytes (negsuc n) = (omega arith, (omega arith, tt))

-- A negative length counts as 0.
pub check_ip_data_checksum-value :
    (iphdr bytes : List ℕ) (len : ℤ)
    → 20 ≤ length iphdr
    → pos_part len ≤ length bytes
    → IsBytes iphdr
    → IsBytes bytes
    → check_ip_data_checksum iphdr bytes len
      ≡ ok (accepts (65535 - canon (total (pseudo_at iphdr len ++ take (pos_part len) bytes))))
unfolding check_ip_data_checksum
check_ip_data_checksum-value iphdr bytes len long fits hb hd =
    rw
      (
        load-ok iphdr 12 4 (omega arith),
        load-ok iphdr 16 4 (omega arith),
        u8-ok iphdr 9 (omega arith),
        sum_value (pseudo_at iphdr len) bytes 12 len refl (length-pseudo_at iphdr len long) fits
            (pseudo_at-IsBytes iphdr len hb) hd,
      )
      refl

-- The pseudo header that `checkIP6DATAchecksum` builds.
abbrev pub pseudo6_at : List ℕ → List ℕ
pseudo6_at ip = pseudo_ip6_hdr (slice ip 8 16) (slice ip 24 16) (slice ip 4 2) (byte_at ip 6)

module _ (ip : List ℕ) (long : 40 ≤ length ip) where
  abbrev pad : List ℕ
  pad = replicate 9 0 ++ (byte_at ip 6 ∷ replicate 4 0)

  length-pseudo6_at : length (pseudo6_at ip) ≡ 48
  length-pseudo6_at = omega (
    arith,
    length-append (slice ip 8 16) (slice ip 24 16 ++ (slice ip 4 2 ++ pad)),
    length-append (slice ip 24 16) (slice ip 4 2 ++ pad),
    length-append (slice ip 4 2) pad,
    length-slice ip 8 16 (omega arith),
    length-slice ip 24 16 (omega arith),
    length-slice ip 4 2 (omega arith),
  )

  pseudo6_at-IsBytes : IsBytes ip → IsBytes (pseudo6_at ip)
  pseudo6_at-IsBytes hb =
      let byte : IsByte (byte_at ip 6) = byte_at-IsByte ip 6 hb in
      let pad_bytes : IsBytes pad = omega arith in
      All-append IsByte (slice ip 8 16) (slice ip 24 16 ++ (slice ip 4 2 ++ pad))
        (slice-IsBytes ip 8 16 hb)
        (All-append IsByte (slice ip 24 16) (slice ip 4 2 ++ pad) (slice-IsBytes ip 24 16 hb)
          (All-append IsByte (slice ip 4 2) pad (slice-IsBytes ip 4 2 hb) pad_bytes))

  pub check_ip6_data_checksum-value :
      (bytes : List ℕ) (len : ℕ)
      → len ≤ length bytes
      → IsBytes ip
      → IsBytes bytes
      → check_ip6_data_checksum ip bytes (pos len)
        ≡ ok (accepts (65535 - canon (total (pseudo6_at ip ++ take len bytes))))
  unfolding check_ip6_data_checksum
  check_ip6_data_checksum-value bytes len fits hb hd =
      rw
        (
          load-ok ip 8 16 (omega arith),
          load-ok ip 24 16 (omega arith),
          load-ok ip 4 2 (omega arith),
          u8-ok ip 6 (omega arith),
          sum_value (pseudo6_at ip) bytes 48 (pos len) refl length-pseudo6_at fits
              (pseudo6_at-IsBytes hb) hd,
        )
        refl

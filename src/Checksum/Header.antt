-- ===== src/Checksum/Header.antt =====
-- `checkIPchecksum`, and filling in the checksum field of a header.
use c_router.Base.{
  ℕ, zero, suc, ◌+◌, ◌-◌, ◌%◌, ◌≤◌, ◌<◌, ◌≡◌, ◌↔◌, refl, ap, ◌∙◌, List, ◌++◌, append_assoc,
  append-nil, true, ok, length, take, drop, splice, bytes2, IsBytes, IsByte, All-take, All-append,
  length-take, length-splice, splice-append, splice-IsBytes, take_of_length_le, load-ok, arith, ℤ,
  pos, negsuc, pos_part,
}
use c_router.Checksum.{sizeof_iphdr, accepts, checksum2, check_ip_checksum}
use c_router.Checksum.Ones.{ones_sum, total, canon, ones_sum-canon, checksum-ones_sum}
use c_router.Checksum.Split.{total-append, checksum2-ones_sum}

-- The bytes that `checkIPchecksum` sums.
abbrev pub covered : List ℕ → List ℕ → ℤ → List ℕ
covered iphdr option option_len = take sizeof_iphdr iphdr ++ take (pos_part option_len) option

pub covered-IsBytes :
    (iphdr option : List ℕ) (option_len : ℤ)
    → IsBytes iphdr
    → IsBytes option
    → IsBytes (covered iphdr option option_len)
covered-IsBytes iphdr option option_len hb ho =
    All-append IsByte (take 20 iphdr) (take (pos_part option_len) option)
      (All-take IsByte 20 iphdr hb) (All-take IsByte (pos_part option_len) option ho)

take-take : (n : ℕ) (xs : List ℕ) → take n (take n xs) ≡ take n xs
take-take n xs = take_of_length_le n (take n xs) (omega (arith, length-take n xs))

module _ (iphdr option : List ℕ) (option_len : ℤ) (long : 20 ≤ length iphdr)
    (opt_long : pos_part option_len ≤ length option) (hb : IsBytes iphdr)
    (ho : IsBytes option) where
  header_len : 20 ≤ length (take 20 iphdr)
  header_len = omega (arith, length-take 20 iphdr)

  checksum2_copy :
      checksum2 (take 20 iphdr) 20 option option_len
      ≡ ok (65535 - ones_sum (covered iphdr option option_len))
  checksum2_copy =
      checksum2-ones_sum (take 20 iphdr) 20 option option_len refl header_len opt_long
        (All-take IsByte 20 iphdr hb) ho
      ∙ ap (λ (h : List ℕ). ok (65535 - ones_sum (h ++ take (pos_part option_len) option)))
          (take-take 20 iphdr)

pub check_ip_checksum-value :
    (iphdr option : List ℕ) (option_len : ℤ)
    → 20 ≤ length iphdr
    → pos_part option_len ≤ length option
    → IsBytes iphdr
    → IsBytes option
    → check_ip_checksum iphdr option option_len
      ≡ ok (accepts (65535 - ones_sum (covered iphdr option option_len)))
unfolding check_ip_checksum
check_ip_checksum-value iphdr option (pos zero) long opt_long hb ho = rw (
  load-ok iphdr 0 20 long,
  checksum-ones_sum (take 20 iphdr) 20 (header_len iphdr option (pos 0) long opt_long hb ho)
      (All-take IsByte 20 iphdr hb),
  take-take 20 iphdr,
  append-nil (take 20 iphdr),
)
check_ip_checksum-value iphdr option (pos (suc n)) long opt_long hb ho =
    rw (load-ok iphdr 0 20 long, checksum2_copy iphdr option (pos (suc n)) long opt_long hb ho)
check_ip_checksum-value iphdr option (negsuc n) long opt_long hb ho =
    rw (load-ok iphdr 0 20 long, checksum2_copy iphdr option (negsuc n) long opt_long hb ho)

pub accepts_iff : (n : ℕ) → (ok (accepts (65535 - canon n)) ≡ ok true) ↔ (n % 65535 ≡ 0)
accepts_iff n = ground arith

-- With the header and its options in range, `checkIPchecksum` returns 1 exactly when the
-- little-endian words of the 20 header bytes and of the options add up to a multiple of 65535.
pub check_ip_checksum_iff :
    (iphdr option : List ℕ) (option_len : ℤ)
    → 20 ≤ length iphdr
    → pos_part option_len ≤ length option
    → IsBytes iphdr
    → IsBytes option
    → (check_ip_checksum iphdr option option_len ≡ ok true)
      ↔ (total (covered iphdr option option_len) % 65535 ≡ 0)
check_ip_checksum_iff iphdr option option_len long opt_long hb ho =
    rw
      (
        check_ip_checksum-value iphdr option option_len long opt_long hb ho,
        ones_sum-canon (covered iphdr option option_len)
            (covered-IsBytes iphdr option option_len hb ho),
      )
      (accepts_iff (total (covered iphdr option option_len)))

-- The header with `check` stored into its checksum field.
abbrev pub with_check : List ℕ → ℕ → List ℕ
with_check iphdr check = splice iphdr 10 (bytes2 check)

pub with_check-IsBytes : (h : List ℕ) (c : ℕ) → IsBytes h → IsBytes (with_check h c)
with_check-IsBytes h c hb = splice-IsBytes h 10 (bytes2 c) hb (omega arith)

-- A header is summed as the field's value and the rest.
total-with_check :
    (h option : List ℕ) (option_len : ℤ) (c : ℕ)
    → length h ≡ 20
    → c < 65536
    → total (covered (with_check h c) option option_len)
      ≡ total (covered (with_check h 0) option option_len) + c
total-with_check h option option_len c len small = omega (arith, part c small, part 0 (omega arith))
  where
    tail : List ℕ
    tail = drop 2 (drop 10 h) ++ take (pos_part option_len) option

    half : length (take 10 h) % 2 ≡ 0
    half = omega (arith, length-take {0} 10 h)

    part :
        (w : ℕ)
        → w < 65536
        → total (covered (with_check h w) option option_len) ≡ total (take 10 h) + w + total tail
    part w hw =
        rw
          (
            take_of_length_le 20 (with_check h w) (omega (arith, length-splice h 10 (bytes2 w))),
            splice-append h 10 (bytes2 w) (omega (arith, len)),
            append_assoc,
            total-append (take 10 h) (bytes2 w ++ tail) half,
          )
          (omega arith)

pub add-complement : (n : ℕ) → (n + (65535 - canon n)) % 65535 ≡ 0
add-complement n = ground arith

-- What `checksum2` returns over a header of 20 bytes with a checksum field of 0, and its options,
-- makes the header pass `checkIPchecksum` once it is stored into the field, and has 16 bits.
pub check_ip_checksum-with_check :
    (h option : List ℕ) (option_len : ℤ) {c : ℕ}
    → length h ≡ 20
    → pos_part option_len ≤ length option
    → IsBytes h
    → IsBytes option
    → checksum2 (with_check h 0) sizeof_iphdr option option_len ≡ ok c
    → (check_ip_checksum (with_check h c) option option_len ≡ ok true) × (c < 65536)
check_ip_checksum-with_check h option option_len {c} len opt_long hb ho e = (
  (check_ip_checksum_iff (with_check h c) option option_len
        (omega (arith, length-splice h 10 (bytes2 c))) opt_long (with_check-IsBytes h c hb) ho).1
      passes,
  small,
)
  where
    zeroed : List ℕ
    zeroed = covered (with_check h 0) option option_len

    value : c ≡ 65535 - canon (total zeroed)
    value =
        let computed =
          checksum2-ones_sum (with_check h 0) 20 option option_len refl
            (omega (arith, length-splice h 10 (bytes2 0))) opt_long (with_check-IsBytes h 0 hb)
            ho in
        let canonical =
          ones_sum-canon zeroed
            (covered-IsBytes (with_check h 0) option option_len (with_check-IsBytes h 0 hb) ho) in
        ground (arith, e, computed, canonical)

    small : c < 65536
    small = omega (arith, value)

    passes : total (covered (with_check h c) option option_len) % 65535 ≡ 0
    passes =
        rw (total-with_check h option option_len c len small, value) (add-complement (total zeroed))

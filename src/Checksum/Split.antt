-- ===== src/Checksum/Split.antt =====
-- `checksum2`, which sums two buffers as if they stood one behind the other.
use c_router.Base.{
  ℕ, ◌+◌, ◌-◌, ◌%◌, ◌^◌, ◌≤◌, ◌<◌, ◌≡◌, ◌↔◌, refl, ap, ◌∙◌, sym, List, [], ◌∷◌, ◌++◌, ok, length,
  take, IsBytes, IsByte, All-take, All-append, length-take, arith, ℤ, pos, pos_part,
}
use c_router.Checksum.{
  add_word, sum_words, add_last, fold_carries, complement16, checksum, join, join_word, checksum2,
}
use c_router.Checksum.Ones.{
  ones_sum, total, canon, canon_add, canon-lt, ones_sum-canon, fold_carries-canon, sum_words-Summed,
  add_last-zero,
}

-- A sum may be taken in two parts where the first has whole words.
pub total-append : (xs ys : List ℕ) → length xs % 2 ≡ 0 → total (xs ++ ys) ≡ total xs + total ys
total-append [] ys h = omega arith
total-append (x ∷ []) ys h = absurd (omega arith)
total-append (x ∷ x' ∷ xs) ys h = omega (arith, total-append xs ys (omega arith))

-- What both functions return.
pub finish-ones_sum :
    (whole : ℕ) (bytes : List ℕ)
    → whole < 2 ^ 32
    → IsBytes bytes
    → canon whole ≡ canon (total bytes)
    → complement16 (fold_carries 2 whole) ≡ 65535 - ones_sum bytes
finish-ones_sum whole bytes small hb value =
    rw (fold_carries-canon whole small, ones_sum-canon bytes hb, ← value)
      (ground (arith, canon-lt whole))

join-even :
    (sum : ℕ) (ptr data2 : List ℕ) (len2 : ℤ)
    → join sum 0 ptr data2 len2 ≡ ok (sum, pos_part len2, data2)
unfolding join
join-even sum ptr data2 len2 = refl

-- Where `len1` is even and both buffers hold their lengths, `checksum2` returns the complement of
-- the ones' complement sum of the two put together; a negative `len2` counts as 0.
pub checksum2-ones_sum :
    (data1 : List ℕ) (len1 : ℕ) (data2 : List ℕ) (len2 : ℤ)
    → len1 % 2 ≡ 0
    → len1 ≤ length data1
    → pos_part len2 ≤ length data2
    → IsBytes data1
    → IsBytes data2
    → checksum2 data1 len1 data2 len2
      ≡ ok (65535 - ones_sum (take len1 data1 ++ take (pos_part len2) data2))
unfolding checksum2
checksum2-ones_sum data1 len1 data2 len2 even h1 h2 hb1 hb2 =
    let n2 : ℕ = pos_part len2 in
    let a = sum_words-Summed 0 len1 data1 (omega arith) h1 hb1 in
    let whole : add_last a.partial 0 a.ptr ≡ ok a.whole = rw even at a.last in
    let same : a.whole ≡ a.partial = cc (whole, add_last-zero a.partial a.ptr) in
    let b = sum_words-Summed a.partial n2 data2 a.partial_small h2 hb2 in
    let first = take len1 data1 in
    let second = take n2 data2 in
    let length_first : length first ≡ len1 = omega (arith, length-take len1 data1) in
    let value : canon b.whole ≡ canon (total (first ++ second)) =
      b.value
      ∙ canon_add _ _ (total second) (ap canon (sym same) ∙ a.value)
      ∙ ap canon (omega (arith, total-append first second (rw length_first even))) in
    rw (a.loop, even, join-even a.partial a.ptr data2 len2, b.loop, b.last)
      (ap ok (
        finish-ones_sum b.whole (first ++ second) b.whole_small
          (All-append IsByte first second (All-take IsByte len1 data1 hb1)
            (All-take IsByte n2 data2 hb2))
          value))

-- `checksum2` of one byte and one byte equals `checksum` of the two together only where the bytes
-- are equal, and there it does: over the seam of an odd `len1` the word has its bytes in the wrong
-- order.
pub checksum2-odd_iff :
    (b0 b1 d : ℕ)
    → IsByte b0
    → IsByte b1
    → IsByte d
    → (checksum2 (b0 ∷ b1 ∷ []) 1 (d ∷ []) (pos 1) ≡ checksum (b0 ∷ d ∷ []) 2) ↔ (b0 ≡ d)
unfolding checksum2 checksum sum_words join join_word add_word add_last fold_carries
checksum2-odd_iff b0 b1 d h0 h1 h2 = ground arith

-- ===== src/Checksum/Ones.antt =====
-- The checksum against its definition in RFC 1071: the complement of the ones' complement sum.
use c_router.Base.{
  ℕ, zero, suc, ◌+◌, ◌-◌, ◌%◌, ◌^◌, ◌≤◌, ◌<◌, ◌≡◌, refl, ap, ◌∙◌, sym, List, [], ◌∷◌, ltb, ◌==◌,
  if◌then◌else◌, ok, word, length, take, IsBytes, IsByte, All-take, arith,
}
use c_router.Checksum.{add_word, sum_words, add_last, fold_carries, carry_fuel, checksum}

-- 16-bit addition with the carry added back in.
abbrev pub ones_add : ℕ → ℕ → ℕ
ones_add a b = if ltb (a + b) 65536 then a + b else a + b - 65535

-- The ones' complement sum of the words, an odd last byte standing for the low half of a word.
abbrev pub ones_sum : List ℕ → ℕ
ones_sum [] = 0
ones_sum (b ∷ []) = b
ones_sum (b0 ∷ b1 ∷ bs) = ones_add (word b0 b1) (ones_sum bs)

-- The plain sum of the words.
abbrev pub total : List ℕ → ℕ
total [] = 0
total (b ∷ []) = b
total (b0 ∷ b1 ∷ bs) = word b0 b1 + total bs

-- The 16-bit number that end-around carries make of a sum.
abbrev pub canon : ℕ → ℕ
canon n = if n == 0 then 0 else (n - 1) % 65535 + 1

pub canon-lt : (n : ℕ) → canon n < 65536
canon-lt n = ground arith

pub canon_add : (a b x : ℕ) → canon a ≡ canon b → canon (a + x) ≡ canon (b + x)
canon_add a b x h = ground arith

pub ones_add-canon : (w n : ℕ) → w < 65536 → ones_add w (canon n) ≡ canon (w + n)
ones_add-canon w n h = ground arith

pub ones_sum-canon : (bs : List ℕ) → IsBytes bs → ones_sum bs ≡ canon (total bs)
ones_sum-canon [] h = refl
ones_sum-canon (b ∷ []) h = ground arith
ones_sum-canon (b0 ∷ b1 ∷ bs) h =
    rw (ones_sum-canon bs h.1.1) (ones_add-canon (word b0 b1) (total bs) (omega arith))

pub add_word-canon :
    (sum w : ℕ)
    → sum < 2 ^ 31
    → w < 65536
    → (add_word sum w < 2 ^ 31) × (canon (add_word sum w) ≡ canon (sum + w))
unfolding add_word
add_word-canon sum w hs hw = ground arith

pub fold_carries-canon : (sum : ℕ) → sum < 2 ^ 32 → fold_carries carry_fuel sum ≡ canon sum
unfolding fold_carries
fold_carries-canon sum h = ground arith

-- What the loop over the words and the odd byte after it make of `c` bytes at `data`.
pub record Summed (sum c : ℕ) (bytes : List ℕ) : Type 0 where
  pub partial : ℕ
  pub whole : ℕ
  pub ptr : List ℕ
  pub loop : sum_words sum c bytes ≡ ok (partial, c % 2, ptr)
  pub last : add_last partial (c % 2) ptr ≡ ok whole
  pub partial_small : partial < 2 ^ 31
  pub whole_small : whole < 2 ^ 32
  pub value : canon whole ≡ canon (sum + total (take c bytes))

-- A count of 0 or 1 stops the loop where it stands.
sum_words-stop : (sum c : ℕ) (bytes : List ℕ) → c < 2 → sum_words sum c bytes ≡ ok (sum, c, bytes)
unfolding sum_words
sum_words-stop sum c [] h = ground arith
sum_words-stop sum c (b ∷ []) h = ground arith
sum_words-stop sum c (b0 ∷ b1 ∷ bytes) h = ground arith

pub add_last-zero : (sum : ℕ) (bytes : List ℕ) → add_last sum 0 bytes ≡ ok sum
unfolding add_last
add_last-zero sum [] = refl
add_last-zero sum (b ∷ bytes) = refl

sum_words-next :
    (sum c b0 b1 : ℕ) (bytes : List ℕ)
    → sum_words sum (suc (suc c)) (b0 ∷ b1 ∷ bytes) ≡ sum_words (add_word sum (word b0 b1)) c bytes
unfolding sum_words
sum_words-next sum c b0 b1 bytes = ground arith

pub sum_words-Summed :
    (sum c : ℕ) (bytes : List ℕ)
    → sum < 2 ^ 31
    → c ≤ length bytes
    → IsBytes bytes
    → Summed sum c bytes
sum_words-Summed sum zero bytes hs hc hb = record {
  partial = sum;
  whole = sum;
  ptr = bytes;
  loop = sum_words-stop sum 0 bytes (omega arith);
  last = add_last-zero sum bytes;
  partial_small = hs;
  whole_small = omega arith;
  value = ap canon (omega arith);
}
sum_words-Summed sum (suc zero) [] hs hc hb = absurd (omega arith)
sum_words-Summed sum (suc zero) (b ∷ bytes) hs hc hb = record {
  partial = sum;
  whole = sum + b;
  ptr = b ∷ bytes;
  loop = sum_words-stop sum 1 (b ∷ bytes) (omega arith);
  last = unfold add_last in ground arith;
  partial_small = hs;
  whole_small = omega arith;
  value = refl;
}
sum_words-Summed sum (suc (suc c)) [] hs hc hb = absurd (omega arith)
sum_words-Summed sum (suc (suc c)) (b ∷ []) hs hc hb = absurd (omega arith)
sum_words-Summed sum (suc (suc c)) (b0 ∷ b1 ∷ bytes) hs hc hb =
    let step = add_word-canon sum (word b0 b1) hs (omega arith) in
    let rest = sum_words-Summed (add_word sum (word b0 b1)) c bytes step.0 (omega arith) hb.1.1 in
    let parity : suc (suc c) % 2 ≡ c % 2 = omega arith in
    record {
      partial = rest.partial;
      whole = rest.whole;
      ptr = rest.ptr;
      loop =
          sum_words-next sum c b0 b1 bytes
          ∙ rest.loop
          ∙ ap (λ (n : ℕ). ok (rest.partial, n, rest.ptr)) (sym parity);
      last = rw parity rest.last;
      partial_small = rest.partial_small;
      whole_small = rest.whole_small;
      value = rest.value ∙ canon_add _ _ (total (take c bytes)) step.1 ∙ ap canon (omega arith);
    }

-- `checksum` of `len` bytes that are all in the buffer reads nothing out of range and returns the
-- complement of the RFC 1071 ones' complement sum of those bytes.
pub checksum-ones_sum :
    (bytes : List ℕ) (len : ℕ)
    → len ≤ length bytes
    → IsBytes bytes
    → checksum bytes len ≡ ok (65535 - ones_sum (take len bytes))
unfolding checksum
checksum-ones_sum bytes len h hb =
    let s = sum_words-Summed 0 len bytes (omega arith) h hb in
    let value : canon s.whole ≡ ones_sum (take len bytes) =
      s.value
      ∙ ap canon (omega arith)
      ∙ sym (ones_sum-canon (take len bytes) (All-take IsByte len bytes hb)) in
    rw (s.loop, s.last, fold_carries-canon s.whole s.whole_small)
      (ground (arith, value, canon-lt s.whole))

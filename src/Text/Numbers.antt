-- ===== src/Text/Numbers.antt =====
-- Numbers read back from their digits.
use c_router.Base.{
  ℕ, zero, suc, ◌+◌, ◌-◌, ◌*◌, ◌/◌, ◌%◌, ◌^◌, ◌≤◌, ◌<◌, ◌≡◌, refl, ap, ◌∙◌, List, [], ◌∷◌, ◌++◌,
  Bool, true, Bool-cases, inl, inr, ◌&&◌, ltb, leb, ltb→lt, if◌then◌else◌, arith, length,
}
use c_router.Text.{dec_digits, dec}

abbrev pub is_digit : ℕ → Bool
is_digit c = leb 48 c && leb c 57

-- The number at the start of a text, and what follows it.
abbrev pub read_dec : ℕ → List ℕ → ℕ × List ℕ
read_dec n [] = (n, [])
read_dec n (c ∷ text) = if is_digit c then read_dec (n * 10 + (c - 48)) text else (n, c ∷ text)

read_dec-digit :
    (n d : ℕ) (text : List ℕ) → d < 10 → read_dec n ((48 + d) ∷ text) ≡ read_dec (n * 10 + d) text
read_dec-digit n d text h =
    let digit : is_digit (48 + d) ≡ true = ground arith in
    let same : 48 + d - 48 ≡ d = omega arith in rw (digit, same)

abbrev pub pow10 : ℕ → ℕ
pow10 zero = 1
pow10 (suc k) = 10 * pow10 k

-- The accumulator of `dec_digits` is what follows the number.
read_dec-dec_digits :
    (rounds n : ℕ) (text : List ℕ)
    → n < pow10 rounds
    → read_dec 0 (dec_digits rounds n text) ≡ read_dec n text
unfolding dec_digits
read_dec-dec_digits zero n text h = let nothing : n ≡ 0 = omega arith in rw nothing
read_dec-dec_digits (suc rounds) n text h = elim (Bool-cases (ltb n 10)) [
  | inl last ↦
      let small : n < 10 = ltb→lt n 10 last in
      let value : 0 * 10 + n ≡ n = omega arith in
      rw last (read_dec-digit 0 n text small ∙ ap (λ k. read_dec k text) value)
  | inr more ↦
      let value : n / 10 * 10 + n % 10 ≡ n = omega arith in
      rw more (
        read_dec-dec_digits rounds (n / 10) ((48 + n % 10) ∷ text) (omega arith)
        ∙ read_dec-digit (n / 10) (n % 10) text (omega arith)
        ∙ ap (λ k. read_dec k text) value)
]

-- The digits stand in front of what follows.
dec_digits-append :
    (rounds n : ℕ) (text rest : List ℕ)
    → dec_digits rounds n text ++ rest ≡ dec_digits rounds n (text ++ rest)
unfolding dec_digits
dec_digits-append zero n text rest = refl
dec_digits-append (suc rounds) n text rest = elim (Bool-cases (ltb n 10)) [
  | inl last ↦ rw last refl
  | inr more ↦ rw more (dec_digits-append rounds (n / 10) ((48 + n % 10) ∷ text) rest)
]

-- `%u` of a 32-bit number, followed by any text, reads back as the number.
pub read_dec-dec :
    (n : ℕ) (rest : List ℕ) → n < 2 ^ 32 → read_dec 0 (dec n ++ rest) ≡ read_dec n rest
unfolding dec
read_dec-dec n rest h =
    ap (λ t. read_dec 0 t) (dec_digits-append 10 n [] rest)
    ∙ read_dec-dec_digits 10 n rest (omega arith)

length-dec_digits :
    (rounds n : ℕ) (text : List ℕ) → length (dec_digits rounds n text) ≤ rounds + length text
unfolding dec_digits
length-dec_digits zero n text = omega arith
length-dec_digits (suc rounds) n text = elim (Bool-cases (ltb n 10)) [
  | inl last ↦ rw last (omega arith)
  | inr more ↦ rw more (omega (arith, length-dec_digits rounds (n / 10) ((48 + n % 10) ∷ text)))
]

-- A byte has at most three digits.
pub length-dec_byte : (n : ℕ) → n < 256 → length (dec n) ≤ 3
unfolding dec dec_digits
length-dec_byte n h = ground arith

-- ===== src/Checksum.antt =====
-- The Internet checksum of router/netutil.c: `checksum`, `checksum2`, `checkIPchecksum`.
-- Pointers are the bytes from the pointer on, and `*ptr` on `u_int16_t *` is read little-endian.
pub mod Ones
pub mod Split
pub mod Header
use c_router.Base.{
  ℕ, zero, suc, ◌+◌, ◌-◌, ◌*◌, ◌/◌, ◌%◌, ◌^◌, List, [], ◌∷◌, Bool, true, false, ◌||◌, ltb, ◌==◌,
  if◌then◌else◌, ℤ, pos, negsuc, pos_part, Outcome, ok, fault, ◌>>=◌, load, word,
}

-- `(sum & 0xFFFF) + (sum >> 16)`
abbrev pub fold_carry : ℕ → ℕ
fold_carry sum = sum % 2 ^ 16 + sum / 2 ^ 16

-- `sum += w`, and the fold if bit 31 (`sum & 0x80000000`) is set.
pub add_word : ℕ → ℕ → ℕ
add_word sum w = let s = (sum + w) % 2 ^ 32 in if (s / 2 ^ 31) % 2 == 1 then fold_carry s else s

-- `for (c = len; c > 1; c -= 2)`: the sum, the count left and the pointer after the loop.
pub sum_words : ℕ → ℕ → List ℕ → Outcome (ℕ × ℕ × List ℕ)
sum_words sum c (b0 ∷ b1 ∷ ptr) =
    let rest = sum_words (add_word sum (word b0 b1)) (c - 2) ptr in
    if ltb 1 c then rest else ok (sum, c, b0 ∷ b1 ∷ ptr)
sum_words sum c ptr = if ltb 1 c then fault else ok (sum, c, ptr)

-- `if (c == 1)`: the odd byte at the end, as the low byte of a word.
pub add_last : ℕ → ℕ → List ℕ → Outcome ℕ
add_last sum c [] = if c == 1 then fault else ok sum
add_last sum c (b ∷ ptr) = ok (if c == 1 then (sum + b) % 2 ^ 32 else sum)

-- `while (sum >> 16)`, on fuel.
pub fold_carries : ℕ → ℕ → ℕ
fold_carries zero sum = sum
fold_carries (suc fuel) sum =
    let rest = fold_carries fuel (fold_carry sum) in if sum / 2 ^ 16 == 0 then sum else rest

-- Rounds of that loop that are enough for a 32-bit sum.
abbrev pub carry_fuel : ℕ
carry_fuel = 2

-- `return (~sum)`, cut to 16 bits.
abbrev pub complement16 : ℕ → ℕ
complement16 sum = 2 ^ 16 - 1 - sum % 2 ^ 16

pub checksum : List ℕ → ℕ → Outcome ℕ
checksum data1 len = do
  (sum, c, ptr) ← sum_words 0 len data1
  sum' ← add_last sum c ptr
  ok (complement16 (fold_carries carry_fuel sum'))

-- The word that `checksum2` makes of the last byte of `data1` and the first of `data2`, with
-- `data2 + 1`. `*ptr` reads one byte past the `len1` bytes, and `val` keeps 16 bits.
pub join_word : List ℕ → List ℕ → Outcome (ℕ × List ℕ)
join_word (b0 ∷ b1 ∷ ptr) (d ∷ data2) = ok ((word b0 b1 * 2 ^ 8 + d) % 2 ^ 16, data2)
join_word ptr data2 = fault

-- The middle of `checksum2`: what the second loop starts from. A negative count runs no round
-- and is not 1, as 0.
pub join : ℕ → ℕ → List ℕ → List ℕ → ℤ → Outcome (ℕ × ℕ × List ℕ)
join sum c ptr data2 len2 =
    if c == 1
    then (join_word ptr data2 >>= λ (val, rest). ok (add_word sum val, pos_part len2 - 1, rest))
    else ok (sum, pos_part len2, data2)

pub checksum2 : List ℕ → ℕ → List ℕ → ℤ → Outcome ℕ
checksum2 data1 len1 data2 len2 = do
  (sum, c, ptr) ← sum_words 0 len1 data1
  (sum2, len2', ptr2) ← join sum c ptr data2 len2
  (sum3, c3, ptr3) ← sum_words sum2 len2' ptr2
  sum4 ← add_last sum3 c3 ptr3
  ok (complement16 (fold_carries carry_fuel sum4))

-- `sum == 0 || sum == 0xFFFF`
abbrev pub accepts : ℕ → Bool
accepts sum = sum == 0 || sum == 0xFFFF

-- `sizeof(struct iphdr)`
abbrev pub sizeof_iphdr : ℕ
sizeof_iphdr = 20

-- `option_len` is -20 to 40: the header length field times 4, less 20.
pub check_ip_checksum : List ℕ → List ℕ → ℤ → Outcome Bool
check_ip_checksum iphdr option (pos zero) = do
  iptmp ← load iphdr 0 sizeof_iphdr
  sum ← checksum iptmp sizeof_iphdr
  ok (accepts sum)
check_ip_checksum iphdr option option_len = do
  iptmp ← load iphdr 0 sizeof_iphdr
  sum ← checksum2 iptmp sizeof_iphdr option option_len
  ok (accepts sum)

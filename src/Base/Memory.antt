-- ===== src/Base/Memory.antt =====
-- Byte buffers, and reads and writes that fault out of range.
use Prim.Native.Nat.{ℕ, zero, suc, ◌+◌, ◌≤◌, ◌<◌, ◌*◌, ◌/◌, ◌%◌, ◌^◌}
use mathlib.Core.Path.{◌≡◌, refl}
use mathlib.Core.Logic.{◌⊎◌, inl, inr}
use mathlib.Core.List.{List, [], ◌∷◌}
use c_router.Base.Tests.{leb, le→leb, if◌then◌else◌}
use c_router.Base.Lists.{length, take, drop, get_or, All}

-- `fault` is what C leaves undefined: an access out of range or through `NULL`.
pub data Outcome {ℓ} (A : Type ℓ) : Type ℓ where
  ok : A → Outcome A
  fault : Outcome A

infixl 5 ◌>>=◌
abbrev pub ◌>>=◌ {ℓ κ} : {A : Type ℓ} {B : Type κ} → Outcome A → (A → Outcome B) → Outcome B
ok a >>= f = f a
fault >>= f = fault

abbrev pub IsByte : ℕ → Type 0
IsByte b = b < 256

abbrev pub IsBytes : List ℕ → Type 0
IsBytes = All IsByte

-- The `n` bytes from `off` on.
abbrev pub slice : List ℕ → ℕ → ℕ → List ℕ
slice mem off n = take n (drop off mem)

-- `memcpy` out of `mem`.
unfoldable pub load : List ℕ → ℕ → ℕ → Outcome (List ℕ)
load mem off n = if leb (off + n) (length mem) then ok (slice mem off n) else fault

-- `mem` with `bytes` written at its start, and at `off`. What does not fit is left out.
abbrev pub overwrite : List ℕ → List ℕ → List ℕ
overwrite mem [] = mem
overwrite [] (b ∷ bytes) = []
overwrite (x ∷ mem) (b ∷ bytes) = b ∷ overwrite mem bytes

abbrev pub splice : List ℕ → ℕ → List ℕ → List ℕ
splice mem zero bytes = overwrite mem bytes
splice [] (suc off) bytes = []
splice (x ∷ mem) (suc off) bytes = x ∷ splice mem off bytes

-- `memcpy` into `mem`.
unfoldable pub store : List ℕ → ℕ → List ℕ → Outcome (List ℕ)
store mem off bytes =
    if leb (off + length bytes) (length mem) then ok (splice mem off bytes) else fault

pub load-ok :
    (mem : List ℕ) (off n : ℕ) → off + n ≤ length mem → load mem off n ≡ ok (slice mem off n)
unfolding load
load-ok mem off n h = rw (le→leb _ _ h)

pub store-ok :
    (mem : List ℕ) (off : ℕ) (bytes : List ℕ)
    → off + length bytes ≤ length mem
    → store mem off bytes ≡ ok (splice mem off bytes)
unfolding store
store-ok mem off bytes h = rw (le→leb _ _ h)

-- The byte at an index, 0 out of range.
abbrev pub byte_at : List ℕ → ℕ → ℕ
byte_at mem i = get_or mem i 0

-- The memory of a little-endian `u_int16_t` and of an `in_addr_t`, and the values read back.
abbrev pub word : ℕ → ℕ → ℕ
word b0 b1 = b0 + 256 * b1

abbrev pub bytes2 : ℕ → List ℕ
bytes2 w = (w % 256) ∷ (w / 256 % 256) ∷ []

abbrev pub bytes4 : ℕ → List ℕ
bytes4 w = (w % 256) ∷ (w / 2 ^ 8 % 256) ∷ (w / 2 ^ 16 % 256) ∷ (w / 2 ^ 24 % 256) ∷ []

pub Outcome-cases {ℓ} : {A : Type ℓ} (o : Outcome A) → (o ≡ fault) ⊎ ((a : A) × (o ≡ ok a))
Outcome-cases (ok a) = inr (a, refl)
Outcome-cases fault = inl refl

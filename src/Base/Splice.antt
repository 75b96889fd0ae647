-- ===== src/Base/Splice.antt =====
-- Laws of `splice`: lengths, slices and single bytes after a write.
use Prim.Native.Nat.{ℕ, zero, suc, ◌+◌, ◌≤◌, ◌<◌}
use mathlib.Core.Path.{◌≡◌, refl, ap}
use mathlib.Core.Logic.{◌⊎◌, inl, inr}
use mathlib.Core.List.{List, [], ◌∷◌, ◌++◌}
use native.Mathlib.Omega.{arith}
use c_router.Base.Lists.{length, take, drop, length-take, length-drop}
use c_router.Base.Memory.{IsBytes, slice, overwrite, splice, byte_at}

pub length-overwrite : (mem bytes : List ℕ) → length (overwrite mem bytes) ≡ length mem
length-overwrite mem [] = refl
length-overwrite [] (b ∷ bytes) = refl
length-overwrite (x ∷ mem) (b ∷ bytes) = ap suc (length-overwrite mem bytes)

pub length-splice :
    (mem : List ℕ) (off : ℕ) (bytes : List ℕ) → length (splice mem off bytes) ≡ length mem
length-splice mem zero bytes = length-overwrite mem bytes
length-splice [] (suc off) bytes = refl
length-splice (x ∷ mem) (suc off) bytes = ap suc (length-splice mem off bytes)

pub overwrite-IsBytes :
    (mem bytes : List ℕ) → IsBytes mem → IsBytes bytes → IsBytes (overwrite mem bytes)
overwrite-IsBytes mem [] h k = h
overwrite-IsBytes [] (b ∷ bytes) h k = tt
overwrite-IsBytes (x ∷ mem) (b ∷ bytes) h k = (k.0, overwrite-IsBytes mem bytes h.1 k.1)

pub splice-IsBytes :
    (mem : List ℕ) (off : ℕ) (bytes : List ℕ)
    → IsBytes mem
    → IsBytes bytes
    → IsBytes (splice mem off bytes)
splice-IsBytes mem zero bytes h k = overwrite-IsBytes mem bytes h k
splice-IsBytes [] (suc off) bytes h k = tt
splice-IsBytes (x ∷ mem) (suc off) bytes h k = (h.0, splice-IsBytes mem off bytes h.1 k)

pub overwrite-append :
    (mem bytes : List ℕ)
    → length bytes ≤ length mem
    → overwrite mem bytes ≡ bytes ++ drop (length bytes) mem
overwrite-append mem [] h = refl
overwrite-append [] (b ∷ bytes) h = absurd (omega arith)
overwrite-append (x ∷ mem) (b ∷ bytes) h =
    ap (λ t. b ∷ t) (overwrite-append mem bytes (omega arith))

-- A write in range, by the parts around it.
pub splice-append :
    (mem : List ℕ) (off : ℕ) (bytes : List ℕ)
    → off + length bytes ≤ length mem
    → splice mem off bytes ≡ take off mem ++ (bytes ++ drop (length bytes) (drop off mem))
splice-append mem zero bytes h = overwrite-append mem bytes (omega arith)
splice-append [] (suc off) bytes h = absurd (omega arith)
splice-append (x ∷ mem) (suc off) bytes h =
    ap (λ t. x ∷ t) (splice-append mem off bytes (omega arith))

take-overwrite :
    (n : ℕ) (mem bytes : List ℕ)
    → length bytes ≤ n
    → take n (overwrite mem bytes) ≡ overwrite (take n mem) bytes
take-overwrite n mem [] h = refl
take-overwrite zero mem (b ∷ bytes) h = absurd (omega arith)
take-overwrite (suc n) [] (b ∷ bytes) h = refl
take-overwrite (suc n) (x ∷ mem) (b ∷ bytes) h =
    ap (λ t. b ∷ t) (take-overwrite n mem bytes (omega arith))

take-splice :
    (n : ℕ) (mem : List ℕ) (off : ℕ) (bytes : List ℕ)
    → off + length bytes ≤ n
    → take n (splice mem off bytes) ≡ splice (take n mem) off bytes
take-splice n mem zero bytes h = take-overwrite n mem bytes (omega arith)
take-splice zero mem (suc off) bytes h = absurd (omega arith)
take-splice (suc n) [] (suc off) bytes h = refl
take-splice (suc n) (x ∷ mem) (suc off) bytes h =
    ap (λ t. x ∷ t) (take-splice n mem off bytes (omega arith))

splice-nil : (off : ℕ) (bytes : List ℕ) → splice [] off bytes ≡ []
splice-nil zero [] = refl
splice-nil zero (b ∷ bytes) = refl
splice-nil (suc off) bytes = refl

take-nil : (n : ℕ) → take {A = ℕ} n [] ≡ []
take-nil zero = refl
take-nil (suc n) = refl

slice-nil : (s n : ℕ) → slice [] s n ≡ []
slice-nil zero n = take-nil n
slice-nil (suc s) n = take-nil n

-- A write inside a slice is that write in the slice.
pub slice-splice_inside :
    (mem : List ℕ) (s k n : ℕ) (bytes : List ℕ) (off : ℕ)
    → off ≡ s + k
    → k + length bytes ≤ n
    → slice (splice mem off bytes) s n ≡ splice (slice mem s n) k bytes
slice-splice_inside mem zero k n bytes off e h =
    let at : off ≡ k = omega arith in rw at (take-splice n mem k bytes h)
slice-splice_inside mem (suc s) k n bytes zero e h = absurd (omega arith)
slice-splice_inside [] (suc s) k n bytes (suc off) e h = rw (take-nil, splice-nil)
slice-splice_inside (x ∷ mem) (suc s) k n bytes (suc off) e h =
    slice-splice_inside mem s k n bytes off (omega arith) h

take-overwrite_self :
    (mem bytes : List ℕ)
    → length bytes ≤ length mem
    → take (length bytes) (overwrite mem bytes) ≡ bytes
take-overwrite_self mem [] h = refl
take-overwrite_self [] (b ∷ bytes) h = absurd (omega arith)
take-overwrite_self (x ∷ mem) (b ∷ bytes) h =
    ap (λ t. b ∷ t) (take-overwrite_self mem bytes (omega arith))

-- What was written is read back.
pub slice-splice_self :
    (mem : List ℕ) (off : ℕ) (bytes : List ℕ)
    → off + length bytes ≤ length mem
    → slice (splice mem off bytes) off (length bytes) ≡ bytes
slice-splice_self mem zero bytes h = take-overwrite_self mem bytes (omega arith)
slice-splice_self [] (suc off) bytes h = absurd (omega arith)
slice-splice_self (x ∷ mem) (suc off) bytes h = slice-splice_self mem off bytes (omega arith)

take-splice_before :
    (n : ℕ) (mem : List ℕ) (off : ℕ) (bytes : List ℕ)
    → n ≤ off
    → take n (splice mem off bytes) ≡ take n mem
take-splice_before zero mem off bytes h = refl
take-splice_before (suc n) mem zero bytes h = absurd (omega arith)
take-splice_before (suc n) [] (suc off) bytes h = refl
take-splice_before (suc n) (x ∷ mem) (suc off) bytes h =
    ap (λ t. x ∷ t) (take-splice_before n mem off bytes (omega arith))

drop-overwrite :
    (s : ℕ) (mem bytes : List ℕ) → length bytes ≤ s → drop s (overwrite mem bytes) ≡ drop s mem
drop-overwrite s mem [] h = refl
drop-overwrite zero mem (b ∷ bytes) h = absurd (omega arith)
drop-overwrite (suc s) [] (b ∷ bytes) h = refl
drop-overwrite (suc s) (x ∷ mem) (b ∷ bytes) h = drop-overwrite s mem bytes (omega arith)

drop-splice :
    (s : ℕ) (mem : List ℕ) (off : ℕ) (bytes : List ℕ)
    → off + length bytes ≤ s
    → drop s (splice mem off bytes) ≡ drop s mem
drop-splice s mem zero bytes h = drop-overwrite s mem bytes (omega arith)
drop-splice zero mem (suc off) bytes h = absurd (omega arith)
drop-splice (suc s) [] (suc off) bytes h = refl
drop-splice (suc s) (x ∷ mem) (suc off) bytes h = drop-splice s mem off bytes (omega arith)

-- A write outside a slice leaves the slice.
pub slice-splice_after :
    (mem : List ℕ) (off : ℕ) (bytes : List ℕ) (s n : ℕ)
    → off + length bytes ≤ s
    → slice (splice mem off bytes) s n ≡ slice mem s n
slice-splice_after mem off bytes s n h = ap (take n) (drop-splice s mem off bytes h)

pub slice-splice_before :
    (mem : List ℕ) (off : ℕ) (bytes : List ℕ) (s n : ℕ)
    → s + n ≤ off
    → slice (splice mem off bytes) s n ≡ slice mem s n
slice-splice_before mem off bytes zero n h = take-splice_before n mem off bytes (omega arith)
slice-splice_before mem zero bytes (suc s) n h = absurd (omega arith)
slice-splice_before [] (suc off) bytes (suc s) n h = refl
slice-splice_before (x ∷ mem) (suc off) bytes (suc s) n h =
    slice-splice_before mem off bytes s n (omega arith)

pub length-slice : (mem : List ℕ) (s n : ℕ) → s + n ≤ length mem → length (slice mem s n) ≡ n
length-slice mem s n h = omega (arith, length-take {0} n (drop s mem), length-drop {0} s mem)

byte_at-overwrite :
    (mem bytes : List ℕ) (i : ℕ)
    → length bytes ≤ i
    → byte_at (overwrite mem bytes) i ≡ byte_at mem i
byte_at-overwrite mem [] i h = refl
byte_at-overwrite mem (b ∷ bytes) zero h = absurd (omega arith)
byte_at-overwrite [] (b ∷ bytes) (suc i) h = refl
byte_at-overwrite (x ∷ mem) (b ∷ bytes) (suc i) h = byte_at-overwrite mem bytes i (omega arith)

-- Other bytes stay.
pub byte_at-splice :
    (mem : List ℕ) (off : ℕ) (bytes : List ℕ) (i : ℕ)
    → (i < off) ⊎ (off + length bytes ≤ i)
    → byte_at (splice mem off bytes) i ≡ byte_at mem i
byte_at-splice mem zero bytes i (inl h) = absurd (omega arith)
byte_at-splice mem zero bytes i (inr h) = byte_at-overwrite mem bytes i (omega arith)
byte_at-splice [] (suc off) bytes i h = refl
byte_at-splice (x ∷ mem) (suc off) bytes zero h = refl
byte_at-splice (x ∷ mem) (suc off) bytes (suc i) (inl h) =
    byte_at-splice mem off bytes i (inl (omega arith))
byte_at-splice (x ∷ mem) (suc off) bytes (suc i) (inr h) =
    byte_at-splice mem off bytes i (inr (omega arith))

overwrite-take : (n : ℕ) (mem : List ℕ) → overwrite mem (take n mem) ≡ mem
overwrite-take zero mem = refl
overwrite-take (suc n) [] = refl
overwrite-take (suc n) (x ∷ mem) = ap (λ t. x ∷ t) (overwrite-take n mem)

overwrite-overwrite-take :
    (n : ℕ) (mem bytes : List ℕ)
    → length bytes ≤ n
    → overwrite mem (overwrite (take n mem) bytes) ≡ overwrite mem bytes
overwrite-overwrite-take n mem [] h = overwrite-take n mem
overwrite-overwrite-take zero mem (b ∷ bytes) h = absurd (omega arith)
overwrite-overwrite-take (suc n) [] (b ∷ bytes) h = refl
overwrite-overwrite-take (suc n) (x ∷ mem) (b ∷ bytes) h =
    ap (λ t. b ∷ t) (overwrite-overwrite-take n mem bytes (omega arith))

overwrite-splice-take :
    (n : ℕ) (mem : List ℕ) (k : ℕ) (bytes : List ℕ)
    → k + length bytes ≤ n
    → overwrite mem (splice (take n mem) k bytes) ≡ splice mem k bytes
overwrite-splice-take n mem zero bytes h = overwrite-overwrite-take n mem bytes (omega arith)
overwrite-splice-take zero mem (suc k) bytes h = absurd (omega arith)
overwrite-splice-take (suc n) [] (suc k) bytes h = refl
overwrite-splice-take (suc n) (x ∷ mem) (suc k) bytes h =
    ap (λ t. x ∷ t) (overwrite-splice-take n mem k bytes (omega arith))

-- To copy a slice out, write in it and copy it back is to write in place.
pub splice-splice-slice :
    (mem : List ℕ) (s n k : ℕ) (bytes : List ℕ) (off : ℕ)
    → off ≡ s + k
    → k + length bytes ≤ n
    → splice mem s (splice (slice mem s n) k bytes) ≡ splice mem off bytes
splice-splice-slice mem zero n k bytes off e h =
    let at : off ≡ k = omega arith in rw at (overwrite-splice-take n mem k bytes h)
splice-splice-slice mem (suc s) n k bytes zero e h = absurd (omega arith)
splice-splice-slice [] (suc s) n k bytes (suc off) e h = refl
splice-splice-slice (x ∷ mem) (suc s) n k bytes (suc off) e h =
    ap (λ t. x ∷ t) (splice-splice-slice mem s n k bytes off (omega arith) h)

overwrite-overwrite_self :
    (mem old new : List ℕ)
    → length old ≤ length new
    → overwrite (overwrite mem old) new ≡ overwrite mem new
overwrite-overwrite_self mem [] new h = refl
overwrite-overwrite_self mem (a ∷ old) [] h = absurd (omega arith)
overwrite-overwrite_self [] (a ∷ old) (b ∷ new) h = refl
overwrite-overwrite_self (x ∷ mem) (a ∷ old) (b ∷ new) h =
    ap (λ t. b ∷ t) (overwrite-overwrite_self mem old new (omega arith))

-- The later of two writes at one place stays.
pub splice-splice_self :
    (mem : List ℕ) (off : ℕ) (old new : List ℕ)
    → length old ≤ length new
    → splice (splice mem off old) off new ≡ splice mem off new
splice-splice_self mem zero old new h = overwrite-overwrite_self mem old new h
splice-splice_self [] (suc off) old new h = refl
splice-splice_self (x ∷ mem) (suc off) old new h =
    ap (λ t. x ∷ t) (splice-splice_self mem off old new h)

pub byte_at-splice_self :
    (mem : List ℕ) (off b : ℕ) → off < length mem → byte_at (splice mem off (b ∷ [])) off ≡ b
byte_at-splice_self [] off b h = absurd (omega arith)
byte_at-splice_self (x ∷ mem) zero b h = refl
byte_at-splice_self (x ∷ mem) (suc off) b h = byte_at-splice_self mem off b (omega arith)

splice-overwrite :
    (mem h : List ℕ) (k : ℕ) (b : List ℕ)
    → k + length b ≤ length h
    → splice (overwrite mem h) k b ≡ overwrite mem (splice h k b)
splice-overwrite [] [] zero [] le = refl
splice-overwrite [] [] zero (y ∷ b) le = absurd (omega arith)
splice-overwrite [] (a ∷ h) zero [] le = refl
splice-overwrite [] (a ∷ h) zero (y ∷ b) le = refl
splice-overwrite (x ∷ mem) [] zero [] le = refl
splice-overwrite (x ∷ mem) [] zero (y ∷ b) le = absurd (omega arith)
splice-overwrite (x ∷ mem) (a ∷ h) zero [] le = refl
splice-overwrite (x ∷ mem) (a ∷ h) zero (y ∷ b) le =
    ap (λ t. y ∷ t) (splice-overwrite mem h zero b (omega arith))
splice-overwrite mem [] (suc k) b le = absurd (omega arith)
splice-overwrite [] (a ∷ h) (suc k) b le = refl
splice-overwrite (x ∷ mem) (a ∷ h) (suc k) b le =
    ap (λ t. a ∷ t) (splice-overwrite mem h k b (omega arith))

-- A write within what was written last.
pub splice-splice_inside :
    (mem : List ℕ) (s : ℕ) (h : List ℕ) (k : ℕ) (b : List ℕ) (off : ℕ)
    → off ≡ s + k
    → k + length b ≤ length h
    → splice (splice mem s h) off b ≡ splice mem s (splice h k b)
splice-splice_inside mem zero h k b off e le =
    let at : off ≡ k = omega arith in rw at (splice-overwrite mem h k b le)
splice-splice_inside mem (suc s) h k b zero e le = absurd (omega arith)
splice-splice_inside [] (suc s) h k b (suc off) e le = refl
splice-splice_inside (x ∷ mem) (suc s) h k b (suc off) e le =
    ap (λ t. x ∷ t) (splice-splice_inside mem s h k b off (omega arith) le)

pub splice-no_bytes : (mem : List ℕ) (off : ℕ) → splice mem off [] ≡ mem
splice-no_bytes mem zero = refl
splice-no_bytes [] (suc off) = refl
splice-no_bytes (x ∷ mem) (suc off) = ap (λ t. x ∷ t) (splice-no_bytes mem off)

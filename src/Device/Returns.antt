-- ===== src/Device/Returns.antt =====
-- Total correctness of commands: a command returns, and its result and world satisfy a predicate.
use c_router.Base.{◌≡◌, refl, Outcome, ok, fault}
use c_router.Device.{World}
use c_router.Device.Cmd.{M, ◌>>=◌, ◌>>◌, lift}

abbrev pub Returns : {A : Type 0} → (A → World → Type 0) → Outcome (A × World) → Type 0
Returns P (ok (a, w)) = P a w
Returns P fault = ⊥

-- The same of a computation that leaves the world alone.
abbrev pub Yields {ℓ} : {A : Type ℓ} → (A → Type 0) → Outcome A → Type 0
Yields P (ok a) = P a
Yields P fault = ⊥

pub weaken :
    {A : Type 0} (P Q : A → World → Type 0) (o : Outcome (A × World))
    → Returns P o
    → ((a : A) (w : World) → P a w → Q a w)
    → Returns Q o
weaken P Q (ok (a, w)) h k = k a w h
weaken P Q fault h k = h

-- Two predicates at once.
pub both :
    {A : Type 0} (P Q : A → World → Type 0) (o : Outcome (A × World))
    → Returns P o
    → Returns Q o
    → Returns (λ a w. P a w × Q a w) o
both P Q (ok (a, w)) p q = (p, q)
both P Q fault p q = p

module _ {A B : Type 0} (P : B → World → Type 0) where
  from_outcome :
      (Q : A → World → Type 0) (o : Outcome (A × World)) (f : A → M B)
      → Returns Q o
      → ((a : A) (w : World) → Q a w → Returns P (f a w))
      → Returns P (elim o [ fault ↦ fault | ok (a, w) ↦ f a w ])
  from_outcome Q (ok (a, w)) f h k = k a w h
  from_outcome Q fault f h k = absurd h

  -- One step, then the rest.
  pub bind :
      (Q : A → World → Type 0) (m : M A) (f : A → M B) (w : World)
      → Returns Q (m w)
      → ((a : A) (w' : World) → Q a w' → Returns P (f a w'))
      → Returns P ((m >>= f) w)
  bind Q m f w h k = from_outcome Q (m w) f h k

  -- A step that leaves the world alone.
  pub bind-lift :
      (Q : A → Type 0) (o : Outcome A) (f : A → M B) (w : World)
      → Yields Q o
      → ((a : A) → Q a → Returns P (f a w))
      → Returns P ((lift o >>= f) w)
  bind-lift Q (ok a) f w h k = k a h
  bind-lift Q fault f w h k = absurd h

  -- The same where the result is known.
  pub bind_of_eq :
      {o : Outcome A} {a : A} (f : A → M B) (w : World)
      → o ≡ ok a
      → Returns P (f a w)
      → Returns P ((lift o >>= f) w)
  bind_of_eq f w e k = rw e k

  pub step :
      (m : M A) (f : A → M B) (w : World) {a : A} {w' : World}
      → m w ≡ ok (a, w')
      → Returns P (f a w')
      → Returns P ((m >>= f) w)
  step m f w {a} {w'} e k = go (m w) e
    where
      go :
          (o : Outcome (A × World))
          → o ≡ ok (a, w')
          → Returns P (elim o [ fault ↦ fault | ok (b, v) ↦ f b v ])
      go o e = rw e k

pub bind-ok :
    {A B : Type 0} (m : M A) (f : A → M B) (w : World) {a : A} {w' : World}
    → m w ≡ ok (a, w')
    → (m >>= f) w ≡ f a w'
bind-ok {A} {B} m f w {a} {w'} h = go (m w) h
  where
    go :
        (o : Outcome (A × World))
        → o ≡ ok (a, w')
        → (elim o as (λ _. Outcome (B × World)) [ fault ↦ fault | ok (b, v) ↦ f b v ]) ≡ f a w'
    go o e = rw e refl

pub then-ok :
    {A B : Type 0} (m : M A) (k : M B) (w : World) {a : A} {w' : World}
    → m w ≡ ok (a, w')
    → (m >> k) w ≡ k w'
then-ok {A} {B} m k w {a} {w'} h = go (m w) h
  where
    go :
        (o : Outcome (A × World))
        → o ≡ ok (a, w')
        → (elim o as (λ _. Outcome (B × World)) [ fault ↦ fault | ok (b, v) ↦ k v ]) ≡ k w'
    go o e = rw e refl

-- ===== src/Device/Adds.antt =====
-- How many requests to the sending thread a command adds at most, where it returns.
use c_router.Base.{
  ℕ, ◌+◌, ◌≤◌, List, Bool, true, false, if◌then◌else◌, Outcome, ok, fault, length, arith,
}
use c_router.Device.{World}
use c_router.Device.Cmd.{M, ◌>>=◌, pure, lift, write}

-- At most this many requests are there.
abbrev pub AtMost : {A : Type 0} → ℕ → Outcome (A × World) → Type 0
AtMost n (ok (a, w)) = length w.send_req ≤ n
AtMost n fault = Unit

abbrev pub Adds : {A : Type 0} → ℕ → M A → Type 0
Adds n m = (w : World) → AtMost (n + length w.send_req) (m w)

pub Adds-pure : {A : Type 0} (n : ℕ) (a : A) → Adds n (pure a)
Adds-pure n a w = omega arith

pub Adds-lift : {A : Type 0} (n : ℕ) (o : Outcome A) → Adds n (lift o)
Adds-lift n (ok a) w = omega arith
Adds-lift n fault w = tt

pub Adds-write : (n soc : ℕ) (bytes : List ℕ) → Adds n (write soc bytes)
unfolding write
Adds-write n soc bytes w = omega arith

pub Adds-if :
    {A : Type 0} (n : ℕ) (b : Bool) (x y : M A) → Adds n x → Adds n y → Adds n (if b then x else y)
Adds-if n true x y h k = h
Adds-if n false x y h k = k

AtMost-bind :
    {A B : Type 0} (n k m : ℕ) (o : Outcome (A × World)) (f : A → M B)
    → AtMost n o
    → ((a : A) → Adds k (f a))
    → k + n ≤ m
    → AtMost m (elim o as (λ _. Outcome (B × World)) [ fault ↦ fault | ok (a, w) ↦ f a w ])
AtMost-bind {B = B} n k m (ok (a, w)) f h g le = more (f a w) (g a w)
  where
    more : (o : Outcome (B × World)) → AtMost (k + length w.send_req) o → AtMost m o
    more (ok (b, w')) h' = omega arith
    more fault h' = tt
AtMost-bind n k m fault f h g le = tt

-- A command that adds none, then the rest.
pub Adds-bind :
    {A B : Type 0} (n : ℕ) (m : M A) (f : A → M B)
    → Adds 0 m
    → ((a : A) → Adds n (f a))
    → Adds n (m >>= f)
Adds-bind n m f h g w =
    AtMost-bind (0 + length w.send_req) n (n + length w.send_req) (m w) f (h w) g (omega arith)

-- A command that may add requests, then a rest that adds none.
pub Adds-first :
    {A B : Type 0} (n : ℕ) (m : M A) (f : A → M B)
    → Adds n m
    → ((a : A) → Adds 0 (f a))
    → Adds n (m >>= f)
Adds-first n m f h g w =
    AtMost-bind (n + length w.send_req) 0 (n + length w.send_req) (m w) f (h w) g (omega arith)

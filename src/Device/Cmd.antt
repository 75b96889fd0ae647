-- ===== src/Device/Cmd.antt =====
-- Commands on the world of router/, with their sequencing, and the `write` system call.
use c_router.Base.{ℕ, ◌++◌, List, [], ◌∷◌, Outcome, ok, fault}
use c_router.Device.{World}

-- State and fault.
abbrev pub M : Type 0 → Type 0
M A = World → Outcome (A × World)

abbrev pub pure : {A : Type 0} → A → M A
pure a w = ok (a, w)

-- The first command, then what its result chooses; a fault is the end of it.
infixl 5 ◌>>◌ ◌>>=◌
abbrev pub ◌>>=◌ : {S T : Type 0} → M S → (S → M T) → M T
◌>>=◌ first next w = elim (first w) [ fault ↦ fault | ok (s, w') ↦ next s w' ]

abbrev pub ◌>>◌ : {S T : Type 0} → M S → M T → M T
first >> second = first >>= λ _. second

-- A computation that has no effect but a fault.
abbrev pub lift : {A : Type 0} → Outcome A → M A
lift fault w = fault
lift (ok a) w = ok (a, w)

-- `write(soc, bytes, size)`, its result unused.
unfoldable pub write : ℕ → List ℕ → M (Unit {0})
write soc bytes w = ok (tt, record w { sent = w.sent ++ ((soc, bytes) ∷ []) })

-- ===== src/Listener.antt =====
-- `main` of ltest/ltest.c and of pcap/pcap.c, but for what their loops do with the frames: the two
-- have the same text otherwise. The messages on `stderr` are left out.
pub mod Started
use c_router.Base.{
  ℕ, List, [], ◌∷◌, Bool, false, Option, none, some, ℤ, pos, minus_one, Outcome, ok, fault, ◌>>=◌,
}
use c_router.Netutil.{Sockets, Run}

-- `main` has returned, or it goes on reading from a socket; what it has printed on `stdout`.
pub data Status : Type 0 where
  returned : ℤ → Status
  reading : ℕ → List ℕ → Status

-- By what `InitRawSocket` returned; `looped` is what the loop prints.
pub with_socket : Outcome (List ℕ) → Option ℕ × Sockets → Outcome (Status × Sockets)
with_socket looped (none, s) = ok (returned minus_one, s)
with_socket looped (some soc, s) = do text ← looped; ok (reading soc text, s)

-- `argc` is the length of `argv`; `init` is `InitRawSocket` without its flags.
pub run : (List ℕ → Run ℕ) → Outcome (List ℕ) → List (List ℕ) → Sockets → Outcome (Status × Sockets)
run init looped [] s = ok (returned (pos 1), s)
run init looped (program ∷ []) s = ok (returned (pos 1), s)
run init looped (program ∷ device ∷ args) s = with_socket looped (init device s)

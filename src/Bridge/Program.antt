-- ===== src/Bridge/Program.antt =====
-- `main` of bridge/main.c, with the messages that `DebugOut` makes.
pub mod Exits
use c_router.Base.{
  ℕ, List, [], ◌∷◌, ◌++◌, Bool, true, false, Option, none, some, ℤ, pos, negsuc, minus_one, Outcome,
  ok, fault, ◌>>=◌, if◌then◌else◌,
}
use c_router.Text.{codes, concat}
use c_router.Poll.{Poll}
use c_router.Netutil.{Kernel, Sockets}
use c_router.Process as Process
use c_router.Process.{Process, catch_signals, close_both}
use c_router.Bridge.{init_raw_socket, debug_printf, State, bridge}

-- `DisableIpForward` of bridge/main.c, whose text is that of router/main.c.
pub disable_ip_forward : Bool → Process → ℤ × Process
disable_ip_forward fopen p = Process.disable_ip_forward fopen p

-- What `main` returns, the process at its end, and what `Bridge` left.
pub record Exit : Type 0 where
  pub code : ℤ
  pub process : Process
  pub state : State

module _ (k : Kernel) (fopen debug_out : Bool) where
  -- `DebugPrintf`
  abbrev pub say : List (List ℕ) → State → State
  say pieces s = record s { err = s.err ++ debug_printf debug_out (concat pieces) }

  -- The message of `DisableIpForward`.
  abbrev pub forward_message : List (List ℕ)
  forward_message = if fopen then [] else codes "cannot write /proc/sys/net/ipv4/ip_forward\n" ∷ []

  -- From `DisableIpForward` on.
  pub run : ℕ → ℕ → List Poll → Process → State → Outcome Exit
  run soc0 soc1 polls p s = do
    s' ← bridge debug_out polls (say (codes "bridge start\n" ∷ []) (say forward_message s))
    ok (record {
      code = pos 0;
      process = close_both soc0 soc1 (catch_signals (disable_ip_forward fopen p).1);
      state = say (codes "bridge end\n" ∷ []) s';
    })

  -- `InitRawSocket` returned -1.
  abbrev pub give_up : List ℕ → Process → State → Outcome Exit
  give_up name p s = ok (record {
    code = minus_one;
    process = p;
    state = say (codes "InitRawSocket:error:" ∷ name ∷ codes "\n" ∷ []) s;
  })

  -- By what `InitRawSocket` returned for the second device, and for the first.
  pub with_second : List ℕ → ℕ → List Poll → Process → State → Option ℕ × Sockets → Outcome Exit
  with_second device2 soc0 polls p s (none, sockets) =
      give_up device2 (record p { sockets = sockets }) s
  with_second device2 soc0 polls p s (some soc1, sockets) =
      run soc0 soc1 polls (record p { sockets = sockets }) (say (device2 ∷ codes " OK\n" ∷ []) s)

  pub with_first : List ℕ → List ℕ → List Poll → Process → State → Option ℕ × Sockets → Outcome Exit
  with_first device1 device2 polls p s (none, sockets) =
      give_up device1 (record p { sockets = sockets }) s
  with_first device1 device2 polls p s (some soc0, sockets) =
      with_second device2 soc0 polls (record p { sockets = sockets })
        (say (device1 ∷ codes " OK\n" ∷ []) s) (init_raw_socket k device2 true false sockets)

  -- `Param.Device1` and `Param.Device2`; `polls` is what `poll` and `read` give until `EndFlag` is
  -- set.
  pub bridge_main : List ℕ → List ℕ → List Poll → Process → State → Outcome Exit
  bridge_main device1 device2 polls p s =
      with_first device1 device2 polls p s (init_raw_socket k device1 true false p.sockets)

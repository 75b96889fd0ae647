-- ===== src/Bridge/Program/Exits.antt =====
-- `main` of bridge/main.c: how it ends.
use c_router.Base.{
  ℕ, ◌≡◌, refl, ap, ◌∙◌, List, [], ◌∷◌, ◌++◌, Bool, true, false, Option, none, some, ◌⊎◌, inl, inr,
  pos, minus_one, Outcome, ok, length,
}
use c_router.Device.{DeviceNo}
use c_router.Text.{codes}
use c_router.Poll.{Poll}
use c_router.Netutil.{Kernel, Sockets}
use c_router.Netutil.Opened.{IsOpened, init_raw_socket-IsOpened}
use c_router.Process.{Process}
use c_router.Process.Closed.{Closed, close_both-Closed}
use c_router.Bridge.{init_raw_socket, State}
use c_router.Bridge.Frames.{all_handed, AllFit, bridge-Wrote}
use c_router.Bridge.Program.{
  disable_ip_forward, Exit, say, forward_message, run, with_second, with_first, bridge_main,
}

-- 0 with every socket closed and every frame handed on; or -1, with no frame handed on and at most
-- the first device's socket open.
pub data HasEnded (fopen : Bool) (p : Process) (frames sent : List (DeviceNo × List ℕ))
    : Exit → Type 0 where
  finished :
      (exit : Exit)
      → exit.code ≡ pos 0
      → Closed fopen p exit.process
      → exit.state.sent ≡ sent ++ frames
      → HasEnded fopen p frames sent exit
  failed :
      (exit : Exit)
      → exit.code ≡ minus_one
      → (exit.process.sockets.opened ≡ p.sockets.opened)
        ⊎ ((soc : ℕ) × (exit.process.sockets.opened ≡ soc ∷ p.sockets.opened))
      → exit.process.ip_forward ≡ p.ip_forward
      → exit.process.handlers ≡ p.handlers
      → exit.state.sent ≡ sent
      → HasEnded fopen p frames sent exit

abbrev pub Ends :
    Bool → Process → List (DeviceNo × List ℕ) → List (DeviceNo × List ℕ) → Outcome Exit → Type 0
Ends fopen p frames sent out = (exit : Exit) × ((out ≡ ok exit) × HasEnded fopen p frames sent exit)

module _ (k : Kernel) (fopen debug_out : Bool) (p : Process) (polls : List Poll) (s : State)
    (fits : AllFit polls) (full : length s.buf ≡ 2048) where
  run-Ends :
      (soc0 soc1 : ℕ) (sockets : Sockets) (err : List ℕ)
      → sockets.opened ≡ soc1 ∷ soc0 ∷ p.sockets.opened
      → Ends fopen p (all_handed polls) s.sent (
          run k fopen debug_out soc0 soc1 polls
            (record p { sockets = sockets })
            (record s { err = err }))
  unfolding run disable_ip_forward
  run-Ends soc0 soc1 sockets err opened =
      let start =
        say k fopen debug_out (codes "bridge start\n" ∷ [])
          (say k fopen debug_out (forward_message k fopen debug_out) (record s { err = err })) in
      let wrote = bridge-Wrote debug_out polls start fits full in
      rw wrote.returns (
        _,
        (
          refl,
          finished _ refl
              (close_both-Closed fopen soc0 soc1 p (record p { sockets = sockets }) opened refl)
              wrote.sent,
        ),
      )

  second-Ends :
      (device2 : List ℕ) (soc0 : ℕ) (sockets : Sockets) (err : List ℕ) (out : Option ℕ × Sockets)
      → sockets.opened ≡ soc0 ∷ p.sockets.opened
      → IsOpened k device2 true false sockets out
      → Ends fopen p (all_handed polls) s.sent (
          with_second k fopen debug_out device2 soc0 polls
            (record p { sockets = sockets })
            (record s { err = err })
            out)
  unfolding with_second
  second-Ends device2 soc0 sockets err (none, after) opened h =
      (_, (refl, failed _ refl (inr (soc0, h ∙ opened)) refl refl refl))
  second-Ends device2 soc0 sockets err (some soc1, after) opened h =
      run-Ends soc0 soc1 after _ (h.0 ∙ ap (λ (x : List ℕ). soc1 ∷ x) opened)

  first-Ends :
      (device1 device2 : List ℕ) (out : Option ℕ × Sockets)
      → IsOpened k device1 true false p.sockets out
      → Ends fopen p
          (all_handed polls)
          s.sent
          (with_first k fopen debug_out device1 device2 polls p s out)
  unfolding with_first init_raw_socket
  first-Ends device1 device2 (none, after) h = (_, (refl, failed _ refl (inl h) refl refl refl))
  first-Ends device1 device2 (some soc0, after) h =
      second-Ends device2 soc0 after _ _ h.0 (init_raw_socket-IsOpened k device2 true false after)

  -- With a buffer of 2048 bytes and reads of at most as many, `main` of the bridge ends in one of
  -- two ways. It returns 0: every frame was handed on as `Bridge` does, both sockets are closed
  -- again, `ip_forward` is 0 where the file could be opened, SIGINT, SIGTERM and SIGQUIT set
  -- `EndFlag`, and SIGPIPE, SIGTTIN and SIGTTOU are ignored. Or it returns -1: no frame was handed
  -- on, `ip_forward` and the handlers are as before, and of the sockets that it opened at most one
  -- is open.
  pub bridge_main-Ends :
      (device1 device2 : List ℕ)
      → Ends fopen p
          (all_handed polls)
          s.sent
          (bridge_main k fopen debug_out device1 device2 polls p s)
  unfolding bridge_main init_raw_socket
  bridge_main-Ends device1 device2 =
      first-Ends device1 device2 _ (init_raw_socket-IsOpened k device1 true false p.sockets)

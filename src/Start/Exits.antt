-- ===== src/Start/Exits.antt =====
-- `main` of router/main.c: how it ends.
use c_router.Base.{ℕ, ◌≡◌, refl, subst, List, ◌∷◌, Bool, ◌⊎◌, inl, inr, ℤ, pos, minus_one}
use c_router.Device.{dev0, dev1}
use c_router.Netutil.{Kernel}
use c_router.Netutil.Left.{HasSockets, configure-HasSockets}
use c_router.Process.{Process}
use c_router.Process.Closed.{Closed, close_both-Closed}
use c_router.Start.{Returned, failed, finished}

-- 0 and a process that is closed; or -1 and at most the socket of the first device open.
abbrev pub HasEnded : Bool → Process → ℤ → Process → Type 0
HasEnded fopen p code p' =
    ((code ≡ pos 0) × Closed fopen p p')
    ⊎ ((code ≡ minus_one)
        × (((p'.sockets.opened ≡ p.sockets.opened)
              ⊎ ((soc : ℕ) × (p'.sockets.opened ≡ soc ∷ p.sockets.opened)))
            × ((p'.ip_forward ≡ p.ip_forward) × (p'.handlers ≡ p.handlers))))

module _ (k : Kernel) (fopen thread : Bool) (device1 device2 : List ℕ) (next_router : ℕ)
    (buf : List ℕ) (p : Process) where
  -- However `main` of the router ends, it returns 0 with every socket closed that it opened,
  -- `ip_forward` 0 where the file could be opened, SIGINT, SIGTERM and SIGQUIT handled by
  -- `EndSignal`, and SIGPIPE, SIGTTIN and SIGTTOU ignored; or it returns -1 with `ip_forward` and
  -- the handlers as before, and at most the socket of the first device open.
  pub main-HasEnded :
      {code : ℤ} {p' : Process}
      → Returned k fopen thread device1 device2 next_router buf p code p'
      → HasEnded fopen p code p'
  main-HasEnded (failed sockets e) = inr (
    refl,
    (
      subst (HasSockets p.sockets) e (configure-HasSockets k device1 device2 next_router p.sockets),
      (refl, refl),
    ),
  )
  main-HasEnded (finished cfg sockets t e r off done) = inl (
    refl,
    close_both-Closed fopen (cfg.device dev0).soc (cfg.device dev1).soc p
        (record p { sockets = sockets })
        (subst (HasSockets p.sockets) e
          (configure-HasSockets k device1 device2 next_router p.sockets))
        refl,
  )

-- ===== src/Netutil/Left.antt =====
-- The start of `main` in router/main.c: which sockets it leaves open, on every path.
use c_router.Base.{ℕ, ◌≡◌, refl, ap, ◌∙◌, List, ◌∷◌, false, Option, none, some, ◌⊎◌, inl, inr}
use c_router.Device.{dev0, dev1, Device, Config}
use c_router.Netutil.{
  Kernel, Sockets, give, and_then, init_raw_socket, get_device_info, init_device, configure,
}
use c_router.Netutil.Opened.{IsOpened, init_raw_socket-IsOpened, IsInfo, get_device_info-IsInfo}

-- A device has its socket open, or nothing is left of it.
abbrev HasSocket : Sockets → Option Device × Sockets → Type 0
HasSocket s (none, s') = s'.opened ≡ s.opened
HasSocket s (some dev, s') = s'.opened ≡ dev.soc ∷ s.opened

-- Both devices have their sockets open, or at most the first has.
abbrev pub HasSockets : Sockets → Option Config × Sockets → Type 0
HasSockets s (none, s') = (s'.opened ≡ s.opened) ⊎ ((soc : ℕ) × (s'.opened ≡ soc ∷ s.opened))
HasSockets s (some cfg, s') = s'.opened ≡ (cfg.device dev1).soc ∷ (cfg.device dev0).soc ∷ s.opened

module _ (k : Kernel) where
  opened_last :
      (name : List ℕ) (s s1 : Sockets) (make : ℕ → Device) (out : Option ℕ × Sockets)
      → ((soc : ℕ) → (make soc).soc ≡ soc)
      → s1.opened ≡ s.opened
      → IsOpened k name false false s1 out
      → HasSocket s (and_then out (λ soc. give (make soc)))
  opened_last name s s1 make (none, s2) same e h = h ∙ e
  opened_last name s s1 make (some soc, s2) same e h =
      rw (same soc) (h.0 ∙ ap (λ (x : List ℕ). soc ∷ x) e)

  informed :
      (name : List ℕ) (s : Sockets) (out : Option (List ℕ × (ℕ × (ℕ × ℕ))) × Sockets)
      → IsInfo k name s out
      → HasSocket s (
          and_then out (λ (hwaddr, (addr, (subnet, netmask))) s1.
            and_then (init_raw_socket k name false false s1) (λ soc. give (record {
              soc = soc;
              hwaddr = hwaddr;
              addr = addr;
              subnet = subnet;
              netmask = netmask;
            }))))
  informed name s (none, s1) h = h
  informed name s (some (hwaddr, (addr, (subnet, netmask))), s1) h =
      opened_last name s s1 _ (init_raw_socket k name false false s1) (λ soc. refl) h.0
        (init_raw_socket-IsOpened k name false false s1)

  init_device-HasSocket : (name : List ℕ) (s : Sockets) → HasSocket s (init_device k name s)
  unfolding init_device
  init_device-HasSocket name s =
      informed name s (get_device_info k name s) (get_device_info-IsInfo k name s)

  both :
      (next_router : ℕ) (first : Device) (s s1 : Sockets) (out : Option Device × Sockets)
      → s1.opened ≡ first.soc ∷ s.opened
      → HasSocket s1 out
      → HasSockets s (
          and_then out (λ second. give (record {
            device = λ d. elim d [ dev0 ↦ first | dev1 ↦ second ];
            next_router = next_router;
          })))
  both next_router first s s1 (none, s2) e h = inr (first.soc, h ∙ e)
  both next_router first s s1 (some second, s2) e h = h ∙ ap (λ (x : List ℕ). second.soc ∷ x) e

  first_of_two :
      (device2 : List ℕ) (next_router : ℕ) (s : Sockets) (out : Option Device × Sockets)
      → HasSocket s out
      → HasSockets s (
          and_then out (λ first s1. and_then (init_device k device2 s1) (λ second. give (record {
            device = λ d. elim d [ dev0 ↦ first | dev1 ↦ second ];
            next_router = next_router;
          }))))
  first_of_two device2 next_router s (none, s1) h = inl h
  first_of_two device2 next_router s (some first, s1) h =
      both next_router first s s1 (init_device k device2 s1) h (init_device-HasSocket device2 s1)

  -- `main` up to `DisableIpForward`, on every path: the sockets of both devices are open and no
  -- other is left; or it failed, and at most the socket of the first device is left open.
  pub configure-HasSockets :
      (device1 device2 : List ℕ) (next_router : ℕ) (s : Sockets)
      → HasSockets s (configure k device1 device2 next_router s)
  unfolding configure
  configure-HasSockets device1 device2 next_router s =
      first_of_two device2 next_router s (init_device k device1 s) (init_device-HasSocket device1 s)

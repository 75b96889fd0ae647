-- ===== src/Process.antt =====
-- What the programs of router/ and bridge/ do around their loops: `DisableIpForward`, the handlers
-- of signals, with `EndSignal`, and the two sockets closed in the end.
pub mod Closed
use c_router.Base.{
  ℕ, List, [], ◌∷◌, Bool, true, false, Option, none, some, ℤ, pos, minus_one, ◌==◌, if◌then◌else◌,
}
use c_router.Text.{codes}
use c_router.Netutil.{Sockets, close_socket}

-- A handler: `EndSignal`, which sets `EndFlag`, or `SIG_IGN`.
pub data Handler : Type 0 where
  end_signal ignored : Handler

-- The sockets, what was written to /proc/sys/net/ipv4/ip_forward, if anything, and the handlers
-- installed, each with its signal, the latest first.
pub record Process : Type 0 where
  pub sockets : Sockets
  pub ip_forward : Option (List ℕ)
  pub handlers : List (ℕ × Handler)

-- The numbers of the signals on Linux.
abbrev pub sigint : ℕ
sigint = 2

abbrev pub sigquit : ℕ
sigquit = 3

abbrev pub sigpipe : ℕ
sigpipe = 13

abbrev pub sigterm : ℕ
sigterm = 15

abbrev pub sigttin : ℕ
sigttin = 21

abbrev pub sigttou : ℕ
sigttou = 22

-- `fopen` tells whether the file can be opened.
unfoldable pub disable_ip_forward : Bool → Process → ℤ × Process
disable_ip_forward false p = (minus_one, p)
disable_ip_forward true p = (pos 0, record p { ip_forward = some (codes "0") })

-- `signal(sig, handler)`
abbrev pub signal : ℕ → Handler → Process → Process
signal sig handler p = record p { handlers = (sig, handler) ∷ p.handlers }

-- The six calls of `signal`.
unfoldable pub catch_signals : Process → Process
catch_signals p = signal sigttou ignored (
    signal sigttin ignored (
      signal sigpipe ignored
        (signal sigquit end_signal (signal sigterm end_signal (signal sigint end_signal p)))))

-- The handler of a signal, `none` for the default.
abbrev pub handler_of : ℕ → List (ℕ × Handler) → Option Handler
handler_of sig [] = none
handler_of sig ((s, handler) ∷ handlers) =
    if s == sig then some handler else handler_of sig handlers

-- `close(Device[0].soc); close(Device[1].soc);`
unfoldable pub close_both : ℕ → ℕ → Process → Process
close_both soc0 soc1 p = record p { sockets = close_socket soc1 (close_socket soc0 p.sockets) }

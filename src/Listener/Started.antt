-- ===== src/Listener/Started.antt =====
-- How ltest and pcap start: usage, failure, or a socket and what is printed.
use c_router.Base.{
  ℕ, ◌≤◌, ◌≡◌, refl, List, [], ◌∷◌, false, Option, none, some, pos, minus_one, Outcome, ok, arith,
  length,
}
use c_router.Netutil.{Kernel, Sockets, init_raw_socket}
use c_router.Netutil.Opened.{IsOpened, init_raw_socket-IsOpened}
use c_router.Listener.{Status, returned, reading, with_socket, run}

-- Without a device, 1 and nothing opened; else -1 and every socket closed that was opened, or a
-- socket bound to the device that the first argument names, from which what is read is printed.
pub data HasStarted (k : Kernel) (text : List ℕ) (argv : List (List ℕ)) (s : Sockets)
    : Status × Sockets → Type 0 where
  usage : length argv ≤ 1 → HasStarted k text argv s (returned (pos 1), s)
  failed :
      (s' : Sockets)
      → 2 ≤ length argv
      → s'.opened ≡ s.opened
      → HasStarted k text argv s (returned minus_one, s')
  reads :
      (program device : List ℕ) (args : List (List ℕ)) (soc : ℕ) (s' : Sockets)
      → argv ≡ program ∷ device ∷ args
      → IsOpened k device false false s (some soc, s')
      → HasStarted k text argv s (reading soc text, s')

abbrev pub Starts : Kernel → List ℕ → List (List ℕ) → Sockets → Outcome (Status × Sockets) → Type 0
Starts k text argv s out =
    (end : Status × Sockets) × ((out ≡ ok end) × HasStarted k text argv s end)

by_socket :
    (k : Kernel) (text : List ℕ) (looped : Outcome (List ℕ)) (program device : List ℕ)
    (args : List (List ℕ)) (s : Sockets) (out : Option ℕ × Sockets)
    → looped ≡ ok text
    → IsOpened k device false false s out
    → Starts k text (program ∷ device ∷ args) s (with_socket looped out)
unfolding with_socket
by_socket k text looped program device args s (none, s') is h =
    (_, (refl, failed s' (omega arith) h))
by_socket k text looped program device args s (some soc, s') is h =
    rw is (_, (refl, reads program device args soc s' refl h))

-- Where the loop prints a text.
pub run-Starts :
    (k : Kernel) (text : List ℕ) (looped : Outcome (List ℕ)) (argv : List (List ℕ)) (s : Sockets)
    → looped ≡ ok text
    → Starts k text argv s (run (λ device. init_raw_socket k device false false) looped argv s)
unfolding run
run-Starts k text looped [] s is = (_, (refl, usage (omega arith)))
run-Starts k text looped (program ∷ []) s is = (_, (refl, usage (omega arith)))
run-Starts k text looped (program ∷ device ∷ args) s is =
    by_socket k text looped program device args s _ is
      (init_raw_socket-IsOpened k device false false s)

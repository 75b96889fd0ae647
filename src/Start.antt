-- ===== src/Start.antt =====
-- `main` of router/main.c: it configures the devices, and `Router` and `BufferSend` run on tables that
-- are still empty, until both have returned.
pub mod Exits
use c_router.Base.{
  Bool, true, false, if◌then◌else◌, none, ℤ, pos, minus_one, ◌≡◌, List, [], ◌∷◌, some, ℕ, All,
  arith, refl,
}
use c_router.Device.{DeviceNo, dev0, dev1, Config, World, Env, table}
use c_router.Device.Returns.{Returns}
use c_router.State.{IsTable, IsWorld}
use c_router.Router.Fields.{IsBuffer}
use c_router.Router.Loop.{Turn, router, IsTurn, Right, router-Right}
use c_router.Netutil.{Kernel, Sockets, configure}
use c_router.Process.{Process, disable_ip_forward, catch_signals, close_both}
use c_router.Threads.{System, testing, waiting, ended, returned, Reach}
use c_router.Netutil.Configured.{Answers, configure-Configured}

-- `Ip2Macs` and `SendReq` before the first frame.
abbrev pub initial : World
initial = record {
  table0 = record { entries = []; size = 0 };
  table1 = record { entries = []; size = 0 };
  send_req = [];
  sent = [];
}

initial-IsTable : (d : DeviceNo) → IsTable d (table d initial)
initial-IsTable dev0 = record { room = omega arith; unique = refl; sound = tt }
initial-IsTable dev1 = record { room = omega arith; unique = refl; sound = tt }

initial-IsWorld : IsWorld initial
initial-IsWorld = record { tables = initial-IsTable; named = tt; once = refl }

-- Where the system answers for both interfaces, `main` comes to a configuration with which
-- `Router` runs any number of turns from its start, whatever the bytes of the frames are and
-- whatever its buffer held, if a read gives at most 2048 bytes and a table can be allocated: every
-- turn returns, nothing is read or written out of range, and the state stays right.
pub start-Right :
    (k : Kernel) (device1 device2 : List ℕ) (next_router : ℕ) (s : Sockets) (turns : List Turn)
    (buf : List ℕ)
    → (a : Answers k device1 s.opened) → Answers k device2 (a.soc ∷ s.opened)
    → All IsTurn turns
    → IsBuffer buf
    → (cfg : Config) × ((after : Sockets) × ((configure k device1 device2 next_router s
            ≡ (some cfg, after))
          × Returns Right (router cfg turns buf initial)))
start-Right k device1 device2 next_router s turns buf a b ts v =
    let c = configure-Configured k device1 device2 next_router s a b in
    (
      c.cfg,
      (c.after, (c.returns, router-Right c.cfg c.right turns buf initial ts (initial-IsWorld, v))),
    )

-- The threads as `main` starts them; `thread` tells whether `pthread_create` succeeds. The buffer of
-- `Router` holds anything.
abbrev pub started : Bool → List ℕ → System
started thread buf = record {
  world = initial;
  end_flag = false;
  receiver = testing;
  buf = buf;
  sender = if thread then waiting else ended;
}

-- `main` of router/main.c returns a code and leaves a process: -1 where the configuration fails; 0
-- after the two threads have returned.
pub data Returned (k : Kernel) (fopen thread : Bool) (device1 device2 : List ℕ) (next_router : ℕ)
    (buf : List ℕ) (p : Process) : ℤ → Process → Type 0 where
  failed :
      (sockets : Sockets)
      → configure k device1 device2 next_router p.sockets ≡ (none, sockets)
      → Returned k fopen thread device1 device2 next_router buf p minus_one
          (record p { sockets = sockets })
  finished :
      (cfg : Config) (sockets : Sockets) (t : System)
      → configure k device1 device2 next_router p.sockets ≡ (some cfg, sockets)
      → Reach cfg (started thread buf) t
      → t.receiver ≡ returned
      → t.sender ≡ ended
      → Returned k fopen thread device1 device2 next_router buf p (pos 0) (
          close_both
            (cfg.device dev0).soc
            (cfg.device dev1).soc
            (catch_signals (disable_ip_forward fopen (record p { sockets = sockets })).1))

-- ===== src/Tests/Programs.antt =====
-- The bridge, the listener, and the set-up of the router.
use c_router.Base.{
  pos, ℕ, ◌+◌, ◌≤◌, ◌≡◌, refl, List, [], ◌∷◌, ◌++◌, true, false, some, ok, arith, length, take,
  replicate, none,
}
use c_router.Device.{dev0, dev1, other}
use c_router.Start.{started, finished}
use c_router.Poll.{Poll, idle, events}
use c_router.Process.{Process, disable_ip_forward, catch_signals, close_both}
use c_router.Threads.{
  System, returned, ended, Receives, Sends, Reach, here, next, by_receiver, by_sender, by_signal,
}
use c_router.Bridge.{State, bridge}
use c_router.Bridge.Program.{bridge_main}
use c_router.Bridge.Program.Exits.{Ends, bridge_main-Ends}
use c_router.Start.Exits.{HasEnded, main-HasEnded}
use c_router.Bridge.Frames.{Wrote, bridge-Wrote}
use c_router.Listener.Started.{Starts}
use c_router.Text.{concat}
use c_router.Pcap.Capture.{AllShown, pcap_main, pcap_main-Starts}
use c_router.Tests.Monitor.{live-IsDatagram}
use c_router.Ltest.{ltest_main}
use c_router.Ltest.Heard.{heard, ltest_main-Starts}
use c_router.Netutil.{Kernel, Sockets, init_raw_socket, configure}
use c_router.Netutil.Opened.{IsOpened, init_raw_socket-IsOpened}
use c_router.Netutil.Configured.{Answers, Configured, configure-Configured}
use c_router.Tests.{live, mac, working, buffer, buffer-IsBuffer}

-- A frame on the first device, an error of `poll`, and a frame that is too short on the second.
abbrev polls : List Poll
polls =
    events (record { revents = 1; bytes = live }) (record { revents = 0; bytes = [] })
    ∷ idle
    ∷ events (record { revents = 8; bytes = live }) (record { revents = 1; bytes = 1 ∷ 2 ∷ [] })
    ∷ []

abbrev state : State
state = record { buf = buffer []; sent = []; err = [] }

bridge-Wrote_example : Wrote ((dev1, live) ∷ []) (bridge true polls state)
unfolding other
bridge-Wrote_example =
    bridge-Wrote true polls state
      ((omega arith, omega arith), (tt, ((omega arith, omega arith), tt)))
      (buffer-IsBuffer [] (omega arith) tt).size

-- Sockets are numbered from 3 on.
abbrev kernel : Kernel
kernel = record {
  packet_socket = λ protocol opened. some (3 + length opened);
  inet_socket = λ opened. some (3 + length opened);
  ifindex = λ name. some (length name);
  bind = λ soc protocol index. true;
  get_flags = λ name. some 4163;
  set_flags = λ name flags. true;
  hwaddr = λ name. some (mac (length name) ++ replicate 8 0);
  addr = λ name. some (true, 4261456064);
  netmask = λ name. some 16777215;
}

abbrev no_sockets : Sockets
no_sockets = record { opened = []; bound = []; flags = [] }

init_raw_socket-IsOpened_example :
    IsOpened kernel
      (1 ∷ [])
      true
      false
      no_sockets
      (init_raw_socket kernel (1 ∷ []) true false no_sockets)
init_raw_socket-IsOpened_example = init_raw_socket-IsOpened kernel (1 ∷ []) true false no_sockets

abbrev answers : (name others : List ℕ) → length (take 15 name) ≤ 15 → Answers kernel name others
answers name others short = record {
  soc = 3 + length others;
  packet_socket = refl;
  info_soc = 3 + length others;
  inet_socket = refl;
  index = length (take 15 name);
  ifindex = refl;
  binds = refl;
  sa_data = mac (length (take 15 name)) ++ replicate 8 0;
  hwaddr = refl;
  sa_data_size = refl;
  octets = omega (arith, short);
  uaddr = 4261456064;
  addr = refl;
  mask = 16777215;
  netmask = refl;
}

configure-Configured_example :
    Configured kernel
      (1 ∷ [])
      (1 ∷ 2 ∷ [])
      no_sockets
      (configure kernel (1 ∷ []) (1 ∷ 2 ∷ []) 4278298816 no_sockets)
configure-Configured_example =
    configure-Configured kernel (1 ∷ []) (1 ∷ 2 ∷ []) 4278298816 no_sockets
      (answers (1 ∷ []) [] (omega arith)) (answers (1 ∷ 2 ∷ []) (3 ∷ []) (omega arith))

abbrev process : Process
process = record { sockets = no_sockets; ip_forward = none; handlers = [] }

bridge_main-Ends_example :
    Ends true process
      ((dev1, live) ∷ [])
      []
      (bridge_main kernel true true (1 ∷ []) (1 ∷ 2 ∷ []) polls process state)
unfolding other
bridge_main-Ends_example =
    bridge_main-Ends kernel true true process polls state
      ((omega arith, omega arith), (tt, ((omega arith, omega arith), tt)))
      (buffer-IsBuffer [] (omega arith) tt).size (1 ∷ []) (1 ∷ 2 ∷ [])

-- A run that a signal ends at once.
abbrev configured :
    Configured kernel
      (1 ∷ [])
      (1 ∷ 2 ∷ [])
      no_sockets
      (configure kernel (1 ∷ []) (1 ∷ 2 ∷ []) 4278298816 no_sockets)
configured = configure-Configured_example

abbrev signalled : System
signalled = record (started true (buffer [])) { end_flag = true }

abbrev run :
    Reach configured.cfg
      (started true (buffer []))
      (record signalled { receiver = returned; sender = ended })
run =
    next
      (next (next here (by_signal (started true (buffer [])) refl))
        (by_receiver working (Receives.returns signalled refl refl)))
      (by_sender working (Sends.returns (record signalled { receiver = returned }) refl refl))

-- The process at the end of the run.
abbrev closed : Process
closed =
    close_both (configured.cfg.device dev0).soc (configured.cfg.device dev1).soc
      (catch_signals (disable_ip_forward true (record process { sockets = configured.after })).1)

main-HasEnded_example : HasEnded true process (pos 0) closed
main-HasEnded_example =
    main-HasEnded kernel true true (1 ∷ []) (1 ∷ 2 ∷ []) 4278298816 (buffer []) process
      (finished configured.cfg configured.after _ configured.returns run refl refl)

-- A whole frame, then one of two bytes.
ltest_main-Starts_example :
    (text : List ℕ) × ((heard (live ∷ (1 ∷ 2 ∷ []) ∷ []) ≡ ok text)
      × Starts kernel text ((1 ∷ []) ∷ (1 ∷ 2 ∷ []) ∷ []) no_sockets (
          ltest_main kernel
            ((1 ∷ []) ∷ (1 ∷ 2 ∷ []) ∷ [])
            (replicate 64 0)
            (live ∷ (1 ∷ 2 ∷ []) ∷ [])
            no_sockets))
ltest_main-Starts_example =
    ltest_main-Starts kernel ((1 ∷ []) ∷ (1 ∷ 2 ∷ []) ∷ []) (replicate 64 0)
      (live ∷ (1 ∷ 2 ∷ []) ∷ []) no_sockets (omega arith, (omega arith, tt))

pcap_main-Starts_example :
    (texts : List (List ℕ)) × (AllShown (buffer []) (live ∷ []) texts
      × Starts kernel
          (concat texts)
          ((1 ∷ []) ∷ (1 ∷ 2 ∷ []) ∷ [])
          no_sockets
          (pcap_main kernel ((1 ∷ []) ∷ (1 ∷ 2 ∷ []) ∷ []) (buffer []) (live ∷ []) no_sockets))
pcap_main-Starts_example =
    pcap_main-Starts kernel ((1 ∷ []) ∷ (1 ∷ 2 ∷ []) ∷ []) (buffer []) (live ∷ []) no_sockets
      ((live-IsDatagram, refl), tt)

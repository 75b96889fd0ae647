-- ===== src/Tests/Runs.antt =====
-- The two threads, and the requests to the sending thread.
use c_router.Device.{dev0, DeviceNo, flag_ng, DataBuf, Ip2mac, World, table}
use c_router.Device.Cmd.{◌>>◌}
use c_router.Frame.{ethertype_arp}
use c_router.State.{IsTable, IsWorld}
use c_router.Router.{analyze_packet}
use c_router.Router.Packet.{IsFor}
use c_router.Base.{ℕ, minus_one}
use c_router.SendBuf.{empty}
use c_router.SendBuf.Queue.{copy, empty-IsQueue, appended-IsQueue}
use c_router.State.Resolve.{asked}
use c_router.Router.Entries.{queued}
use c_router.Router.Onward.{Waits}
use c_router.Flush.Drained.{HasOptions, outgoing}
use c_router.Flush.Waited.{Sent, waits-Sent}
use c_router.Flush.Delivered.{Delivered, learned-Delivered}
use c_router.Base.{
  List, inr, replicate, slice, ◌≡◌, ◌≢◌, refl, ap, subst, Option, none, some, [], ◌∷◌, true, false,
  arith, All,
}
use c_router.Device.{dev1, Env}
use c_router.Device.Returns.{Returns}
use c_router.Flush.{buffer_send}
use c_router.Flush.Served.{Ready, Served, buffer_send-Served}
use c_router.Threads.{
  System, testing, first, returned, waiting, sending, ended, Receives, Sends, Reach, IsSystem,
  polls, wakes, by_receiver, by_sender, by_signal, here, next,
}
use c_router.Threads.Progress.{Servable, Reach-IsSystem}
use c_router.Threads.Shutdown.{receiver_left, sender_left}
use c_router.Threads.Ended.{IsRun, shutdown-IsRun}
use c_router.Tests.{
  live, queue, queue-IsQueue, config, config-IsConfig, working, live_event, no_event, arp_reply,
  buffer, buffer-IsBuffer, busy_entry, asked_world, asked-IsWorld,
}

arp-IsFor : IsFor config dev0 (buffer arp_reply) 60 ethertype_arp
arp-IsFor = record { least = omega arith; most = omega arith; dhost = refl; ether_type = refl }

busy-Ready : Ready 2 asked_world (dev1, 0)
busy-Ready = record {
  entry = busy_entry;
  here = refl;
  used = refl;
  options = (omega arith, tt);
  few = omega arith;
}

buffer_send-Served_example :
    Returns
      (Served config ((dev1, 0) ∷ []) asked_world)
      (buffer_send config working 2 2 asked_world)
buffer_send-Served_example =
    buffer_send-Served config working 2 refl refl 2 asked_world (omega arith) asked-IsWorld
      (busy-Ready, tt)

abbrev bufs_of : Option Ip2mac → List DataBuf
bufs_of none = []
bufs_of (some e) = e.sd.bufs

abbrev at_start : System
at_start = record {
  world = asked_world;
  end_flag = false;
  receiver = testing;
  buf = buffer arp_reply;
  sender = waiting;
}

-- A frame has come on the first device, the sending thread is in its inner loop, and `EndFlag` is
-- set.
abbrev halfway : System
halfway = record at_start {
  receiver = first live_event no_event;
  sender = sending;
  end_flag = true;
}

abbrev run : Reach config at_start halfway
run =
    next
      (next
        (next here (
          by_receiver working (
            polls live_event no_event at_start refl refl (omega arith, omega arith)
              (omega arith, tt))))
        (by_sender working
          (wakes (record at_start { receiver = first live_event no_event }) refl refl)))
      (by_signal (record at_start { receiver = first live_event no_event; sender = sending }) refl)

at_start-IsSystem : IsSystem at_start
at_start-IsSystem = ((asked-IsWorld, buffer-IsBuffer arp_reply (omega arith) (omega arith)), tt)

Reach-IsSystem_example :
    IsSystem halfway
    × (((env : Env)
          → env.alloc_table ≡ true
          → halfway.receiver ≢ returned
          → (u : System) × Receives config env halfway u)
        × ((env : Env)
            → env.lock_req ≡ true
            → All (Servable halfway.world) halfway.world.send_req
            → halfway.sender ≢ ended
            → (u : System) × Sends config env halfway u))
Reach-IsSystem_example = Reach-IsSystem config config-IsConfig at_start-IsSystem run

-- The first device is handled after the signal.
abbrev handled : (u : System) × Receives config working halfway u
handled =
    (Reach-IsSystem config config-IsConfig at_start-IsSystem run).1.0 working refl
      (λ e. absurd (omega (arith, ap receiver_left e)))

abbrev one_step : Reach config halfway handled.0
one_step = next here (by_receiver working handled.1)

shutdown-IsRun_example : IsRun config halfway handled.0 one_step
shutdown-IsRun_example =
    shutdown-IsRun config config-IsConfig
      (Reach-IsSystem config config-IsConfig at_start-IsSystem run).0 refl one_step

-- The sending thread serves the request that waits halfway.
asked_Servable : Servable asked_world (dev1, 0)
asked_Servable = record {
  options = λ e at used. subst (All HasOptions) (ap bufs_of at) (omega arith, tt);
  freed = λ e at free. absurd (ground (arith, at, free));
}

served_halfway : (u : System) × Sends config working halfway u
served_halfway =
    (Reach-IsSystem config config-IsConfig at_start-IsSystem run).1.1 working refl
      (asked_Servable, tt) (λ e. absurd (omega (arith, ap sender_left e)))

-- 192.168.0.2 is not known, and a frame waits for it.
abbrev unknown_entry : Ip2mac
unknown_entry = record {
  flag = flag_ng;
  device_no = dev0;
  addr = 33597632;
  hwaddr = replicate 6 0;
  last_time = 999;
  sd = queue;
}

abbrev unknown_world : World
unknown_world = record {
  table0 = record { entries = unknown_entry ∷ []; size = 1024 };
  table1 = record { entries = []; size = 0 };
  send_req = [];
  sent = [];
}

unknown-Tables : (d : DeviceNo) → IsTable d (table d unknown_world)
unknown-Tables dev0 = record {
  room = omega arith;
  unique = refl;
  sound = (record { of_device = refl; mac = (refl, omega arith); queue = λ _. queue-IsQueue }, tt);
}
unknown-Tables dev1 = record { room = omega arith; unique = refl; sound = tt }

unknown-IsWorld : IsWorld unknown_world
unknown-IsWorld = record { tables = unknown-Tables; named = tt; once = refl }

-- Its ARP reply comes.
learned-Delivered_example :
    Returns (Delivered config dev0 0 unknown_entry (slice (buffer arp_reply) 22 6) unknown_world) (
      (analyze_packet config working dev0 (buffer arp_reply) 60 >> buffer_send config working 2 2)
        unknown_world)
learned-Delivered_example =
    learned-Delivered config working working dev0 (buffer arp_reply) 60 2 0 unknown_entry
      unknown_world (buffer-IsBuffer arp_reply (omega arith) (omega arith)) arp-IsFor (omega arith)
      (inr refl) refl refl refl refl (omega arith, tt) (omega arith) refl unknown-IsWorld
      (refl, (refl, refl)) (refl, refl)

-- 192.168.1.2 is not known yet: a frame for it waits, and the ARP request has gone out.
abbrev asked_entry : Ip2mac
asked_entry = record {
  flag = flag_ng;
  device_no = dev1;
  addr = 33663168;
  hwaddr = replicate 6 0;
  last_time = 1000;
  sd = empty;
}

abbrev empty_world : World
empty_world = record {
  table0 = record { entries = []; size = 0 };
  table1 = record { entries = []; size = 0 };
  send_req = [];
  sent = [];
}

abbrev waiting_world : World
waiting_world = record {
  table0 = record { entries = []; size = 0 };
  table1 = record { entries = queued working asked_entry (buffer live) 60 ∷ []; size = 1024 };
  send_req = [];
  sent = asked config dev1 33663168 asked_entry [];
}

abbrev live_waits :
    Waits config working dev1 33663168
      (buffer live)
      60
      empty_world
      (minus_one, buffer live)
      waiting_world
live_waits = record {
  index = 0;
  entry = asked_entry;
  here = refl;
  for_target = refl;
  in_use = refl;
  why = refl;
  code = refl;
  sent = refl;
}

waiting-Tables : (d : DeviceNo) → IsTable d (table d waiting_world)
waiting-Tables dev0 = record { room = omega arith; unique = refl; sound = tt }
waiting-Tables dev1 = record {
  room = omega arith;
  unique = refl;
  sound = (
    record {
      of_device = refl;
      mac = (refl, omega arith);
      queue = λ _. appended-IsQueue working empty (buffer live) 60 empty-IsQueue (record {
        least = omega arith;
        most = omega arith;
        present = omega arith;
        octets = (buffer-IsBuffer live (omega arith) (omega arith)).octets;
      });
    },
    tt,
  );
}

-- An ARP reply of 192.168.1.2 to the second device.
abbrev arp_reply1 : List ℕ
arp_reply1 =
    2 ∷ 0 ∷ 0 ∷ 0 ∷ 0 ∷ 11 ∷ 2 ∷ 0 ∷ 0 ∷ 0 ∷ 0 ∷ 3 ∷ 8 ∷ 6 ∷ 0 ∷ 1 ∷ 8 ∷ 0 ∷ 6 ∷ 4 ∷ 0 ∷ 2 ∷ 2 ∷ 0
    ∷ 0 ∷ 0 ∷ 0 ∷ 3 ∷ 192 ∷ 168 ∷ 1 ∷ 2 ∷ 2 ∷ 0 ∷ 0 ∷ 0 ∷ 0 ∷ 11 ∷ 192 ∷ 168 ∷ 1 ∷ 254 ∷ []

waits-Sent_example :
    Returns
      (Sent
        (outgoing config dev1 (slice (buffer arp_reply1) 22 6) (copy working (buffer live) 60) ∷ [])
        waiting_world)
      ((analyze_packet config working dev1 (buffer arp_reply1) 60 >> buffer_send config working 2 2)
        waiting_world)
waits-Sent_example =
    waits-Sent config working working working dev1 33663168 (buffer live) 60 empty_world
      waiting_world (minus_one, buffer live) live_waits (buffer arp_reply1) 60 2
      (buffer-IsBuffer arp_reply1 (omega arith) (omega arith)) refl
      (record { least = omega arith; most = omega arith; dhost = refl; ether_type = refl })
      (omega arith) (inr refl) refl tt (omega arith) (omega arith) refl
      (record { tables = waiting-Tables; named = tt; once = refl }) (refl, (refl, refl))
      (refl, refl)

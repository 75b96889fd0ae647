-- ===== src/Tests.antt =====
-- Data for the examples: the two segments of router/init.sh, a table, and frames from one host to
-- another.
pub mod Sums
pub mod Queues
pub mod Tables
pub mod Packets
pub mod Monitor
pub mod Programs
pub mod Runs
pub mod Pointers
use c_router.Base.{
  ℕ, zero, suc, ap, ◌-◌, length-append, ◌+◌, ◌*◌, ◌≤◌, ◌<◌, ◌≡◌, refl, List, [], ◌∷◌, ◌++◌, Bool,
  true, false, ℤ, pos, arith, length, replicate, All, All-append, IsByte, IsBytes,
}
use c_router.Device.{
  DeviceNo, dev0, dev1, Device, Config, flag_ok, flag_ng, DataBuf, SendData, Ip2mac, Ip2macs, World,
  Env, table,
}
use c_router.SendBuf.{empty}
use c_router.SendReq.{pending}
use c_router.SendBuf.Queue.{IsBuf, IsQueue, IsFrame, empty-IsQueue}
use c_router.Ip2Mac.{is_free}
use c_router.Ip2Mac.Entry.{IsEntry, IsMac}
use c_router.State.{IsTable, IsWorld, IsConfig}
use c_router.Poll.{Event, idle, events}
use c_router.Router.Fields.{IsBuffer}
use c_router.Router.Loop.{Turn, IsTurn}

abbrev pub ip : ℕ → ℕ → ℕ → ℕ → ℕ
ip a b c d = a + 256 * b + 65536 * c + 16777216 * d

abbrev pub mac : ℕ → List ℕ
mac n = 2 ∷ 0 ∷ 0 ∷ 0 ∷ 0 ∷ n ∷ []

-- 192.168.0.254 and 192.168.1.254
abbrev pub device0 : Device
device0 = record { soc = 3; hwaddr = mac 10; addr = 4261456064; subnet = 43200; netmask = 16777215 }

abbrev pub device1 : Device
device1 = record {
  soc = 4;
  hwaddr = mac 11;
  addr = 4261521600;
  subnet = 108736;
  netmask = 16777215;
}

abbrev pub device_of : DeviceNo → Device
device_of dev0 = device0
device_of dev1 = device1

abbrev pub config : Config
config = record { device = device_of; next_router = 4261521600 }

device_of-IsMac : (d : DeviceNo) → IsMac (device_of d).hwaddr
device_of-IsMac dev0 = (refl, omega arith)
device_of-IsMac dev1 = (refl, omega arith)

pub config-IsConfig : IsConfig config
config-IsConfig = record { macs = device_of-IsMac }

abbrev pub working : Env
working = record {
  now = 1000;
  alloc_buf = true;
  alloc_bytes = true;
  alloc_req = true;
  alloc_table = true;
  lock_sd = true;
  lock_req = true;
}

-- An Ethernet and an IP header, 192.168.0.2 to 192.168.1.2, of the TTL and the checksum given.
abbrev pub headers : ℕ → ℕ → ℕ → List ℕ
headers ttl check0 check1 =
    2 ∷ 0 ∷ 0 ∷ 0 ∷ 0 ∷ 10 ∷ 2 ∷ 0 ∷ 0 ∷ 0 ∷ 0 ∷ 2 ∷ 8 ∷ 0 ∷ 69 ∷ 0 ∷ 0 ∷ 46 ∷ 0 ∷ 1 ∷ 0 ∷ 0 ∷ ttl
    ∷ 17 ∷ check0 ∷ check1 ∷ 192 ∷ 168 ∷ 0 ∷ 2 ∷ 192 ∷ 168 ∷ 1 ∷ 2 ∷ []

abbrev pub live : List ℕ
live = headers 64 248 105

abbrev pub dying : List ℕ
dying = headers 1 55 106

-- An ARP reply of 192.168.0.2.
abbrev pub arp_reply : List ℕ
arp_reply =
    2 ∷ 0 ∷ 0 ∷ 0 ∷ 0 ∷ 10 ∷ 2 ∷ 0 ∷ 0 ∷ 0 ∷ 0 ∷ 2 ∷ 8 ∷ 6 ∷ 0 ∷ 1 ∷ 8 ∷ 0 ∷ 6 ∷ 4 ∷ 0 ∷ 2 ∷ 2 ∷ 0
    ∷ 0 ∷ 0 ∷ 0 ∷ 2 ∷ 192 ∷ 168 ∷ 0 ∷ 2 ∷ 2 ∷ 0 ∷ 0 ∷ 0 ∷ 0 ∷ 10 ∷ 192 ∷ 168 ∷ 0 ∷ 254 ∷ []

replicate-IsBytes : (n b : ℕ) → IsByte b → IsBytes (replicate n b)
replicate-IsBytes zero b h = tt
replicate-IsBytes (suc n) b h = (h, replicate-IsBytes n b h)

-- The buffer with a frame at its start.
abbrev pub buffer : List ℕ → List ℕ
buffer frame = frame ++ replicate (2048 - length frame) 0

length-replicate : (n b : ℕ) → length (replicate n b) ≡ n
length-replicate zero b = refl
length-replicate (suc n) b = ap suc (length-replicate n b)

pub buffer-IsBuffer :
    (frame : List ℕ) → length frame ≤ 2048 → IsBytes frame → IsBuffer (buffer frame)
buffer-IsBuffer frame h hb = record {
  size = omega (
    arith,
    length-append frame (replicate (2048 - length frame) 0),
    length-replicate (2048 - length frame) 0,
  );
  octets =
      All-append IsByte frame (replicate (2048 - length frame) 0) hb
        (replicate-IsBytes (2048 - length frame) 0 (omega arith));
}

-- A frame on the first device; nothing; and `EndFlag` set.
abbrev pub live_event : Event
live_event = record { revents = 1; bytes = live }

abbrev pub no_event : Event
no_event = record { revents = 0; bytes = [] }

abbrev pub turns : List Turn
turns =
    record { end_flag = false; poll = events live_event no_event; env = working }
    ∷ record { end_flag = false; poll = idle; env = working }
    ∷ record { end_flag = true; poll = idle; env = working }
    ∷ []

pub turns-AllTurns : All IsTurn turns
turns-AllTurns =
    ((refl, ((omega arith, omega arith), (omega arith, tt))), ((refl, tt), ((refl, tt), tt)))

-- A frame that waits.
abbrev pub waiting : DataBuf
waiting = record { t = 990; size = 34; bytes = live }

abbrev pub queue : SendData
queue = record { bufs = waiting ∷ []; dno = 1; in_bucket_size = 34 }

pub waiting-IsBuf : IsBuf waiting
waiting-IsBuf = record {
  least = omega arith;
  most = omega arith;
  stored = refl;
  bytes = omega arith;
}

pub queue-IsQueue : IsQueue queue
queue-IsQueue = record {
  counted = refl;
  weighed = refl;
  light = omega arith;
  frames = (waiting-IsBuf, tt);
}

-- 192.168.1.2, known and idle, and known with a frame that waits.
abbrev pub idle_entry : Ip2mac
idle_entry = record {
  flag = flag_ok;
  device_no = dev1;
  addr = 33663168;
  hwaddr = mac 3;
  last_time = 990;
  sd = empty;
}

abbrev pub busy_entry : Ip2mac
busy_entry = record {
  flag = flag_ok;
  device_no = dev1;
  addr = 33663168;
  hwaddr = mac 3;
  last_time = 990;
  sd = queue;
}

abbrev pub world_of : Ip2mac → World
world_of e = record {
  table0 = record { entries = []; size = 0 };
  table1 = record { entries = e ∷ []; size = 1024 };
  send_req = [];
  sent = [];
}

world_of-IsTable :
    (e : Ip2mac)
    → IsEntry dev1 e
    → is_free e.flag ≡ false
    → (d : DeviceNo) → IsTable d (table d (world_of e))
world_of-IsTable e is used dev0 = record { room = omega arith; unique = refl; sound = tt }
world_of-IsTable e is used dev1 = record {
  room = omega arith;
  unique = ground (arith, used);
  sound = (is, tt);
}

pub world_of-IsWorld : (e : Ip2mac) → IsEntry dev1 e → is_free e.flag ≡ false → IsWorld (world_of e)
world_of-IsWorld e is used = record { tables = world_of-IsTable e is used; named = tt; once = refl }

pub idle-IsWorld : IsWorld (world_of idle_entry)
idle-IsWorld =
    world_of-IsWorld idle_entry
      (record { of_device = refl; mac = (refl, omega arith); queue = λ _. empty-IsQueue }) refl

pub busy-IsWorld : IsWorld (world_of busy_entry)
busy-IsWorld =
    world_of-IsWorld busy_entry
      (record { of_device = refl; mac = (refl, omega arith); queue = λ _. queue-IsQueue }) refl

-- A request for the entry at which a frame waits.
abbrev pub asked_world : World
asked_world = record (world_of busy_entry) { send_req = (dev1, 0) ∷ [] }

asked-Tables : (d : DeviceNo) → IsTable d (table d asked_world)
asked-Tables dev0 = busy-IsWorld.tables dev0
asked-Tables dev1 = busy-IsWorld.tables dev1

pub asked-IsWorld : IsWorld asked_world
unfolding pending
asked-IsWorld = record { tables = asked-Tables; named = (omega arith, tt); once = refl }

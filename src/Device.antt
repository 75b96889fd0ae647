-- ===== src/Device.antt =====
-- router/base.h, and the state that the functions of router/ share: the configuration that
-- `main` fills in (`Device`, `NextRouter`), the world that the functions change, and what the
-- system answers during one call.
pub mod Cmd
pub mod Returns
pub mod Adds
use c_router.Base.{ℕ, ◌++◌, List, [], ◌∷◌, Bool, true, false, Option, Outcome, ok, fault}

-- An index of `Device[2]` and `Ip2Macs[2]`.
pub data DeviceNo : Type 0 where
  dev0 dev1 : DeviceNo

-- `!deviceNo`
unfoldable pub other : DeviceNo → DeviceNo
other dev0 = dev1
other dev1 = dev0

-- `DEVICE`. An `in_addr_t` is the number that its four bytes in memory make, little-endian.
pub record Device : Type 0 where
  pub soc : ℕ
  pub hwaddr : List ℕ
  pub addr : ℕ
  pub subnet : ℕ
  pub netmask : ℕ

pub record Config : Type 0 where
  pub device : DeviceNo → Device
  pub next_router : ℕ

-- `FLAG_FREE`, `FLAG_OK`, `FLAG_NG`
pub data Flag : Type 0 where
  flag_free flag_ok flag_ng : Flag

-- `DATA_BUF` without its links.
pub record DataBuf : Type 0 where
  pub t : ℕ
  pub size : ℕ
  pub bytes : List ℕ

-- `SEND_DATA`, its list from `top` to `bottom`.
pub record SendData : Type 0 where
  pub bufs : List DataBuf
  pub dno : ℕ
  pub in_bucket_size : ℕ

-- `IP2MAC`
pub record Ip2mac : Type 0 where
  pub flag : Flag
  pub device_no : DeviceNo
  pub addr : ℕ
  pub hwaddr : List ℕ
  pub last_time : ℕ
  pub sd : SendData

-- An element of `Ip2Macs[2]`: the `no` entries in use, and the room allocated. `no` is the
-- length of `entries`.
pub record Ip2macs : Type 0 where
  pub entries : List Ip2mac
  pub size : ℕ

-- `Ip2Macs`, the list of `SendReq` from `top` to `bottom`, and the frames handed to `write`, each
-- with its socket, oldest first.
pub record World : Type 0 where
  pub table0 : Ip2macs
  pub table1 : Ip2macs
  pub send_req : List (DeviceNo × ℕ)
  pub sent : List (ℕ × List ℕ)

-- What the calls of the system return during one call of a function: the time, which `malloc` and
-- `realloc` succeed, and which locks are taken.
pub record Env : Type 0 where
  pub now : ℕ
  pub alloc_buf : Bool
  pub alloc_bytes : Bool
  pub alloc_req : Bool
  pub alloc_table : Bool
  pub lock_sd : Bool
  pub lock_req : Bool

abbrev pub table : DeviceNo → World → Ip2macs
table dev0 w = w.table0
table dev1 w = w.table1

abbrev pub with_table : DeviceNo → Ip2macs → World → World
with_table dev0 t w = record w { table0 = t }
with_table dev1 t w = record w { table1 = t }

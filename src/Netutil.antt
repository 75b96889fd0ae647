-- ===== src/Netutil.antt =====
-- `InitRawSocket` and `GetDeviceInfo` of router/netutil.c, and
-- the start of `main` in router/main.c, which fills in `Device` and `NextRouter`. The system calls
-- are the fields of a `Kernel`.
pub mod Opened
pub mod Configured
pub mod Print
pub mod Left
use c_router.Base.{
  ℕ, zero, suc, ◌+◌, ◌-◌, ◌%◌, ◌/◌, List, [], ◌∷◌, ◌++◌, Bool, true, false, not, Option, none, some,
  ◌==◌, if◌then◌else◌, take, bit_and,
}
use c_router.Device.{DeviceNo, dev0, dev1, Device, Config}

-- What the calls of the system answer; `none` and `false` are their errors. `hwaddr` is the 14
-- bytes of `sa_data`, and `addr` tells whether the family is `PF_INET`. A socket depends on those that
-- are open.
pub record Kernel : Type 0 where
  pub packet_socket : ℕ → List ℕ → Option ℕ
  pub inet_socket : List ℕ → Option ℕ
  pub ifindex : List ℕ → Option ℕ
  pub bind : ℕ → ℕ → ℕ → Bool
  pub get_flags : List ℕ → Option ℕ
  pub set_flags : List ℕ → ℕ → Bool
  pub hwaddr : List ℕ → Option (List ℕ)
  pub addr : List ℕ → Option (Bool × ℕ)
  pub netmask : List ℕ → Option ℕ

-- What the calls change: the sockets open, the latest first, what they are bound to, and the flags
-- set of interfaces.
pub record Sockets : Type 0 where
  pub opened : List ℕ
  pub bound : List (ℕ × (ℕ × ℕ))
  pub flags : List (List ℕ × ℕ)

-- A function that may return -1, `none`.
abbrev pub Run : Type 0 → Type 0
Run A = Sockets → Option A × Sockets

abbrev pub give : {A : Type 0} → A → Run A
give a s = (some a, s)

abbrev pub and_then : {A B : Type 0} → Option A × Sockets → (A → Run B) → Option B × Sockets
and_then (none, s) f = (none, s)
and_then (some a, s) f = f a s

infixl 5 ◌>>=◌
abbrev pub ◌>>=◌ : {A B : Type 0} → Run A → (A → Run B) → Run B
◌>>=◌ m f s = and_then (m s) f

-- `close`
abbrev pub remove : ℕ → List ℕ → List ℕ
remove soc [] = []
remove soc (x ∷ xs) = if x == soc then xs else x ∷ remove soc xs

abbrev pub close_socket : ℕ → Sockets → Sockets
close_socket soc s = record s { opened = remove soc s.opened }

-- `close(soc)`
abbrev pub closing : ℕ → Run (Unit {0})
closing soc s = (some tt, close_socket soc s)

-- `if ((soc = socket(…)) < 0) return (-1);`, by what `socket` returned.
abbrev pub acquired : Option ℕ → Run ℕ
acquired none s = (none, s)
acquired (some soc) s = (some soc, record s { opened = soc ∷ s.opened })

abbrev pub open_socket : (List ℕ → Option ℕ) → Run ℕ
open_socket socket s = acquired (socket s.opened) s

-- `close(soc); return (-1);` where a call failed.
abbrev pub or_close : {A : Type 0} → ℕ → Option A → Run A
or_close soc none s = (none, close_socket soc s)
or_close soc (some a) s = (some a, s)

-- `ETH_P_IP`, `ETH_P_ALL`
abbrev pub protocol : Bool → ℕ
protocol true = 0x0800
protocol false = 0x0003

-- `strncpy(ifreq.ifr_name, device, sizeof(ifreq.ifr_name) - 1)`
abbrev pub ifr_name : List ℕ → List ℕ
ifr_name device = take 15 device

-- `flags | IFF_PROMISC`, bit 8.
abbrev pub with_promisc : ℕ → ℕ
with_promisc flags = if flags / 256 % 2 == 1 then flags else flags + 256

module _ (k : Kernel) where
  pub bind_socket : ℕ → ℕ → ℕ → Run (Unit {0})
  bind_socket soc sll_protocol sll_ifindex s =
      if k.bind soc sll_protocol sll_ifindex
      then (some tt, record s { bound = (soc, (sll_protocol, sll_ifindex)) ∷ s.bound })
      else (none, close_socket soc s)

  pub set_promisc : ℕ → List ℕ → ℕ → Run (Unit {0})
  set_promisc soc name flags s =
      if k.set_flags name flags
      then (some tt, record s { flags = (name, flags) ∷ s.flags })
      else (none, close_socket soc s)

  -- `if (promiscFlag) …`
  pub promiscuous : Bool → ℕ → List ℕ → Run (Unit {0})
  promiscuous false soc name = give tt
  promiscuous true soc name = do
    flags ← or_close soc (k.get_flags name)
    set_promisc soc name (with_promisc flags)

  pub init_raw_socket : List ℕ → Bool → Bool → Run ℕ
  init_raw_socket device promisc_flag ip_only = do
    soc ← open_socket (k.packet_socket (protocol ip_only))
    index ← or_close soc (k.ifindex (ifr_name device))
    bound ← bind_socket soc (protocol ip_only) index
    set ← promiscuous promisc_flag soc (ifr_name device)
    give soc

  -- `sa_family != PF_INET`
  pub inet_only : ℕ → Bool × ℕ → Run ℕ
  inet_only soc (true, addr) s = (some addr, s)
  inet_only soc (false, addr) s = (none, close_socket soc s)

  -- `hwaddr`, `uaddr`, `subnet` and `mask`.
  pub get_device_info : List ℕ → Run (List ℕ × (ℕ × (ℕ × ℕ)))
  get_device_info device = do
    soc ← open_socket k.inet_socket
    sa_data ← or_close soc (k.hwaddr (ifr_name device))
    answer ← or_close soc (k.addr (ifr_name device))
    uaddr ← inet_only soc answer
    mask ← or_close soc (k.netmask (ifr_name device))
    closed ← closing soc
    give (take 6 sa_data, (uaddr, (bit_and uaddr mask, mask)))

  -- One element of `Device`.
  pub init_device : List ℕ → Run Device
  init_device name = do
    (hwaddr, (addr, (subnet, netmask))) ← get_device_info name
    soc ← init_raw_socket name false false
    give (record { soc = soc; hwaddr = hwaddr; addr = addr; subnet = subnet; netmask = netmask })

  -- `main` up to `DisableIpForward`, of `Param.Device1`, `Param.Device2` and the address that
  -- `inet_aton` makes of `Param.NextRouter`.
  pub configure : List ℕ → List ℕ → ℕ → Run Config
  configure device1 device2 next_router = do
    first ← init_device device1
    second ← init_device device2
    give (record {
      device = λ d. elim d [ dev0 ↦ first | dev1 ↦ second ];
      next_router = next_router;
    })

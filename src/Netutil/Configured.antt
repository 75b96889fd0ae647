-- ===== src/Netutil/Configured.antt =====
-- The start of `main` in router/main.c: the configuration that `Router` works with.
use c_router.Base.{
  ℕ, ◌≡◌, refl, List, ◌∷◌, true, false, Option, some, take, length, length-take, All-take, IsBytes,
  IsByte, bit_and, arith,
}
use c_router.Device.{DeviceNo, dev0, dev1, Device, Config}
use c_router.Ip2Mac.Entry.{IsMac}
use c_router.State.{IsConfig}
use c_router.Netutil.{
  Kernel, Sockets, ifr_name, protocol, bind_socket, promiscuous, init_raw_socket, inet_only,
  get_device_info, init_device, configure,
}
use c_router.Netutil.Opened.{remove_head}

-- A system on which every call for the interface succeeds, while these sockets are open.
pub record Answers (k : Kernel) (device : List ℕ) (others : List ℕ) : Type 0 where
  pub soc : ℕ
  pub packet_socket : k.packet_socket (protocol false) others ≡ some soc
  pub info_soc : ℕ
  pub inet_socket : k.inet_socket others ≡ some info_soc
  pub index : ℕ
  pub ifindex : k.ifindex (ifr_name device) ≡ some index
  pub binds : k.bind soc (protocol false) index ≡ true
  pub sa_data : List ℕ
  pub hwaddr : k.hwaddr (ifr_name device) ≡ some sa_data
  pub sa_data_size : length sa_data ≡ 14
  pub octets : IsBytes sa_data
  pub uaddr : ℕ
  pub addr : k.addr (ifr_name device) ≡ some (true, uaddr)
  pub mask : ℕ
  pub netmask : k.netmask (ifr_name device) ≡ some mask

module _ (k : Kernel) (device : List ℕ) (s : Sockets) (a : Answers k device s.opened) where
  -- The element of `Device` for the interface.
  abbrev pub device_of : Device
  device_of = record {
    soc = a.soc;
    hwaddr = take 6 a.sa_data;
    addr = a.uaddr;
    subnet = bit_and a.uaddr a.mask;
    netmask = a.mask;
  }

  abbrev pub sockets_of : Sockets
  sockets_of = record {
    opened = a.soc ∷ s.opened;
    bound = (a.soc, (protocol false, a.index)) ∷ s.bound;
    flags = s.flags;
  }

  device_of-IsMac : IsMac device_of.hwaddr
  device_of-IsMac =
      (omega (arith, length-take 6 a.sa_data, a.sa_data_size), All-take IsByte 6 a.sa_data a.octets)

  init_device-value : init_device k device s ≡ (some device_of, sockets_of)
  unfolding init_device get_device_info init_raw_socket bind_socket promiscuous inet_only
  init_device-value =
      rw
        (
          a.inet_socket,
          a.hwaddr,
          a.addr,
          a.netmask,
          remove_head a.info_soc s.opened,
          a.packet_socket,
          a.ifindex,
          a.binds,
        )
        refl

-- What `main` leaves before it starts the threads.
pub record Configured (k : Kernel) (device1 device2 : List ℕ) (s : Sockets)
    (out : Option Config × Sockets) : Type 0 where
  pub cfg : Config
  pub after : Sockets
  pub returns : out ≡ (some cfg, after)
  pub right : IsConfig cfg
  pub inside :
      (d : DeviceNo) → bit_and (cfg.device d).addr (cfg.device d).netmask ≡ (cfg.device d).subnet
  pub opened : after.opened ≡ (cfg.device dev1).soc ∷ (cfg.device dev0).soc ∷ s.opened

-- Where the system answers for both interfaces, with 14 bytes for a MAC address, `main` comes to a
-- configuration that the router can work with: the MAC addresses have 6 bytes, each device's
-- address lies in its subnet, and of the sockets opened the two of the devices are still open.
pub configure-Configured :
    (k : Kernel) (device1 device2 : List ℕ) (next_router : ℕ) (s : Sockets)
    → (a : Answers k device1 s.opened) → Answers k device2 (a.soc ∷ s.opened)
    → Configured k device1 device2 s (configure k device1 device2 next_router s)
unfolding configure
configure-Configured k device1 device2 next_router s a b =
    rw (init_device-value k device1 s a, init_device-value k device2 (sockets_of k device1 s a) b)
      (record {
        cfg = _;
        after = _;
        returns = refl;
        right = record { macs = macs };
        inside = inside;
        opened = refl;
      })
  where
    cfg : Config
    cfg = record {
      device = λ d. elim d [
        | dev0 ↦ device_of k device1 s a
        | dev1 ↦ device_of k device2 (sockets_of k device1 s a) b
      ];
      next_router = next_router;
    }

    macs : (d : DeviceNo) → IsMac (cfg.device d).hwaddr
    macs dev0 = device_of-IsMac k device1 s a
    macs dev1 = device_of-IsMac k device2 (sockets_of k device1 s a) b

    inside :
        (d : DeviceNo) → bit_and (cfg.device d).addr (cfg.device d).netmask ≡ (cfg.device d).subnet
    inside dev0 = refl
    inside dev1 = refl

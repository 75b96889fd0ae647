-- ===== src/Router.antt =====
-- router/main.c: `AnalyzePacket`, which forwards a frame, queues it or answers it, and `Router`.
pub mod Entries
pub mod Onward
pub mod Fields
pub mod Packet
pub mod Verdicts
pub mod Loop
pub mod Adds
use c_router.Base.{
  ℕ, ◌+◌, ◌-◌, List, [], ◌∷◌, Bool, true, false, ◌&&◌, ◌||◌, not, Option, none, some, ltb, leb,
  ◌==◌, if◌then◌else◌, ℤ, pos, negsuc, minus_one, Outcome, ok, fault, length, set, load, store,
  bytes2, bit_and,
}
use c_router.Checksum.{sizeof_iphdr, checksum2, check_ip_checksum}
use c_router.Device.{
  DeviceNo, other, Device, Config, Ip2mac, Ip2macs, World, Env, table, with_table,
}
use c_router.Device.Cmd.{M, pure, ◌>>=◌, ◌>>◌, lift, write}
use c_router.Frame.{
  sizeof_ether_header, sizeof_ether_arp, ethertype_ip, ethertype_arp, u8, u16_net, in_addr,
  same_bytes, option_length, read_option,
}
use c_router.Forward.{rewrite}
use c_router.SendBuf.{append_send_data}
use c_router.Ip2Mac.{is_ng, ip2mac, entry_at}
use c_router.Icmp.{send_icmp_time_exceeded}

-- A write through the pointer that `Ip2Mac` returned.
unfoldable pub put_entry : DeviceNo → ℕ → Ip2mac → M (Unit {0})
put_entry d i e w =
    let t = table d w in ok (tt, with_table d (record t { entries = set t.entries i e }) w)

-- `AppendSendData(ip2mac, 1, addr, data, size)`, its return code unused.
pub queue_frame : Env → DeviceNo → ℕ → Ip2mac → List ℕ → ℕ → M (Unit {0})
queue_frame env d i e bytes size = do
  (code, sd) ← lift (append_send_data env e.sd bytes size)
  put_entry d i (record e { sd = sd })

-- What `AnalyzePacket` returns, and the buffer as it leaves it.
abbrev pub Verdict : Type 0
Verdict = ℤ × List ℕ

-- `optionLen >= 1500`
abbrev pub too_big : ℤ → Bool
too_big (pos n) = leb 1500 n
too_big (negsuc n) = false

module _ (cfg : Config) (env : Env) where
  -- The frame goes out of device `tno` towards `target`: sent on, or queued until the MAC address
  -- is known.
  pub forward : DeviceNo → ℕ → List ℕ → ℕ → List ℕ → ℤ → M Verdict
  forward tno target bytes size option option_len = do
    i ← ip2mac cfg env tno target none
    e ← entry_at tno i
    let dev = cfg.device tno
    if is_ng e.flag || not (e.sd.dno == 0)
        then (queue_frame env tno i e bytes size >> pure (minus_one, bytes))
        else (do
          bytes' ← lift (rewrite bytes e.hwaddr dev.hwaddr option option_len)
          frame ← lift (load bytes' 0 size)
          write dev.soc frame
          pure (pos 0, bytes'))

  -- The frame is for the router, for the other segment, or for the next router.
  pub route : DeviceNo → List ℕ → ℕ → List ℕ → ℤ → M Verdict
  route tno bytes size option option_len = do
    daddr ← lift (in_addr bytes 30)
    let dev = cfg.device tno
    if bit_and daddr dev.netmask == dev.subnet
        then (if daddr == dev.addr
            then pure (pos 1, bytes)
            else forward tno daddr bytes size option option_len)
        else forward tno cfg.next_router bytes size option option_len

  pub analyze_ip : DeviceNo → List ℕ → ℕ → M Verdict
  analyze_ip d bytes size =
      if ltb (size - sizeof_ether_header) sizeof_iphdr then pure (minus_one, bytes) else do
        version_ihl ← lift (u8 bytes 14)
        let option_len = option_length version_ihl
        if too_big option_len then pure (minus_one, bytes) else do
          option ← lift (read_option bytes option_len)
          iphdr ← lift (load bytes 14 sizeof_iphdr)
          good ← lift (check_ip_checksum iphdr option option_len)
          ttl ← lift (u8 bytes 22)
          if not good
              then pure (minus_one, bytes)
              else if ttl == 1
              then (send_icmp_time_exceeded cfg d bytes >> pure (minus_one, bytes))
              else route (other d) bytes size option option_len

  pub analyze_arp : DeviceNo → List ℕ → ℕ → M Verdict
  analyze_arp d bytes size =
      if ltb (size - sizeof_ether_header) sizeof_ether_arp then pure (minus_one, bytes) else do
        arp_op ← lift (u16_net bytes 20)
        arp_sha ← lift (load bytes 22 6)
        arp_spa ← lift (in_addr bytes 28)
        if arp_op == 1 || arp_op == 2
            then (ip2mac cfg env d arp_spa (some arp_sha) >> pure (pos 0, bytes))
            else pure (pos 0, bytes)

  pub analyze_packet : DeviceNo → List ℕ → ℕ → M Verdict
  analyze_packet d bytes size = if ltb size sizeof_ether_header then pure (minus_one, bytes) else do
    ether_dhost ← lift (load bytes 0 6)
    ether_type ← lift (u16_net bytes 12)
    if not (same_bytes ether_dhost (cfg.device d).hwaddr)
        then pure (minus_one, bytes)
        else if ether_type == ethertype_arp
        then analyze_arp d bytes size
        else if ether_type == ethertype_ip
        then analyze_ip d bytes size
        else pure (pos 0, bytes)

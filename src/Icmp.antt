-- ===== src/Icmp.antt =====
-- `SendIcmpTimeExceeded` of router/main.c.
pub mod Reply
pub mod Adds
use c_router.Base.{ℕ, List, [], ◌∷◌, ◌++◌, ℤ, pos, Outcome, ok, fault, load, bytes2, bytes4}
use c_router.Checksum.{checksum, checksum2}
use c_router.Checksum.Header.{with_check}
use c_router.Device.{DeviceNo, Device, Config}
use c_router.Device.Cmd.{M, ◌>>=◌, ◌>>◌, lift, write}
use c_router.Arp.{ether_header}

-- The IP header: version 4, 5 words, length `sizeof(struct icmp) + 64` = 92, TTL 64, protocol 1
-- (ICMP), the checksum field 0.
abbrev pub reply_iphdr : ℕ → List ℕ → List ℕ
reply_iphdr saddr daddr =
    0x45 ∷ 0 ∷ 0 ∷ 92 ∷ 0 ∷ 0 ∷ 0 ∷ 0 ∷ 64 ∷ 1 ∷ 0 ∷ 0 ∷ (bytes4 saddr ++ daddr)

-- The first 8 bytes of `struct icmp`: `ICMP_TIME_EXCEEDED`, `ICMP_TIMXCEED_INTRANS`, the checksum.
abbrev pub time_exceeded : ℕ → List ℕ
time_exceeded cksum = 11 ∷ 0 ∷ (bytes2 cksum ++ (0 ∷ 0 ∷ 0 ∷ 0 ∷ []))

-- The source MAC and IP addresses of the frame are read out of its memory `bytes`.
pub send_icmp_time_exceeded : Config → DeviceNo → List ℕ → M (Unit {0})
send_icmp_time_exceeded cfg d bytes = do
  let dev = cfg.device d
  ether_shost ← lift (load bytes 6 6)
  saddr ← lift (load bytes 26 4)
  check ← lift (checksum (reply_iphdr dev.addr saddr) 20)
  ipptr ← lift (load bytes 14 64)
  cksum ← lift (checksum2 (time_exceeded 0) 8 ipptr (pos 64))
  write dev.soc (
      ether_header ether_shost dev.hwaddr 8 0
      ++ (with_check (reply_iphdr dev.addr saddr) check ++ (time_exceeded cksum ++ ipptr)))

-- ===== src/Router/Packet.antt =====
-- `AnalyzePacket`: what becomes of a frame.
use c_router.Base.{
  ℕ, ◌-◌, ◌≤◌, ◌<◌, ◌≡◌, ◌⊎◌, refl, ◌∙◌, List, Bool, true, false, Bool-cases, inl, inr, not, ◌&&◌,
  ◌==◌, ltb, if◌then◌else◌, pos, minus_one, pos_part, ok, arith, load-ok, slice, byte_at, bit_and,
  lt→ltb,
}
use c_router.Device.{DeviceNo, other, Config, World, Env}
use c_router.Device.Cmd.{pure, ◌>>◌}
use c_router.Device.Returns.{Returns}
use c_router.Device.Returns
use c_router.SendBuf.Queue.{IsFrame}
use c_router.Frame.{u8-ok, same_bytes, ethertype_ip, ethertype_arp}
use c_router.State.{IsConfig, IsWorld}
use c_router.Icmp.{send_icmp_time_exceeded}
use c_router.Router.{Verdict, forward, route, analyze_ip, analyze_arp, analyze_packet}
use c_router.Router.Onward.{Forwarded, forward-Forwarded}
use c_router.Router.Fields.{
  IsBuffer, net16_at, addr_at, u16_net-ok, in_addr-ok, opt_len, opts, too_big-option_length, good,
  slice-IsBytes, length-opts, read_option-opts, check-good,
}

-- What `route` makes of a frame: it is for the router itself, for a host of the other segment, or
-- for the next router.
abbrev pub in_segment : Config → DeviceNo → ℕ → Bool
in_segment cfg tno daddr = bit_and daddr (cfg.device tno).netmask == (cfg.device tno).subnet

abbrev pub target_of : Config → DeviceNo → ℕ → ℕ
target_of cfg tno daddr = if in_segment cfg tno daddr then daddr else cfg.next_router

abbrev pub is_mine : Config → DeviceNo → ℕ → Bool
is_mine cfg tno daddr = in_segment cfg tno daddr && daddr == (cfg.device tno).addr

abbrev pub Routed : Config → Env → DeviceNo → List ℕ → ℕ → World → Verdict → World → Type 0
Routed cfg env tno bytes size w v w' =
    let daddr = addr_at bytes 30 in
    ((is_mine cfg tno daddr ≡ true) × (v ≡ (pos 1, bytes)) × (w' ≡ w))
    ⊎ ((is_mine cfg tno daddr ≡ false)
        × Forwarded cfg env tno (target_of cfg tno daddr) bytes size (opts bytes) (opt_len bytes) w
            v w')

module _ (cfg : Config) (env : Env) (bytes : List ℕ) (size : ℕ) (w : World)
    (b : IsBuffer bytes) where
  pub route-Routed :
      (tno : DeviceNo)
      → IsConfig cfg
      → IsFrame bytes size
      → IsWorld w
      → env.alloc_table ≡ true
      → Returns
          (Routed cfg env tno bytes size w)
          (route cfg env tno bytes size (opts bytes) (opt_len bytes) w)
  unfolding route
  route-Routed tno c f v alloc =
      Returns.bind_of_eq (Routed cfg env tno bytes size w) _ w
        (in_addr-ok bytes 30 (omega (arith, b.size)))
        (elim (Bool-cases (in_segment cfg tno daddr)) [
          | inr outside ↦ rw outside (onward cfg.next_router (ground arith) (rw outside refl))
          | inl inside ↦ elim (Bool-cases (daddr == (cfg.device tno).addr)) [
            | inl mine ↦ rw (inside, mine) (inl (ground arith, refl, refl))
            | inr foreign ↦ rw (inside, foreign) (onward daddr (ground arith) (rw inside refl))
          ]
        ])
    where
      daddr : ℕ
      daddr = addr_at bytes 30

      onward :
          (target : ℕ)
          → is_mine cfg tno daddr ≡ false
          → target ≡ target_of cfg tno daddr
          → Returns
              (Routed cfg env tno bytes size w)
              (forward cfg env tno target bytes size (opts bytes) (opt_len bytes) w)
      onward target foreign same =
          Returns.weaken (Forwarded cfg env tno target bytes size (opts bytes) (opt_len bytes) w)
            (Routed cfg env tno bytes size w)
            (forward cfg env tno target bytes size (opts bytes) (opt_len bytes) w)
            (forward-Forwarded cfg env tno target bytes size (opts bytes) (opt_len bytes) w c f
              (length-opts bytes b) (slice-IsBytes bytes b 34 (pos_part (opt_len bytes))) v alloc)
            (λ out w' h. inr (foreign, rw same at h))

  -- `analyze_ip` past its reads.
  pub analyze_ip-value :
      (d : DeviceNo)
      → 34 ≤ size
      → analyze_ip cfg env d bytes size w
        ≡ (if not (good bytes)
              then pure (minus_one, bytes)
              else if byte_at bytes 22 == 1
              then (send_icmp_time_exceeded cfg d bytes >> pure (minus_one, bytes))
              else route cfg env (other d) bytes size (opts bytes) (opt_len bytes))
            w
  unfolding analyze_ip
  analyze_ip-value d long =
      let not_short : ltb (size - 14) 20 ≡ false = ground arith in
      rw (
        not_short,
        u8-ok bytes 14 (omega (arith, b.size)),
        too_big-option_length (byte_at bytes 14),
        read_option-opts bytes b,
        load-ok bytes 14 20 (omega (arith, b.size)),
        check-good bytes b,
        u8-ok bytes 22 (omega (arith, b.size)),
      )

  -- `analyze_packet` past its reads.
  pub analyze_packet-value :
      (d : DeviceNo)
      → 14 ≤ size
      → analyze_packet cfg env d bytes size w
        ≡ (if not (same_bytes (slice bytes 0 6) (cfg.device d).hwaddr)
              then pure (minus_one, bytes)
              else if net16_at bytes 12 == ethertype_arp
              then analyze_arp cfg env d bytes size
              else if net16_at bytes 12 == ethertype_ip
              then analyze_ip cfg env d bytes size
              else pure (pos 0, bytes))
            w
  unfolding analyze_packet
  analyze_packet-value d long =
      let not_short : ltb size 14 ≡ false = ground arith in
      rw (
        not_short,
        load-ok bytes 0 6 (omega (arith, b.size)),
        u16_net-ok bytes 12 (omega (arith, b.size)),
      )

-- A frame of 14 bytes or more that is addressed to the device, of the given type.
pub record IsFor (cfg : Config) (d : DeviceNo) (bytes : List ℕ) (size kind : ℕ) : Type 0 where
  pub least : 14 ≤ size
  pub most : size ≤ 2048
  pub dhost : same_bytes (slice bytes 0 6) (cfg.device d).hwaddr ≡ true
  pub ether_type : net16_at bytes 12 ≡ kind

module _ (cfg : Config) (env : Env) (d : DeviceNo) (bytes : List ℕ) (size : ℕ) (w : World)
    (b : IsBuffer bytes) where
  -- `AnalyzePacket` returns -1 and changes nothing for a frame shorter than 14 bytes, for one that
  -- is not addressed to the device, and for an IP frame of at least 34 bytes that fails
  -- `checkIPchecksum`.
  pub analyze_packet_dropped :
      (size < 14)
        ⊎ ((14 ≤ size) × (same_bytes (slice bytes 0 6) (cfg.device d).hwaddr ≡ false))
        ⊎ (IsFor cfg d bytes size ethertype_ip × (34 ≤ size) × (good bytes ≡ false))
      → analyze_packet cfg env d bytes size w ≡ ok ((minus_one, bytes), w)
  analyze_packet_dropped (inl short) =
      let is_short : ltb size 14 ≡ true = lt→ltb _ _ short in unfold analyze_packet in rw is_short
  analyze_packet_dropped (inr (inl (long, foreign))) =
      rw (analyze_packet-value cfg env bytes size w b d long, foreign)
  analyze_packet_dropped (inr (inr (f, long, bad))) =
      ip_frame f ∙ rw (analyze_ip-value cfg env bytes size w b d long, bad)
    where
      ip_frame :
          IsFor cfg d bytes size ethertype_ip
          → analyze_packet cfg env d bytes size w ≡ analyze_ip cfg env d bytes size w
      ip_frame f = rw (analyze_packet-value cfg env bytes size w b d f.least, f.dhost, f.ether_type)

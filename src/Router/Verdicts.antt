-- ===== src/Router/Verdicts.antt =====
-- `AnalyzePacket` by the kind of the frame, and that it is safe on every frame.
use c_router.Base.{
  ℕ, ◌-◌, ◌≤◌, ◌≡◌, ◌≢◌, ◌⊎◌, refl, ◌∙◌, List, [], ◌∷◌, ◌++◌, true, false, Bool-cases, inl, inr,
  ◌||◌, ◌==◌, ltb, some, if◌then◌else◌, pos, minus_one, ok, arith, load-ok, slice, length-slice,
  byte_at,
}
use c_router.Device.{DeviceNo, other, Config, World, Env}
use c_router.Device.Cmd.{pure, ◌>>◌}
use c_router.Device.Returns.{Returns, then-ok}
use c_router.Device.Returns
use c_router.SendBuf.Queue.{IsFrame}
use c_router.Frame.{same_bytes, ethertype_ip, ethertype_arp}
use c_router.Ip2Mac.{ip2mac}
use c_router.State.{IsConfig, IsWorld, sent-IsWorld}
use c_router.State.Resolve.{Resolved, ip2mac-Resolved}
use c_router.Icmp.{send_icmp_time_exceeded}
use c_router.Icmp.Reply.{reply, send_icmp_time_exceeded-value}
use c_router.Router.{Verdict, route, analyze_ip, analyze_arp, analyze_packet}
use c_router.Router.Fields.{
  IsBuffer, net16_at, addr_at, u16_net-ok, in_addr-ok, opt_len, opts, good, slice-IsBytes,
}
use c_router.Router.Packet.{Routed, route-Routed, analyze_ip-value, analyze_packet-value, IsFor}

-- What an ARP request or reply leaves: an entry of the sender's address in the table of the device.
abbrev pub Heard : Config → Env → DeviceNo → List ℕ → World → Verdict → World → Type 0
Heard cfg env d bytes w v w' =
    (v ≡ (pos 0, bytes))
    × ((i : ℕ) × Resolved cfg env d (addr_at bytes 28) (some (slice bytes 22 6)) w i w')

-- The state is right, and the buffer too.
abbrev pub Safe : Verdict → World → Type 0
Safe v w' = IsWorld w' × IsBuffer v.1

module _ (cfg : Config) (env : Env) (d : DeviceNo) (bytes : List ℕ) (size : ℕ) (w : World)
    (b : IsBuffer bytes) where
  ip_frame :
      IsFor cfg d bytes size ethertype_ip
      → analyze_packet cfg env d bytes size w ≡ analyze_ip cfg env d bytes size w
  ip_frame f = rw (analyze_packet-value cfg env bytes size w b d f.least, f.dhost, f.ether_type)

  pub arp_frame :
      IsFor cfg d bytes size ethertype_arp
      → analyze_packet cfg env d bytes size w ≡ analyze_arp cfg env d bytes size w
  arp_frame f = rw (analyze_packet-value cfg env bytes size w b d f.least, f.dhost, f.ether_type)

  reply_sent :
      (send_icmp_time_exceeded cfg d bytes >> pure {A = Verdict} (minus_one, bytes)) w
      ≡ ok (
        (minus_one, bytes),
        record w { sent = w.sent ++ (((cfg.device d).soc, reply cfg d bytes) ∷ []) },
      )
  reply_sent =
      then-ok (send_icmp_time_exceeded cfg d bytes) (pure {A = Verdict} (minus_one, bytes)) w
        (send_icmp_time_exceeded-value cfg d bytes (omega (arith, b.size)) b.octets w)

  pub analyze_arp-value :
      42 ≤ size
      → analyze_arp cfg env d bytes size w
        ≡ (if net16_at bytes 20 == 1 || net16_at bytes 20 == 2
              then (ip2mac cfg env d (addr_at bytes 28) (some (slice bytes 22 6))
                  >> pure (pos 0, bytes))
              else pure (pos 0, bytes))
            w
  unfolding analyze_arp
  analyze_arp-value long =
      let not_short : ltb (size - 14) 28 ≡ false = ground arith in
      rw (
        not_short,
        u16_net-ok bytes 20 (omega (arith, b.size)),
        load-ok bytes 22 6 (omega (arith, b.size)),
        in_addr-ok bytes 28 (omega (arith, b.size)),
      )

  learn :
      IsWorld w
      → env.alloc_table ≡ true
      → Returns
          (Heard cfg env d bytes w)
          ((ip2mac cfg env d (addr_at bytes 28) (some (slice bytes 22 6)) >> pure (pos 0, bytes)) w)
  learn v alloc =
      let sha = slice bytes 22 6 in
      Returns.bind (Heard cfg env d bytes w) (Resolved cfg env d (addr_at bytes 28) (some sha) w)
        (ip2mac cfg env d (addr_at bytes 28) (some sha)) _ w
        (ip2mac-Resolved cfg env d (addr_at bytes 28) (some sha) w v
          (length-slice bytes 22 6 (omega (arith, b.size)), slice-IsBytes bytes b 22 6) alloc)
        (λ i w' r. (refl, (i, r)))

  -- An IP frame of at least 34 bytes for the device, with a right IP checksum and a TTL of 1, is
  -- not forwarded: `AnalyzePacket` returns -1, and its only effect is that the ICMP reply goes out
  -- of the device that the frame came from.
  pub analyze_packet-time_exceeded :
      IsFor cfg d bytes size ethertype_ip
      → 34 ≤ size
      → good bytes ≡ true
      → byte_at bytes 22 ≡ 1
      → analyze_packet cfg env d bytes size w
        ≡ ok (
          (minus_one, bytes),
          record w { sent = w.sent ++ (((cfg.device d).soc, reply cfg d bytes) ∷ []) },
        )
  analyze_packet-time_exceeded f long right last =
      ip_frame f ∙ rw (analyze_ip-value cfg env bytes size w b d long, right, last, reply_sent)

  -- An IP frame of 34 to 2048 bytes for the device, with a right IP checksum and a TTL other than
  -- 1, is routed by its destination. If that is the address of the other device, `AnalyzePacket`
  -- returns 1 and changes nothing. Else the target is the destination if it is on the segment of
  -- the other device, and the next router if not. If the MAC address of the target is known and no
  -- frame waits for it, the frame goes out of the other device, rewritten with that MAC address,
  -- and the result is 0; else it is given to `AppendSendData` at the entry of the target, an ARP
  -- request goes out if the MAC address is not known, and the result is -1. The state stays right.
  -- The devices have MAC addresses of 6 bytes, the state is right before, and a table can be
  -- allocated.
  pub analyze_packet-Routed :
      IsFor cfg d bytes size ethertype_ip
      → 34 ≤ size
      → good bytes ≡ true
      → byte_at bytes 22 ≢ 1
      → IsConfig cfg
      → IsWorld w
      → env.alloc_table ≡ true
      → Returns (Routed cfg env (other d) bytes size w) (analyze_packet cfg env d bytes size w)
  analyze_packet-Routed f long right lives c v alloc =
      let on : (byte_at bytes 22 == 1) ≡ false = ground arith in
      let frame : IsFrame bytes size = record {
        least = long;
        most = f.most;
        present = omega (arith, f.most, b.size);
        octets = b.octets;
      } in
      rw (ip_frame f, analyze_ip-value cfg env bytes size w b d long, right, on)
        (route-Routed cfg env bytes size w b (other d) c frame v alloc)

  -- An ARP request or reply of at least 42 bytes for the device teaches the router the MAC address
  -- of its sender: from a right state, and where a table can be allocated, `AnalyzePacket` returns
  -- 0, the sender has an entry in `FLAG_OK` with that MAC address in the table of the device, and
  -- the state stays right.
  pub analyze_packet-Heard :
      IsFor cfg d bytes size ethertype_arp
      → 42 ≤ size
      → (net16_at bytes 20 ≡ 1) ⊎ (net16_at bytes 20 ≡ 2)
      → IsWorld w
      → env.alloc_table ≡ true
      → Returns (Heard cfg env d bytes w) (analyze_packet cfg env d bytes size w)
  analyze_packet-Heard f long op v alloc =
      let asks : (net16_at bytes 20 == 1 || net16_at bytes 20 == 2) ≡ true = ground arith in
      rw (arp_frame f, analyze_arp-value long, asks) (learn v alloc)

  module _ (c : IsConfig cfg) (v : IsWorld w) (alloc : env.alloc_table ≡ true) where
    Routed-Safe :
        (tno : DeviceNo) (out : Verdict) (w' : World)
        → Routed cfg env tno bytes size w out w'
        → Safe out w'
    Routed-Safe tno out w' (inl (mine, code, same)) = rw (code, same) (v, b)
    Routed-Safe tno out w' (inr (foreign, (right, inl p))) =
        rw p.code (right, record { size = p.frame.same_length ∙ b.size; octets = p.frame.octets })
    Routed-Safe tno out w' (inr (foreign, (right, inr h))) = rw h.code (right, b)

    arp_Safe : Returns Safe (analyze_arp cfg env d bytes size w)
    arp_Safe = elim (Bool-cases (ltb (size - 14) 28)) [
      | inl short ↦ unfold analyze_arp in rw short (v, b)
      | inr long ↦
          rw (analyze_arp-value (ground arith))
            (elim (Bool-cases (net16_at bytes 20 == 1 || net16_at bytes 20 == 2)) [
              | inl asks ↦ rw asks (
                  Returns.weaken (Heard cfg env d bytes w) Safe _ (learn v alloc)
                    (λ out w' h. rw h.0 (h.1.1.right, b)))
              | inr other_op ↦ rw other_op (v, b)
            ])
    ]

    ip_Safe : size ≤ 2048 → Returns Safe (analyze_ip cfg env d bytes size w)
    ip_Safe most = elim (Bool-cases (ltb (size - 14) 20)) [
      | inl short ↦ unfold analyze_ip in rw short (v, b)
      | inr long ↦
          rw (analyze_ip-value cfg env bytes size w b d (ground arith))
            (elim (Bool-cases (good bytes)) [
              | inr bad ↦ rw bad (v, b)
              | inl right ↦ elim (Bool-cases (byte_at bytes 22 == 1)) [
                | inl last ↦ rw (right, last, reply_sent) (sent-IsWorld w _ v, b)
                | inr lives ↦ rw (right, lives) (routes (ground arith))
              ]
            ])
    ]
      where
        routes :
            34 ≤ size
            → Returns Safe (route cfg env (other d) bytes size (opts bytes) (opt_len bytes) w)
        routes long =
            let frame : IsFrame bytes size = record {
              least = long;
              most = most;
              present = omega (arith, b.size);
              octets = b.octets;
            } in
            Returns.weaken (Routed cfg env (other d) bytes size w) Safe _
              (route-Routed cfg env bytes size w b (other d) c frame v alloc)
              (Routed-Safe (other d))

    -- `AnalyzePacket` is safe on every frame of at most 2048 bytes, whatever its bytes are, in a
    -- buffer of 2048 bytes: from a right state, with MAC addresses of 6 bytes in the devices and
    -- where a table can be allocated, it returns, reads and writes nothing out of range, and
    -- leaves a right state and a buffer of 2048 bytes.
    pub analyze_packet-Safe : size ≤ 2048 → Returns Safe (analyze_packet cfg env d bytes size w)
    analyze_packet-Safe most = elim (Bool-cases (ltb size 14)) [
      | inl short ↦ unfold analyze_packet in rw short (v, b)
      | inr long ↦
          rw (analyze_packet-value cfg env bytes size w b d (ground arith))
            (elim (Bool-cases (same_bytes (slice bytes 0 6) (cfg.device d).hwaddr)) [
              | inr foreign ↦ rw foreign (v, b)
              | inl mine ↦ elim (Bool-cases (net16_at bytes 12 == ethertype_arp)) [
                | inl arp ↦ rw (mine, arp) arp_Safe
                | inr not_arp ↦ elim (Bool-cases (net16_at bytes 12 == ethertype_ip)) [
                  | inl ip ↦ rw (mine, not_arp, ip) (ip_Safe most)
                  | inr neither ↦ rw (mine, not_arp, neither) (v, b)
                ]
              ]
            ])
    ]

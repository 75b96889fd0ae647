-- ===== src/Router/Adds.antt =====
-- `AnalyzePacket` asks the sending thread for one entry at most.
use c_router.Base.{
  ℕ, ◌-◌, List, ◌||◌, not, some, ltb, ◌==◌, ℤ, pos, load, bit_and, minus_one, none, arith,
}
use c_router.Checksum.{sizeof_iphdr, check_ip_checksum}
use c_router.Device.{DeviceNo, dev0, dev1, other, Config, Ip2mac, Env}
use c_router.Device.Cmd.{pure}
use c_router.Device.Adds.{Adds, Adds-pure, Adds-lift, Adds-write, Adds-if, Adds-bind, Adds-first}
use c_router.Frame.{
  sizeof_ether_header, sizeof_ether_arp, ethertype_ip, ethertype_arp, u8, u16_net, in_addr,
  same_bytes, option_length, read_option,
}
use c_router.Forward.{rewrite}
use c_router.SendBuf.{append_send_data}
use c_router.Ip2Mac.{is_ng}
use c_router.Ip2Mac.Adds.{entry_at-Adds, ip2mac-Adds}
use c_router.Icmp.Adds.{send_icmp_time_exceeded-Adds}
use c_router.Router.{
  Verdict, put_entry, queue_frame, too_big, forward, route, analyze_ip, analyze_arp, analyze_packet,
}

pub put_entry-Adds : (d : DeviceNo) (i : ℕ) (e : Ip2mac) → Adds 0 (put_entry d i e)
unfolding put_entry
put_entry-Adds dev0 i e w = omega arith
put_entry-Adds dev1 i e w = omega arith

queue_frame-Adds :
    (env : Env) (d : DeviceNo) (i : ℕ) (e : Ip2mac) (bytes : List ℕ) (size : ℕ)
    → Adds 0 (queue_frame env d i e bytes size)
unfolding queue_frame
queue_frame-Adds env d i e bytes size =
    Adds-bind 0 _ _ (Adds-lift 0 (append_send_data env e.sd bytes size))
      (λ (code, sd). put_entry-Adds d i (record e { sd = sd }))

verdict-Adds : (n : ℕ) (v : Verdict) → Adds n (pure v)
verdict-Adds n v = Adds-pure n v

module _ (cfg : Config) (env : Env) where
  forward-Adds :
      (tno : DeviceNo) (target : ℕ) (bytes : List ℕ) (size : ℕ) (option : List ℕ) (option_len : ℤ)
      → Adds 1 (forward cfg env tno target bytes size option option_len)
  unfolding forward
  forward-Adds tno target bytes size option option_len =
      Adds-first 1 _ _ (ip2mac-Adds cfg env tno target none) (λ i.
        Adds-bind 0 _ _ (entry_at-Adds tno i) (λ e.
          Adds-if 0 (is_ng e.flag || not (e.sd.dno == 0)) _ _
            (Adds-bind 0 _ _ (queue_frame-Adds env tno i e bytes size)
              (λ _. verdict-Adds 0 (minus_one, bytes)))
            (Adds-bind 0 _ _
              (Adds-lift 0 (rewrite bytes e.hwaddr (cfg.device tno).hwaddr option option_len))
              (λ bytes'. Adds-bind 0 _ _ (Adds-lift 0 (load bytes' 0 size)) (λ frame.
                Adds-bind 0 _ _ (Adds-write 0 _ frame) (λ _. verdict-Adds 0 (pos 0, bytes')))))))

  route-Adds :
      (tno : DeviceNo) (bytes : List ℕ) (size : ℕ) (option : List ℕ) (option_len : ℤ)
      → Adds 1 (route cfg env tno bytes size option option_len)
  unfolding route
  route-Adds tno bytes size option option_len =
      Adds-bind 1 _ _ (Adds-lift 0 (in_addr bytes 30)) (λ daddr.
        Adds-if 1 (bit_and daddr (cfg.device tno).netmask == (cfg.device tno).subnet) _ _
          (Adds-if 1 (daddr == (cfg.device tno).addr) _ _ (verdict-Adds 1 (pos 1, bytes))
            (forward-Adds tno daddr bytes size option option_len))
          (forward-Adds tno cfg.next_router bytes size option option_len))

  analyze_ip-Adds :
      (d : DeviceNo) (bytes : List ℕ) (size : ℕ) → Adds 1 (analyze_ip cfg env d bytes size)
  unfolding analyze_ip
  analyze_ip-Adds d bytes size =
      Adds-if 1 (ltb (size - sizeof_ether_header) sizeof_iphdr) _ _
        (verdict-Adds 1 (minus_one, bytes))
        (Adds-bind 1 _ _ (Adds-lift 0 (u8 bytes 14)) (λ version_ihl.
          let option_len = option_length version_ihl in
          Adds-if 1 (too_big option_len) _ _ (verdict-Adds 1 (minus_one, bytes)) (
            Adds-bind 1 _ _ (Adds-lift 0 (read_option bytes option_len)) (λ option.
              Adds-bind 1 _ _ (Adds-lift 0 (load bytes 14 sizeof_iphdr)) (λ iphdr.
                Adds-bind 1 _ _ (Adds-lift 0 (check_ip_checksum iphdr option option_len)) (λ good.
                  Adds-bind 1 _ _ (Adds-lift 0 (u8 bytes 22)) (λ ttl.
                    Adds-if 1 (not good) _ _ (verdict-Adds 1 (minus_one, bytes)) (
                      Adds-if 1 (ttl == 1) _ _
                        (Adds-bind 1 _ _ (send_icmp_time_exceeded-Adds cfg d bytes)
                          (λ _. verdict-Adds 1 (minus_one, bytes)))
                        (route-Adds (other d) bytes size option option_len)))))))))

  analyze_arp-Adds :
      (d : DeviceNo) (bytes : List ℕ) (size : ℕ) → Adds 1 (analyze_arp cfg env d bytes size)
  unfolding analyze_arp
  analyze_arp-Adds d bytes size =
      Adds-if 1 (ltb (size - sizeof_ether_header) sizeof_ether_arp) _ _
        (verdict-Adds 1 (minus_one, bytes))
        (Adds-bind 1 _ _ (Adds-lift 0 (u16_net bytes 20)) (λ arp_op.
          Adds-bind 1 _ _ (Adds-lift 0 (load bytes 22 6)) (λ arp_sha.
            Adds-bind 1 _ _ (Adds-lift 0 (in_addr bytes 28)) (λ arp_spa.
              Adds-if 1 (arp_op == 1 || arp_op == 2) _ _
                (Adds-first 1 _ _ (ip2mac-Adds cfg env d arp_spa (some arp_sha))
                  (λ _. verdict-Adds 0 (pos 0, bytes)))
                (verdict-Adds 1 (pos 0, bytes))))))

  pub analyze_packet-Adds :
      (d : DeviceNo) (bytes : List ℕ) (size : ℕ) → Adds 1 (analyze_packet cfg env d bytes size)
  unfolding analyze_packet
  analyze_packet-Adds d bytes size =
      Adds-if 1 (ltb size sizeof_ether_header) _ _ (verdict-Adds 1 (minus_one, bytes)) (
        Adds-bind 1 _ _ (Adds-lift 0 (load bytes 0 6)) (λ ether_dhost.
          Adds-bind 1 _ _ (Adds-lift 0 (u16_net bytes 12)) (λ ether_type.
            Adds-if 1 (not (same_bytes ether_dhost (cfg.device d).hwaddr)) _ _
              (verdict-Adds 1 (minus_one, bytes))
              (Adds-if 1 (ether_type == ethertype_arp) _ _ (analyze_arp-Adds d bytes size) (
                Adds-if 1 (ether_type == ethertype_ip) _ _ (analyze_ip-Adds d bytes size)
                  (verdict-Adds 1 (pos 0, bytes)))))))

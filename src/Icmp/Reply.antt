-- ===== src/Icmp/Reply.antt =====
-- The frame that `SendIcmpTimeExceeded` sends.
use c_router.Base.{
  ℕ, ◌+◌, ◌-◌, ◌%◌, ◌≤◌, ◌<◌, ◌≡◌, refl, ap, ◌∙◌, List, [], ◌∷◌, ◌++◌, true, pos, ok, arith, length,
  take, drop, IsBytes, IsByte, All-take, All-drop, All-append, load-ok, slice, length-slice,
  length-append, bytes2, bytes4, take_of_length_le, append-nil, append_assoc, take-append_of_length,
  drop-append_length, length-splice,
}
use c_router.Checksum.{checksum, checksum2, check_ip_checksum}
use c_router.Checksum.Ones.{ones_sum, total, canon, ones_sum-canon, checksum-ones_sum}
use c_router.Checksum.Split.{checksum2-ones_sum}
use c_router.Checksum.Header.{with_check, check_ip_checksum-with_check, add-complement}
use c_router.Device.{DeviceNo, Config, World}
use c_router.Device.Cmd.{write}
use c_router.Arp.{ether_header}
use c_router.Icmp.{reply_iphdr, time_exceeded, send_icmp_time_exceeded}

total-time_exceeded :
    (c : ℕ) (q : List ℕ)
    → c < 65536
    → total (time_exceeded c ++ q) ≡ total (time_exceeded 0 ++ q) + c
total-time_exceeded c q h = omega arith

-- Where the parts of a frame stand.
frame_parts :
    (dst src ip message : List ℕ)
    → length dst ≡ 6
    → length src ≡ 6
    → length ip ≡ 20
    → length message ≡ 72
    → let frame = ether_header dst src 8 0 ++ (ip ++ message) in
      (length frame ≡ 106)
      × (slice frame 0 6 ≡ dst)
      × (slice frame 14 20 ≡ ip)
      × (slice frame 34 72 ≡ message)
frame_parts dst src ip message l1 l2 l3 l4 = (
  omega (
    arith,
    length-append (ether_header dst src 8 0) (ip ++ message),
    length-append ip message,
    header_len,
  ),
  rw append_assoc (take-append_of_length dst _ 6 l1),
  rw
      (drop-append_length (ether_header dst src 8 0) (ip ++ message) 0 14
        (omega (arith, header_len)))
      (take-append_of_length ip message 20 l3),
  rw
      (
        drop-append_length (ether_header dst src 8 0) (ip ++ message) 20 34
            (omega (arith, header_len)),
        drop-append_length ip message 0 20 (omega (arith, l3)),
      )
      (take_of_length_le 72 message (omega (arith, l4))),
)
  where
    header_len : length (ether_header dst src 8 0) ≡ 14
    header_len =
        omega (arith, length-append dst (src ++ (8 ∷ 0 ∷ [])), length-append src (8 ∷ 0 ∷ []))

-- The source address of a frame, and its type.
source_part :
    (dst src rest : List ℕ)
    → length dst ≡ 6
    → length src ≡ 6
    → slice (ether_header dst src 8 0 ++ rest) 6 8 ≡ src ++ (8 ∷ 0 ∷ [])
source_part dst src rest l1 l2 =
    rw
      (
        append_assoc dst (src ++ (8 ∷ 0 ∷ [])) rest,
        drop-append_length dst ((src ++ (8 ∷ 0 ∷ [])) ++ rest) 0 6 (omega (arith, l1)),
      )
      (take-append_of_length (src ++ (8 ∷ 0 ∷ [])) rest 8
        (omega (arith, l2, length-append src (8 ∷ 0 ∷ []))))

module _ (cfg : Config) (d : DeviceNo) (bytes : List ℕ) where
  abbrev iphdr : List ℕ
  iphdr = reply_iphdr (cfg.device d).addr (slice bytes 26 4)

  abbrev quoted : List ℕ
  quoted = slice bytes 14 64

  abbrev pub ip_check : ℕ
  ip_check = 65535 - ones_sum iphdr

  abbrev pub icmp_check : ℕ
  icmp_check = 65535 - ones_sum (time_exceeded 0 ++ quoted)

  -- Its IP header, its ICMP message, and the whole.
  abbrev pub reply_header : List ℕ
  reply_header = with_check iphdr ip_check

  abbrev pub reply_message : List ℕ
  reply_message = time_exceeded icmp_check ++ quoted

  abbrev pub reply : List ℕ
  reply =
      ether_header (slice bytes 6 6) (cfg.device d).hwaddr 8 0
      ++ (reply_header ++ (time_exceeded icmp_check ++ quoted))

  -- The fields of the reply, by their offsets.
  pub record IsReply : Type 0 where
    pub size : length reply ≡ 106
    pub dhost : slice reply 0 6 ≡ slice bytes 6 6
    pub source : slice reply 6 8 ≡ (cfg.device d).hwaddr ++ (8 ∷ 0 ∷ [])
    pub header : slice reply 14 20 ≡ reply_header
    pub message : slice reply 34 72 ≡ reply_message
    pub fields : slice reply_header 0 10 ≡ 0x45 ∷ 0 ∷ 0 ∷ 92 ∷ 0 ∷ 0 ∷ 0 ∷ 0 ∷ 64 ∷ 1 ∷ []
    pub saddr : slice reply_header 12 4 ≡ bytes4 (cfg.device d).addr
    pub daddr : slice reply_header 16 4 ≡ slice bytes 26 4
    pub icmp_type : slice reply_message 0 2 ≡ 11 ∷ 0 ∷ []
    pub quotes : slice reply_message 8 64 ≡ slice bytes 14 64
    pub header_valid : check_ip_checksum reply_header [] (pos 0) ≡ ok true
    pub message_valid : total reply_message % 65535 ≡ 0

  module _ (long : 78 ≤ length bytes) (hb : IsBytes bytes) where
    slice_bytes : (s n : ℕ) → IsBytes (slice bytes s n)
    slice_bytes s n = All-take IsByte n (drop s bytes) (All-drop IsByte s bytes hb)

    length-iphdr : length iphdr ≡ 20
    length-iphdr = omega (arith, length-slice bytes 26 4 (omega arith))

    iphdr-IsBytes : IsBytes iphdr
    iphdr-IsBytes =
        All-append IsByte (take 16 iphdr) (slice bytes 26 4) (omega arith) (slice_bytes 26 4)

    quoted_len : length quoted ≡ 64
    quoted_len = length-slice bytes 14 64 (omega arith)

    ip_checksum : checksum iphdr 20 ≡ ok ip_check
    ip_checksum =
        checksum-ones_sum iphdr 20 (omega (arith, length-iphdr)) iphdr-IsBytes
        ∙ ap (λ h. ok (65535 - ones_sum h))
            (take_of_length_le 20 iphdr (omega (arith, length-iphdr)))

    icmp_checksum : checksum2 (time_exceeded 0) 8 quoted (pos 64) ≡ ok icmp_check
    icmp_checksum =
        checksum2-ones_sum (time_exceeded 0) 8 quoted (pos 64) refl (omega arith)
          (omega (arith, quoted_len)) (omega arith) (slice_bytes 14 64)
        ∙ ap (λ h. ok (65535 - ones_sum (time_exceeded 0 ++ h)))
            (take_of_length_le 64 quoted (omega (arith, quoted_len)))

    -- With 78 bytes or more in memory, `SendIcmpTimeExceeded` reads nothing out of range and sends
    -- one frame, the reply, out of the device of the frame received.
    pub send_icmp_time_exceeded-value :
        (w : World)
        → send_icmp_time_exceeded cfg d bytes w
          ≡ ok (tt, record w { sent = w.sent ++ (((cfg.device d).soc, reply) ∷ []) })
    unfolding send_icmp_time_exceeded write
    send_icmp_time_exceeded-value w = rw (
      load-ok bytes 6 6 (omega arith),
      load-ok bytes 26 4 (omega arith),
      ip_checksum,
      load-ok bytes 14 64 (omega arith),
      icmp_checksum,
    )

    header_valid : check_ip_checksum reply_header [] (pos 0) ≡ ok true
    header_valid =
        (check_ip_checksum-with_check iphdr [] (pos 0) length-iphdr (omega arith) iphdr-IsBytes tt (
          checksum2-ones_sum iphdr 20 [] (pos 0) refl (omega (arith, length-iphdr)) (omega arith)
            iphdr-IsBytes tt
          ∙ ap (λ h. ok (65535 - ones_sum h))
              (append-nil (take 20 iphdr)
                ∙ take_of_length_le 20 iphdr (omega (arith, length-iphdr))))).0

    message_valid : total reply_message % 65535 ≡ 0
    message_valid =
        let zero_message = time_exceeded 0 ++ quoted in
        let octets : IsBytes zero_message =
          All-append IsByte (time_exceeded 0) quoted (omega arith) (slice_bytes 14 64) in
        let value : icmp_check ≡ 65535 - canon (total zero_message) =
          ap (λ (n : ℕ). 65535 - n) (ones_sum-canon zero_message octets) in
        rw (total-time_exceeded icmp_check quoted (omega arith), value)
          (add-complement (total zero_message))

    -- The reply to a frame with 78 bytes or more in memory, of a device with a MAC address of 6
    -- bytes, is 106 bytes long: an ethernet header for IP, to the MAC address that the frame came
    -- from and from that of the device; 20 bytes of an IP header that `checkIPchecksum` accepts, of
    -- version 4, with a total length of 92, a TTL of 64 and protocol 1, from the address of the
    -- device to the source address of the frame; and an ICMP message of type 11 and code 0 that
    -- quotes the 64 bytes behind the ethernet header of the frame and whose words add up to a
    -- multiple of 65535.
    pub reply-IsReply : length (cfg.device d).hwaddr ≡ 6 → IsReply
    reply-IsReply mac =
        let (len, dst, ip, message) =
          frame_parts (slice bytes 6 6) (cfg.device d).hwaddr reply_header reply_message
            (length-slice bytes 6 6 (omega arith)) mac
            (length-splice iphdr 10 (bytes2 ip_check) ∙ length-iphdr) (omega (arith, quoted_len)) in
        record {
          size = len;
          dhost = dst;
          source =
              source_part (slice bytes 6 6) (cfg.device d).hwaddr (reply_header ++ reply_message)
                (length-slice bytes 6 6 (omega arith)) mac;
          header = ip;
          message = message;
          fields = refl;
          saddr = refl;
          daddr =
              take_of_length_le 4 (slice bytes 26 4)
                (omega (arith, length-slice bytes 26 4 (omega arith)));
          icmp_type = refl;
          quotes = take_of_length_le 64 quoted (omega (arith, quoted_len));
          header_valid = header_valid;
          message_valid = message_valid;
        }

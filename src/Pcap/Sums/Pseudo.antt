-- ===== src/Pcap/Sums/Pseudo.antt =====
-- The checks of pcap/checksum.c against the pseudo headers of RFC 793 and RFC 8200.
use c_router.Base.{
  ℕ, ◌+◌, ◌/◌, ◌%◌, ◌≤◌, ◌<◌, ◌≡◌, ◌↔◌, refl, List, [], ◌∷◌, ◌++◌, append_assoc, true, pos,
  replicate, ok, arith, length, take, slice, length-slice, byte_at, IsBytes,
}
use c_router.Checksum.Ones.{total}
use c_router.Checksum.Split.{total-append}
use c_router.Checksum.Header.{accepts_iff}
use c_router.Pcap.Sums.{check_ip_data_checksum, check_ip6_data_checksum}
use c_router.Pcap.Sums.Value.{
  pseudo6_at, check_ip_data_checksum-value, check_ip6_data_checksum-value,
}

-- The pseudo header of RFC 793: the addresses, 0, the protocol, the length of the data.
abbrev pub rfc793 : List ℕ → ℕ → List ℕ
rfc793 iphdr len =
    slice iphdr 12 4 ++ (slice iphdr 16 4 ++ (0 ∷ byte_at iphdr 9 ∷ (len / 256) ∷ (len % 256) ∷ []))

-- `checkIPDATAchecksum` of data of at most 65535 bytes that are there returns 1 exactly when the words of the
-- pseudo header of RFC 793 and of the data add up to a multiple of 65535.
pub check_ip_data_checksum_iff :
    (iphdr bytes : List ℕ) (len : ℕ)
    → 20 ≤ length iphdr
    → len ≤ length bytes
    → len < 65536
    → IsBytes iphdr
    → IsBytes bytes
    → (check_ip_data_checksum iphdr bytes (pos len) ≡ ok true)
      ↔ (total (rfc793 iphdr len ++ take len bytes) % 65535 ≡ 0)
check_ip_data_checksum_iff iphdr bytes len long fits small hb hd =
    rw (check_ip_data_checksum-value iphdr bytes (pos len) long fits hb hd, high)
      (accepts_iff (total (rfc793 iphdr len ++ take len bytes)))
  where
    high : len / 256 % 256 ≡ len / 256
    high = omega arith

-- The pseudo header of RFC 8200: the addresses, the length of the data in 32 bits, three bytes 0, the next header.
abbrev pub rfc8200 : List ℕ → List ℕ
rfc8200 ip =
    slice ip 8 16 ++ (slice ip 24 16 ++ (0 ∷ 0 ∷ (slice ip 4 2 ++ (0 ∷ 0 ∷ 0 ∷ byte_at ip 6 ∷ []))))

-- The order and the padding of the structure make no difference.
pub total-rfc8200 :
    (ip bytes : List ℕ) (len : ℕ)
    → 40 ≤ length ip
    → total (pseudo6_at ip ++ take len bytes) ≡ total (rfc8200 ip ++ take len bytes)
total-rfc8200 ip bytes len long = omega (
  arith,
  three (plen ++ pad),
  middle pad,
  three (0 ∷ 0 ∷ (plen ++ (0 ∷ 0 ∷ 0 ∷ byte_at ip 6 ∷ []))),
  middle (0 ∷ 0 ∷ 0 ∷ byte_at ip 6 ∷ []),
)
  where
    src : List ℕ
    src = slice ip 8 16

    dst : List ℕ
    dst = slice ip 24 16

    plen : List ℕ
    plen = slice ip 4 2

    src_len : length src ≡ 16
    src_len = length-slice ip 8 16 (omega arith)

    dst_len : length dst ≡ 16
    dst_len = length-slice ip 24 16 (omega arith)

    plen_len : length plen ≡ 2
    plen_len = length-slice ip 4 2 (omega arith)

    pad : List ℕ
    pad = replicate 9 0 ++ (byte_at ip 6 ∷ replicate 4 0)

    three :
        (rest : List ℕ)
        → total ((src ++ (dst ++ rest)) ++ take len bytes)
          ≡ total src + total dst + total (rest ++ take len bytes)
    three rest =
        rw
          (
            append_assoc src (dst ++ rest) (take len bytes),
            append_assoc dst rest (take len bytes),
            total-append src (dst ++ (rest ++ take len bytes)) (rw src_len refl),
            total-append dst (rest ++ take len bytes) (rw dst_len refl),
          )
          (omega arith)

    middle :
        (rest : List ℕ)
        → total ((plen ++ rest) ++ take len bytes) ≡ total plen + total (rest ++ take len bytes)
    middle rest =
        rw (append_assoc plen rest (take len bytes))
          (total-append plen (rest ++ take len bytes) (rw plen_len refl))

-- `checkIP6DATAchecksum` of data that are there returns 1 exactly when the words of the pseudo header
-- of RFC 8200, with the payload length of the header, and of the data add up to a multiple of 65535: the order and the
-- padding of the structure make no difference.
pub check_ip6_data_checksum_iff :
    (ip bytes : List ℕ) (len : ℕ)
    → 40 ≤ length ip
    → len ≤ length bytes
    → IsBytes ip
    → IsBytes bytes
    → (check_ip6_data_checksum ip bytes (pos len) ≡ ok true)
      ↔ (total (rfc8200 ip ++ take len bytes) % 65535 ≡ 0)
check_ip6_data_checksum_iff ip bytes len long fits hb hd =
    rw (check_ip6_data_checksum-value ip long bytes len fits hb hd, total-rfc8200 ip bytes len long)
      (accepts_iff (total (rfc8200 ip ++ take len bytes)))

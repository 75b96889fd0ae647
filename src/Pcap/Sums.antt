-- ===== src/Pcap/Sums.antt =====
-- pcap/checksum.c: the checksums of IP headers, and of the data of IP and IPv6 with their pseudo
-- headers. `checksum` and `checksum2` have the text that they have in router/netutil.c.
pub mod Value
pub mod Pseudo
use c_router.Base.{
  ℕ, zero, suc, ◌+◌, ◌-◌, ◌/◌, ◌%◌, ◌^◌, List, [], ◌∷◌, ◌++◌, Bool, ℤ, pos, negsuc, pos_part,
  replicate, Outcome, ok, fault, load, ◌>>=◌,
}
use c_router.Checksum.{sizeof_iphdr, accepts, checksum as sum_one, checksum2 as sum_two}
use c_router.Frame.{u8}

-- `len` may be negative here: the loop then runs no round.
pub checksum : List ℕ → ℤ → Outcome ℕ
checksum data1 len = sum_one data1 (pos_part len)

pub checksum2 : List ℕ → ℕ → List ℕ → ℤ → Outcome ℕ
checksum2 data1 len1 data2 len2 = sum_two data1 len1 data2 len2

-- The header is summed where it stands, with no copy.
pub check_ip_checksum : List ℕ → List ℕ → ℤ → Outcome Bool
check_ip_checksum iphdr option (pos zero) = do
  sum ← checksum iphdr (pos sizeof_iphdr)
  ok (accepts sum)
check_ip_checksum iphdr option option_len = do
  sum ← checksum2 iphdr sizeof_iphdr option option_len
  ok (accepts sum)

-- `htons(len)` in memory: the low 16 bits, in network order.
abbrev pub net16 : ℤ → List ℕ
net16 (pos n) = (n / 256 % 256) ∷ (n % 256) ∷ []
net16 (negsuc n) = (255 - n / 256 % 256) ∷ (255 - n % 256) ∷ []

-- `struct pseudo_ip`, 12 bytes.
abbrev pub pseudo_ip : List ℕ → List ℕ → ℕ → ℤ → List ℕ
pseudo_ip saddr daddr protocol len = saddr ++ (daddr ++ (0 ∷ protocol ∷ net16 len))

pub check_ip_data_checksum : List ℕ → List ℕ → ℤ → Outcome Bool
check_ip_data_checksum iphdr bytes len = do
  saddr ← load iphdr 12 4
  daddr ← load iphdr 16 4
  protocol ← u8 iphdr 9
  sum ← checksum2 (pseudo_ip saddr daddr protocol len) 12 bytes len
  ok (accepts sum)

-- `struct pseudo_ip6_hdr`: with a `long` of 64 bits, 8 bytes of `plen`, of which the low two are
-- set, 3 that stay 0, `nxt`, and 4 at the end that align the structure; 48 bytes.
abbrev pub pseudo_ip6_hdr : List ℕ → List ℕ → List ℕ → ℕ → List ℕ
pseudo_ip6_hdr src dst plen nxt = src ++ (dst ++ (plen ++ (replicate 9 0 ++ (nxt ∷ replicate 4 0))))

pub check_ip6_data_checksum : List ℕ → List ℕ → ℤ → Outcome Bool
check_ip6_data_checksum ip bytes len = do
  src ← load ip 8 16
  dst ← load ip 24 16
  plen ← load ip 4 2
  nxt ← u8 ip 6
  sum ← checksum2 (pseudo_ip6_hdr src dst plen nxt) 48 bytes len
  ok (accepts sum)

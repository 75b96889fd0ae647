-- ===== src/Resend.antt =====
-- `BufferSendOne` of router/ip2mac.c: what it does to one frame that waited.
pub mod Result
use c_router.Base.{ℕ, List, [], ◌∷◌, Outcome, ok, fault, load, store, bytes2, ◌>>=◌}
use c_router.Checksum.{sizeof_iphdr, checksum2}
use c_router.Frame.{u8, dec_ttl, sizeof_ether_header, option_length, read_option}

-- The frame as `BufferSendOne` writes it over: the headers are copied out, changed and copied back.
pub flush_frame : List ℕ → List ℕ → Outcome (List ℕ)
flush_frame hwaddr bytes = do
  eh ← load bytes 0 sizeof_ether_header
  iphdr ← load bytes 14 sizeof_iphdr
  version_ihl ← u8 iphdr 0
  let option_len = option_length version_ihl
  option ← read_option bytes option_len
  eh1 ← store eh 0 hwaddr
  bytes1 ← store bytes 0 eh1
  ttl ← u8 iphdr 8
  iphdr1 ← store iphdr 8 (dec_ttl ttl ∷ [])
  iphdr2 ← store iphdr1 10 (0 ∷ 0 ∷ [])
  check ← checksum2 iphdr2 sizeof_iphdr option option_len
  iphdr3 ← store iphdr2 10 (bytes2 check)
  store bytes1 14 iphdr3

-- ===== src/Forward.antt =====
-- What `AnalyzePacket` of router/main.c does to the frame that it sends on, in place.
pub mod Rewritten
pub mod Result
use c_router.Base.{ℕ, ◌+◌, List, [], ◌∷◌, ℤ, Outcome, ok, fault, ◌>>=◌, load, store, bytes2}
use c_router.Checksum.{sizeof_iphdr, checksum2}
use c_router.Frame.{u8, dec_ttl}

-- The MAC addresses.
pub readdress : List ℕ → List ℕ → List ℕ → Outcome (List ℕ)
readdress bytes dhost shost = do bytes1 ← store bytes 0 dhost; store bytes1 6 shost

-- The TTL less 1, and the checksum of the header with a checksum field of 0 and the options.
pub restamp : List ℕ → List ℕ → ℤ → Outcome (List ℕ)
restamp bytes option option_len = do
  ttl ← u8 bytes 22
  bytes1 ← store bytes 22 (dec_ttl ttl ∷ [])
  bytes2' ← store bytes1 24 (0 ∷ 0 ∷ [])
  iphdr ← load bytes2' 14 sizeof_iphdr
  check ← checksum2 iphdr sizeof_iphdr option option_len
  store bytes2' 24 (bytes2 check)

pub rewrite : List ℕ → List ℕ → List ℕ → List ℕ → ℤ → Outcome (List ℕ)
rewrite bytes dhost shost option option_len = do
  bytes' ← readdress bytes dhost shost
  restamp bytes' option option_len

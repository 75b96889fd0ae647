-- ===== src/Frame.antt =====
-- The fields of a frame in memory, by their offsets: `struct ether_header` at 0, `struct iphdr` or
-- `struct ether_arp` at 14, IP options at 34.
use c_router.Base.{
  ℕ, zero, suc, ◌+◌, ◌*◌, ◌%◌, ◌^◌, ◌<◌, ◌≡◌, refl, List, [], ◌∷◌, ◌++◌, Bool, true, false, ◌&&◌,
  none, some, ◌==◌, ℤ, pos, negsuc, sub_ℕ, Outcome, ok, fault, ◌>>=◌, get_elem?, byte_at, length,
  load, arith,
}

abbrev pub sizeof_ether_header : ℕ
sizeof_ether_header = 14

abbrev pub sizeof_ether_arp : ℕ
sizeof_ether_arp = 28

abbrev pub ethertype_ip : ℕ
ethertype_ip = 0x0800

abbrev pub ethertype_arp : ℕ
ethertype_arp = 0x0806

-- A byte of a buffer.
unfoldable pub u8 : List ℕ → ℕ → Outcome ℕ
u8 mem off = elim (get_elem? mem off) [ none ↦ fault | some b ↦ ok b ]

-- `ntohs` of a field.
unfoldable pub u16_net : List ℕ → ℕ → Outcome ℕ
u16_net mem off = do hi ← u8 mem off; lo ← u8 mem (off + 1); ok (256 * hi + lo)

-- An `in_addr_t` as it stands in memory, little-endian.
unfoldable pub in_addr : List ℕ → ℕ → Outcome ℕ
in_addr mem off = do
  b0 ← u8 mem off
  b1 ← u8 mem (off + 1)
  b2 ← u8 mem (off + 2)
  b3 ← u8 mem (off + 3)
  ok (b0 + 2 ^ 8 * b1 + 2 ^ 16 * b2 + 2 ^ 24 * b3)

-- `memcmp(a, b, 6) == 0`, on arrays of the same length.
abbrev pub same_bytes : List ℕ → List ℕ → Bool
same_bytes [] [] = true
same_bytes (x ∷ xs) (y ∷ ys) = x == y && same_bytes xs ys
same_bytes xs ys = false

-- `iphdr->ihl * 4 - sizeof(struct iphdr)`, of the byte that holds `version` and `ihl`.
abbrev pub option_length : ℕ → ℤ
option_length version_ihl = sub_ℕ (version_ihl % 16 * 4) 20

-- `iphdr->ttl - 1`, in a byte.
abbrev pub dec_ttl : ℕ → ℕ
dec_ttl ttl = (ttl + 255) % 256

-- `memcpy(option, ptr, optionLen)`, made if `optionLen > 0`.
unfoldable pub read_option : List ℕ → ℤ → Outcome (List ℕ)
read_option bytes (pos zero) = ok []
read_option bytes (pos (suc n)) = load bytes 34 (suc n)
read_option bytes (negsuc n) = ok []

pub u8-ok : (mem : List ℕ) (off : ℕ) → off < length mem → u8 mem off ≡ ok (byte_at mem off)
unfolding u8
u8-ok [] off h = absurd (omega arith)
u8-ok (x ∷ mem) zero h = refl
u8-ok (x ∷ mem) (suc off) h = u8-ok mem off (omega arith)

pub u8-append : (xs ys : List ℕ) (off : ℕ) → off < length xs → u8 (xs ++ ys) off ≡ u8 xs off
unfolding u8
u8-append [] ys off h = absurd (omega arith)
u8-append (x ∷ xs) ys zero h = refl
u8-append (x ∷ xs) ys (suc off) h = u8-append xs ys off (omega arith)

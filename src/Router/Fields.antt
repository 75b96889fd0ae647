-- ===== src/Router/Fields.antt =====
-- Reading the fields of a frame in the buffer of `Router`.
use c_router.Base.{
  ℕ, zero, suc, ◌+◌, ◌-◌, ◌*◌, ◌^◌, ◌≤◌, ◌≡◌, refl, List, Bool, false, ℤ, pos, negsuc, pos_part, ok,
  arith, length, drop, All-take, All-drop, IsBytes, IsByte, load-ok, slice, length-slice, byte_at,
}
use c_router.Checksum.{accepts, check_ip_checksum}
use c_router.Checksum.Ones.{ones_sum}
use c_router.Checksum.Header.{covered, check_ip_checksum-value}
use c_router.Frame.{u8-ok, u16_net, in_addr, option_length, read_option}
use c_router.Router.{too_big}

-- The buffer of `Router`, `u_char buf[2048]`.
pub record IsBuffer (bytes : List ℕ) : Type 0 where
  pub size : length bytes ≡ 2048
  pub octets : IsBytes bytes

abbrev pub net16_at : List ℕ → ℕ → ℕ
net16_at bytes off = 256 * byte_at bytes off + byte_at bytes (off + 1)

abbrev pub addr_at : List ℕ → ℕ → ℕ
addr_at bytes off =
    byte_at bytes off
    + 2 ^ 8 * byte_at bytes (off + 1)
    + 2 ^ 16 * byte_at bytes (off + 2)
    + 2 ^ 24 * byte_at bytes (off + 3)

pub u16_net-ok :
    (bytes : List ℕ) (off : ℕ)
    → off + 2 ≤ length bytes
    → u16_net bytes off ≡ ok (net16_at bytes off)
unfolding u16_net
u16_net-ok bytes off h = rw (u8-ok bytes off (omega arith), u8-ok bytes (off + 1) (omega arith))

pub in_addr-ok :
    (bytes : List ℕ) (off : ℕ) → off + 4 ≤ length bytes → in_addr bytes off ≡ ok (addr_at bytes off)
unfolding in_addr
in_addr-ok bytes off h = rw (
  u8-ok bytes off (omega arith),
  u8-ok bytes (off + 1) (omega arith),
  u8-ok bytes (off + 2) (omega arith),
  u8-ok bytes (off + 3) (omega arith),
)

-- The options of an IP frame, by its header length field.
abbrev pub opt_len : List ℕ → ℤ
opt_len bytes = option_length (byte_at bytes 14)

abbrev pub opts : List ℕ → List ℕ
opts bytes = slice bytes 34 (pos_part (opt_len bytes))

pub option_length-le : (b : ℕ) → pos_part (option_length b) ≤ 40
option_length-le b = ground arith

pub too_big-option_length : (b : ℕ) → too_big (option_length b) ≡ false
too_big-option_length b = ground arith

pub read_option-value :
    (bytes : List ℕ) (n : ℤ)
    → 34 + pos_part n ≤ length bytes
    → read_option bytes n ≡ ok (slice bytes 34 (pos_part n))
unfolding read_option
read_option-value bytes (pos zero) h = refl
read_option-value bytes (pos (suc n)) h = load-ok bytes 34 (suc n) h
read_option-value bytes (negsuc n) h = refl

-- The result of `checkIPchecksum` on the frame.
abbrev pub good : List ℕ → Bool
good bytes = accepts (65535 - ones_sum (covered (slice bytes 14 20) (opts bytes) (opt_len bytes)))

module _ (bytes : List ℕ) (v : IsBuffer bytes) where
  pub slice-IsBytes : (s n : ℕ) → IsBytes (slice bytes s n)
  slice-IsBytes s n = All-take IsByte n (drop s bytes) (All-drop IsByte s bytes v.octets)

  pub opts_fit : 34 + pos_part (opt_len bytes) ≤ length bytes
  opts_fit = omega (arith, v.size, option_length-le (byte_at bytes 14))

  pub length-opts : pos_part (opt_len bytes) ≤ length (opts bytes)
  length-opts = omega (arith, length-slice bytes 34 (pos_part (opt_len bytes)) opts_fit)

  pub read_option-opts : read_option bytes (opt_len bytes) ≡ ok (opts bytes)
  read_option-opts = read_option-value bytes (opt_len bytes) opts_fit

  pub check-good :
      check_ip_checksum (slice bytes 14 20) (opts bytes) (opt_len bytes) ≡ ok (good bytes)
  check-good =
      check_ip_checksum-value (slice bytes 14 20) (opts bytes) (opt_len bytes)
        (omega (arith, length-slice bytes 14 20 (omega (arith, v.size)))) length-opts
        (slice-IsBytes 14 20) (slice-IsBytes 34 (pos_part (opt_len bytes)))

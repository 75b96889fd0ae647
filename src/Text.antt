-- ===== src/Text.antt =====
-- The text that the programs print, as the list of its bytes, and the formats of `fprintf` and
-- `snprintf` that they use. The texts of addresses: `my_ether_ntoa_r` of each netutil.c,
-- `arp_ip2str` and `ip_ip2str` of pcap/print.c.
pub mod Numbers
pub mod Addresses
use Prim.Native.Char.{code}
use Prim.Native.String.{String}
use c_router.Base.{
  ℕ, zero, suc, ◌+◌, ◌-◌, ◌/◌, ◌%◌, ◌^◌, List, [], ◌∷◌, ◌++◌, Option, none, some, ltb,
  if◌then◌else◌, Outcome, ok, fault, ◌>>=◌, get_elem?, take, length,
}
use c_router.Frame.{u8}

-- The bytes of a literal.
pub codes : String → List ℕ
codes String.[] = []
codes (String.◌∷◌ c s) = code c ∷ codes s

-- The pieces of a format, one after the other.
unfoldable pub concat : List (List ℕ) → List ℕ
concat [] = []
concat (piece ∷ pieces) = piece ++ concat pieces

-- The decimal digits of a number in front of a text, in at most so many rounds.
pub dec_digits : ℕ → ℕ → List ℕ → List ℕ
dec_digits zero n text = text
dec_digits (suc rounds) n text =
    let rest = dec_digits rounds (n / 10) ((48 + n % 10) ∷ text) in
    if ltb n 10 then (48 + n) ∷ text else rest

-- `%u` and `%d` of a number that is not negative. A 32-bit number has at most 10 digits.
pub dec : ℕ → List ℕ
dec n = dec_digits 10 n []

abbrev pub hex_digit : ℕ → ℕ
hex_digit d = if ltb d 10 then 48 + d else 87 + d

-- `%02x` of a byte.
abbrev pub hex_byte : ℕ → List ℕ
hex_byte b = hex_digit (b / 16) ∷ hex_digit (b % 16) ∷ []

pub hex_digits : ℕ → ℕ → List ℕ → List ℕ
hex_digits zero n text = text
hex_digits (suc rounds) n text =
    let rest = hex_digits rounds (n / 16) (hex_digit (n % 16) ∷ text) in
    if ltb n 16 then hex_digit n ∷ text else rest

-- `%x`. A 32-bit number has at most 8 digits.
pub hex : ℕ → List ℕ
hex n = hex_digits 8 n []

abbrev upper : ℕ → ℕ
upper c = if ltb 96 c then c - 32 else c

abbrev uppers : List ℕ → List ℕ
uppers [] = []
uppers (c ∷ cs) = upper c ∷ uppers cs

-- `%02X`
pub hex_upper : ℕ → List ℕ
hex_upper n = if ltb n 16 then 48 ∷ upper (hex_digit n) ∷ [] else uppers (hex n)

-- `snprintf(buf, size, …)`: the text is cut to `size - 1` bytes.
abbrev pub snprintf : ℕ → List ℕ → List ℕ
snprintf size text = take (size - 1) text

-- `table[i]`
unfoldable pub entry : List String → ℕ → Outcome (List ℕ)
entry table i = elim (get_elem? table i) [ none ↦ fault | some s ↦ ok (codes s) ]

-- Six bytes as `%02x`, with `:` (58) between.
abbrev pub colons : ℕ → ℕ → ℕ → ℕ → ℕ → ℕ → List ℕ
colons b0 b1 b2 b3 b4 b5 =
    hex_byte b0
    ++ (58
        ∷ (hex_byte b1
            ++ (58
                ∷ (hex_byte b2
                    ++ (58 ∷ (hex_byte b3 ++ (58 ∷ (hex_byte b4 ++ (58 ∷ hex_byte b5)))))))))

-- `my_ether_ntoa_r(hwaddr, buf, size)`
pub my_ether_ntoa_r : List ℕ → ℕ → Outcome (List ℕ)
my_ether_ntoa_r hwaddr size = do
  b0 ← u8 hwaddr 0
  b1 ← u8 hwaddr 1
  b2 ← u8 hwaddr 2
  b3 ← u8 hwaddr 3
  b4 ← u8 hwaddr 4
  b5 ← u8 hwaddr 5
  ok (snprintf size (colons b0 b1 b2 b3 b4 b5))

-- Four numbers with dots, `.` is 46.
pub dotted : ℕ → ℕ → ℕ → ℕ → List ℕ
dotted b0 b1 b2 b3 = dec b0 ++ (46 ∷ (dec b1 ++ (46 ∷ (dec b2 ++ (46 ∷ dec b3)))))

pub arp_ip2str : List ℕ → ℕ → Outcome (List ℕ)
arp_ip2str ip size = do
  b0 ← u8 ip 0
  b1 ← u8 ip 1
  b2 ← u8 ip 2
  b3 ← u8 ip 3
  ok (snprintf size (dotted b0 b1 b2 b3))

-- `ip_ip2str(ip, buf, size)`, `in_addr_t2str` and `my_inet_ntoa_r`: `inet_ntop` of the four bytes
-- in memory of the address. Where the text and its end do not fit, `buf` stays as it was.
pub ip_ip2str : ℕ → List ℕ → ℕ → List ℕ
ip_ip2str ip buf size =
    let text = dotted (ip % 256) (ip / 2 ^ 8 % 256) (ip / 2 ^ 16 % 256) (ip / 2 ^ 24 % 256) in
    if ltb (length text) size then text else buf

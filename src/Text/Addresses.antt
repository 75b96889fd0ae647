-- ===== src/Text/Addresses.antt =====
-- Addresses read back from their texts, which fit the buffers of 80 bytes.
use c_router.Base.{
  ℕ, zero, suc, ◌+◌, ◌-◌, ◌*◌, ◌/◌, ◌%◌, ◌≤◌, ◌<◌, ◌≡◌, refl, sym, ap, ◌∙◌, List, [], ◌∷◌, ◌++◌,
  leb, if◌then◌else◌, ok, arith, length, length-append, append-nil, take, drop, take_of_length_le,
  byte_at, IsBytes,
}
use c_router.Frame.{u8, u8-ok, u8-append}
use c_router.Text.{dec, hex_digit, colons, snprintf, my_ether_ntoa_r, dotted, arp_ip2str}
use c_router.Text.Numbers.{read_dec, read_dec-dec, length-dec_byte}

abbrev pub hex_value : ℕ → ℕ
hex_value c = if leb 97 c then c - 87 else c - 48

-- Pairs of hexadecimal digits with one byte between.
abbrev pub read_ether : List ℕ → List ℕ
read_ether (h ∷ l ∷ colon ∷ text) = (16 * hex_value h + hex_value l) ∷ read_ether text
read_ether (h ∷ l ∷ []) = (16 * hex_value h + hex_value l) ∷ []
read_ether text = []

hex_byte_value :
    (b : ℕ) → b < 256 → 16 * hex_value (hex_digit (b / 16)) + hex_value (hex_digit (b % 16)) ≡ b
hex_byte_value b h = ground arith

-- The text that `my_ether_ntoa_r` makes of the first six bytes, given room for it and its end, is 17 bytes long
-- and reads back as those bytes.
pub my_ether_ntoa_r-read :
    (hwaddr : List ℕ) (size : ℕ)
    → 6 ≤ length hwaddr
    → IsBytes hwaddr
    → 18 ≤ size
    → (text : List ℕ) × (my_ether_ntoa_r hwaddr size ≡ ok text)
      × (length text ≡ 17)
      × (read_ether text ≡ take 6 hwaddr)
unfolding my_ether_ntoa_r u8
my_ether_ntoa_r-read (b0 ∷ b1 ∷ b2 ∷ b3 ∷ b4 ∷ b5 ∷ rest) size long hb room = (
  _,
  ap ok (take_of_length_le (size - 1) _ (omega arith)),
  refl,
  rw (
    hex_byte_value b0 hb.0,
    hex_byte_value b1 hb.1.0,
    hex_byte_value b2 hb.1.1.0,
    hex_byte_value b3 hb.1.1.1.0,
    hex_byte_value b4 hb.1.1.1.1.0,
    hex_byte_value b5 hb.1.1.1.1.1.0,
  ),
)
my_ether_ntoa_r-read [] size long hb room = absurd (omega arith)
my_ether_ntoa_r-read (b0 ∷ []) size long hb room = absurd (omega arith)
my_ether_ntoa_r-read (b0 ∷ b1 ∷ []) size long hb room = absurd (omega arith)
my_ether_ntoa_r-read (b0 ∷ b1 ∷ b2 ∷ []) size long hb room = absurd (omega arith)
my_ether_ntoa_r-read (b0 ∷ b1 ∷ b2 ∷ b3 ∷ []) size long hb room = absurd (omega arith)
my_ether_ntoa_r-read (b0 ∷ b1 ∷ b2 ∷ b3 ∷ b4 ∷ []) size long hb room = absurd (omega arith)

-- `n` numbers with one byte between.
abbrev pub read_dotted : ℕ → List ℕ → List ℕ
read_dotted zero text = []
read_dotted (suc n) text = let read = read_dec 0 text in read.0 ∷ read_dotted n (drop 1 read.1)

read_dotted-dec :
    (n b : ℕ) (text : List ℕ)
    → b < 256
    → read_dotted (suc n) (dec b ++ (46 ∷ text)) ≡ b ∷ read_dotted n text
read_dotted-dec n b text h =
    ap (λ (r : ℕ × List ℕ). r.0 ∷ read_dotted n (drop 1 r.1))
      (read_dec-dec b (46 ∷ text) (omega arith))

read_dotted-dec_last : (b : ℕ) → b < 256 → read_dotted 1 (dec b) ≡ b ∷ []
read_dotted-dec_last b h =
    ap (read_dotted 1) (sym (append-nil (dec b)))
    ∙ ap (λ (r : ℕ × List ℕ). r.0 ∷ []) (read_dec-dec b [] (omega arith))

read_dotted-dotted :
    (b0 b1 b2 b3 : ℕ)
    → b0 < 256
    → b1 < 256
    → b2 < 256
    → b3 < 256
    → read_dotted 4 (dotted b0 b1 b2 b3) ≡ b0 ∷ b1 ∷ b2 ∷ b3 ∷ []
unfolding dotted
read_dotted-dotted b0 b1 b2 b3 h0 h1 h2 h3 =
    read_dotted-dec 3 b0 _ h0
    ∙ ap (λ t. b0 ∷ t) (read_dotted-dec 2 b1 _ h1)
    ∙ ap (λ t. b0 ∷ b1 ∷ t) (read_dotted-dec 1 b2 _ h2)
    ∙ ap (λ t. b0 ∷ b1 ∷ b2 ∷ t) (read_dotted-dec_last b3 h3)

length-dotted :
    (b0 b1 b2 b3 : ℕ) → b0 < 256 → b1 < 256 → b2 < 256 → b3 < 256 → length (dotted b0 b1 b2 b3) ≤ 15
unfolding dotted
length-dotted b0 b1 b2 b3 h0 h1 h2 h3 =
    let t3 : List ℕ = 46 ∷ dec b3 in
    let t2 : List ℕ = 46 ∷ (dec b2 ++ t3) in
    let t1 : List ℕ = 46 ∷ (dec b1 ++ t2) in
    omega (
      arith,
      length-append (dec b0) t1,
      length-append (dec b1) t2,
      length-append (dec b2) t3,
      length-dec_byte b0 h0,
      length-dec_byte b1 h1,
      length-dec_byte b2 h2,
      length-dec_byte b3 h3,
    )

-- The text that `arp_ip2str` makes of the first four bytes, given room for it and its end, has at most 15 bytes
-- and reads back as those bytes.
pub arp_ip2str-read :
    (ip : List ℕ) (size : ℕ)
    → 4 ≤ length ip
    → IsBytes ip
    → 16 ≤ size
    → (text : List ℕ) × (arp_ip2str ip size ≡ ok text)
      × (length text ≤ 15)
      × (read_dotted 4 text ≡ take 4 ip)
unfolding arp_ip2str u8
arp_ip2str-read (b0 ∷ b1 ∷ b2 ∷ b3 ∷ rest) size long hb room =
    let short = length-dotted b0 b1 b2 b3 hb.0 hb.1.0 hb.1.1.0 hb.1.1.1.0 in
    (
      dotted b0 b1 b2 b3,
      ap ok (take_of_length_le (size - 1) (dotted b0 b1 b2 b3) (omega arith)),
      short,
      read_dotted-dotted b0 b1 b2 b3 hb.0 hb.1.0 hb.1.1.0 hb.1.1.1.0,
    )
arp_ip2str-read [] size long hb room = absurd (omega arith)
arp_ip2str-read (b0 ∷ []) size long hb room = absurd (omega arith)
arp_ip2str-read (b0 ∷ b1 ∷ []) size long hb room = absurd (omega arith)
arp_ip2str-read (b0 ∷ b1 ∷ b2 ∷ []) size long hb room = absurd (omega arith)

-- Whatever the bytes are, these many are read.
pub my_ether_ntoa_r-ok :
    (hwaddr : List ℕ) (size : ℕ)
    → 6 ≤ length hwaddr
    → (text : List ℕ) × (my_ether_ntoa_r hwaddr size ≡ ok text)
unfolding my_ether_ntoa_r
my_ether_ntoa_r-ok hwaddr size h = (
  snprintf size (
      colons (byte_at hwaddr 0) (byte_at hwaddr 1) (byte_at hwaddr 2) (byte_at hwaddr 3)
        (byte_at hwaddr 4) (byte_at hwaddr 5)),
  rw (
    u8-ok hwaddr 0 (omega arith),
    u8-ok hwaddr 1 (omega arith),
    u8-ok hwaddr 2 (omega arith),
    u8-ok hwaddr 3 (omega arith),
    u8-ok hwaddr 4 (omega arith),
    u8-ok hwaddr 5 (omega arith),
  ),
)

pub arp_ip2str-ok :
    (ip : List ℕ) (size : ℕ) → 4 ≤ length ip → (text : List ℕ) × (arp_ip2str ip size ≡ ok text)
unfolding arp_ip2str
arp_ip2str-ok ip size h = (
  snprintf size (dotted (byte_at ip 0) (byte_at ip 1) (byte_at ip 2) (byte_at ip 3)),
  rw (
    u8-ok ip 0 (omega arith),
    u8-ok ip 1 (omega arith),
    u8-ok ip 2 (omega arith),
    u8-ok ip 3 (omega arith),
  ),
)

-- What stands after the six bytes is not read.
pub my_ether_ntoa_r-append :
    (xs ys : List ℕ) (size : ℕ)
    → 6 ≤ length xs
    → my_ether_ntoa_r (xs ++ ys) size ≡ my_ether_ntoa_r xs size
unfolding my_ether_ntoa_r
my_ether_ntoa_r-append xs ys size h =
    rw
      (
        u8-append xs ys 0 (omega arith),
        u8-append xs ys 1 (omega arith),
        u8-append xs ys 2 (omega arith),
        u8-append xs ys 3 (omega arith),
        u8-append xs ys 4 (omega arith),
        u8-append xs ys 5 (omega arith),
      )
      refl

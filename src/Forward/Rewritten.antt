-- ===== src/Forward/Rewritten.antt =====
-- The frame that is sent on: what it shares with the frame received, and that its IP checksum is right.
use c_router.Base.{
  ℕ, ◌+◌, ◌-◌, ◌≤◌, ◌<◌, ◌≡◌, ◌≢◌, ◌⊎◌, inl, refl, sym, ap, ◌∙◌, List, [], ◌∷◌, true, ℤ, pos_part,
  ok, arith, load-ok, store-ok, slice, splice, byte_at, bytes2, IsBytes, IsByte, All-take, All-drop,
  length, length-splice, length-slice, splice-IsBytes, slice-splice_inside, slice-splice_before,
  byte_at-splice, byte_at-splice_self, splice-splice_self, drop,
}
use c_router.Checksum.{checksum2, check_ip_checksum}
use c_router.Checksum.Ones.{ones_sum}
use c_router.Checksum.Split.{checksum2-ones_sum}
use c_router.Checksum.Header.{covered, with_check, check_ip_checksum-with_check}
use c_router.Frame.{u8-ok, dec_ttl}
use c_router.Forward.{restamp}

abbrev pub header : List ℕ → List ℕ
header bytes = slice bytes 14 20

-- The steps of `restamp`, in range.
abbrev pub ttl_down : List ℕ → List ℕ
ttl_down bytes = splice bytes 22 (dec_ttl (byte_at bytes 22) ∷ [])

abbrev pub zeroed : List ℕ → List ℕ
zeroed bytes = splice (ttl_down bytes) 24 (0 ∷ 0 ∷ [])

abbrev pub new_check : List ℕ → List ℕ → ℤ → ℕ
new_check bytes option option_len =
    65535 - ones_sum (covered (header (zeroed bytes)) option option_len)

abbrev pub restamped : List ℕ → List ℕ → ℤ → List ℕ
restamped bytes option option_len =
    splice (zeroed bytes) 24 (bytes2 (new_check bytes option option_len))

slice-IsBytes : (mem : List ℕ) (s n : ℕ) → IsBytes mem → IsBytes (slice mem s n)
slice-IsBytes mem s n h = All-take IsByte n (drop s mem) (All-drop IsByte s mem h)

module _ (bytes option : List ℕ) (option_len : ℤ) (long : 34 ≤ length bytes) (hb : IsBytes bytes)
    (opt_long : pos_part option_len ≤ length option) (ho : IsBytes option) where
  pub length_down : length (ttl_down bytes) ≡ length bytes
  length_down = length-splice bytes 22 (dec_ttl (byte_at bytes 22) ∷ [])

  pub length-zeroed : length (zeroed bytes) ≡ length bytes
  length-zeroed = length-splice (ttl_down bytes) 24 (0 ∷ 0 ∷ []) ∙ length_down

  down-IsBytes : IsBytes (ttl_down bytes)
  down-IsBytes = splice-IsBytes bytes 22 (dec_ttl (byte_at bytes 22) ∷ []) hb (omega arith)

  zeroed-IsBytes : IsBytes (zeroed bytes)
  zeroed-IsBytes = splice-IsBytes (ttl_down bytes) 24 (0 ∷ 0 ∷ []) down-IsBytes (omega arith)

  length-header : length (header (zeroed bytes)) ≡ 20
  length-header = length-slice (zeroed bytes) 14 20 (omega (arith, length-zeroed))

  pub computed :
      checksum2 (header (zeroed bytes)) 20 option option_len
      ≡ ok (new_check bytes option option_len)
  computed =
      checksum2-ones_sum (header (zeroed bytes)) 20 option option_len refl
        (omega (arith, length-header)) opt_long (slice-IsBytes (zeroed bytes) 14 20 zeroed-IsBytes)
        ho

  pub restamp-value : restamp bytes option option_len ≡ ok (restamped bytes option option_len)
  unfolding restamp
  restamp-value = rw (
    u8-ok bytes 22 (omega arith),
    store-ok bytes 22 (dec_ttl (byte_at bytes 22) ∷ []) (omega arith),
    store-ok (ttl_down bytes) 24 (0 ∷ 0 ∷ []) (omega (arith, length_down)),
    load-ok (zeroed bytes) 14 20 (omega (arith, length-zeroed)),
    computed,
    store-ok (zeroed bytes) 24 (bytes2 (new_check bytes option option_len))
        (omega (arith, length-zeroed)),
  )

  pub length-restamped : length (restamped bytes option option_len) ≡ length bytes
  length-restamped = length-splice (zeroed bytes) 24 _ ∙ length-zeroed

  pub restamped-IsBytes : IsBytes (restamped bytes option option_len)
  restamped-IsBytes =
      splice-IsBytes (zeroed bytes) 24 (bytes2 (new_check bytes option option_len)) zeroed-IsBytes
        (omega arith)

  -- The IP checksum of the result is right.
  pub restamped-valid :
      check_ip_checksum (header (restamped bytes option option_len)) option option_len ≡ ok true
  restamped-valid =
      rw in_header
        (check_ip_checksum-with_check (header (zeroed bytes)) option option_len length-header
          opt_long (slice-IsBytes (zeroed bytes) 14 20 zeroed-IsBytes) ho (rw already computed)).0
    where
      c : ℕ
      c = new_check bytes option option_len

      in_header : header (restamped bytes option option_len) ≡ with_check (header (zeroed bytes)) c
      in_header =
          slice-splice_inside (zeroed bytes) 14 10 20 (bytes2 c) 24 (omega arith) (omega arith)

      zero_field : header (zeroed bytes) ≡ with_check (header (ttl_down bytes)) 0
      zero_field =
          slice-splice_inside (ttl_down bytes) 14 10 20 (0 ∷ 0 ∷ []) 24 (omega arith) (omega arith)

      already : with_check (header (zeroed bytes)) 0 ≡ header (zeroed bytes)
      already =
          ap (λ h. with_check h 0) zero_field
          ∙ splice-splice_self (header (ttl_down bytes)) 10 (0 ∷ 0 ∷ []) (0 ∷ 0 ∷ []) (omega arith)
          ∙ sym zero_field

  -- The TTL is that of the frame less 1, and no other byte but those of the checksum differs.
  pub restamped-ttl : byte_at (restamped bytes option option_len) 22 ≡ dec_ttl (byte_at bytes 22)
  restamped-ttl =
      byte_at-splice (zeroed bytes) 24 _ 22 (inl (omega arith))
      ∙ byte_at-splice (ttl_down bytes) 24 _ 22 (inl (omega arith))
      ∙ byte_at-splice_self bytes 22 (dec_ttl (byte_at bytes 22)) (omega arith)

  pub restamped-rest :
      (i : ℕ)
      → i ≢ 22
      → (i < 24) ⊎ (26 ≤ i)
      → byte_at (restamped bytes option option_len) i ≡ byte_at bytes i
  restamped-rest i ne out =
      byte_at-splice (zeroed bytes) 24 _ i out
      ∙ byte_at-splice (ttl_down bytes) 24 _ i out
      ∙ byte_at-splice bytes 22 _ i (ground arith)

  -- What stands before the TTL stays.
  pub slice-restamped :
      (s n : ℕ) → s + n ≤ 22 → slice (restamped bytes option option_len) s n ≡ slice bytes s n
  slice-restamped s n h =
      slice-splice_before (zeroed bytes) 24 _ s n (omega arith)
      ∙ slice-splice_before (ttl_down bytes) 24 _ s n (omega arith)
      ∙ slice-splice_before bytes 22 _ s n h

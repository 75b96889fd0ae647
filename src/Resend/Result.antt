-- ===== src/Resend/Result.antt =====
-- What `BufferSendOne` sends.
use c_router.Base.{
  ℕ, zero, suc, ◌+◌, ◌≤◌, ◌<◌, ◌≡◌, refl, sym, ap, ◌∙◌, List, [], ◌∷◌, ok, pos_part, arith, length,
  drop, All-take, All-drop, IsBytes, IsByte, load-ok, store-ok, slice, splice, byte_at, bytes2,
  length-splice, length-slice, splice-IsBytes, slice-splice_after, splice-splice-slice,
  splice-splice_inside, slice-splice_inside, splice-no_bytes,
}
use c_router.Checksum.{checksum2}
use c_router.Frame.{u8-ok, dec_ttl}
use c_router.Forward.{rewrite}
use c_router.Forward.Result.{rewrite-value}
use c_router.Forward.Rewritten.{
  header, ttl_down, zeroed, new_check, restamped, computed, length-restamped,
}
use c_router.Ip2Mac.Entry.{IsMac}
use c_router.Resend.{flush_frame}
use c_router.Router.Fields.{opt_len, opts, read_option-value}

byte_at-take : (n : ℕ) (mem : List ℕ) (i : ℕ) → i < n → byte_at (slice mem 0 n) i ≡ byte_at mem i
byte_at-take zero mem i h = absurd (omega arith)
byte_at-take (suc n) [] i h = refl
byte_at-take (suc n) (x ∷ mem) zero h = refl
byte_at-take (suc n) (x ∷ mem) (suc i) h = byte_at-take n mem i (omega arith)

byte_at-slice :
    (mem : List ℕ) (s n i off : ℕ)
    → off ≡ s + i
    → i < n
    → byte_at (slice mem s n) i ≡ byte_at mem off
byte_at-slice mem zero n i off e h =
    let at : off ≡ i = omega arith in rw at (byte_at-take n mem i h)
byte_at-slice [] (suc s) zero i off e h = absurd (omega arith)
byte_at-slice [] (suc s) (suc n) i off e h = refl
byte_at-slice (x ∷ mem) (suc s) n i zero e h = absurd (omega arith)
byte_at-slice (x ∷ mem) (suc s) n i (suc off) e h = byte_at-slice mem s n i off (omega arith) h

-- The frame with the MAC address of the entry, otherwise as `AnalyzePacket` would have sent it.
abbrev pub flushed : List ℕ → List ℕ → List ℕ
flushed hwaddr bytes = restamped (splice bytes 0 hwaddr) (opts bytes) (opt_len bytes)

module _ (hwaddr bytes : List ℕ) (long : 34 ≤ length bytes)
    (fits : 34 + pos_part (opt_len bytes) ≤ length bytes) (hb : IsBytes bytes)
    (m : IsMac hwaddr) where
  abbrev moved : List ℕ
  moved = splice bytes 0 hwaddr

  abbrev ttl : ℕ
  ttl = dec_ttl (byte_at bytes 22)

  length-moved : length moved ≡ length bytes
  length-moved = length-splice bytes 0 hwaddr

  -- The header in the frame.
  abbrev iphdr : List ℕ
  iphdr = slice bytes 14 20

  same_iphdr : header moved ≡ iphdr
  same_iphdr = slice-splice_after bytes 0 hwaddr 14 20 (omega (arith, m.0))

  same_ttl : byte_at moved 22 ≡ byte_at bytes 22
  same_ttl =
      sym (byte_at-slice moved 14 20 8 22 refl (omega arith))
      ∙ ap (λ h. byte_at h 8) same_iphdr
      ∙ byte_at-slice bytes 14 20 8 22 refl (omega arith)

  length-iphdr : length iphdr ≡ 20
  length-iphdr = length-slice bytes 14 20 long

  abbrev lowered : List ℕ
  lowered = splice iphdr 8 (ttl ∷ [])

  abbrev blank : List ℕ
  blank = splice lowered 10 (0 ∷ 0 ∷ [])

  length-lowered : length lowered ≡ 20
  length-lowered = length-splice iphdr 8 (ttl ∷ []) ∙ length-iphdr

  length-blank : length blank ≡ 20
  length-blank = length-splice lowered 10 (0 ∷ 0 ∷ []) ∙ length-lowered

  -- Copied out and changed, or changed in place.
  same_blank : header (zeroed moved) ≡ blank
  same_blank =
      slice-splice_inside (ttl_down moved) 14 10 20 (0 ∷ 0 ∷ []) 24 refl (omega arith)
      ∙ ap (λ h. splice h 10 (0 ∷ 0 ∷ []))
          (slice-splice_inside moved 14 8 20 (byte_at-dec ∷ []) 22 refl (omega arith)
            ∙ rw (same_iphdr, same_ttl) refl)
    where
      byte_at-dec : ℕ
      byte_at-dec = dec_ttl (byte_at moved 22)

  abbrev check : ℕ
  check = new_check moved (opts bytes) (opt_len bytes)

  opts_long : pos_part (opt_len bytes) ≤ length (opts bytes)
  opts_long = omega (arith, length-slice bytes 34 (pos_part (opt_len bytes)) fits)

  slice-IsBytes : (s n : ℕ) → IsBytes (slice bytes s n)
  slice-IsBytes s n = All-take IsByte n (drop s bytes) (All-drop IsByte s bytes hb)

  blank-check : checksum2 blank 20 (opts bytes) (opt_len bytes) ≡ ok check
  blank-check =
      ap (λ h. checksum2 h 20 (opts bytes) (opt_len bytes)) (sym same_blank)
      ∙ computed moved (opts bytes) (opt_len bytes) (omega (arith, length-moved))
          (splice-IsBytes bytes 0 hwaddr hb m.1) opts_long
          (slice-IsBytes 34 (pos_part (opt_len bytes)))

  put_back : splice moved 14 (splice blank 10 (bytes2 check)) ≡ flushed hwaddr bytes
  put_back =
      sym (
        splice-splice_inside moved 14 blank 10 (bytes2 check) 24 refl (omega (arith, length-blank)))
      ∙ ap (λ mem. splice mem 24 (bytes2 check)) back_zeroed
    where
      back_down : splice moved 14 lowered ≡ ttl_down moved
      back_down =
          ap (λ h. splice moved 14 (splice h 8 (ttl ∷ []))) (sym same_iphdr)
          ∙ splice-splice-slice moved 14 20 8 (ttl ∷ []) 22 refl (omega arith)
          ∙ ap (λ b. splice moved 22 (dec_ttl b ∷ [])) (sym same_ttl)

      back_zeroed : splice moved 14 blank ≡ zeroed moved
      back_zeroed =
          sym (
            splice-splice_inside moved 14 lowered 10 (0 ∷ 0 ∷ []) 24 refl
              (omega (arith, length-lowered)))
          ∙ ap (λ mem. splice mem 24 (0 ∷ 0 ∷ [])) back_down

  pub flush_frame-value : flush_frame hwaddr bytes ≡ ok (flushed hwaddr bytes)
  unfolding flush_frame
  flush_frame-value =
      rw
        (
          load-ok bytes 0 14 (omega arith),
          load-ok bytes 14 20 (omega arith),
          u8-ok iphdr 0 (omega (arith, length-iphdr)),
          byte_at-slice bytes 14 20 0 14 refl (omega arith),
          read_option-value bytes (opt_len bytes) fits,
          store-ok (slice bytes 0 14) 0 hwaddr (omega (arith, m.0, length_eh)),
          store-ok bytes 0 (splice (slice bytes 0 14) 0 hwaddr)
              (omega (arith, length_eh, length-splice (slice bytes 0 14) 0 hwaddr)),
          splice-splice-slice bytes 0 14 0 hwaddr 0 refl (omega (arith, m.0)),
          u8-ok iphdr 8 (omega (arith, length-iphdr)),
          byte_at-slice bytes 14 20 8 22 refl (omega arith),
          store-ok iphdr 8 (ttl ∷ []) (omega (arith, length-iphdr)),
          store-ok lowered 10 (0 ∷ 0 ∷ []) (omega (arith, length-lowered)),
          blank-check,
          store-ok blank 10 (bytes2 check) (omega (arith, length-blank)),
          store-ok moved 14 (splice blank 10 (bytes2 check))
              (omega (arith, length-moved, length-blank, length-splice blank 10 (bytes2 check))),
        )
        (ap ok put_back)
    where
      length_eh : length (slice bytes 0 14) ≡ 14
      length_eh = length-slice bytes 0 14 (omega arith)

  same_source : splice moved 6 (slice bytes 6 6) ≡ moved
  same_source =
      ap (λ h. splice moved 6 h) (sym (slice-splice_after bytes 0 hwaddr 6 6 (omega (arith, m.0))))
      ∙ splice-splice-slice moved 6 6 0 [] 6 refl (omega arith)
      ∙ splice-no_bytes moved 6

  -- `BufferSendOne` rewrites a frame of at least 34 bytes that holds its IP options, with a MAC
  -- address of 6 bytes, as `AnalyzePacket` rewrites a frame that it sends on at once, but that the
  -- source MAC address stays.
  pub flush_frame-rewrite :
      flush_frame hwaddr bytes ≡ rewrite bytes hwaddr (slice bytes 6 6) (opts bytes) (opt_len bytes)
  flush_frame-rewrite =
      flush_frame-value
      ∙ ap (λ mem. ok (restamped mem (opts bytes) (opt_len bytes))) (sym same_source)
      ∙ sym (
          rewrite-value bytes hwaddr (slice bytes 6 6) (opts bytes) (opt_len bytes) long hb m
            (length-slice bytes 6 6 (omega arith), slice-IsBytes 6 6) opts_long
            (slice-IsBytes 34 (pos_part (opt_len bytes))))

  pub length-flushed : length (flushed hwaddr bytes) ≡ length bytes
  length-flushed =
      length-restamped moved (opts bytes) (opt_len bytes) (omega (arith, length-moved))
        (splice-IsBytes bytes 0 hwaddr hb m.1) opts_long
        (slice-IsBytes 34 (pos_part (opt_len bytes)))
      ∙ length-moved

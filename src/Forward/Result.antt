-- ===== src/Forward/Result.antt =====
-- `rewrite` as a whole: the MAC addresses, then the header.
use c_router.Base.{
  ℕ, ◌+◌, ◌≤◌, ◌≡◌, inr, ap, ◌∙◌, List, true, ℤ, pos_part, ok, arith, store-ok, slice, splice,
  byte_at, IsBytes, length, length-splice, splice-IsBytes, slice-splice_self, slice-splice_before,
  slice-splice_after, inl, byte_at-splice,
}
use c_router.Checksum.{check_ip_checksum}
use c_router.Frame.{dec_ttl}
use c_router.Ip2Mac.Entry.{IsMac}
use c_router.Forward.{readdress, rewrite}
use c_router.Forward.Rewritten.{
  header, restamped, restamp-value, length-restamped, restamped-IsBytes, restamped-valid,
  restamped-ttl, restamped-rest, slice-restamped,
}

-- What a frame sent on has of the frame received: new MAC addresses, the TTL less 1, an IP checksum
-- that is right, and every other byte.
pub record Rewritten (bytes dhost shost option : List ℕ) (option_len : ℤ) (out : List ℕ)
    : Type 0 where
  pub same_length : length out ≡ length bytes
  pub octets : IsBytes out
  pub destination : slice out 0 6 ≡ dhost
  pub source : slice out 6 6 ≡ shost
  pub ttl : byte_at out 22 ≡ dec_ttl (byte_at bytes 22)
  pub valid : check_ip_checksum (header out) option option_len ≡ ok true
  pub between : slice out 12 10 ≡ slice bytes 12 10
  pub protocol : byte_at out 23 ≡ byte_at bytes 23
  pub rest : (i : ℕ) → byte_at out (26 + i) ≡ byte_at bytes (26 + i)

abbrev pub readdressed : List ℕ → List ℕ → List ℕ → List ℕ
readdressed bytes dhost shost = splice (splice bytes 0 dhost) 6 shost

abbrev pub rewritten : List ℕ → List ℕ → List ℕ → List ℕ → ℤ → List ℕ
rewritten bytes dhost shost option option_len =
    restamped (readdressed bytes dhost shost) option option_len

module _ (bytes dhost shost option : List ℕ) (option_len : ℤ) (long : 34 ≤ length bytes)
    (hb : IsBytes bytes) (md : IsMac dhost) (ms : IsMac shost)
    (opt_long : pos_part option_len ≤ length option) (ho : IsBytes option) where
  abbrev moved : List ℕ
  moved = readdressed bytes dhost shost

  length-moved : length moved ≡ length bytes
  length-moved = length-splice (splice bytes 0 dhost) 6 shost ∙ length-splice bytes 0 dhost

  moved-IsBytes : IsBytes moved
  moved-IsBytes =
      splice-IsBytes (splice bytes 0 dhost) 6 shost (splice-IsBytes bytes 0 dhost hb md.1) ms.1

  moved_long : 34 ≤ length moved
  moved_long = omega (arith, length-moved)

  six :
      {mac : List ℕ}
      → length mac ≡ 6
      → (mem : List ℕ) (off : ℕ) → off + 6 ≤ length mem
      → slice (splice mem off mac) off 6 ≡ mac
  six {mac} e mem off h = rw e at (slice-splice_self mem off mac (omega arith))

  moved_byte : (i : ℕ) → 12 ≤ i → byte_at moved i ≡ byte_at bytes i
  moved_byte i h =
      byte_at-splice (splice bytes 0 dhost) 6 shost i (inr (omega (arith, ms.0)))
      ∙ byte_at-splice bytes 0 dhost i (inr (omega (arith, md.0)))

  pub rewrite-value :
      rewrite bytes dhost shost option option_len
      ≡ ok (rewritten bytes dhost shost option option_len)
  unfolding rewrite readdress
  rewrite-value = rw (
    store-ok bytes 0 dhost (omega (arith, md.0)),
    store-ok (splice bytes 0 dhost) 6 shost (omega (arith, ms.0, length-splice bytes 0 dhost)),
    restamp-value moved option option_len moved_long moved-IsBytes opt_long ho,
  )

  -- Of a frame of at least 34 bytes with its options, what `AnalyzePacket` sends on are the bytes
  -- received with the two MAC addresses replaced, the TTL lowered by 1 (from 0 to 255) and an IP
  -- checksum that `checkIPchecksum` accepts; no other byte differs, and nothing is read or written
  -- out of range.
  pub rewrite-Rewritten :
      (out : List ℕ) × (rewrite bytes dhost shost option option_len ≡ ok out)
      × Rewritten bytes dhost shost option option_len out
  rewrite-Rewritten = (
    rewritten bytes dhost shost option option_len,
    rewrite-value,
    record {
      same_length =
          length-restamped moved option option_len moved_long moved-IsBytes opt_long ho
          ∙ length-moved;
      octets = restamped-IsBytes moved option option_len moved_long moved-IsBytes opt_long ho;
      destination =
          slice-restamped moved option option_len moved_long moved-IsBytes opt_long ho 0 6
            (omega arith)
          ∙ slice-splice_before (splice bytes 0 dhost) 6 shost 0 6 (omega arith)
          ∙ six md.0 bytes 0 (omega arith);
      source =
          slice-restamped moved option option_len moved_long moved-IsBytes opt_long ho 6 6
            (omega arith)
          ∙ six ms.0 (splice bytes 0 dhost) 6 (omega (arith, length-splice bytes 0 dhost));
      ttl =
          restamped-ttl moved option option_len moved_long moved-IsBytes opt_long ho
          ∙ ap dec_ttl (moved_byte 22 (omega arith));
      valid = restamped-valid moved option option_len moved_long moved-IsBytes opt_long ho;
      between =
          slice-restamped moved option option_len moved_long moved-IsBytes opt_long ho 12 10
            (omega arith)
          ∙ slice-splice_after (splice bytes 0 dhost) 6 shost 12 10 (omega (arith, ms.0))
          ∙ slice-splice_after bytes 0 dhost 12 10 (omega (arith, md.0));
      protocol =
          restamped-rest moved option option_len moved_long moved-IsBytes opt_long ho 23
            (omega arith) (inl (omega arith))
          ∙ moved_byte 23 (omega arith);
      rest = λ i.
          restamped-rest moved option option_len moved_long moved-IsBytes opt_long ho (26 + i)
            (omega arith) (inr (omega arith))
          ∙ moved_byte (26 + i) (omega arith);
    },
  )

-- ===== src/Ip2Mac/Cache.antt =====
-- The table as a map from IP to MAC addresses, and what a search does to the map.
use c_router.Base.{
  ℕ, zero, suc, ◌+◌, ◌≡◌, ◌≢◌, refl, List, [], ◌∷◌, ◌++◌, Bool, true, false, ◌&&◌, not, Option,
  none, some, ◌==◌, if◌then◌else◌, arith, set, get_elem?,
}
use c_router.Device.{Ip2mac, Env}
use c_router.Ip2Mac.{
  is_free, is_ok, expired, release, Visit, vacant, kept, freed, hit, visit_match, visit, Scanned,
  found, missed, keep, advance, scan,
}
use c_router.Ip2Mac.Table.{holds-get_elem?}
use c_router.Ip2Mac.Scan.{distinct, entries_of, Visited, visit-Visited}

abbrev pub knows : ℕ → ℕ → Ip2mac → Bool
knows now a e = is_ok e.flag && (e.addr == a && not (expired now e))

-- The MAC address known for an IP address: that of an entry in `FLAG_OK` which is not too old.
abbrev pub resolve : ℕ → ℕ → List Ip2mac → Option (List ℕ)
resolve now a [] = none
resolve now a (e ∷ es) = if knows now a e then some e.hwaddr else resolve now a es

-- The loop changes what is known for its own address only.
module _ (env : Env) (addr : ℕ) (hwaddr : Option (List ℕ)) (a : ℕ) (ne : a ≢ addr) where
  freed_unknown :
      (e e' : Ip2mac)
      → visit env addr hwaddr e ≡ freed e'
      → (knows env.now a e ≡ false) × (knows env.now a e' ≡ false)
  unfolding visit visit_match release
  freed_unknown e e' h = by_hwaddr hwaddr h
    where
      by_hwaddr :
          (m : Option (List ℕ))
          → visit env addr m e ≡ freed e'
          → (knows env.now a e ≡ false) × (knows env.now a e' ≡ false)
      by_hwaddr none h = ground arith
      by_hwaddr (some mac) h = ground arith

  hit_unknown :
      (e e' : Ip2mac) (wake : Bool)
      → Visited addr e (hit wake e')
      → (knows env.now a e ≡ false) × (knows env.now a e' ≡ false)
  hit_unknown e e' wake h = ground arith

  resolve-keep :
      (e : Ip2mac) (s : Scanned)
      → resolve env.now a (entries_of (keep e s)) ≡ resolve env.now a (e ∷ entries_of s)
  resolve-keep e (found wake k es) = refl
  resolve-keep e (missed slot es) = refl

  resolve-advance :
      (v : Visit) (e : Ip2mac) (i : ℕ) (free : Option ℕ) (es : List Ip2mac)
      (more : Option ℕ → Scanned)
      → visit env addr hwaddr e ≡ v
      → ((f : Option ℕ) → resolve env.now a (entries_of (more f)) ≡ resolve env.now a es)
      → resolve env.now a (entries_of (advance v e i free es more)) ≡ resolve env.now a (e ∷ es)
  resolve-advance vacant e i free es more is go = rw (resolve-keep, go)
  resolve-advance kept e i free es more is go = rw (resolve-keep, go)
  resolve-advance (freed e') e i free es more is go =
      let (before, after) = freed_unknown e e' is in rw (resolve-keep, go, before, after)
  resolve-advance (hit wake e') e i free es more is go =
      let visited : Visited addr e (hit wake e') = rw is at (visit-Visited env addr hwaddr e) in
      let (before, after) = hit_unknown e e' wake visited in rw (before, after)

  pub resolve-scan :
      (i : ℕ) (free : Option ℕ) (es : List Ip2mac)
      → resolve env.now a (entries_of (scan env addr hwaddr i free es)) ≡ resolve env.now a es
  unfolding scan
  resolve-scan i free [] = refl
  resolve-scan i free (e ∷ es) =
      resolve-advance (visit env addr hwaddr e) e i free es _ refl (λ f. resolve-scan (i + 1) f es)

-- Writing a free slot, or behind the table, changes nothing for other addresses.
module _ (now a : ℕ) (new : Ip2mac) (ne : a ≢ new.addr) where
  pub resolve-set :
      (es : List Ip2mac) (j : ℕ) {e : Ip2mac}
      → get_elem? es j ≡ some e
      → is_free e.flag ≡ true
      → resolve now a (set es j new) ≡ resolve now a es
  resolve-set [] j at is = refl
  resolve-set (e ∷ es) zero at is = ground arith
  resolve-set (e ∷ es) (suc j) at is = ground (arith, resolve-set es j at is)

  pub resolve-append : (es : List Ip2mac) → resolve now a (es ++ (new ∷ [])) ≡ resolve now a es
  resolve-append [] = ground arith
  resolve-append (e ∷ es) = ground (arith, resolve-append es)

-- In a table without doubles an entry that is known is the one that is found.
pub resolve-get_elem? :
    (now : ℕ) (es : List Ip2mac) (i : ℕ) {e : Ip2mac}
    → distinct es ≡ true
    → get_elem? es i ≡ some e
    → is_ok e.flag ≡ true
    → expired now e ≡ false
    → resolve now e.addr es ≡ some e.hwaddr
resolve-get_elem? now [] i u at known fresh = absurd (ground arith)
resolve-get_elem? now (e ∷ es) zero u at known fresh = ground arith
resolve-get_elem? now (e' ∷ es) (suc i) {e} u at known fresh = ground (
  arith,
  resolve-get_elem? now es i {e = e} (ground arith) at known fresh,
  holds-get_elem? es i {e = e} at (ground arith),
)

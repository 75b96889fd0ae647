-- ===== src/Ip2Mac/Scan.antt =====
-- What the loop of `Ip2MacSearch` does to the entries and finds among them.
use c_router.Base.{
  ℕ, suc, ◌+◌, ◌≡◌, refl, sym, ◌∙◌, ◌⊎◌, inl, inr, List, [], ◌∷◌, Bool, true, false, ◌&&◌, ◌||◌,
  not, Option, none, some, ◌==◌, arith, length, get_elem?, All,
}
use c_router.Device.{flag_free, Ip2mac, Env}
use c_router.Ip2Mac.{
  is_free, release, touch, Visit, vacant, kept, freed, hit, visit_match, visit, Scanned, found,
  missed, keep, first_free, advance, scan,
}

-- Some entry in use is for the address.
abbrev pub holds : ℕ → List Ip2mac → Bool
holds addr [] = false
holds addr (e ∷ es) = (not (is_free e.flag) && e.addr == addr) || holds addr es

-- No two entries in use are for one address.
abbrev pub distinct : List Ip2mac → Bool
distinct [] = true
distinct (e ∷ es) = (is_free e.flag || not (holds e.addr es)) && distinct es

-- What a visit says of its entry.
abbrev pub Visited : ℕ → Ip2mac → Visit → Type 0
Visited addr e vacant = is_free e.flag ≡ true
Visited addr e kept = (is_free e.flag ≡ false) × ((e.addr == addr) ≡ false)
Visited addr e (freed e') = (e'.flag ≡ flag_free) × (e'.addr ≡ e.addr)
Visited addr e (hit wake e') =
    (is_free e.flag ≡ false) × (is_free e'.flag ≡ false) × (e.addr ≡ addr) × (e'.addr ≡ addr)

pub visit-Visited :
    (env : Env) (addr : ℕ) (hwaddr : Option (List ℕ)) (e : Ip2mac)
    → Visited addr e (visit env addr hwaddr e)
unfolding visit visit_match release
visit-Visited env addr none e = ground arith
visit-Visited env addr (some hwaddr) e = ground arith

abbrev pub entries_of : Scanned → List Ip2mac
entries_of (found wake i es) = es
entries_of (missed free es) = es

abbrev pub is_missed : Scanned → Bool
is_missed (found wake i es) = false
is_missed (missed free es) = true

module _ (env : Env) (addr : ℕ) (hwaddr : Option (List ℕ)) where
  pub length-scan :
      (i : ℕ) (free : Option ℕ) (es : List Ip2mac)
      → length (entries_of (scan env addr hwaddr i free es)) ≡ length es
  unfolding scan
  length-scan i free [] = refl
  length-scan i free (e ∷ es) =
      ground (arith, length-scan (i + 1) free es, length-scan (i + 1) (first_free free i) es)

  -- The loop makes no entry for an address that had none.
  pub holds-scan :
      (a i : ℕ) (free : Option ℕ) (es : List Ip2mac)
      → holds a es ≡ false
      → holds a (entries_of (scan env addr hwaddr i free es)) ≡ false
  unfolding scan
  holds-scan a i free [] h = refl
  holds-scan a i free (e ∷ es) h = ground (
    arith,
    visit-Visited env addr hwaddr e,
    holds-scan a (i + 1) free es,
    holds-scan a (i + 1) (first_free free i) es,
  )

  pub distinct-scan :
      (i : ℕ) (free : Option ℕ) (es : List Ip2mac)
      → distinct es ≡ true
      → distinct (entries_of (scan env addr hwaddr i free es)) ≡ true
  unfolding scan
  distinct-scan i free [] h = refl
  distinct-scan i free (e ∷ es) h = ground (
    arith,
    visit-Visited env addr hwaddr e,
    holds-scan e.addr (i + 1) free es,
    holds-scan e.addr (i + 1) (first_free free i) es,
    distinct-scan (i + 1) free es,
    distinct-scan (i + 1) (first_free free i) es,
  )

  -- A loop that finds nothing leaves no entry in use for the address.
  pub holds-missed :
      (i : ℕ) (free : Option ℕ) (es : List Ip2mac)
      → is_missed (scan env addr hwaddr i free es) ≡ true
      → holds addr (entries_of (scan env addr hwaddr i free es)) ≡ false
  unfolding scan
  holds-missed i free [] h = refl
  holds-missed i free (e ∷ es) h = ground (
    arith,
    visit-Visited env addr hwaddr e,
    holds-missed (i + 1) free es,
    holds-missed (i + 1) (first_free free i) es,
  )

  -- The entry that a visit returns.
  abbrev pub IsHit : Bool → Ip2mac → Type 0
  IsHit wake e' =
      (e : Ip2mac) × (e.addr ≡ addr)
      × (is_free e.flag ≡ false)
      × (visit_match env hwaddr (touch env.now e) ≡ hit wake e')

  -- What the loop returns stands among the entries where the index says.
  abbrev pub Finds : ℕ → Scanned → Type 0
  Finds i (missed slot es) = Unit
  Finds i (found wake k es) =
      (j : ℕ) × (e : Ip2mac) × (k ≡ i + j) × (get_elem? es j ≡ some e) × IsHit wake e

  keep-Finds : (i : ℕ) (e : Ip2mac) (s : Scanned) → Finds (i + 1) s → Finds i (keep e s)
  keep-Finds i e (missed slot es) h = tt
  keep-Finds i e (found wake k es) (j, e', at, here, is_hit) =
      (suc j, e', omega arith, here, is_hit)

  visit_hit :
      (e : Ip2mac) (wake : Bool) (e' : Ip2mac)
      → visit env addr hwaddr e ≡ hit wake e'
      → IsHit wake e'
  unfolding visit
  visit_hit e wake e' h = (e, ground arith, ground arith, ground arith)

  advance-Finds :
      (v : Visit) (e : Ip2mac) (i : ℕ) (free : Option ℕ) (es : List Ip2mac)
      (more : Option ℕ → Scanned)
      → visit env addr hwaddr e ≡ v
      → ((f : Option ℕ) → Finds (i + 1) (more f))
      → Finds i (advance v e i free es more)
  advance-Finds vacant e i free es more is go = keep-Finds i e _ (go _)
  advance-Finds kept e i free es more is go = keep-Finds i e _ (go _)
  advance-Finds (freed e') e i free es more is go = keep-Finds i e' _ (go _)
  advance-Finds (hit wake e') e i free es more is go =
      (0, e', omega arith, refl, visit_hit e wake e' is)

  pub scan-Finds :
      (i : ℕ) (free : Option ℕ) (es : List Ip2mac) → Finds i (scan env addr hwaddr i free es)
  unfolding scan
  scan-Finds i free [] = tt
  scan-Finds i free (e ∷ es) =
      advance-Finds (visit env addr hwaddr e) e i free es _ refl (λ f. scan-Finds (i + 1) f es)

  -- A `freeNo` that the loop found itself is the index of a free entry.
  abbrev pub Slots : ℕ → Option ℕ → Scanned → Type 0
  Slots i free (found wake k es) = Unit
  Slots i free (missed none es) = Unit
  Slots i free (missed (some k) es) =
      (free ≡ some k)
      ⊎ ((j : ℕ) × (e : Ip2mac) × (k ≡ i + j) × (get_elem? es j ≡ some e) × (is_free e.flag ≡ true))

  keep-Slots :
      (i : ℕ) (free free' : Option ℕ) (e : Ip2mac) (s : Scanned)
      → (free' ≡ free) ⊎ ((free' ≡ first_free free i) × (is_free e.flag ≡ true))
      → Slots (i + 1) free' s
      → Slots i free (keep e s)
  keep-Slots i free free' e (found wake k es) same h = tt
  keep-Slots i free free' e (missed none es) same h = tt
  keep-Slots i free free' e (missed (some k) es) same (inr (j, e', at, here, is)) =
      inr (suc j, e', omega arith, here, is)
  keep-Slots i free free' e (missed (some k) es) (inl same) (inl h) = inl (sym same ∙ h)
  keep-Slots i (some n) free' e (missed (some k) es) (inr (same, is)) (inl h) = inl (sym same ∙ h)
  keep-Slots i none free' e (missed (some k) es) (inr (same, is)) (inl h) =
      inr (0, e, ground arith, refl, is)

  advance-Slots :
      (v : Visit) (e : Ip2mac) (i : ℕ) (free : Option ℕ) (es : List Ip2mac)
      (more : Option ℕ → Scanned)
      → Visited addr e v
      → ((f : Option ℕ) → Slots (i + 1) f (more f))
      → Slots i free (advance v e i free es more)
  advance-Slots vacant e i free es more is go = keep-Slots i free _ e _ (inr (refl, is)) (go _)
  advance-Slots kept e i free es more is go = keep-Slots i free _ e _ (inl refl) (go _)
  advance-Slots (freed e') e i free es more is go =
      keep-Slots i free _ e' _ (inr (refl, ground arith)) (go _)
  advance-Slots (hit wake e') e i free es more is go = tt

  pub scan-Slots :
      (i : ℕ) (free : Option ℕ) (es : List Ip2mac) → Slots i free (scan env addr hwaddr i free es)
  unfolding scan
  scan-Slots i free [] = slots_end free
    where
      slots_end : (f : Option ℕ) → Slots i f (missed f [])
      slots_end none = tt
      slots_end (some k) = inl refl
  scan-Slots i free (e ∷ es) =
      advance-Slots (visit env addr hwaddr e) e i free es _ (visit-Visited env addr hwaddr e)
        (λ f. scan-Slots (i + 1) f es)

  -- A property of single entries that each visit keeps holds after the loop.
  pub All-scan {κ} :
      (P : Ip2mac → Type κ)
      → ((e e' : Ip2mac) → P e → visit env addr hwaddr e ≡ freed e' → P e')
      → ((e e' : Ip2mac) (wake : Bool) → P e → visit env addr hwaddr e ≡ hit wake e' → P e')
      → (i : ℕ) (free : Option ℕ) (es : List Ip2mac) → All P es
      → All P (entries_of (scan env addr hwaddr i free es))
  unfolding scan
  All-scan P by_freed by_hit i free [] h = tt
  All-scan P by_freed by_hit i free (e ∷ es) h =
      step (visit env addr hwaddr e) refl (λ f. All-scan P by_freed by_hit (i + 1) f es h.1)
    where
      keep-All :
          (e' : Ip2mac) (s : Scanned) → P e' → All P (entries_of s) → All P (entries_of (keep e' s))
      keep-All e' (found wake k es') p q = (p, q)
      keep-All e' (missed slot es') p q = (p, q)

      step :
          (v : Visit)
          → visit env addr hwaddr e ≡ v
          → ((f : Option ℕ) → All P (entries_of (scan env addr hwaddr (i + 1) f es)))
          → All P (entries_of (advance v e i free es (λ f. scan env addr hwaddr (i + 1) f es)))
      step vacant is go = keep-All e _ h.0 (go _)
      step kept is go = keep-All e _ h.0 (go _)
      step (freed e') is go = keep-All e' _ (by_freed e e' h.0 is) (go _)
      step (hit wake e') is go = (by_hit e e' wake h.0 is, h.1)

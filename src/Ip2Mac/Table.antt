-- ===== src/Ip2Mac/Table.antt =====
-- Tables without doubles: what writing an entry does to them.
use c_router.Base.{
  ℕ, zero, suc, ◌≡◌, ◌≢◌, refl, List, [], ◌∷◌, ◌++◌, true, false, some, arith, set, get_elem?,
}
use c_router.Device.{Ip2mac}
use c_router.Ip2Mac.{is_free}
use c_router.Ip2Mac.Scan.{holds, distinct}

pub holds-get_elem? :
    (es : List Ip2mac) (i : ℕ) {e : Ip2mac}
    → get_elem? es i ≡ some e
    → is_free e.flag ≡ false
    → holds e.addr es ≡ true
holds-get_elem? [] i at used = absurd (ground arith)
holds-get_elem? (e ∷ es) zero at used = ground arith
holds-get_elem? (e' ∷ es) (suc i) at used = ground (arith, holds-get_elem? es i at used)

module _ (new : Ip2mac) where
  holds-set :
      (a : ℕ) (es : List Ip2mac) (j : ℕ)
      → a ≢ new.addr
      → holds a es ≡ false
      → holds a (set es j new) ≡ false
  holds-set a [] j ne h = refl
  holds-set a (e ∷ es) zero ne h = ground arith
  holds-set a (e ∷ es) (suc j) ne h = ground (arith, holds-set a es j ne)

  holds-append :
      (a : ℕ) (es : List Ip2mac)
      → a ≢ new.addr
      → holds a es ≡ false
      → holds a (es ++ (new ∷ [])) ≡ false
  holds-append a [] ne h = ground arith
  holds-append a (e ∷ es) ne h = ground (arith, holds-append a es ne)

  pub distinct-set :
      (es : List Ip2mac) (j : ℕ)
      → distinct es ≡ true
      → holds new.addr es ≡ false
      → distinct (set es j new) ≡ true
  distinct-set [] j u h = refl
  distinct-set (e ∷ es) zero u h = ground arith
  distinct-set (e ∷ es) (suc j) u h = ground (arith, holds-set e.addr es j, distinct-set es j)

  pub distinct-append :
      (es : List Ip2mac)
      → distinct es ≡ true
      → holds new.addr es ≡ false
      → distinct (es ++ (new ∷ [])) ≡ true
  distinct-append [] u h = ground arith
  distinct-append (e ∷ es) u h = ground (arith, holds-append e.addr es, distinct-append es)

-- ===== src/Links/Chain.antt =====
-- Chains of nodes in both directions.
use c_router.Base.{
  ℕ, ◌≡◌, ◌≢◌, refl, sym, ap, ◌∙◌, List, [], ◌∷◌, ◌++◌, true, false, Option, none, some, ◌==◌, All,
  arith,
}
use c_router.Links.{Node, Heap, write, release}

abbrev pub first : List ℕ → Option ℕ
first [] = none
first (p ∷ ps) = some p

-- The last of some addresses, or what stands before them.
abbrev pub last : Option ℕ → List ℕ → Option ℕ
last b [] = b
last b (p ∷ ps) = last (some p) ps

-- The last of the addresses that begin with `p`.
abbrev pub end : ℕ → List ℕ → ℕ
end p [] = p
end p (q ∷ ps) = end q ps

pub last-end : (p : ℕ) (ps : List ℕ) → last (some p) ps ≡ some (end p ps)
last-end p [] = refl
last-end p (q ∷ ps) = last-end q ps

abbrev pub NotIn : ℕ → List ℕ → Type 0
NotIn p = All (λ q. q ≢ p)

abbrev pub Distinct : List ℕ → Type 0
Distinct [] = Unit
Distinct (p ∷ ps) = NotIn p ps × Distinct ps

pub end-NotIn : (p q : ℕ) (ps : List ℕ) → NotIn p (q ∷ ps) → end q ps ≢ p
end-NotIn p q [] h = h.0
end-NotIn p q (r ∷ ps) h = end-NotIn p r ps h.1

pub NotIn-append : (p d : ℕ) (ps : List ℕ) → NotIn p ps → d ≢ p → NotIn p (ps ++ (d ∷ []))
NotIn-append p d [] h k = (k, tt)
NotIn-append p d (q ∷ ps) h k = (h.0, NotIn-append p d ps h.1 k)

pub Distinct-append : (d : ℕ) (ps : List ℕ) → Distinct ps → NotIn d ps → Distinct (ps ++ (d ∷ []))
Distinct-append d [] h k = (tt, tt)
Distinct-append d (p ∷ ps) h k =
    (NotIn-append p d ps h.0 (λ e. k.0 (sym e)), Distinct-append d ps h.1 k.1)

pub last-append : (b : Option ℕ) (d : ℕ) (ps : List ℕ) → last b (ps ++ (d ∷ [])) ≡ some d
last-append b d [] = refl
last-append b d (p ∷ ps) = last-append (some p) d ps

module _ {A : Type 0} where
  pub write_self : (p : ℕ) (n : Node A) (h : Heap A) → write p n h p ≡ some n
  unfolding write
  write_self p n h = rw (same p) refl
    where
      same : (q : ℕ) → (q == q) ≡ true
      same q = ground arith

  pub write_other : (p q : ℕ) (n : Node A) (h : Heap A) → q ≢ p → write p n h q ≡ h q
  unfolding write
  write_other p q n h k = rw (differ k) refl
    where
      differ : q ≢ p → (q == p) ≡ false
      differ k = ground arith

  pub release_self : (p : ℕ) (h : Heap A) → release p h p ≡ none
  unfolding release
  release_self p h = rw (same p) refl
    where
      same : (q : ℕ) → (q == q) ≡ true
      same q = ground arith

  pub release_other : (p q : ℕ) (h : Heap A) → q ≢ p → release p h q ≡ h q
  unfolding release
  release_other p q h k = rw (differ k) refl
    where
      differ : q ≢ p → (q == p) ≡ false
      differ k = ground arith

  -- The nodes at these addresses hold these items, and point at each other and at `b`.
  abbrev pub Chain : Heap A → Option ℕ → List ℕ → List A → Type 0
  Chain h b [] [] = Unit
  Chain h b [] (x ∷ xs) = ⊥
  Chain h b (p ∷ ps) [] = ⊥
  Chain h b (p ∷ ps) (x ∷ xs) =
      (h p ≡ some (record { next = first ps; before = b; item = x })) × Chain h (some p) ps xs

  -- What happens elsewhere leaves a chain alone.
  pub Chain-frame :
      (h h' : Heap A) (b : Option ℕ) (ps : List ℕ) (xs : List A)
      → All (λ q. h' q ≡ h q) ps
      → Chain h b ps xs
      → Chain h' b ps xs
  Chain-frame h h' b [] [] same c = c
  Chain-frame h h' b [] (x ∷ xs) same c = absurd c
  Chain-frame h h' b (p ∷ ps) [] same c = absurd c
  Chain-frame h h' b (p ∷ ps) (x ∷ xs) same c =
      (same.0 ∙ c.0, Chain-frame h h' (some p) ps xs same.1 c.1)

  abbrev pointed : ℕ → Option (Node A) → Option (Node A)
  pointed d none = none
  pointed d (some n) = some (record n { next = some d })

  -- A node more at the end of a chain: the last node points at it, and it at the last node.
  pub Chain-append :
      (h h' : Heap A) (b : Option ℕ) (p : ℕ) (ps : List ℕ) (xs : List A) (d : ℕ) (a : A)
      (bottom : Node A)
      → Chain h b (p ∷ ps) xs
      → Distinct (p ∷ ps)
      → NotIn d (p ∷ ps)
      → h (end p ps) ≡ some bottom
      → h' (end p ps) ≡ some (record bottom { next = some d })
      → h' d ≡ some (record { next = none; before = some (end p ps); item = a })
      → ((q : ℕ) → q ≢ end p ps → q ≢ d → h' q ≡ h q)
      → Chain h' b ((p ∷ ps) ++ (d ∷ [])) (xs ++ (a ∷ []))
  Chain-append h h' b p ps [] d a bottom c distinct new at at' at_d same = absurd c
  Chain-append h h' b p [] (x ∷ y ∷ xs) d a bottom c distinct new at at' at_d same = absurd c.1
  Chain-append h h' b p [] (x ∷ []) d a bottom c distinct new at at' at_d same =
      (at' ∙ ap (pointed d) (sym at ∙ c.0), (at_d, tt))
  Chain-append h h' b p (q ∷ ps) (x ∷ xs) d a bottom c distinct new at at' at_d same = (
    same p (λ e. end-NotIn p q ps distinct.0 (sym e)) new.0 ∙ c.0,
    Chain-append h h' (some p) q ps xs d a bottom c.1 distinct.1 new.1 at at' at_d same,
  )

-- ===== src/Links/Queue.antt =====
-- The pointers of a linked list against the list that they stand for.
use c_router.Base.{ℕ, ◌≡◌, ◌≢◌, refl, sym, ◌∙◌, List, [], ◌∷◌, ◌++◌, Option, none, some, ok, All}
use c_router.Links.{Node, Heap, Links, write, release, attach, append, drop_top, take_top, unlink}
use c_router.Links.Chain.{
  first, last, end, last-end, NotIn, Distinct, end-NotIn, Distinct-append, last-append, write_self,
  write_other, release_self, release_other, Chain, Chain-frame, Chain-append,
}

-- The list with its structures at `ps`, top first, holds the items `xs`.
pub record IsLinked {A : Type 0} (l : Links A) (ps : List ℕ) (xs : List A) : Type 0 where
  pub chain : Chain l.heap none ps xs
  pub distinct : Distinct ps
  pub top : l.top ≡ first ps
  pub bottom : l.bottom ≡ last none ps

module _ {A : Type 0} where
  end_node :
      (h : Heap A) (b : Option ℕ) (p : ℕ) (ps : List ℕ) (xs : List A)
      → Chain h b (p ∷ ps) xs
      → (n : Node A) × (h (end p ps) ≡ some n)
  end_node h b p ps [] c = absurd c
  end_node h b p [] (x ∷ xs) c = (_, c.0)
  end_node h b p (q ∷ ps) (x ∷ xs) c = end_node h (some p) q ps xs c.1

  abbrev fresh : A → Node A
  fresh a = record { next = none; before = none; item = a }

  -- The case of a list that has a bottom, at its node `n`.
  module _ (l : Links A) (p : ℕ) (ps : List ℕ) (xs : List A) (d : ℕ) (a : A)
      (v : IsLinked l (p ∷ ps) xs) (new : NotIn d (p ∷ ps)) (n : Node A)
      (at : l.heap (end p ps) ≡ some n) where
    abbrev heap1 : Heap A
    heap1 = write (end p ps) (record n { next = some d }) (write d (fresh a) l.heap)

    abbrev heap2 : Heap A
    heap2 = write d (record { next = none; before = some (end p ps); item = a }) heap1

    differ : end p ps ≢ d
    differ = end-NotIn d p ps new

    at_end : write d (fresh a) l.heap (end p ps) ≡ some n
    at_end = write_other d (end p ps) (fresh a) l.heap differ ∙ at

    at_new : heap1 d ≡ some (fresh a)
    at_new =
        write_other (end p ps) d (record n { next = some d }) (write d (fresh a) l.heap)
          (λ e. differ (sym e))
        ∙ write_self d (fresh a) l.heap

    elsewhere : (q : ℕ) → q ≢ end p ps → q ≢ d → heap2 q ≡ l.heap q
    elsewhere q not_end not_new =
        write_other d q _ heap1 not_new
        ∙ write_other (end p ps) q _ (write d (fresh a) l.heap) not_end
        ∙ write_other d q (fresh a) l.heap not_new

    behind :
        (l' : Links A) × ((append d a l ≡ ok l')
          × IsLinked l' ((p ∷ ps) ++ (d ∷ [])) (xs ++ (a ∷ [])))
    unfolding append attach
    behind = (
      record { top = l.top; bottom = some d; heap = heap2 },
      (
        rw (v.bottom, last-end p ps, at_end, at_new) refl,
        record {
          chain =
              Chain-append l.heap heap2 none p ps xs d a n v.chain v.distinct new at
                (write_other d (end p ps) _ heap1 differ
                  ∙ write_self (end p ps) (record n { next = some d }) (write d (fresh a) l.heap))
                (write_self d _ heap1) elsewhere;
          distinct = Distinct-append d (p ∷ ps) v.distinct new;
          top = v.top;
          bottom = sym (last-append none d (p ∷ ps));
        },
      ),
    )

  -- `AppendSendData` and `AppendSendReqData` on a linked list, with a structure at an address that
  -- is not in it: nothing that is not allocated is touched, and the list holds one item more, at
  -- its end, linked in both directions.
  pub append-IsLinked :
      (l : Links A) (ps : List ℕ) (xs : List A) (d : ℕ) (a : A)
      → IsLinked l ps xs
      → NotIn d ps
      → (l' : Links A) × ((append d a l ≡ ok l') × IsLinked l' (ps ++ (d ∷ [])) (xs ++ (a ∷ [])))
  unfolding append attach
  append-IsLinked l [] [] d a v new = (
    record { top = some d; bottom = some d; heap = write d (fresh a) l.heap },
    (
      rw v.bottom refl,
      record {
        chain = (write_self d (fresh a) l.heap, tt);
        distinct = (tt, tt);
        top = refl;
        bottom = refl;
      },
    ),
  )
  append-IsLinked l [] (x ∷ xs) d a v new = absurd v.chain
  append-IsLinked l (p ∷ ps) xs d a v new =
      let (n, at) = end_node l.heap none p ps xs v.chain in behind l p ps xs d a v new n at

  agrees :
      (h : Heap A) (p t : ℕ) (n : Node A) (ps : List ℕ)
      → NotIn p ps
      → NotIn t ps
      → All (λ q. release p (write t n h) q ≡ h q) ps
  agrees h p t n [] out out' = tt
  agrees h p t n (q ∷ ps) out out' = (
    release_other p q (write t n h) out.0 ∙ write_other t q n h out'.0,
    agrees h p t n ps out.1 out'.1,
  )

  -- `GetSendData` on a linked list, at its top: where there is none, nothing changes; else the
  -- first item comes out, its structure is freed, and the list holds the rest.
  pub unlink-IsLinked :
      (l : Links A) (p : ℕ) (ps : List ℕ) (x : A) (xs : List A)
      → IsLinked l (p ∷ ps) (x ∷ xs)
      → (l' : Links A) × ((unlink l.top l ≡ ok (some x, l'))
          × (IsLinked l' ps xs × (l'.heap p ≡ none)))
  unfolding unlink take_top drop_top
  unlink-IsLinked l p [] x [] v = (
    record { top = none; bottom = none; heap = release p l.heap },
    (
      rw (v.top, v.chain.0, v.chain.0) refl,
      (record { chain = tt; distinct = tt; top = refl; bottom = refl }, release_self p l.heap),
    ),
  )
  unlink-IsLinked l p [] x (y ∷ xs) v = absurd v.chain.1
  unlink-IsLinked l p (t ∷ ps) x [] v = absurd v.chain.1
  unlink-IsLinked l p (t ∷ ps) x (y ∷ xs) v = (
    record { top = some t; bottom = l.bottom; heap = release p moved },
    (
      rw (v.top, v.chain.0, v.chain.1.0, still) refl,
      (
        record {
          chain = (
            release_other p t moved v.distinct.0.0 ∙ write_self t new_top l.heap,
            Chain-frame l.heap (release p moved) (some t) ps xs
                (agrees l.heap p t new_top ps v.distinct.0.1 v.distinct.1.0) v.chain.1.1,
          );
          distinct = v.distinct.1;
          top = refl;
          bottom = v.bottom;
        },
        release_self p moved,
      ),
    ),
  )
    where
      new_top : Node A
      new_top = record { next = first ps; before = none; item = y }

      moved : Heap A
      moved = write t new_top l.heap

      still : moved p ≡ some (record { next = some t; before = none; item = x })
      still = write_other t p new_top l.heap (λ e. v.distinct.0.0 (sym e)) ∙ v.chain.0

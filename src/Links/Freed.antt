-- ===== src/Links/Freed.antt =====
-- `FreeSendData` of router/sendBuf.c with the pointers of the list. `data_of` gives the pointer
-- `data` of the `DATA_BUF` at an address, and `live` tells which blocks of bytes are allocated.
use c_router.Base.{
  ℕ, zero, suc, ◌≡◌, ◌≢◌, refl, sym, ap, subst, ◌∙◌, List, [], ◌∷◌, map, Bool, Bool-cases, inl, inr,
  true, false, Option, none, some, ◌==◌, not, if◌then◌else◌, ℤ, pos, minus_one, Outcome, ok, fault,
  ◌>>=◌, length, All, arith,
}
use c_router.Device.{DataBuf, SendData, Env}
use c_router.SendBuf.{free_send_data, is_nonempty}
use c_router.Links.{Heap, read}
use c_router.Links.Chain.{first, NotIn, Distinct, Chain}
use c_router.Links.Queue.{IsLinked}
use c_router.Links.Buffers.{SendLinks, Represents}

-- `free(b)` of a block of bytes: a block that is not allocated is a fault.
unfoldable pub free_block : ℕ → (ℕ → Bool) → Outcome (ℕ → Bool)
free_block b live = if live b then ok (λ q. if q == b then false else live q) else fault

-- The loop over the buffers, within a number of rounds: it frees the bytes of each.
pub free_loop : (ℕ → ℕ) → ℕ → Option ℕ → Heap DataBuf → (ℕ → Bool) → Outcome (ℕ → Bool)
free_loop data_of rounds none h live = ok live
free_loop data_of zero (some p) h live = fault
free_loop data_of (suc rounds) (some p) h live = do
  node ← read h p
  live' ← free_block (data_of p) live
  free_loop data_of rounds node.next h live'

-- By `sd->top`. The structures stay allocated.
pub free_from :
    Env → (ℕ → ℕ) → ℕ → Option ℕ → SendLinks → (ℕ → Bool) → Outcome ((ℤ × SendLinks) × (ℕ → Bool))
free_from env data_of rounds none sd live = ok ((pos 0, sd), live)
free_from env data_of rounds (some p) sd live =
    if not env.lock_sd then ok ((minus_one, sd), live) else do
      live' ← free_loop data_of rounds (some p) sd.links.heap live
      ok ((pos 0, record sd { links = record sd.links { top = none; bottom = none } }), live')

pub free_data_bufs :
    Env → (ℕ → ℕ) → ℕ → SendLinks → (ℕ → Bool) → Outcome ((ℤ × SendLinks) × (ℕ → Bool))
free_data_bufs env data_of rounds sd live = free_from env data_of rounds sd.links.top sd live

-- The blocks of the buffers at `ps` are freed, and no other.
pub record Freed (data_of : ℕ → ℕ) (ps : List ℕ) (live live' : ℕ → Bool) : Type 0 where
  pub gone : All (λ p. live' (data_of p) ≡ false) ps
  pub others : (b : ℕ) → NotIn b (map data_of ps) → live' b ≡ live b

block_freed : (b : ℕ) (live : ℕ → Bool) → (if b == b then false else live b) ≡ false
block_freed b live = ground arith

block_other : (b q : ℕ) (live : ℕ → Bool) → q ≢ b → (if q == b then false else live q) ≡ live q
block_other b q live k = ground (arith, k)

module _ (data_of : ℕ → ℕ) where
  -- The blocks behind the first are still allocated.
  still_live :
      (b : ℕ) (live : ℕ → Bool) (ps : List ℕ)
      → NotIn b (map data_of ps)
      → All (λ p. live (data_of p) ≡ true) ps
      → All (λ p. (if data_of p == b then false else live (data_of p)) ≡ true) ps
  still_live b live [] out h = tt
  still_live b live (p ∷ ps) out h =
      (block_other b (data_of p) live out.0 ∙ h.0, still_live b live ps out.1 h.1)

  free_loop-Freed :
      (h : Heap DataBuf) (b : Option ℕ) (ps : List ℕ) (bufs : List DataBuf) (live : ℕ → Bool)
      → Chain h b ps bufs
      → Distinct (map data_of ps)
      → All (λ p. live (data_of p) ≡ true) ps
      → (live' : ℕ → Bool) × ((free_loop data_of (length bufs) (first ps) h live ≡ ok live')
          × Freed data_of ps live live')
  unfolding free_loop free_block
  free_loop-Freed h b [] [] live c distinct all =
      (live, (refl, record { gone = tt; others = λ q out. refl }))
  free_loop-Freed h b [] (x ∷ bufs) live c distinct all = absurd c
  free_loop-Freed h b (p ∷ ps) [] live c distinct all = absurd c
  free_loop-Freed h b (p ∷ ps) (x ∷ bufs) live c distinct all =
      let live1 : ℕ → Bool = λ q. if q == data_of p then false else live q in
      let (live', (e, freed)) =
        free_loop-Freed h (some p) ps bufs live1 c.1 distinct.1
          (still_live (data_of p) live ps distinct.0 all.1) in
      (
        live',
        (
          rw (c.0, all.0, e) refl,
          record {
            gone = (freed.others (data_of p) distinct.0 ∙ block_freed (data_of p) live, freed.gone);
            others = λ q out.
                freed.others q out.1 ∙ block_other (data_of p) q live (λ same. out.0 (sym same));
          },
        ),
      )

-- What the function on the list does, with the links for its queue; the blocks of the buffers are
-- freed if it took the lock, and else none is.
pub record FreesBufs (env : Env) (data_of : ℕ → ℕ) (ps : List ℕ) (sd : SendData) (live : ℕ → Bool)
    (out : Outcome ((ℤ × SendLinks) × (ℕ → Bool))) : Type 0 where
  pub links : SendLinks
  pub structures : List ℕ
  pub blocks : ℕ → Bool
  pub returns : out ≡ ok (((free_send_data env sd).0, links), blocks)
  pub represents : Represents links structures (free_send_data env sd).1
  pub freed : Freed data_of (if env.lock_sd then ps else []) live blocks

module _ (env : Env) (data_of : ℕ → ℕ) (live : ℕ → Bool) where
  untouched-Freed : (locked : Bool) → Freed data_of (if locked then [] else []) live live
  untouched-Freed true = record { gone = tt; others = λ q out. refl }
  untouched-Freed false = record { gone = tt; others = λ q out. refl }

  by_structures :
      (s : SendLinks) (ps : List ℕ) (bufs : List DataBuf) (sd : SendData)
      → sd.bufs ≡ bufs
      → Represents s ps sd
      → IsLinked s.links ps bufs
      → Distinct (map data_of ps)
      → All (λ p. live (data_of p) ≡ true) ps
      → FreesBufs env data_of ps sd live (free_from env data_of (length bufs) (first ps) s live)
  unfolding free_from free_send_data
  by_structures s [] [] sd is r v distinct all =
      let empty : is_nonempty sd.bufs ≡ false = ap is_nonempty is in
      record {
        links = s;
        structures = [];
        blocks = live;
        returns = rw empty refl;
        represents = rw empty r;
        freed = untouched-Freed env.lock_sd;
      }
  by_structures s [] (x ∷ bufs) sd is r v distinct all = absurd v.chain
  by_structures s (p ∷ ps) [] sd is r v distinct all = absurd v.chain
  by_structures s (p ∷ ps) (x ∷ bufs) sd is r v distinct all = elim (Bool-cases env.lock_sd) [
    | inr fails ↦ record {
      links = s;
      structures = p ∷ ps;
      blocks = live;
      returns = rw (nonempty, fails) refl;
      represents = rw (nonempty, fails) r;
      freed = rw fails (record { gone = tt; others = λ q out. refl });
    }
    | inl locks ↦
        let (live', (e, freed)) =
          free_loop-Freed data_of s.links.heap none (p ∷ ps) (x ∷ bufs) live v.chain distinct all in
        record {
          links = record s { links = record s.links { top = none; bottom = none } };
          structures = [];
          blocks = live';
          returns = rw (nonempty, locks, e) refl;
          represents =
              rw (nonempty, locks)
                (record {
                  linked = record { chain = tt; distinct = tt; top = refl; bottom = refl };
                  dno = r.dno;
                  in_bucket_size = r.in_bucket_size;
                });
          freed = rw locks freed;
        }
  ]
    where
      nonempty : is_nonempty sd.bufs ≡ true
      nonempty = ap is_nonempty is

  -- `FreeSendData` with pointers does what it does on the list, on every branch, if the bytes of
  -- each buffer are a block of their own that is allocated. Its loop ends after one round for each
  -- buffer and reads and frees only what is allocated; the blocks of all buffers are freed, each
  -- once, and no other block is; and where the lock fails no block is freed.
  pub free_data_bufs-FreesBufs :
      (s : SendLinks) (ps : List ℕ) (sd : SendData)
      → Represents s ps sd
      → Distinct (map data_of ps)
      → All (λ p. live (data_of p) ≡ true) ps
      → FreesBufs env data_of ps sd live (free_data_bufs env data_of (length sd.bufs) s live)
  unfolding free_data_bufs
  free_data_bufs-FreesBufs s ps sd r distinct all =
      subst
        (λ (top : Option ℕ).
          FreesBufs env data_of ps sd live (free_from env data_of (length sd.bufs) top s live))
        (sym r.linked.top) (by_structures s ps sd.bufs sd refl r r.linked distinct all)

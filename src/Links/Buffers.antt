-- ===== src/Links/Buffers.antt =====
-- `AppendSendData` and `GetSendData` of router/sendBuf.c with the pointers of the list: they do
-- what the functions on lists in SendBuf do.
use c_router.Base.{
  ℕ, ◌+◌, ◌-◌, ◌^◌, ◌%◌, ◌≡◌, refl, sym, ap, subst, ◌∙◌, List, [], ◌∷◌, Bool, Bool-cases, inl, inr,
  Option, none, some, ltb, if◌then◌else◌, not, ℤ, pos, minus_one, Outcome, ok, fault, ◌>>=◌,
  Outcome-cases, load,
}
use c_router.Device.{DataBuf, SendData, Env}
use c_router.SendBuf.{max_bucket_size, append_send_data, take_first, get_send_data}
use c_router.Links.{Links, append, unlink}
use c_router.Links.Chain.{NotIn, first}
use c_router.Links.Queue.{IsLinked, append-IsLinked, unlink-IsLinked}

-- `SEND_DATA` with its pointers.
pub record SendLinks : Type 0 where
  pub links : Links DataBuf
  pub dno : ℕ
  pub in_bucket_size : ℕ

-- `d` is the address that `malloc` returns for the `DATA_BUF`.
pub append_data_buf : Env → ℕ → SendLinks → List ℕ → ℕ → Outcome (ℤ × SendLinks)
append_data_buf env d sd bytes size =
    if ltb max_bucket_size sd.in_bucket_size
    then ok (minus_one, sd)
    else if not env.alloc_buf
    then ok (minus_one, sd)
    else if not env.alloc_bytes
    then ok (minus_one, sd)
    else (do
      copied ← load bytes 0 size
      if not env.lock_sd then ok (minus_one, sd) else (do
        links ← append d (record { t = env.now; size = size; bytes = copied }) sd.links
        ok (
          pos 0,
          record {
            links = links;
            dno = (sd.dno + 1) % 2 ^ 64;
            in_bucket_size = (sd.in_bucket_size + size) % 2 ^ 64;
          },
        )))

-- The counters, by what was taken out.
pub counted : SendLinks → Option DataBuf × Links DataBuf → Option DataBuf × SendLinks
counted sd (none, links) = (none, record sd { links = links })
counted sd (some d, links) = (
  some d,
  record {
    links = links;
    dno = (sd.dno + 2 ^ 64 - 1) % 2 ^ 64;
    in_bucket_size = (sd.in_bucket_size + 2 ^ 64 - d.size) % 2 ^ 64;
  },
)

-- By `sd->top`.
pub take_data_buf : Env → Option ℕ → SendLinks → Outcome (Option DataBuf × SendLinks)
take_data_buf env none sd = ok (none, sd)
take_data_buf env (some d) sd =
    if not env.lock_sd
    then ok (none, sd)
    else do out ← unlink (some d) sd.links; ok (counted sd out)

pub get_data_buf : Env → SendLinks → Outcome (Option DataBuf × SendLinks)
get_data_buf env sd = take_data_buf env sd.links.top sd

-- The structures at `ps` hold the queue `sd`.
pub record Represents (s : SendLinks) (ps : List ℕ) (sd : SendData) : Type 0 where
  pub linked : IsLinked s.links ps sd.bufs
  pub dno : s.dno ≡ sd.dno
  pub in_bucket_size : s.in_bucket_size ≡ sd.in_bucket_size

-- What the function on lists does, with a result that stands for the same queue.
abbrev pub Implements {ℓ} : {B : Type ℓ} → Outcome (B × SendData) → Outcome (B × SendLinks) → Type ℓ
Implements {B} fault out = out ≡ fault
Implements {B} (ok (b, sd')) out =
    (s' : SendLinks) × ((ps' : List ℕ) × ((out ≡ ok (b, s')) × Represents s' ps' sd'))

pub unchanged :
    {B : Type 0} (s : SendLinks) (ps : List ℕ) (sd : SendData)
    → Represents s ps sd
    → (b : B) → Implements (ok (b, sd)) (ok (b, s))
unchanged s ps sd r b = (s, (ps, (refl, r)))

-- `AppendSendData` with pointers does what it does on the list, on every branch, if the address
-- that `malloc` returns is none of those of the list.
pub append_data_buf-Implements :
    (env : Env) (d : ℕ) (s : SendLinks) (ps : List ℕ) (sd : SendData) (bytes : List ℕ) (size : ℕ)
    → Represents s ps sd
    → NotIn d ps
    → Implements (append_send_data env sd bytes size) (append_data_buf env d s bytes size)
unfolding append_data_buf append_send_data
append_data_buf-Implements env d s ps sd bytes size r new =
    elim (Bool-cases (ltb max_bucket_size sd.in_bucket_size)) [
      | inl over ↦ rw (over, same over) (unchanged s ps sd r minus_one)
      | inr room ↦ elim (Bool-cases env.alloc_buf) [
        | inr none1 ↦ rw (room, same room, none1) (unchanged s ps sd r minus_one)
        | inl alloc1 ↦ elim (Bool-cases env.alloc_bytes) [
          | inr none2 ↦ rw (room, same room, alloc1, none2) (unchanged s ps sd r minus_one)
          | inl alloc2 ↦ elim (Outcome-cases (load bytes 0 size)) [
            | inl out ↦ rw (room, same room, alloc1, alloc2, out) refl
            | inr (copied, there) ↦ elim (Bool-cases env.lock_sd) [
              | inr unlocked ↦
                  rw (room, same room, alloc1, alloc2, there, unlocked)
                    (unchanged s ps sd r minus_one)
              | inl locked ↦
                  let buf : DataBuf = record { t = env.now; size = size; bytes = copied } in
                  let (links, (made, linked)) =
                    append-IsLinked s.links ps sd.bufs d buf r.linked new in
                  rw (room, same room, alloc1, alloc2, there, locked, made)
                    (
                      _,
                      (
                        _,
                        (
                          refl,
                          record {
                            linked = linked;
                            dno = ap (λ n. (n + 1) % 2 ^ 64) r.dno;
                            in_bucket_size = ap (λ n. (n + size) % 2 ^ 64) r.in_bucket_size;
                          },
                        ),
                      ),
                    )
            ]
          ]
        ]
      ]
    ]
  where
    same :
        {b : Bool}
        → ltb max_bucket_size sd.in_bucket_size ≡ b
        → ltb max_bucket_size s.in_bucket_size ≡ b
    same e = ap (ltb max_bucket_size) r.in_bucket_size ∙ e

by_cells :
    (env : Env) (s : SendLinks) (ps : List ℕ) (bufs : List DataBuf) (sd : SendData)
    → Represents s ps sd
    → IsLinked s.links ps bufs
    → Implements (ok (take_first env sd bufs)) (take_data_buf env (first ps) s)
unfolding take_first take_data_buf counted
by_cells env s [] [] sd r v = unchanged s [] sd r none
by_cells env s [] (x ∷ bufs) sd r v = absurd v.chain
by_cells env s (p ∷ ps) [] sd r v = absurd v.chain
by_cells env s (p ∷ ps) (x ∷ bufs) sd r v = elim (Bool-cases env.lock_sd) [
  | inr unlocked ↦ rw unlocked (unchanged s (p ∷ ps) sd r none)
  | inl locked ↦
      let (links, (made, (linked, freed))) = unlink-IsLinked s.links p ps x bufs v in
      rw (locked, sym v.top, made)
        (
          _,
          (
            _,
            (
              refl,
              record {
                linked = linked;
                dno = ap (λ n. (n + 2 ^ 64 - 1) % 2 ^ 64) r.dno;
                in_bucket_size = ap (λ n. (n + 2 ^ 64 - x.size) % 2 ^ 64) r.in_bucket_size;
              },
            ),
          ),
        )
]

-- `GetSendData` with pointers does what it does on the list, on every branch.
pub get_data_buf-Implements :
    (env : Env) (s : SendLinks) (ps : List ℕ) (sd : SendData)
    → Represents s ps sd
    → Implements (ok (get_send_data env sd)) (get_data_buf env s)
unfolding get_data_buf get_send_data
get_data_buf-Implements env s ps sd r =
    subst (λ top. Implements (ok (take_first env sd sd.bufs)) (take_data_buf env top s))
      (sym r.linked.top) (by_cells env s ps sd.bufs sd r r.linked)

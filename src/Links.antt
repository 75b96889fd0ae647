-- ===== src/Links.antt =====
-- The linked lists of router/sendBuf.c and router/ip2mac.c, with their pointers: `DATA_BUF` from
-- `SEND_DATA`, `SEND_REQ_DATA` from `SendReq`. `item` is the rest of a structure.
pub mod Chain
pub mod Queue
pub mod Buffers
pub mod Requests
pub mod Freed
use c_router.Base.{
  ℕ, Bool, true, false, Option, none, some, ◌==◌, if◌then◌else◌, Outcome, ok, fault, ◌>>=◌,
}

pub record Node {ℓ} (A : Type ℓ) : Type ℓ where
  pub next : Option ℕ
  pub before : Option ℕ
  pub item : A

-- What is allocated, by its address.
abbrev pub Heap {ℓ} : Type ℓ → Type ℓ
Heap A = ℕ → Option (Node A)

pub record Links {ℓ} (A : Type ℓ) : Type ℓ where
  pub top : Option ℕ
  pub bottom : Option ℕ
  pub heap : Heap A

-- `*p`
abbrev pub found {ℓ} : {A : Type ℓ} → Option (Node A) → Outcome (Node A)
found none = fault
found (some n) = ok n

abbrev pub read {ℓ} : {A : Type ℓ} → Heap A → ℕ → Outcome (Node A)
read h p = found (h p)

unfoldable pub write {ℓ} : {A : Type ℓ} → ℕ → Node A → Heap A → Heap A
write p n h q = if q == p then some n else h q

-- `free(p)`
unfoldable pub release {ℓ} : {A : Type ℓ} → ℕ → Heap A → Heap A
release p h q = if q == p then none else h q

module _ {ℓ} {A : Type ℓ} where
  -- The new structure `d` behind the bottom one.
  pub attach : ℕ → Option ℕ → Links A → Outcome (Links A)
  attach d none l = ok (record { top = some d; bottom = some d; heap = l.heap })
  attach d (some b) l = do
    last ← read l.heap b
    let heap1 = write b (record last { next = some d }) l.heap
    new ← read heap1 d
    let heap2 = write d (record new { before = some b }) heap1
    ok (record { top = l.top; bottom = some d; heap = heap2 })

  -- `d->next = d->before = NULL`, its other fields, and the links.
  pub append : ℕ → A → Links A → Outcome (Links A)
  append d a l =
      attach d l.bottom
        (record l { heap = write d (record { next = none; before = none; item = a }) l.heap })

  -- `sd->top = d->next`, and the links of the new top.
  pub drop_top : Option ℕ → Links A → Outcome (Links A)
  drop_top none l = ok (record { top = none; bottom = none; heap = l.heap })
  drop_top (some t) l = do
    new_top ← read l.heap t
    ok (record {
      top = some t;
      bottom = l.bottom;
      heap = write t (record new_top { before = none }) l.heap;
    })

  -- The top is not `NULL`: it is taken out, read and freed.
  pub take_top : ℕ → Links A → Outcome (A × Links A)
  take_top d l = do
    first ← read l.heap d
    l' ← drop_top first.next l
    taken ← read l'.heap d
    ok (taken.item, record l' { heap = release d l'.heap })

  -- `none` is the return at `top == NULL`.
  pub unlink : Option ℕ → Links A → Outcome (Option A × Links A)
  unlink none l = ok (none, l)
  unlink (some d) l = do (a, l') ← take_top d l; ok (some a, l')

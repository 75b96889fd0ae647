-- ===== src/Ltest/Heard.antt =====
-- The loop of ltest/ltest.c: what an earlier frame left in the buffer makes no difference.
use c_router.Base.{
  ℕ, zero, suc, ◌≤◌, ◌≡◌, refl, sym, ap, ◌∙◌, List, [], ◌∷◌, ◌++◌, Bool-cases, inl, inr, leb,
  leb→le, if◌then◌else◌, Outcome, ok, fault, ◌>>=◌, arith, length, length-overwrite,
  overwrite-append, drop, length-drop, overwrite, All,
}
use c_router.Frame.{u8-append, u16_net}
use c_router.Router.Fields.{u16_net-ok}
use c_router.Text.Addresses.{my_ether_ntoa_r-append, my_ether_ntoa_r-ok}
use c_router.Netutil.{Kernel, Sockets}
use c_router.Listener.Started.{Starts, run-Starts}
use c_router.Ltest.{init_raw_socket, print_ether_header, listen, ltest_main}

-- What is printed of the frames alone.
abbrev pub heard : List (List ℕ) → Outcome (List ℕ)
heard [] = ok []
heard (frame ∷ reads) = do
  text ← (if leb 14 (length frame) then print_ether_header frame else ok [])
  more ← heard reads
  ok (text ++ more)

drop-append : (n : ℕ) (xs ys : List ℕ) → n ≤ length xs → drop n (xs ++ ys) ≡ drop n xs ++ ys
drop-append zero xs ys h = refl
drop-append (suc n) [] ys h = absurd (omega arith)
drop-append (suc n) (x ∷ xs) ys h = drop-append n xs ys (omega arith)

bind_ok : (o : Outcome (List ℕ)) → (o >>= λ text. ok text) ≡ o
bind_ok (ok text) = refl
bind_ok fault = refl

print_ether_header-append :
    (xs ys : List ℕ) → 14 ≤ length xs → print_ether_header (xs ++ ys) ≡ print_ether_header xs
unfolding print_ether_header u16_net
print_ether_header-append xs ys h =
    rw
      (
        my_ether_ntoa_r-append xs ys 80 (omega arith),
        drop-append 6 xs ys (omega arith),
        my_ether_ntoa_r-append (drop 6 xs) ys 80 (omega (arith, length-drop {0} 6 xs)),
        u8-append xs ys 12 (omega arith),
        u8-append xs ys 13 (omega arith),
      )
      refl

-- With reads of at most the size of the buffer, the program prints the ethernet header of each
-- frame of at least 14 bytes, in their order, each as if it stood alone in memory.
pub listen-heard :
    (buf : List ℕ) (reads : List (List ℕ))
    → All (λ frame. length frame ≤ length buf) reads
    → listen buf reads ≡ heard reads
unfolding listen
listen-heard buf [] h = refl
listen-heard buf ([] ∷ reads) h = listen-heard buf reads h.1 ∙ sym (bind_ok (heard reads))
listen-heard buf ((x ∷ frame) ∷ reads) h =
    let rest : listen filled reads ≡ heard reads =
      listen-heard filled reads (rw (length-overwrite buf (x ∷ frame)) h.1) in
    elim (Bool-cases (leb 14 (length (x ∷ frame)))) [
      | inl long ↦ rw (long, alone (leb→le 14 _ long), rest) refl
      | inr short ↦ rw (short, rest) refl
    ]
  where
    filled : List ℕ
    filled = overwrite buf (x ∷ frame)

    alone : 14 ≤ length (x ∷ frame) → print_ether_header filled ≡ print_ether_header (x ∷ frame)
    alone long =
        ap print_ether_header (overwrite-append buf (x ∷ frame) h.0)
        ∙ print_ether_header-append (x ∷ frame) (drop (length (x ∷ frame)) buf) long

print_ether_header-ok :
    (eh : List ℕ) → 14 ≤ length eh → (text : List ℕ) × (print_ether_header eh ≡ ok text)
unfolding print_ether_header
print_ether_header-ok eh h =
    let (dhost, e0) = my_ether_ntoa_r-ok eh 80 (omega arith) in
    let (shost, e1) = my_ether_ntoa_r-ok (drop 6 eh) 80 (omega (arith, length-drop {0} 6 eh)) in
    rw (e0, e1, u16_net-ok eh 12 (omega arith)) (_, refl)

-- Every list of frames can be printed.
heard-ok : (reads : List (List ℕ)) → (text : List ℕ) × (heard reads ≡ ok text)
heard-ok [] = ([], refl)
heard-ok (frame ∷ reads) =
    let (more, e) = heard-ok reads in
    elim (Bool-cases (leb 14 (length frame))) [
      | inl long ↦
          let (text, e1) = print_ether_header-ok frame (leb→le 14 _ long) in
          (text ++ more, rw (long, e1, e) refl)
      | inr short ↦ (more, rw (short, e) refl)
    ]

-- `ltest` without a device returns 1 and opens nothing. With one it returns -1, with every socket
-- closed that it opened, or it reads from one socket, bound to the interface that its first
-- argument names, and has printed the ethernet header of each frame so far of at least 14 bytes, if
-- no read gave more than the buffer holds.
pub ltest_main-Starts :
    (k : Kernel) (argv : List (List ℕ)) (buf : List ℕ) (reads : List (List ℕ)) (s : Sockets)
    → All (λ frame. length frame ≤ length buf) reads
    → (text : List ℕ) × ((heard reads ≡ ok text)
        × Starts k text argv s (ltest_main k argv buf reads s))
unfolding ltest_main init_raw_socket
ltest_main-Starts k argv buf reads s h =
    let (text, e) = heard-ok reads in
    (text, (e, run-Starts k text (listen buf reads) argv s (listen-heard buf reads h ∙ e)))

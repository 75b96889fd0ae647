-- ===== src/Process/Closed.antt =====
-- The state of a process between `DisableIpForward` and its end.
use c_router.Base.{
  ℕ, ◌≡◌, refl, ap, ◌∙◌, List, [], ◌∷◌, Bool, Bool-cases, inl, inr, true, false, some, ==_iff, All,
  if◌then◌else◌, ◌==◌, arith,
}
use c_router.Text.{codes}
use c_router.Netutil.{remove}
use c_router.Netutil.Opened.{remove_head}
use c_router.Process.{
  end_signal, ignored, Process, sigint, sigquit, sigpipe, sigterm, sigttin, sigttou,
  disable_ip_forward, catch_signals, handler_of, close_both,
}

remove_two : (a b : ℕ) (xs : List ℕ) → remove b (remove a (b ∷ a ∷ xs)) ≡ xs
remove_two a b xs = elim (Bool-cases (b == a)) [
  | inl same ↦ rw (same, (==_iff a b).1 (equal same)) refl
  | inr differ ↦ rw (differ, remove_head a xs, (==_iff b b).1 refl) refl
]
  where
    equal : (b == a) ≡ true → a ≡ b
    equal h = ground (arith, h)

-- A process that has ended: its sockets are those of before, forwarding by the system is switched
-- off where the file could be opened, three signals end the program and three are ignored.
pub record Closed (fopen : Bool) (p p' : Process) : Type 0 where
  pub opened : p'.sockets.opened ≡ p.sockets.opened
  pub forwarding : p'.ip_forward ≡ (if fopen then some (codes "0") else p.ip_forward)
  pub ends :
      All (λ sig. handler_of sig p'.handlers ≡ some end_signal) (sigint ∷ sigterm ∷ sigquit ∷ [])
  pub ignores :
      All (λ sig. handler_of sig p'.handlers ≡ some ignored) (sigpipe ∷ sigttin ∷ sigttou ∷ [])

-- From two sockets open to the end.
pub close_both-Closed :
    (fopen : Bool) (soc0 soc1 : ℕ) (p p1 : Process)
    → p1.sockets.opened ≡ soc1 ∷ soc0 ∷ p.sockets.opened
    → p1.ip_forward ≡ p.ip_forward
    → Closed fopen p (close_both soc0 soc1 (catch_signals (disable_ip_forward fopen p1).1))
unfolding close_both catch_signals disable_ip_forward
close_both-Closed true soc0 soc1 p p1 opened same = record {
  opened =
      ap (λ (x : List ℕ). remove soc1 (remove soc0 x)) opened
      ∙ remove_two soc0 soc1 p.sockets.opened;
  forwarding = refl;
  ends = (refl, (refl, (refl, tt)));
  ignores = (refl, (refl, (refl, tt)));
}
close_both-Closed false soc0 soc1 p p1 opened same = record {
  opened =
      ap (λ (x : List ℕ). remove soc1 (remove soc0 x)) opened
      ∙ remove_two soc0 soc1 p.sockets.opened;
  forwarding = same;
  ends = (refl, (refl, (refl, tt)));
  ignores = (refl, (refl, (refl, tt)));
}

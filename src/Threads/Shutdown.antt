-- ===== src/Threads/Shutdown.antt =====
-- After the signal both threads of router/ come to their end.
use c_router.Base.{
  ℕ, suc, ◌+◌, ◌*◌, ◌≤◌, ◌<◌, ◌≡◌, ap, subst, List, Bool, true, false, length, arith,
}
use c_router.Device.{DeviceNo, dev0, dev1, Config, Env}
use c_router.Device.Adds.{AtMost}
use c_router.Router.Loop.{receive-Adds}
use c_router.Flush.Adds.{buffer_send_one-Adds}
use c_router.Threads.{
  Receiver, testing, first, second, returned, Sender, waiting, sending, ended, System, Receives,
  Sends, Step, Reach, idles, polls, receives_first, receives_second, wakes, serves, finds_none,
  by_receiver, by_sender, by_signal, here, next, got_some,
}

-- The steps that `Router` takes at most, once `EndFlag` is set, and `BufferSend`, but for requests.
abbrev pub receiver_left : Receiver → ℕ
receiver_left testing = 1
receiver_left (first event0 event1) = 3
receiver_left (second event1) = 2
receiver_left returned = 0

abbrev pub sender_left : Sender → ℕ
sender_left waiting = 1
sender_left sending = 2
sender_left ended = 0

-- The steps that are left at most: a step of `Router` may leave one request more.
abbrev pub left : System → ℕ
left s = 2 * receiver_left s.receiver + sender_left s.sender + length s.world.send_req

abbrev pub steps : {cfg : Config} {s t : System} → Reach cfg s t → ℕ
steps here = 0
steps (next r st) = suc (steps r)

receiver_left_most : (r : Receiver) → receiver_left r ≤ 3
receiver_left_most testing = omega arith
receiver_left_most (first event0 event1) = omega arith
receiver_left_most (second event1) = omega arith
receiver_left_most returned = omega arith

sender_left_most : (r : Sender) → sender_left r ≤ 2
sender_left_most waiting = omega arith
sender_left_most sending = omega arith
sender_left_most ended = omega arith

left_most : (s : System) → left s ≤ 8 + length s.world.send_req
left_most s = omega (arith, receiver_left_most s.receiver, sender_left_most s.sender)

-- `EndFlag` stays set, and a step is fewer left.
abbrev Nearer : System → System → Type 0
Nearer s t = (t.end_flag ≡ true) × (left t < left s)

opposite : (b : Bool) → b ≡ false → b ≡ true → ⊥
opposite b h k = absurd (ground (arith, h, k))

module _ (cfg : Config) where
  Receives-Nearer :
      {env : Env} {s t : System} → Receives cfg env s t → s.end_flag ≡ true → Nearer s t
  Receives-Nearer (idles s on at) off = absurd (opposite s.end_flag on off)
  Receives-Nearer (polls event0 event1 s on at fits0 fits1) off =
      absurd (opposite s.end_flag on off)
  Receives-Nearer (Receives.returns s off' at) off = (off, omega (arith, ap receiver_left at))
  Receives-Nearer {env} (receives_first event0 event1 s at alloc done) off = (
    off,
    omega (
      arith,
      ap receiver_left at,
      subst (AtMost (1 + length s.world.send_req)) done
          (receive-Adds cfg env dev0 event0 s.buf s.world),
    ),
  )
  Receives-Nearer {env} (receives_second event1 s at alloc done) off = (
    off,
    omega (
      arith,
      ap receiver_left at,
      subst (AtMost (1 + length s.world.send_req)) done
          (receive-Adds cfg env dev1 event1 s.buf s.world),
    ),
  )

  Sends-Nearer : {env : Env} {s t : System} → Sends cfg env s t → s.end_flag ≡ true → Nearer s t
  Sends-Nearer (wakes s on at) off = absurd (opposite s.end_flag on off)
  Sends-Nearer {env} (serves turns d i reqs s at front done) off = (
    off,
    omega (
      arith,
      ap (λ (x : List (DeviceNo × ℕ)). length x) (got_some env s.world.send_req front),
      subst (AtMost (0 + length reqs)) done
          (buffer_send_one-Adds cfg env d i turns (record s.world { send_req = reqs })),
    ),
  )
  Sends-Nearer (finds_none s at empty) off = (off, omega (arith, ap sender_left at))
  Sends-Nearer (Sends.returns s off' at) off = (off, omega (arith, ap sender_left at))

  Step-Nearer : {s t : System} → Step cfg s t → s.end_flag ≡ true → Nearer s t
  Step-Nearer (by_receiver env st) off = Receives-Nearer st off
  Step-Nearer (by_sender env st) off = Sends-Nearer st off
  Step-Nearer (by_signal s on) off = absurd (opposite s.end_flag on off)

  -- Once `EndFlag` is set it stays set, and in whatever order the two threads act they take, both
  -- together, no more steps than `left` counts, which is at most 8 more than the requests that wait:
  -- after any number of steps, these and those still left are no more than were left before.
  pub shutdown :
      {s t : System}
      → s.end_flag ≡ true
      → (r : Reach cfg s t)
      → (t.end_flag ≡ true) × ((steps r + left t ≤ left s) × (left s ≤ 8 + length s.world.send_req))
  shutdown {s} off here = (off, (omega arith, left_most s))
  shutdown {s} off (next r st) =
      let h = shutdown off r in
      let nearer = Step-Nearer st h.0 in (nearer.0, (omega (arith, h.1.0, nearer.1), left_most s))

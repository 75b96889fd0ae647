-- ===== src/Threads/Ended.antt =====
-- Runs of the threads of router/ after the signal: they are short, and end only at the end.
use c_router.Base.{◌+◌, ◌≤◌, ◌≡◌, refl, ap, true, arith, length, All}
use c_router.Device.{Config, Env}
use c_router.State.{IsConfig}
use c_router.Threads.{
  Receiver, testing, first, second, returned, Sender, waiting, sending, ended, System, Receives,
  Sends, Reach, IsSystem, kept,
}
use c_router.Threads.Progress.{Servable, receiver_steps, sender_steps}
use c_router.Threads.Shutdown.{receiver_left, sender_left, steps, shutdown}

module _ (cfg : Config) (c : IsConfig cfg) (env : Env) (t : System) (v : IsSystem t) where
  receiver-returned :
      (r : Receiver)
      → t.receiver ≡ r
      → env.alloc_table ≡ true
      → ((u : System) → Receives cfg env t u → ⊥)
      → r ≡ returned
  receiver-returned returned at alloc stuck = refl
  receiver-returned testing at alloc stuck =
      let (u, st) =
        receiver_steps cfg c env t v testing at (λ e. absurd (omega (arith, ap receiver_left e)))
          alloc in
      absurd (stuck u st)
  receiver-returned (first event0 event1) at alloc stuck =
      let (u, st) =
        receiver_steps cfg c env t v (first event0 event1) at
          (λ e. absurd (omega (arith, ap receiver_left e))) alloc in
      absurd (stuck u st)
  receiver-returned (second event1) at alloc stuck =
      let (u, st) =
        receiver_steps cfg c env t v (second event1) at
          (λ e. absurd (omega (arith, ap receiver_left e))) alloc in
      absurd (stuck u st)

  sender-ended :
      (r : Sender)
      → t.sender ≡ r
      → env.lock_req ≡ true
      → All (Servable t.world) t.world.send_req
      → ((u : System) → Sends cfg env t u → ⊥)
      → r ≡ ended
  sender-ended ended at locks q stuck = refl
  sender-ended waiting at locks q stuck =
      let (u, st) =
        sender_steps cfg c env t v waiting at (λ e. absurd (omega (arith, ap sender_left e))) q
          locks in
      absurd (stuck u st)
  sender-ended sending at locks q stuck =
      let (u, st) =
        sender_steps cfg c env t v sending at (λ e. absurd (omega (arith, ap sender_left e))) q
          locks in
      absurd (stuck u st)

-- The run is short, and a thread that cannot go on has returned.
pub record IsRun (cfg : Config) (s t : System) (r : Reach cfg s t) : Type 0 where
  pub still_set : t.end_flag ≡ true
  pub short : steps r ≤ 8 + length s.world.send_req
  pub right : IsSystem t
  pub receiver :
      (env : Env)
      → env.alloc_table ≡ true
      → ((u : System) → Receives cfg env t u → ⊥)
      → t.receiver ≡ returned
  pub sender :
      (env : Env)
      → env.lock_req ≡ true
      → All (Servable t.world) t.world.send_req
      → ((u : System) → Sends cfg env t u → ⊥)
      → t.sender ≡ ended

-- After the signal both threads come to their end. From a right state in which `EndFlag` is set,
-- and in whatever order the threads act, as long as `Router` can allocate its tables and
-- `BufferSendOne` reads nothing out of range, a run has at most 8 steps more than requests wait at
-- its start; the flag stays set and the state right; and a thread that cannot go on has returned:
-- `Router` if it can take no step although a table can be allocated; `BufferSend` if it can take
-- none although the lock of the requests can be taken, and at each entry that is asked for the
-- frames that wait hold their IP options, and none waits if the entry has been freed.
pub shutdown-IsRun :
    (cfg : Config) (c : IsConfig cfg) {s t : System}
    → IsSystem s
    → s.end_flag ≡ true
    → (r : Reach cfg s t) → IsRun cfg s t r
shutdown-IsRun cfg c {s} {t} v off r =
    let h = shutdown cfg off r in
    let v' = kept cfg c v r in
    record {
      still_set = h.0;
      short = omega (arith, h.1.0, h.1.1);
      right = v';
      receiver = λ env alloc stuck. receiver-returned cfg c env t v' t.receiver refl alloc stuck;
      sender = λ env locks q stuck. sender-ended cfg c env t v' t.sender refl locks q stuck;
    }

-- ===== src/Threads/Progress.antt =====
-- No thread of router/ gets stuck.
use c_router.Base.{
  ℕ, zero, suc, ◌≡◌, ◌≢◌, refl, ap, subst, ◌∙◌, List, [], ◌∷◌, Bool, Bool-cases, inl, inr, true,
  false, some, Outcome, ok, fault, arith, length, get_elem?, get_elem?_of_lt, All,
}
use c_router.Device.{DeviceNo, dev0, dev1, Config, Ip2mac, World, Env, table}
use c_router.Device.Returns.{Returns}
use c_router.SendReq.{get_send_req_data}
use c_router.Ip2Mac.{is_free}
use c_router.State.{IsConfig, IsWorld, Names}
use c_router.State.Kept.{popped-SameAt, popped-IsWorld}
use c_router.Router.Loop.{IsEvent, Right, receive, receive-Right}
use c_router.Flush.{buffer_send_one}
use c_router.Flush.Drained.{HasOptions, Drained, buffer_send_one-Drained}
use c_router.Flush.Sound.{buffer_send_one-idle, get_send_data_empty, get_send_data_unlocked}
use c_router.Threads.{
  Receiver, testing, first, second, returned, Sender, waiting, sending, ended, System, Receives,
  Sends, Reach, IsReceiver, IsSystem, idles, receives_first, receives_second, wakes, serves,
  finds_none, kept,
}

done_receiving :
    (o : Outcome (List ℕ × World))
    → Returns Right o
    → (buf : List ℕ) × ((w : World) × (o ≡ ok (buf, w)))
done_receiving (ok (buf, w)) h = (buf, (w, refl))
done_receiving fault h = absurd h

drained :
    (cfg : Config) (d : DeviceNo) (i : ℕ) (e : Ip2mac) (v : World) (o : Outcome (Bool × World))
    → Returns (Drained cfg d i e v) o
    → (w : World) × (o ≡ ok (true, w))
drained cfg d i e v (ok (b, w)) h = (w, ap (λ (x : Bool). ok (x, w)) h.ends)
drained cfg d i e v fault h = absurd h

-- What a request needs to be served: the frames that wait at its entry hold their IP options, and
-- none waits there if the entry has been freed.
pub record Servable (w : World) (r : DeviceNo × ℕ) : Type 0 where
  pub options :
      (e : Ip2mac)
      → get_elem? (table r.0 w).entries r.1 ≡ some e
      → is_free e.flag ≡ false
      → All HasOptions e.sd.bufs
  pub freed :
      (e : Ip2mac)
      → get_elem? (table r.0 w).entries r.1 ≡ some e
      → is_free e.flag ≡ true
      → e.sd.bufs ≡ []

-- `BufferSendOne` comes to its end.
abbrev Ends : Config → Env → DeviceNo → ℕ → World → Type 0
Ends cfg env d i w =
    (turns : ℕ) × ((w' : World) × (buffer_send_one cfg env turns d i w ≡ ok (true, w')))

buffer_send_one-Ends :
    (cfg : Config) (env : Env) (d : DeviceNo) (i : ℕ) (e : Ip2mac) (w : World)
    → IsWorld w
    → get_elem? (table d w).entries i ≡ some e
    → Servable w (d, i)
    → Ends cfg env d i w
buffer_send_one-Ends cfg env d i e w v at q = elim (Bool-cases env.lock_sd) [
  | inr fails ↦ (
    suc zero,
    (w, buffer_send_one-idle cfg env d i e w at (get_send_data_unlocked env e.sd fails)),
  )
  | inl locks ↦ elim (Bool-cases (is_free e.flag)) [
    | inl free ↦ (
      suc zero,
      (
        w,
        buffer_send_one-idle cfg env d i e w at (get_send_data_empty env e.sd (q.freed e at free)),
      ),
    )
    | inr used ↦
        let turns = suc (length e.sd.bufs) in
        (
          turns,
          drained cfg d i e w (buffer_send_one cfg env turns d i w) (
              buffer_send_one-Drained cfg env d i locks turns e w (omega arith)
                (q.options e at used) v at used),
        )
  ]
]

popped-Servable :
    (w : World) (reqs : List (DeviceNo × ℕ)) (r : DeviceNo × ℕ)
    → Servable w r
    → Servable (record w { send_req = reqs }) r
popped-Servable w reqs (dev0, i) q = record { options = q.options; freed = q.freed }
popped-Servable w reqs (dev1, i) q = record { options = q.options; freed = q.freed }

module _ (cfg : Config) (c : IsConfig cfg) (env : Env) (t : System) (v : IsSystem t) where
  pub receiver_steps :
      (r : Receiver)
      → t.receiver ≡ r
      → r ≢ returned
      → env.alloc_table ≡ true
      → (u : System) × Receives cfg env t u
  receiver_steps testing at on alloc = elim (Bool-cases t.end_flag) [
    | inl off ↦ (record t { receiver = returned }, Receives.returns t off at)
    | inr running ↦ (t, idles t running at)
  ]
  receiver_steps (first event0 event1) at on alloc =
      let fits : IsEvent event0 × IsEvent event1 = subst IsReceiver at v.1 in
      let (buf, (w, e)) =
        done_receiving (receive cfg env dev0 event0 t.buf t.world)
          (receive-Right cfg c env dev0 event0 t.buf t.world alloc fits.0 v.0) in
      (_, receives_first event0 event1 t at alloc e)
  receiver_steps (second event1) at on alloc =
      let fits : IsEvent event1 = subst IsReceiver at v.1 in
      let (buf, (w, e)) =
        done_receiving (receive cfg env dev1 event1 t.buf t.world)
          (receive-Right cfg c env dev1 event1 t.buf t.world alloc fits v.0) in
      (_, receives_second event1 t at alloc e)
  receiver_steps returned at on alloc = absurd (on refl)

  serves_first :
      (reqs : List (DeviceNo × ℕ))
      → t.world.send_req ≡ reqs
      → t.sender ≡ sending
      → All (Servable t.world) reqs
      → env.lock_req ≡ true
      → (u : System) × Sends cfg env t u
  unfolding get_send_req_data
  serves_first [] e at q locks = (_, finds_none t at (rw e refl))
  serves_first ((d, i) ∷ reqs) e at q locks =
      let popped = record t.world { send_req = reqs } in
      let v' = popped-IsWorld t.world (d, i) reqs e v.0.0 in
      let named : All (Names t.world) ((d, i) ∷ reqs) = subst (All (Names t.world)) e v.0.0.named in
      let (entry, here) = get_elem?_of_lt (table d t.world).entries i named.0 in
      let (turns, (w, done)) =
        buffer_send_one-Ends cfg env d i entry popped v' (popped-SameAt t.world reqs (d, i) ∙ here)
          (popped-Servable t.world reqs (d, i) q.0) in
      (_, serves turns d i reqs t at (rw (e, locks) refl) done)

  pub sender_steps :
      (r : Sender)
      → t.sender ≡ r
      → r ≢ ended
      → All (Servable t.world) t.world.send_req
      → env.lock_req ≡ true
      → (u : System) × Sends cfg env t u
  sender_steps waiting at on q locks = elim (Bool-cases t.end_flag) [
    | inl off ↦ (_, Sends.returns t off at)
    | inr running ↦ (_, wakes t running at)
  ]
  sender_steps sending at on q locks = serves_first t.world.send_req refl at q locks
  sender_steps ended at on q locks = absurd (on refl)

-- From a right state, in whatever order the two threads and the signal act, as long as `Router` can
-- allocate its tables and `BufferSendOne` reads nothing out of range, the state stays right, and no
-- thread gets stuck. Until `Router` returns it can act, whatever the frames are that it has read,
-- if a table can be allocated. Until `BufferSend` returns it can act, if the lock of the requests
-- can be taken, whether or not that of a queue can: where a request is there, its inner loop serves
-- the first one, and `BufferSendOne` ends. At each entry that is asked for, the frames that wait
-- hold their IP options, and none waits if the entry has been freed.
pub Reach-IsSystem :
    (cfg : Config) (c : IsConfig cfg) {s t : System}
    → IsSystem s
    → Reach cfg s t
    → IsSystem t
      × (((env : Env)
            → env.alloc_table ≡ true
            → t.receiver ≢ returned
            → (u : System) × Receives cfg env t u)
          × ((env : Env)
              → env.lock_req ≡ true
              → All (Servable t.world) t.world.send_req
              → t.sender ≢ ended
              → (u : System) × Sends cfg env t u))
Reach-IsSystem cfg c {s} {t} v r = (
  kept cfg c v r,
  (
    λ env alloc on. receiver_steps cfg c env t (kept cfg c v r) t.receiver refl on alloc,
    λ env locks q on. sender_steps cfg c env t (kept cfg c v r) t.sender refl on q locks,
  ),
)

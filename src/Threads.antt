-- ===== src/Threads.antt =====
-- The two threads of router/ on their shared state, and the signal that ends them, in any order.
-- `Router` stands at the test of its loop, before one of the two devices, or has returned;
-- `BufferSend` stands at its test, in its inner loop, or has returned. A call of `AnalyzePacket` and
-- one of `BufferSendOne` are one step each, and `env` is what the system answers during a step. A
-- call that reads out of range is no step: what follows it is not defined.
pub mod Progress
pub mod Shutdown
pub mod Ended
use c_router.Base.{
  ℕ, ◌<◌, ◌≡◌, ◌≢◌, refl, sym, ap, subst, ◌∙◌, List, [], ◌∷◌, Bool, Bool-cases, inl, inr, true,
  false, Option, none, some, Outcome, ok, fault, length, get_elem?, All, arith,
}
use c_router.Device.{DeviceNo, dev0, dev1, Config, Ip2mac, World, Env, table}
use c_router.Device.Returns.{Returns}
use c_router.SendReq.{get_send_req_data}
use c_router.Poll.{Event}
use c_router.State.{IsConfig, IsWorld}
use c_router.State.Kept.{popped-IsWorld}
use c_router.Router.Loop.{IsEvent, Right, receive, receive-Right}
use c_router.Flush.{buffer_send_one}
use c_router.Flush.Sound.{IfReturns, buffer_send_one-Sound}

-- Where `Router` stands: at its test, before the first device or the second, with what `poll` and
-- `read` give, or returned.
pub data Receiver : Type 0 where
  testing : Receiver
  first : Event → Event → Receiver
  second : Event → Receiver
  returned : Receiver

-- Where `BufferSend` stands: at its test, in its inner loop, or returned.
pub data Sender : Type 0 where
  waiting sending ended : Sender

-- The shared state, `EndFlag`, and the two threads, the receiving one with its buffer.
pub record System : Type 0 where
  pub world : World
  pub end_flag : Bool
  pub receiver : Receiver
  pub buf : List ℕ
  pub sender : Sender

-- `Router`: `poll` gives nothing, or something for the two devices, which are then handled one after
-- the other; it returns where the test finds `EndFlag` set. A table can be allocated.
pub data Receives (cfg : Config) (env : Env) : System → System → Type 0 where
  idles : (s : System) → s.end_flag ≡ false → s.receiver ≡ testing → Receives cfg env s s
  polls :
      (event0 event1 : Event) (s : System)
      → s.end_flag ≡ false
      → s.receiver ≡ testing
      → IsEvent event0
      → IsEvent event1
      → Receives cfg env s (record s { receiver = first event0 event1 })
  returns :
      (s : System)
      → s.end_flag ≡ true
      → s.receiver ≡ testing
      → Receives cfg env s (record s { receiver = returned })
  receives_first :
      (event0 event1 : Event) (s : System) {buf : List ℕ} {w : World}
      → s.receiver ≡ first event0 event1
      → env.alloc_table ≡ true
      → receive cfg env dev0 event0 s.buf s.world ≡ ok (buf, w)
      → Receives cfg env s (record s { world = w; buf = buf; receiver = second event1 })
  receives_second :
      (event1 : Event) (s : System) {buf : List ℕ} {w : World}
      → s.receiver ≡ second event1
      → env.alloc_table ≡ true
      → receive cfg env dev1 event1 s.buf s.world ≡ ok (buf, w)
      → Receives cfg env s (record s { world = w; buf = buf; receiver = testing })

-- `BufferSend`: `pthread_cond_timedwait` returns, then `GetSendReqData` takes the first request and
-- `BufferSendOne` runs to its end at the entry, whatever that is by now, or it returns -1; the
-- thread returns where the test finds `EndFlag` set.
pub data Sends (cfg : Config) (env : Env) : System → System → Type 0 where
  wakes :
      (s : System)
      → s.end_flag ≡ false
      → s.sender ≡ waiting
      → Sends cfg env s (record s { sender = sending })
  serves :
      (turns : ℕ) (d : DeviceNo) (i : ℕ) (reqs : List (DeviceNo × ℕ)) (s : System) {w : World}
      → s.sender ≡ sending
      → get_send_req_data env s.world.send_req ≡ (some (d, i), reqs)
      → buffer_send_one cfg env turns d i (record s.world { send_req = reqs }) ≡ ok (true, w)
      → Sends cfg env s (record s { world = w })
  finds_none :
      (s : System)
      → s.sender ≡ sending
      → get_send_req_data env s.world.send_req ≡ (none, s.world.send_req)
      → Sends cfg env s (record s { sender = waiting })
  returns :
      (s : System)
      → s.end_flag ≡ true
      → s.sender ≡ waiting
      → Sends cfg env s (record s { sender = ended })

-- One of the threads acts, or `EndSignal` sets `EndFlag`.
pub data Step (cfg : Config) : System → System → Type 0 where
  by_receiver : {s t : System} (env : Env) → Receives cfg env s t → Step cfg s t
  by_sender : {s t : System} (env : Env) → Sends cfg env s t → Step cfg s t
  by_signal : (s : System) → s.end_flag ≡ false → Step cfg s (record s { end_flag = true })

pub data Reach (cfg : Config) (s : System) : System → Type 0 where
  here : Reach cfg s s
  next : {t u : System} → Reach cfg s t → Step cfg t u → Reach cfg s u

-- What has been read fits the buffer.
abbrev pub IsReceiver : Receiver → Type 0
IsReceiver testing = Unit
IsReceiver (first event0 event1) = IsEvent event0 × IsEvent event1
IsReceiver (second event1) = IsEvent event1
IsReceiver returned = Unit

abbrev pub IsSystem : System → Type 0
IsSystem s = Right s.buf s.world × IsReceiver s.receiver

-- What `GetSendReqData` gives was the first request.
pub got_some :
    (env : Env) (reqs : List (DeviceNo × ℕ)) {r : DeviceNo × ℕ} {rest : List (DeviceNo × ℕ)}
    → get_send_req_data env reqs ≡ (some r, rest)
    → reqs ≡ r ∷ rest
unfolding get_send_req_data
got_some env [] h = ground (arith, h)
got_some env (q ∷ reqs) h = ground (arith, h)

module _ (cfg : Config) (c : IsConfig cfg) where
  Receives-IsSystem : {env : Env} {s t : System} → Receives cfg env s t → IsSystem s → IsSystem t
  Receives-IsSystem (idles s on at) v = v
  Receives-IsSystem (polls event0 event1 s on at fits0 fits1) v = (v.0, (fits0, fits1))
  Receives-IsSystem (Receives.returns s off at) v = (v.0, tt)
  Receives-IsSystem {env} (receives_first event0 event1 s at alloc done) v =
      let fits : IsEvent event0 × IsEvent event1 = subst IsReceiver at v.1 in
      let after = receive-Right cfg c env dev0 event0 s.buf s.world alloc fits.0 v.0 in
      (rw done at after, fits.1)
  Receives-IsSystem {env} (receives_second event1 s at alloc done) v =
      let fits : IsEvent event1 = subst IsReceiver at v.1 in
      let after = receive-Right cfg c env dev1 event1 s.buf s.world alloc fits v.0 in
      (rw done at after, tt)

  Sends-IsSystem : {env : Env} {s t : System} → Sends cfg env s t → IsSystem s → IsSystem t
  Sends-IsSystem (wakes s on at) v = v
  Sends-IsSystem {env} (serves turns d i reqs s at front done) v =
      let popped = record s.world { send_req = reqs } in
      let after : IfReturns (λ _ w'. IsWorld w') (buffer_send_one cfg env turns d i popped) =
        buffer_send_one-Sound cfg env d i turns popped
          (popped-IsWorld s.world (d, i) reqs (got_some env s.world.send_req front) v.0.0) in
      ((rw done at after, v.0.1), v.1)
  Sends-IsSystem (finds_none s at empty) v = v
  Sends-IsSystem (Sends.returns s off at) v = v

  Step-IsSystem : {s t : System} → Step cfg s t → IsSystem s → IsSystem t
  Step-IsSystem (by_receiver env st) v = Receives-IsSystem st v
  Step-IsSystem (by_sender env st) v = Sends-IsSystem st v
  Step-IsSystem (by_signal s on) v = v

  pub kept : {s t : System} → IsSystem s → Reach cfg s t → IsSystem t
  kept v here = v
  kept v (next r st) = Step-IsSystem st (kept v r)

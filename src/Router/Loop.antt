-- ===== src/Router/Loop.antt =====
-- `Router` of router/main.c: the loop that reads a frame from each device that has one.
use c_router.Poll.{Event, Poll, idle, events}
use c_router.Base.{
  Bool, Bool-cases, inl, inr, not, bit_and, ◌==◌, if◌then◌else◌, ℕ, ◌≤◌, ◌≡◌, ◌∙◌, List, [], ◌∷◌,
  true, length, All, IsBytes, overwrite, length-overwrite, overwrite-IsBytes,
}
use c_router.Device.{DeviceNo, dev0, dev1, Config, World, Env}
use c_router.Device.Cmd.{M, pure, ◌>>=◌}
use c_router.Device.Returns.{Returns}
use c_router.Device.Returns
use c_router.State.{IsConfig, IsWorld}
use c_router.Router.{analyze_packet}
use c_router.Device.Adds.{Adds, Adds-pure, Adds-if, Adds-first}
use c_router.Router.Adds.{analyze_packet-Adds}
use c_router.Router.Fields.{IsBuffer}
use c_router.Router.Verdicts.{analyze_packet-Safe}

-- `targets[i].revents & (POLLIN | POLLERR)`, of the bits 1 and 8.
abbrev pub ready : Event → Bool
ready event = not (bit_and event.revents 9 == 0)

-- A turn of the loop: `EndFlag` at its test, what `poll` and `read` give, and what the system
-- answers meanwhile.
pub record Turn : Type 0 where
  pub end_flag : Bool
  pub poll : Poll
  pub env : Env

module _ (cfg : Config) where
  -- `read` and `AnalyzePacket`: the bytes read stand at the start of the buffer, which keeps what
  -- it held after them.
  pub read_frame : Env → DeviceNo → List ℕ → List ℕ → M (List ℕ)
  read_frame env d [] buf = pure buf
  read_frame env d (x ∷ frame) buf = do
    (code, buf') ← analyze_packet cfg env d (overwrite buf (x ∷ frame)) (length (x ∷ frame))
    pure buf'

  -- The body of the loop over the two devices.
  pub receive : Env → DeviceNo → Event → List ℕ → M (List ℕ)
  receive env d event buf = if ready event then read_frame env d event.bytes buf else pure buf

  unfoldable pub router_turn : Env → Poll → List ℕ → M (List ℕ)
  router_turn env idle buf = pure buf
  router_turn env (events event0 event1) buf = do
    buf' ← receive env dev0 event0 buf
    receive env dev1 event1 buf'

  -- Some turns; it returns at the first whose test finds `EndFlag` set.
  unfoldable pub router : List Turn → List ℕ → M (List ℕ)
  router [] buf = pure buf
  router (turn ∷ turns) buf =
      if turn.end_flag
      then pure buf
      else do buf' ← router_turn turn.env turn.poll buf; router turns buf'

-- `read` gives at most as many bytes as the buffer has.
abbrev pub IsEvent : Event → Type 0
IsEvent event = (length event.bytes ≤ 2048) × IsBytes event.bytes

abbrev pub IsPoll : Poll → Type 0
IsPoll idle = Unit
IsPoll (events event0 event1) = IsEvent event0 × IsEvent event1

-- A turn in which the table of entries can be allocated.
abbrev pub IsTurn : Turn → Type 0
IsTurn turn = (turn.env.alloc_table ≡ true) × IsPoll turn.poll

-- The state and the buffer are right.
abbrev pub Right : List ℕ → World → Type 0
Right buf w = IsWorld w × IsBuffer buf

module _ (cfg : Config) (c : IsConfig cfg) where
  read_frame-Right :
      (env : Env) (d : DeviceNo) (bytes buf : List ℕ) (w : World)
      → env.alloc_table ≡ true
      → (length bytes ≤ 2048) × IsBytes bytes
      → Right buf w
      → Returns Right (read_frame cfg env d bytes buf w)
  unfolding read_frame
  read_frame-Right env d [] buf w alloc e r = r
  read_frame-Right env d (x ∷ frame) buf w alloc e r =
      let filled = overwrite buf (x ∷ frame) in
      let b : IsBuffer filled = record {
        size = length-overwrite buf (x ∷ frame) ∙ r.1.size;
        octets = overwrite-IsBytes buf (x ∷ frame) r.1.octets e.1;
      } in
      Returns.bind Right (λ v w'. Right v.1 w')
        (analyze_packet cfg env d filled (length (x ∷ frame))) _ w
        (analyze_packet-Safe cfg env d filled (length (x ∷ frame)) w b c r.0 alloc e.0)
        (λ v w' h. h)

  pub receive-Right :
      (env : Env) (d : DeviceNo) (event : Event) (buf : List ℕ) (w : World)
      → env.alloc_table ≡ true
      → IsEvent event
      → Right buf w
      → Returns Right (receive cfg env d event buf w)
  unfolding receive
  receive-Right env d event buf w alloc e r = elim (Bool-cases (ready event)) [
    | inl on ↦ rw on (read_frame-Right env d event.bytes buf w alloc e r)
    | inr off ↦ rw off r
  ]

  router_turn-Right :
      (env : Env) (poll : Poll) (buf : List ℕ) (w : World)
      → env.alloc_table ≡ true
      → IsPoll poll
      → Right buf w
      → Returns Right (router_turn cfg env poll buf w)
  unfolding router_turn
  router_turn-Right env idle buf w alloc t r = r
  router_turn-Right env (events event0 event1) buf w alloc t r =
      Returns.bind Right Right (receive cfg env dev0 event0 buf) _ w
        (receive-Right env dev0 event0 buf w alloc t.0 r)
        (λ buf' w' r'. receive-Right env dev1 event1 buf' w' alloc t.1 r')

  -- From a right state and with MAC addresses of 6 bytes in the devices, `Router` runs any number
  -- of turns, whatever the bytes of the frames are that come in, if a read gives at most 2048
  -- bytes and a table can be allocated: every turn returns, nothing is read or written out of
  -- range, and the state and the buffer stay right.
  pub router-Right :
      (turns : List Turn) (buf : List ℕ) (w : World)
      → All IsTurn turns
      → Right buf w
      → Returns Right (router cfg turns buf w)
  unfolding router
  router-Right [] buf w t r = r
  router-Right (turn ∷ turns) buf w t r = elim (Bool-cases turn.end_flag) [
    | inl ends ↦ rw ends r
    | inr on ↦ rw on (
        Returns.bind Right Right (router_turn cfg turn.env turn.poll buf) _ w
          (router_turn-Right turn.env turn.poll buf w t.0.0 t.0.1 r)
          (λ buf' w' r'. router-Right turns buf' w' t.1 r'))
  ]

-- A device asks the sending thread for one entry at most.
pub receive-Adds :
    (cfg : Config) (env : Env) (d : DeviceNo) (event : Event) (buf : List ℕ)
    → Adds 1 (receive cfg env d event buf)
unfolding receive read_frame
receive-Adds cfg env d event buf =
    Adds-if 1 (ready event) _ _ (reading event.bytes) (Adds-pure 1 buf)
  where
    reading : (bytes : List ℕ) → Adds 1 (read_frame cfg env d bytes buf)
    reading [] = Adds-pure 1 buf
    reading (x ∷ frame) =
        Adds-first 1 _ _
          (analyze_packet-Adds cfg env d (overwrite buf (x ∷ frame)) (length (x ∷ frame)))
          (λ (code, buf'). Adds-pure 0 buf')

-- ===== src/Bridge/Frames.antt =====
-- `Bridge` of bridge/main.c: which frames go out.
use c_router.Base.{
  ℕ, ◌≤◌, ◌<◌, ◌≡◌, refl, sym, ap, ◌∙◌, List, [], ◌∷◌, ◌++◌, append-nil, append_assoc, Bool,
  Bool-cases, inl, inr, true, false, ltb, leb, if◌then◌else◌, Outcome, ok, arith, length, take,
  load, load-ok, overwrite, length-overwrite,
}
use c_router.Device.{DeviceNo, dev0, dev1, other}
use c_router.Pcap.Print.Total.{printed, print_ether_header-IsPrinted}
use c_router.Poll.{Event, Poll, idle, events}
use c_router.Bridge.{
  debug_header, print_ether_header, analyze_packet, State, ready, pass_on, read_frame, receive,
  bridge,
}

-- What the bridge hands on of one event: a frame that is ready and has a whole ethernet header, to
-- the other device.
abbrev pub handed : DeviceNo → Event → List (DeviceNo × List ℕ)
handed d event =
    if ready event
    then (if leb 14 (length event.bytes) then (other d, event.bytes) ∷ [] else [])
    else []

abbrev pub all_handed : List Poll → List (DeviceNo × List ℕ)
all_handed [] = []
all_handed (idle ∷ polls) = all_handed polls
all_handed (events event0 event1 ∷ polls) =
    handed dev0 event0 ++ (handed dev1 event1 ++ all_handed polls)

-- `read` gives at most as many bytes as the buffer has.
abbrev pub Fits : Poll → Type 0
Fits idle = Unit
Fits (events event0 event1) = (length event0.bytes ≤ 2048) × (length event1.bytes ≤ 2048)

abbrev pub AllFit : List Poll → Type 0
AllFit [] = Unit
AllFit (poll ∷ polls) = Fits poll × AllFit polls

-- A buffer of 2048 bytes, and these frames written.
pub record Wrote (frames : List (DeviceNo × List ℕ)) (out : Outcome State) : Type 0 where
  pub after : State
  pub returns : out ≡ ok after
  pub size : length after.buf ≡ 2048
  pub sent : after.sent ≡ frames

take-overwrite_self :
    (mem bytes : List ℕ)
    → length bytes ≤ length mem
    → take (length bytes) (overwrite mem bytes) ≡ bytes
take-overwrite_self mem [] h = refl
take-overwrite_self [] (b ∷ bytes) h = absurd (omega arith)
take-overwrite_self (x ∷ mem) (b ∷ bytes) h =
    ap (λ (t : List ℕ). b ∷ t) (take-overwrite_self mem bytes (omega arith))

debug_header-ok :
    (debug_out : Bool) (eh : List ℕ)
    → 14 ≤ length eh
    → (text : List ℕ) × (debug_header debug_out eh ≡ ok text)
unfolding debug_header print_ether_header
debug_header-ok false eh h = ([], refl)
debug_header-ok true eh h = printed _ (print_ether_header-IsPrinted eh h)

read_frame-Wrote :
    (debug_out : Bool) (d : DeviceNo) (frame : List ℕ) (s : State)
    → length frame ≤ 2048
    → length s.buf ≡ 2048
    → Wrote
        (s.sent ++ (if leb 14 (length frame) then (other d, frame) ∷ [] else []))
        (read_frame debug_out d frame s)
unfolding read_frame analyze_packet pass_on
read_frame-Wrote debug_out d [] s fits full = record {
  after = s;
  returns = refl;
  size = full;
  sent = sym (append-nil s.sent);
}
read_frame-Wrote debug_out d (x ∷ frame) s fits full = elim (Bool-cases (leb 14 n)) [
  | inl long ↦
      let (header, e) = debug_header-ok debug_out buf (ground (arith, long, buf_length)) in
      rw (long, not_short (ground (arith, long)), e, frame_read)
        (record { after = _; returns = refl; size = buf_length; sent = refl })
  | inr short ↦
      rw (short, is_short (ground (arith, short)))
        (record { after = _; returns = refl; size = buf_length; sent = sym (append-nil s.sent) })
]
  where
    n : ℕ
    n = length (x ∷ frame)

    buf : List ℕ
    buf = overwrite s.buf (x ∷ frame)

    buf_length : length buf ≡ 2048
    buf_length = length-overwrite s.buf (x ∷ frame) ∙ full

    not_short : 14 ≤ n → ltb n 14 ≡ false
    not_short h = ground arith

    is_short : n < 14 → ltb n 14 ≡ true
    is_short h = ground arith

    frame_read : load buf 0 n ≡ ok (x ∷ frame)
    frame_read =
        load-ok buf 0 n (omega (arith, buf_length, fits))
        ∙ ap ok (take-overwrite_self s.buf (x ∷ frame) (omega (arith, full, fits)))

receive-Wrote :
    (debug_out : Bool) (d : DeviceNo) (event : Event) (s : State)
    → length event.bytes ≤ 2048
    → length s.buf ≡ 2048
    → Wrote (s.sent ++ handed d event) (receive debug_out d event s)
unfolding receive
receive-Wrote debug_out d event s fits full = elim (Bool-cases (ready event)) [
  | inl on ↦ rw on (read_frame-Wrote debug_out d event.bytes s fits full)
  | inr off ↦
      rw off (record { after = s; returns = refl; size = full; sent = sym (append-nil s.sent) })
]

-- With a buffer of 2048 bytes and reads of at most as many, `Bridge` reads nothing out of range,
-- and it writes each frame that is ready and has at least 14 bytes, whole and unchanged, to the
-- other device, in the order of the reads, and no other frame, whether or not `DebugOut` is set.
pub bridge-Wrote :
    (debug_out : Bool) (polls : List Poll) (s : State)
    → AllFit polls
    → length s.buf ≡ 2048
    → Wrote (s.sent ++ all_handed polls) (bridge debug_out polls s)
unfolding bridge
bridge-Wrote debug_out [] s fits full = record {
  after = s;
  returns = refl;
  size = full;
  sent = sym (append-nil s.sent);
}
bridge-Wrote debug_out (idle ∷ polls) s fits full = bridge-Wrote debug_out polls s fits.1 full
bridge-Wrote debug_out (events event0 event1 ∷ polls) s fits full =
    let first = receive-Wrote debug_out dev0 event0 s fits.0.0 full in
    let second = receive-Wrote debug_out dev1 event1 first.after fits.0.1 first.size in
    let rest = bridge-Wrote debug_out polls second.after fits.1 second.size in
    record {
      after = rest.after;
      returns = rw (first.returns, second.returns) rest.returns;
      size = rest.size;
      sent =
          rest.sent
          ∙ ap (λ t. t ++ all_handed polls)
              (second.sent ∙ ap (λ t. t ++ handed dev1 event1) first.sent)
          ∙ append_assoc (s.sent ++ handed dev0 event0) (handed dev1 event1) (all_handed polls)
          ∙ append_assoc s.sent (handed dev0 event0) (handed dev1 event1 ++ all_handed polls);
    }

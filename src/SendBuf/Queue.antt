-- ===== src/SendBuf/Queue.antt =====
-- The queue of an entry: counted, bounded, first in first out.
use c_router.Base.{
  ℕ, suc, ◌+◌, ◌≤◌, ◌≡◌, refl, ◌⊎◌, ◌++◌, List, [], ◌∷◌, Bool, true, false, Bool-cases, inl, inr,
  Option, none, some, leb, ◌&&◌, if◌then◌else◌, not, ℤ, pos, minus_one, ok, load-ok, slice, arith,
  length, length-append, length-take, All, All-append, IsBytes, IsByte, All-take,
}
use c_router.Device.{DataBuf, SendData, Env}
use c_router.SendBuf.{
  max_bucket_size, empty, enqueue, dequeue, append_send_data, take_first, get_send_data,
}

-- Bytes in all.
abbrev pub weight : List DataBuf → ℕ
weight [] = 0
weight (d ∷ ds) = d.size + weight ds

-- The smallest and the largest frame that `AnalyzePacket` queues: an Ethernet and an IP header,
-- and the buffer of `Router`.
abbrev pub min_frame : ℕ
min_frame = 34

abbrev pub max_frame : ℕ
max_frame = 2048

-- A buffer holds a frame of the size it says.
pub record IsBuf (d : DataBuf) : Type 0 where
  pub least : min_frame ≤ d.size
  pub most : d.size ≤ max_frame
  pub stored : length d.bytes ≡ d.size
  pub bytes : IsBytes d.bytes

-- The counters are those of the list, and the limit is passed by less than one frame.
pub record IsQueue (sd : SendData) : Type 0 where
  pub counted : sd.dno ≡ length sd.bufs
  pub weighed : sd.in_bucket_size ≡ weight sd.bufs
  pub light : sd.in_bucket_size ≤ max_bucket_size + max_frame
  pub frames : All IsBuf sd.bufs

weight-append : (ds : List DataBuf) (d : DataBuf) → weight (ds ++ (d ∷ [])) ≡ weight ds + d.size
weight-append [] d = omega arith
weight-append (e ∷ ds) d = omega (arith, weight-append ds d)

length-le-weight : (ds : List DataBuf) → All IsBuf ds → length ds ≤ weight ds
length-le-weight [] h = omega arith
length-le-weight (d ∷ ds) h = omega (arith, length-le-weight ds h.1, h.0.least)

pub empty-IsQueue : IsQueue empty
empty-IsQueue = record { counted = refl; weighed = refl; light = omega arith; frames = tt }

enqueue-IsQueue :
    (sd : SendData) (d : DataBuf)
    → IsQueue sd
    → IsBuf d
    → sd.in_bucket_size ≤ max_bucket_size
    → IsQueue (enqueue sd d)
enqueue-IsQueue sd d v b room = record {
  counted = omega (arith, v.counted, length-append sd.bufs (d ∷ []), small);
  weighed = omega (arith, v.weighed, weight-append sd.bufs d, b.most);
  light = omega (arith, b.most);
  frames = All-append IsBuf sd.bufs (d ∷ []) v.frames (b, tt);
}
  where
    small : length sd.bufs ≤ max_bucket_size
    small = omega (arith, length-le-weight sd.bufs v.frames, v.weighed)

-- A frame that fits its buffer.
pub record IsFrame (bytes : List ℕ) (size : ℕ) : Type 0 where
  pub least : min_frame ≤ size
  pub most : size ≤ max_frame
  pub present : size ≤ length bytes
  pub octets : IsBytes bytes

-- `AppendSendData` takes the frame: the limit is not passed yet, and no call of the system fails.
abbrev pub ready : Env → SendData → Bool
ready env sd =
    leb sd.in_bucket_size max_bucket_size && (env.alloc_buf && (env.alloc_bytes && env.lock_sd))

abbrev pub copy : Env → List ℕ → ℕ → DataBuf
copy env bytes size = record { t = env.now; size = size; bytes = slice bytes 0 size }

abbrev pub appended : Env → SendData → List ℕ → ℕ → ℤ × SendData
appended env sd bytes size =
    if ready env sd then (pos 0, enqueue sd (copy env bytes size)) else (minus_one, sd)

-- `AppendSendData` of a frame that its memory holds puts a copy behind the buffers that wait, and
-- counts it, where the queue has at most 1 MiB and no call of the system fails; else it returns -1
-- and changes nothing.
pub append_send_data-value :
    (env : Env) (sd : SendData) (bytes : List ℕ) (size : ℕ)
    → size ≤ length bytes
    → append_send_data env sd bytes size ≡ ok (appended env sd bytes size)
unfolding append_send_data
append_send_data-value env sd bytes size fits =
    rw (load-ok bytes 0 size (omega arith)) (ground arith)

copy-IsBuf :
    (env : Env) (bytes : List ℕ) (size : ℕ) → IsFrame bytes size → IsBuf (copy env bytes size)
copy-IsBuf env bytes size f = record {
  least = f.least;
  most = f.most;
  stored = omega (arith, length-take size bytes, f.present);
  bytes = All-take IsByte size bytes f.octets;
}

pub appended-IsQueue :
    (env : Env) (sd : SendData) (bytes : List ℕ) (size : ℕ)
    → IsQueue sd
    → IsFrame bytes size
    → IsQueue (appended env sd bytes size).1
appended-IsQueue env sd bytes size v f = elim (Bool-cases (ready env sd)) [
  | inl go ↦
      rw go
        (enqueue-IsQueue sd (copy env bytes size) v (copy-IsBuf env bytes size f) (ground arith))
  | inr stop ↦ rw stop v
]

-- `AppendSendData` of a frame of 34 to 2048 bytes that its memory holds reads nothing out of range
-- and keeps a right queue right: its counters are those of its list, and its bytes exceed 1 MiB by
-- at most 2048.
pub append_send_data-IsQueue :
    (env : Env) (sd : SendData) (bytes : List ℕ) (size : ℕ)
    → IsQueue sd
    → IsFrame bytes size
    → (out : ℤ × SendData) × (append_send_data env sd bytes size ≡ ok out) × IsQueue out.1
append_send_data-IsQueue env sd bytes size v f = (
  appended env sd bytes size,
  append_send_data-value env sd bytes size f.present,
  appended-IsQueue env sd bytes size v f,
)

dequeue-IsQueue :
    (sd : SendData) (d : DataBuf) (rest : List DataBuf)
    → sd.bufs ≡ d ∷ rest
    → IsQueue sd
    → IsBuf d × IsQueue (dequeue sd d rest)
dequeue-IsQueue sd d rest e v =
    let frames : IsBuf d × All IsBuf rest = rw e at v.frames in
    let counted : sd.dno ≡ suc (length rest) = rw e at v.counted in
    let weighed : sd.in_bucket_size ≡ d.size + weight rest = rw e at v.weighed in
    (
      frames.0,
      record {
        counted = omega (arith, counted, weighed, v.light, length-le-weight rest frames.1);
        weighed = omega (arith, weighed, v.light);
        light = omega (arith, weighed, v.light);
        frames = frames.1;
      },
    )

-- The buffers of a queue, once `GetSendData` returned what it did.
abbrev pub Got : Env → SendData → Option DataBuf × SendData → Type 0
Got env sd (none, sd') = (sd' ≡ sd) × ((sd.bufs ≡ []) ⊎ (env.lock_sd ≡ false))
Got env sd (some d, sd') = (sd.bufs ≡ d ∷ sd'.bufs) × IsBuf d × IsQueue sd'

take_first-Got :
    (env : Env) (sd : SendData) (bufs : List DataBuf)
    → sd.bufs ≡ bufs
    → IsQueue sd
    → Got env sd (take_first env sd bufs)
unfolding take_first
take_first-Got env sd [] e v = (refl, inl e)
take_first-Got env sd (d ∷ rest) e v = by_lock env.lock_sd refl
  where
    by_lock :
        (locked : Bool)
        → env.lock_sd ≡ locked
        → Got env sd (if not locked then (none, sd) else (some d, dequeue sd d rest))
    by_lock true l = let (b, q) = dequeue-IsQueue sd d rest e v in (e, b, q)
    by_lock false l = (refl, inr l)

-- `GetSendData` on a right queue returns the oldest buffer, and leaves the others in a right
-- queue; or it returns -1 and leaves the queue as it was, and then no buffer waits or the lock
-- fails.
pub get_send_data-Got : (env : Env) (sd : SendData) → IsQueue sd → Got env sd (get_send_data env sd)
unfolding get_send_data
get_send_data-Got env sd v = take_first-Got env sd sd.bufs refl v

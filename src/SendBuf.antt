-- ===== src/SendBuf.antt =====
-- router/sendBuf.c: the frames that wait at an entry for its MAC address.
pub mod Queue
use c_router.Base.{
  ℕ, ◌+◌, ◌-◌, ◌*◌, ◌%◌, ◌^◌, ◌≤◌, ◌++◌, List, [], ◌∷◌, Bool, true, false, Option, none, some, ltb,
  ◌==◌, if◌then◌else◌, not, ℤ, pos, minus_one, Outcome, ok, fault, ◌>>=◌, load,
}
use c_router.Device.{DataBuf, SendData, Env}

-- `MAX_BUCKET_SIZE`
abbrev pub max_bucket_size : ℕ
max_bucket_size = 1024 * 1024

abbrev pub is_nonempty {ℓ} : {A : Type ℓ} → List A → Bool
is_nonempty [] = false
is_nonempty (x ∷ xs) = true

-- `memset(&ip2mac->sd, 0, sizeof(SEND_DATA))`
abbrev pub empty : SendData
empty = record { bufs = []; dno = 0; in_bucket_size = 0 }

-- The queue with one buffer more at the bottom, counted.
abbrev pub enqueue : SendData → DataBuf → SendData
enqueue sd d = record {
  bufs = sd.bufs ++ (d ∷ []);
  dno = (sd.dno + 1) % 2 ^ 64;
  in_bucket_size = (sd.in_bucket_size + d.size) % 2 ^ 64;
}

-- `AppendSendData`: the return code and the queue. `bytes` is the memory behind `data`. A lock
-- that fails returns -1 too, with the copied bytes leaked.
unfoldable pub append_send_data : Env → SendData → List ℕ → ℕ → Outcome (ℤ × SendData)
append_send_data env sd bytes size =
    if ltb max_bucket_size sd.in_bucket_size
    then ok (minus_one, sd)
    else if not env.alloc_buf
    then ok (minus_one, sd)
    else if not env.alloc_bytes
    then ok (minus_one, sd)
    else (do
      copied ← load bytes 0 size
      if not env.lock_sd
          then ok (minus_one, sd)
          else ok (pos 0, enqueue sd (record { t = env.now; size = size; bytes = copied })))

-- The queue without its top buffer, the rest of the buffers given.
abbrev pub dequeue : SendData → DataBuf → List DataBuf → SendData
dequeue sd d rest = record {
  bufs = rest;
  dno = (sd.dno + 2 ^ 64 - 1) % 2 ^ 64;
  in_bucket_size = (sd.in_bucket_size + 2 ^ 64 - d.size) % 2 ^ 64;
}

-- `GetSendData`, the list given by its cells.
unfoldable pub take_first : Env → SendData → List DataBuf → Option DataBuf × SendData
take_first env sd [] = (none, sd)
take_first env sd (d ∷ rest) = if not env.lock_sd then (none, sd) else (some d, dequeue sd d rest)

-- `GetSendData`: `none` is the -1, and `some` what goes through `size` and `data`.
unfoldable pub get_send_data : Env → SendData → Option DataBuf × SendData
get_send_data env sd = take_first env sd sd.bufs

-- `FreeSendData`. The counters stay as they are.
unfoldable pub free_send_data : Env → SendData → ℤ × SendData
free_send_data env sd =
    if not (is_nonempty sd.bufs)
    then (pos 0, sd)
    else if not env.lock_sd
    then (minus_one, sd)
    else (pos 0, record sd { bufs = [] })

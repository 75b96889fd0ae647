-- ===== src/Flush.antt =====
-- router/ip2mac.c: `BufferSendOne`, which sends what waits at an entry, and the loop of `BufferSend`
-- over the requests. A run of either is one step here: no other thread acts between its turns.
pub mod Drained
pub mod Served
pub mod Adds
pub mod Sound
pub mod Delivered
pub mod Waited
use c_router.Base.{
  ℕ, zero, suc, List, [], ◌∷◌, Bool, true, false, Option, none, some, Outcome, ok, fault, load,
}
use c_router.Device.{DeviceNo, Device, Config, DataBuf, SendData, Ip2mac, World, Env}
use c_router.Device.Cmd.{M, pure, lift, write, ◌>>=◌, ◌>>◌}
use c_router.SendBuf.{get_send_data}
use c_router.SendReq.{get_send_req_data}
use c_router.Ip2Mac.{entry_at}
use c_router.Resend.{flush_frame}
use c_router.Router.{put_entry}

module _ (cfg : Config) (env : Env) where
  -- A turn of the loop of `BufferSendOne`, by what `GetSendData` returned: the end, or one frame
  -- sent and `rest`.
  pub flush_one : DeviceNo → ℕ → Ip2mac → Option DataBuf × SendData → M Bool → M Bool
  flush_one d i e (none, sd) rest = pure true
  flush_one d i e (some buf, sd) rest = do
    put_entry d i (record e { sd = sd })
    data' ← lift (flush_frame e.hwaddr buf.bytes)
    frame ← lift (load data' 0 buf.size)
    write (cfg.device d).soc frame
    rest

  -- The loop, within a number of turns: whether it ended.
  pub buffer_send_one : ℕ → DeviceNo → ℕ → M Bool
  buffer_send_one zero d i = pure false
  buffer_send_one (suc turns) d i = do
    e ← entry_at d i
    flush_one d i e (get_send_data env e.sd) (buffer_send_one turns d i)

  -- The inner loop of `BufferSend`, in which each entry has `turns` turns.
  pub serve : ℕ → Option (DeviceNo × ℕ) × List (DeviceNo × ℕ) → M Bool → M Bool
  serve turns (none, reqs) rest w = ok (true, w)
  serve turns (some (d, i), reqs) rest w =
      (buffer_send_one turns d i >> rest) (record w { send_req = reqs })

  pub buffer_send : ℕ → ℕ → M Bool
  buffer_send turns zero w = ok (false, w)
  buffer_send turns (suc more) w =
      serve turns (get_send_req_data env w.send_req) (buffer_send turns more) w

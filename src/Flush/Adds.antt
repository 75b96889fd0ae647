-- ===== src/Flush/Adds.antt =====
-- `BufferSendOne` asks for nothing.
use c_router.Base.{ℕ, zero, suc, Option, none, some, true, false, load}
use c_router.Device.{DeviceNo, Config, DataBuf, SendData, Ip2mac, Env}
use c_router.Device.Adds.{Adds, Adds-pure, Adds-lift, Adds-write, Adds-bind}
use c_router.SendBuf.{get_send_data}
use c_router.Ip2Mac.Adds.{entry_at-Adds}
use c_router.Resend.{flush_frame}
use c_router.Router.Adds.{put_entry-Adds}
use c_router.Flush.{flush_one, buffer_send_one}

module _ (cfg : Config) (env : Env) (d : DeviceNo) (i : ℕ) where
  -- A turn, and the rest.
  flush_one-Adds :
      (turns : ℕ) (e : Ip2mac) (out : Option DataBuf × SendData)
      → Adds 0 (buffer_send_one cfg env turns d i)
      → Adds 0 (flush_one cfg env d i e out (buffer_send_one cfg env turns d i))
  unfolding flush_one
  flush_one-Adds turns e (none, sd) h = Adds-pure 0 true
  flush_one-Adds turns e (some buf, sd) h =
      Adds-bind 0 _ _ (put_entry-Adds d i (record e { sd = sd })) (λ _.
        Adds-bind 0 _ _ (Adds-lift 0 (flush_frame e.hwaddr buf.bytes)) (λ data'.
          Adds-bind 0 _ _ (Adds-lift 0 (load data' 0 buf.size))
            (λ frame. Adds-bind 0 _ _ (Adds-write 0 (cfg.device d).soc frame) (λ _. h))))

  pub buffer_send_one-Adds : (turns : ℕ) → Adds 0 (buffer_send_one cfg env turns d i)
  unfolding buffer_send_one
  buffer_send_one-Adds zero = Adds-pure 0 false
  buffer_send_one-Adds (suc turns) =
      Adds-bind 0 _ _ (entry_at-Adds d i)
        (λ e. flush_one-Adds turns e (get_send_data env e.sd) (buffer_send_one-Adds turns))

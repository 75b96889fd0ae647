-- ===== src/Flush/Drained.antt =====
-- `BufferSendOne`: every frame that waits is sent, in order.
use c_router.Base.{
  ℕ, zero, suc, ◌+◌, ◌≤◌, ◌<◌, ◌≡◌, refl, sym, ap, ◌∙◌, inl, inr, List, [], ◌∷◌, ◌++◌, map,
  append_assoc, append-nil, Bool, true, false, Option, none, some, pos_part, arith, length,
  get_elem?, All, slice, load-ok,
}
use c_router.Device.{DeviceNo, Config, DataBuf, SendData, Ip2mac, World, Env, table}
use c_router.Device.Cmd.{write}
use c_router.Device.Returns.{Returns}
use c_router.Device.Returns
use c_router.SendBuf.{get_send_data}
use c_router.SendBuf.Queue.{IsBuf, IsQueue, Got, get_send_data-Got}
use c_router.Ip2Mac.{is_free, entry_at}
use c_router.Ip2Mac.Entry.{IsEntry}
use c_router.State.{IsWorld, sent-IsWorld, table-sent}
use c_router.State.Resolve.{entry_at-ok}
use c_router.State.Kept.{Kept, Kept-refl, Kept-trans, sent-Kept, put_entry-Kept}
use c_router.Router.{put_entry}
use c_router.Router.Entries.{put_entry-IsWorld, IsWorld-IsEntry}
use c_router.Router.Fields.{opt_len}
use c_router.Resend.Result.{flushed, flush_frame-value, length-flushed}
use c_router.Flush.{flush_one, buffer_send_one}

-- The IP options that the header declares are within the frame.
abbrev pub HasOptions : DataBuf → Type 0
HasOptions d = 34 + pos_part (opt_len d.bytes) ≤ length d.bytes

-- What goes out for a buffer.
abbrev pub outgoing : Config → DeviceNo → List ℕ → DataBuf → ℕ × List ℕ
outgoing cfg d hwaddr buf = ((cfg.device d).soc, slice (flushed hwaddr buf.bytes) 0 buf.size)

-- The loop ended, the queue is empty, the entry is otherwise the same, every buffer went out, the
-- oldest first, and nothing else has changed.
pub record Drained (cfg : Config) (d : DeviceNo) (i : ℕ) (e : Ip2mac) (w : World) (ended : Bool)
    (w' : World) : Type 0 where
  pub ends : ended ≡ true
  pub right : IsWorld w'
  pub entry : Ip2mac
  pub here : get_elem? (table d w').entries i ≡ some entry
  pub emptied : entry.sd.bufs ≡ []
  pub counted : entry.sd.dno ≡ 0
  pub same_flag : entry.flag ≡ e.flag
  pub same_addr : entry.addr ≡ e.addr
  pub same_hwaddr : entry.hwaddr ≡ e.hwaddr
  pub kept : Kept d i w w'
  pub sent : w'.sent ≡ w.sent ++ map (outgoing cfg d e.hwaddr) e.sd.bufs

module _ (cfg : Config) (env : Env) (d : DeviceNo) (i : ℕ) (locks : env.lock_sd ≡ true) where
  -- One frame sent and the entry left for the rest.
  one :
      (e : Ip2mac) (buf : DataBuf) (sd : SendData) (w : World) (turns : ℕ)
      → IsWorld w
      → get_elem? (table d w).entries i ≡ some e
      → is_free e.flag ≡ false
      → e.sd.bufs ≡ buf ∷ sd.bufs
      → IsBuf buf
      → IsQueue sd
      → HasOptions buf
      → ((w' : World)
          → IsWorld w'
          → get_elem? (table d w').entries i ≡ some (record e { sd = sd })
          → Returns
              (Drained cfg d i (record e { sd = sd }) w')
              (buffer_send_one cfg env turns d i w'))
      → Returns
          (Drained cfg d i e w)
          (flush_one cfg env d i e (some buf, sd) (buffer_send_one cfg env turns d i) w)
  unfolding flush_one write
  one e buf sd w turns v at used first b q opts rest =
      Returns.bind (Drained cfg d i e w)
        (λ _ w1.
          (IsWorld w1
            × (w1.sent ≡ w.sent)
            × (get_elem? (table d w1).entries i ≡ some (record e { sd = sd })))
          × Kept d i w w1)
        (put_entry d i (record e { sd = sd })) _ w
        (Returns.both _ (λ _ w1. Kept d i w w1) (put_entry d i (record e { sd = sd }) w)
          (put_entry-IsWorld d i (record e { sd = sd }) w v at refl refl
            (record { of_device = is.of_device; mac = is.mac; queue = λ _. q }))
          (put_entry-Kept d i (record e { sd = sd }) w))
        (λ _ w1 h.
          Returns.bind_of_eq (Drained cfg d i e w) _ w1
            (flush_frame-value e.hwaddr buf.bytes long opts b.bytes is.mac)
            (Returns.bind_of_eq (Drained cfg d i e w) _ w1
              (load-ok (flushed e.hwaddr buf.bytes) 0 buf.size fit)
              (Returns.weaken (Drained cfg d i (record e { sd = sd }) (after w1))
                (Drained cfg d i e w) _
                (rest (after w1) (sent-IsWorld w1 _ h.0.0) (rw table-sent h.0.2))
                (λ ended w' r. record {
                  ends = r.ends;
                  right = r.right;
                  entry = r.entry;
                  here = r.here;
                  emptied = r.emptied;
                  counted = r.counted;
                  same_flag = r.same_flag;
                  same_addr = r.same_addr;
                  same_hwaddr = r.same_hwaddr;
                  kept =
                      Kept-trans d i w w1 w' h.1
                        (Kept-trans d i w1 (after w1) w' (sent-Kept d i w1 _) r.kept);
                  sent = r.sent ∙ joined w1 h.0.1;
                }))))
    where
      is : IsEntry d e
      is = IsWorld-IsEntry d i w v at

      long : 34 ≤ length buf.bytes
      long = omega (arith, b.least, b.stored)

      fit : 0 + buf.size ≤ length (flushed e.hwaddr buf.bytes)
      fit = omega (arith, b.stored, length-flushed e.hwaddr buf.bytes long opts b.bytes is.mac)

      after : World → World
      after w1 = record w1 { sent = w1.sent ++ (outgoing cfg d e.hwaddr buf ∷ []) }

      joined :
          (w1 : World)
          → w1.sent ≡ w.sent
          → (w1.sent ++ (outgoing cfg d e.hwaddr buf ∷ [])) ++ map (outgoing cfg d e.hwaddr) sd.bufs
            ≡ w.sent ++ map (outgoing cfg d e.hwaddr) e.sd.bufs
      joined w1 same =
          append_assoc w1.sent (outgoing cfg d e.hwaddr buf ∷ [])
            (map (outgoing cfg d e.hwaddr) sd.bufs)
          ∙ ap (λ s. s ++ (outgoing cfg d e.hwaddr buf ∷ map (outgoing cfg d e.hwaddr) sd.bufs))
              same
          ∙ ap (λ bufs. w.sent ++ map (outgoing cfg d e.hwaddr) bufs) (sym first)

  turn :
      (turns : ℕ) (e : Ip2mac) (w : World) (out : Option DataBuf × SendData)
      → Got env e.sd out
      → IsQueue e.sd
      → All HasOptions e.sd.bufs
      → IsWorld w
      → get_elem? (table d w).entries i ≡ some e
      → is_free e.flag ≡ false
      → ((sd : SendData) (w' : World)
          → length sd.bufs < length e.sd.bufs
          → All HasOptions sd.bufs
          → IsWorld w'
          → get_elem? (table d w').entries i ≡ some (record e { sd = sd })
          → Returns
              (Drained cfg d i (record e { sd = sd }) w')
              (buffer_send_one cfg env turns d i w'))
      → Returns
          (Drained cfg d i e w)
          (flush_one cfg env d i e out (buffer_send_one cfg env turns d i) w)
  unfolding flush_one
  turn turns e w (none, sd) (same, inl nil) q opts v at used again = record {
    ends = refl;
    right = v;
    entry = e;
    here = at;
    emptied = nil;
    counted = q.counted ∙ ap (λ bufs. length bufs) nil;
    same_flag = refl;
    same_addr = refl;
    same_hwaddr = refl;
    kept = Kept-refl d i w;
    sent =
        sym (append-nil w.sent)
        ∙ ap (λ bufs. w.sent ++ map (outgoing cfg d e.hwaddr) bufs) (sym nil);
  }
  turn turns e w (none, sd) (same, inr unlocked) q opts v at used again =
      absurd (ground (arith, locks, unlocked))
  turn turns e w (some buf, sd) (first, b, q') q opts v at used again =
      let all : HasOptions buf × All HasOptions sd.bufs = rw first at opts in
      one e buf sd w turns v at used first b q' all.0
        (λ w' v' at'. again sd w' (omega (arith, ap (λ bufs. length bufs) first)) all.1 v' at')

  -- In one turn more than frames wait, `BufferSendOne` ends: it has sent every frame that waited
  -- at the entry, the oldest first, each rewritten with the MAC address of the entry, and the
  -- queue of the entry is empty, its count 0. No other entry and no request has changed, and the
  -- state is right before and after. The entry is in
  -- use, each frame holds its IP options, and the lock of the queue can be taken.
  pub buffer_send_one-Drained :
      (turns : ℕ) (e : Ip2mac) (w : World)
      → length e.sd.bufs < turns
      → All HasOptions e.sd.bufs
      → IsWorld w
      → get_elem? (table d w).entries i ≡ some e
      → is_free e.flag ≡ false
      → Returns (Drained cfg d i e w) (buffer_send_one cfg env turns d i w)
  unfolding buffer_send_one
  buffer_send_one-Drained zero e w enough opts v at used = absurd (omega arith)
  buffer_send_one-Drained (suc turns) e w enough opts v at used =
      let q = (IsWorld-IsEntry d i w v at).queue used in
      Returns.step (Drained cfg d i e w) (entry_at d i) _ w (entry_at-ok d i w at) (
        turn turns e w (get_send_data env e.sd) (get_send_data-Got env e.sd q) q opts v at used
          (λ sd w' less opts' v' at'.
            buffer_send_one-Drained turns (record e { sd = sd }) w' (omega arith) opts' v' at'
              used))

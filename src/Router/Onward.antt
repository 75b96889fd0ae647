-- ===== src/Router/Onward.antt =====
-- `AnalyzePacket` once a frame has passed its checks: sent on, or queued.
use c_router.Base.{
  get_elem?, some, ℕ, ◌≤◌, ◌≡◌, ◌⊎◌, refl, ap, ◌∙◌, List, [], ◌∷◌, ◌++◌, Bool, true, false,
  Bool-cases, inl, inr, not, ◌||◌, ◌==◌, none, ℤ, pos, minus_one, pos_part, arith, length, IsBytes,
  load, load-ok, slice,
}
use c_router.Device.{table, DeviceNo, Config, Ip2mac, World, Env}
use c_router.Device.Cmd.{pure, ◌>>=◌, ◌>>◌, lift, write}
use c_router.Device.Returns.{Returns}
use c_router.Device.Returns
use c_router.SendBuf.Queue.{IsFrame}
use c_router.Ip2Mac.{is_free, is_ok, is_ng, ip2mac, entry_at}
use c_router.State.{IsConfig, IsWorld, sent-IsWorld, table-sent}
use c_router.State.Resolve.{asked, Resolved, entry_at-ok, ip2mac-Resolved}
use c_router.Forward.{rewrite}
use c_router.Forward.Result.{Rewritten, rewrite-Rewritten}
use c_router.Router.{queue_frame, Verdict, forward}
use c_router.Router.Entries.{queued, queue_frame-IsWorld, IsWorld-IsEntry}

-- The frame went out of the device, rewritten with the MAC address of the entry of the target, which is known.
pub record Passed (cfg : Config) (d : DeviceNo) (target : ℕ) (bytes : List ℕ) (size : ℕ)
    (option : List ℕ) (option_len : ℤ) (w : World) (v : Verdict) (w' : World) : Type 0 where
  pub index : ℕ
  pub entry : Ip2mac
  pub here : get_elem? (table d w').entries index ≡ some entry
  pub for_target : entry.addr ≡ target
  pub known : is_ok entry.flag ≡ true
  pub idle : entry.sd.dno ≡ 0
  pub out : List ℕ
  pub frame : Rewritten bytes entry.hwaddr (cfg.device d).hwaddr option option_len out
  pub code : v ≡ (pos 0, out)
  pub sent : w'.sent ≡ w.sent ++ (((cfg.device d).soc, slice out 0 size) ∷ [])

-- The entry of the target is not known, or has frames that wait: the frame was given to
-- `AppendSendData` there. An ARP request went out if the MAC address was not known.
pub record Waits (cfg : Config) (env : Env) (d : DeviceNo) (target : ℕ) (bytes : List ℕ) (size : ℕ)
    (w : World) (v : Verdict) (w' : World) : Type 0 where
  pub index : ℕ
  pub entry : Ip2mac
  pub here : get_elem? (table d w').entries index ≡ some (queued env entry bytes size)
  pub for_target : entry.addr ≡ target
  pub in_use : is_free entry.flag ≡ false
  pub why : (is_ng entry.flag || not (entry.sd.dno == 0)) ≡ true
  pub code : v ≡ (minus_one, bytes)
  pub sent : w'.sent ≡ asked cfg d target entry w.sent

abbrev pub Forwarded :
    Config → Env → DeviceNo → ℕ → List ℕ → ℕ → List ℕ → ℤ → World → Verdict → World → Type 0
Forwarded cfg env d target bytes size option option_len w v w' =
    IsWorld w'
    × (Passed cfg d target bytes size option option_len w v w'
        ⊎ Waits cfg env d target bytes size w v w')

not_busy : (e : Ip2mac) → (is_ng e.flag || not (e.sd.dno == 0)) ≡ false → e.sd.dno ≡ 0
not_busy e h = ground arith

known :
    (e : Ip2mac) (busy : Bool)
    → is_free e.flag ≡ false
    → (is_ng e.flag || busy) ≡ false
    → is_ok e.flag ≡ true
known e busy used h = ground arith

module _ (cfg : Config) (env : Env) (d : DeviceNo) (target : ℕ) (bytes : List ℕ) (size : ℕ)
    (option : List ℕ) (option_len : ℤ) (w : World) (c : IsConfig cfg) (f : IsFrame bytes size)
    (opt_long : pos_part option_len ≤ length option) (ho : IsBytes option) where
  abbrev Goal : Verdict → World → Type 0
  Goal = Forwarded cfg env d target bytes size option option_len w

  module _ (i : ℕ) (w' : World) (r : Resolved cfg env d target none w i w') where
    abbrev e : Ip2mac
    e = r.holds.entry

    wait :
        (is_ng e.flag || not (e.sd.dno == 0)) ≡ true
        → Returns Goal ((queue_frame env d i e bytes size >> pure (minus_one, bytes)) w')
    wait why =
        Returns.bind Goal
          (λ _ w''.
            IsWorld w''
            × (w''.sent ≡ w'.sent)
            × (get_elem? (table d w'').entries i ≡ some (queued env e bytes size)))
          (queue_frame env d i e bytes size) _ w'
          (queue_frame-IsWorld env d i e bytes size w' r.right r.holds.here r.holds.in_use f)
          (λ _ w'' h. (
            h.0,
            inr (record {
              index = i;
              entry = e;
              here = h.2;
              for_target = r.holds.for_addr;
              in_use = r.holds.in_use;
              why = why;
              code = refl;
              sent = h.1 ∙ r.sent;
            }),
          ))

    pass :
        is_ok e.flag ≡ true
        → e.sd.dno ≡ 0
        → Returns Goal (
            (do
              bytes' ← lift (rewrite bytes e.hwaddr (cfg.device d).hwaddr option option_len)
              frame ← lift (load bytes' 0 size)
              write (cfg.device d).soc frame
              pure (pos 0, bytes'))
              w')
    unfolding write
    pass ok_flag idle =
        let is = IsWorld-IsEntry d i w' r.right r.holds.here in
        let long : 34 ≤ length bytes = omega (arith, f.least, f.present) in
        let (out, returns, frame) =
          rewrite-Rewritten bytes e.hwaddr (cfg.device d).hwaddr option option_len long f.octets
            is.mac (c.macs d) opt_long ho in
        let sent : w'.sent ≡ w.sent = rw ok_flag at r.sent in
        Returns.bind_of_eq Goal _ w' returns (
          Returns.bind_of_eq Goal _ w'
            (load-ok out 0 size (omega (arith, frame.same_length, f.present)))
            (
              sent-IsWorld w' _ r.right,
              inl (record {
                index = i;
                entry = e;
                here = rw table-sent r.holds.here;
                for_target = r.holds.for_addr;
                known = ok_flag;
                idle = idle;
                out = out;
                frame = frame;
                code = refl;
                sent = ap (λ s. s ++ (((cfg.device d).soc, slice out 0 size) ∷ [])) sent;
              }),
            ))

  -- From a right state, a frame of 34 to 2048 bytes towards a target goes out of a device at once,
  -- rewritten with the MAC address of the entry of the target, where that is known and no frame
  -- waits; else the frame is given to `AppendSendData` at the entry, and an ARP request goes out
  -- if the MAC address is not known. Nothing is read or written out of range, and the state stays
  -- right. The devices have MAC addresses of 6 bytes, the options are in memory, and a table can
  -- be allocated.
  pub forward-Forwarded :
      IsWorld w
      → env.alloc_table ≡ true
      → Returns
          (Forwarded cfg env d target bytes size option option_len w)
          (forward cfg env d target bytes size option option_len w)
  unfolding forward
  forward-Forwarded v alloc =
      Returns.bind Goal (Resolved cfg env d target none w) (ip2mac cfg env d target none) _ w
        (ip2mac-Resolved cfg env d target none w v tt alloc)
        (λ i w' r.
          Returns.step Goal (entry_at d i) _ w' (entry_at-ok d i w' r.holds.here)
            (elim (Bool-cases (is_ng r.holds.entry.flag || not (r.holds.entry.sd.dno == 0))) [
              | inl waits ↦ rw waits (wait i w' r waits)
              | inr goes ↦ rw goes (
                  pass i w' r (known r.holds.entry _ r.holds.in_use goes)
                    (not_busy r.holds.entry goes))
            ]))

-- ===== src/Flush/Waited.antt =====
-- A frame that `AnalyzePacket` left waiting, until it goes out.
use c_router.Base.{
  ℕ, ◌+◌, ◌≤◌, ◌<◌, ◌≡◌, ◌⊎◌, refl, sym, ap, subst, ◌∙◌, List, [], ◌∷◌, ◌++◌, map, Bool, true,
  arith, length, length-append, All, All-append, slice,
}
use c_router.Device.{DeviceNo, Config, DataBuf, World, Env}
use c_router.Device.Cmd.{◌>>◌}
use c_router.Device.Returns.{Returns}
use c_router.Device.Returns
use c_router.SendBuf.{is_nonempty}
use c_router.SendBuf.Queue.{ready, copy}
use c_router.Frame.{ethertype_arp}
use c_router.State.{IsWorld}
use c_router.Router.{Verdict, analyze_packet}
use c_router.Router.Fields.{IsBuffer, net16_at, addr_at}
use c_router.Router.Entries.{queued}
use c_router.Router.Onward.{Waits}
use c_router.Router.Packet.{IsFor}
use c_router.Flush.{buffer_send}
use c_router.Flush.Drained.{HasOptions, outgoing}
use c_router.Flush.Delivered.{Delivered, learned-Delivered}

is_nonempty-append : (bufs : List DataBuf) (b : DataBuf) → is_nonempty (bufs ++ (b ∷ [])) ≡ true
is_nonempty-append [] b = refl
is_nonempty-append (x ∷ bufs) b = refl

map-append :
    (f : DataBuf → ℕ × List ℕ) (xs : List DataBuf) (b : DataBuf)
    → map f (xs ++ (b ∷ [])) ≡ map f xs ++ (f b ∷ [])
map-append f [] b = refl
map-append f (x ∷ xs) b = ap (λ (t : List (ℕ × List ℕ)). f x ∷ t) (map-append f xs b)

bufs-appended :
    (env : Env) (bytes : List ℕ) (size : ℕ) (w : World) (cfg : Config) (d : DeviceNo) (target : ℕ)
    (v : Verdict) (w1 : World) (p : Waits cfg env d target bytes size w v w1)
    → ready env p.entry.sd ≡ true
    → (queued env p.entry bytes size).sd.bufs ≡ p.entry.sd.bufs ++ (copy env bytes size ∷ [])
bufs-appended env bytes size w cfg d target v w1 p room = rw room refl

-- `BufferSend` ended, and sent these frames.
pub record Sent (frames : List (ℕ × List ℕ)) (w : World) (ended : Bool) (w' : World) : Type 0 where
  pub ends : ended ≡ true
  pub right : IsWorld w'
  pub requests : w'.send_req ≡ []
  pub sent : w'.sent ≡ w.sent ++ frames

module _ (cfg : Config) (env env1 env' : Env) (d : DeviceNo) (target : ℕ) (bytes : List ℕ)
    (size : ℕ) (w w1 : World) (v : Verdict) (p : Waits cfg env d target bytes size w v w1)
    (reply : List ℕ) (reply_size turns : ℕ) (b : IsBuffer reply) where
  -- A frame that waits goes out. `AnalyzePacket` has left a frame waiting for a target behind
  -- others, where `AppendSendData` takes it, and no request is there. Then an ARP request or
  -- reply of at least 42 bytes for the device comes from the target. After `AnalyzePacket` on
  -- that, and the inner loop of `BufferSend`, those that waited have gone out, and last this
  -- frame, all rewritten with the target's MAC address; nothing else is sent, no request is left,
  -- and the state is right. It is right before, allocations succeed, the locks can be taken, the
  -- frames hold their IP options, and they are fewer than the turns of `BufferSendOne`.
  pub waits-Sent :
      ready env p.entry.sd ≡ true
      → IsFor cfg d reply reply_size ethertype_arp
      → 42 ≤ reply_size
      → (net16_at reply 20 ≡ 1) ⊎ (net16_at reply 20 ≡ 2)
      → addr_at reply 28 ≡ target
      → All HasOptions p.entry.sd.bufs
      → HasOptions (copy env bytes size)
      → 1 + length p.entry.sd.bufs < turns
      → w1.send_req ≡ []
      → IsWorld w1
      → (env1.alloc_table ≡ true) × ((env1.alloc_req ≡ true) × (env1.lock_req ≡ true))
      → (env'.lock_sd ≡ true) × (env'.lock_req ≡ true)
      → Returns
          (Sent
            (map (outgoing cfg d (slice reply 22 6)) p.entry.sd.bufs
              ++ (outgoing cfg d (slice reply 22 6) (copy env bytes size) ∷ []))
            w1)
          ((analyze_packet cfg env1 d reply reply_size >> buffer_send cfg env' turns 2) w1)
  waits-Sent room f long op from options option few quiet right works locks =
      let e = queued env p.entry bytes size in
      let bufs = bufs-appended env bytes size w cfg d target v w1 p room in
      let one = copy env bytes size in
      let out = outgoing cfg d (slice reply 22 6) in
      Returns.weaken (Delivered cfg d p.index e (slice reply 22 6) w1) (Sent _ w1) _
        (learned-Delivered cfg env1 env' d reply reply_size turns p.index e w1 b f long op
          (p.for_target ∙ sym from) p.here p.in_use
          (ap is_nonempty bufs ∙ is_nonempty-append p.entry.sd.bufs one)
          (subst (All HasOptions) (sym bufs)
            (All-append HasOptions p.entry.sd.bufs (one ∷ []) options (option, tt)))
          (omega (
            arith,
            ap (λ (x : List DataBuf). length x) bufs,
            length-append p.entry.sd.bufs (one ∷ []),
            few,
          ))
          quiet right works locks)
        (λ ended w' h. record {
          ends = h.ends;
          right = h.right;
          requests = h.requests;
          sent =
              h.sent
              ∙ ap (λ (x : List DataBuf). w1.sent ++ map out x) bufs
              ∙ ap (λ (x : List (ℕ × List ℕ)). w1.sent ++ x) (map-append out p.entry.sd.bufs one);
        })

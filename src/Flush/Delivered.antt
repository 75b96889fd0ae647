-- ===== src/Flush/Delivered.antt =====
-- From the ARP reply to the frames that waited for it: `AnalyzePacket`, then `BufferSend`.
use c_router.Base.{
  ℕ, ◌≤◌, ◌<◌, ◌≡◌, ◌⊎◌, refl, sym, ap, ap₂, subst, ◌∙◌, List, [], ◌∷◌, ◌++◌, map, append-nil, Bool,
  true, false, Option, some, ◌==◌, ◌||◌, pos, ok, arith, length, length-slice, get_elem?, All,
  slice,
}
use c_router.Device.{DeviceNo, Config, SendData, Ip2mac, World, Env, table}
use c_router.Device.Cmd.{pure, ◌>>◌}
use c_router.Device.Returns.{Returns, then-ok}
use c_router.Device.Returns
use c_router.SendBuf.{is_nonempty}
use c_router.SendReq.Pending
use c_router.Frame.{ethertype_arp}
use c_router.Ip2Mac.{is_free, ip2mac, ip2mac_search}
use c_router.Ip2Mac.Hit.{taught, sd-taught, woken_world, ip2mac-taught}
use c_router.Ip2Mac.Scan.{distinct}
use c_router.Ip2Mac.Entry.{IsMac}
use c_router.State.{IsWorld, Holds, sent_updated, ip2mac_search-IsWorld}
use c_router.Router.{Verdict, analyze_packet}
use c_router.Router.Fields.{IsBuffer, net16_at, addr_at, slice-IsBytes}
use c_router.Router.Packet.{IsFor}
use c_router.Router.Verdicts.{arp_frame, analyze_arp-value}
use c_router.Flush.{buffer_send}
use c_router.Flush.Drained.{HasOptions, outgoing}
use c_router.Flush.Served.{Ready, frames_at, waiting, Emptied, Served, buffer_send-Served}

-- The loop ended, no request is left, nothing waits at the entry, and what waited there has gone
-- out to the MAC address.
pub record Delivered (cfg : Config) (d : DeviceNo) (i : ℕ) (e : Ip2mac) (mac : List ℕ) (w : World)
    (ended : Bool) (w' : World) : Type 0 where
  pub ends : ended ≡ true
  pub right : IsWorld w'
  pub requests : w'.send_req ≡ []
  pub emptied : Emptied w' (d, i)
  pub sent : w'.sent ≡ w.sent ++ map (outgoing cfg d mac) e.sd.bufs

module _ (cfg : Config) (env : Env) (d : DeviceNo) (i : ℕ) (e : Ip2mac) (mac : List ℕ) (w : World)
    (es : List Ip2mac) (waits : is_nonempty e.sd.bufs ≡ true) (quiet : w.send_req ≡ [])
    (locks : env.lock_req ≡ true) (alloc : env.alloc_req ≡ true) where
  abbrev w1 : World
  w1 = woken_world env d i e es w

  one_request : w1.send_req ≡ (d, i) ∷ []
  one_request = rw waits (Pending.append_send_req_data_first env d i w.send_req locks alloc quiet)

  sent_before : w1.sent ≡ w.sent
  sent_before = sent_updated d (record { entries = es; size = (table d w).size }) w1.send_req w

  -- The request is the only one, and is served.
  served :
      (turns : ℕ) (env' : Env)
      → env'.lock_sd ≡ true
      → env'.lock_req ≡ true
      → IsWorld w1
      → get_elem? (table d w1).entries i ≡ some (taught env mac e)
      → All HasOptions e.sd.bufs
      → length e.sd.bufs < turns
      → Returns (Delivered cfg d i e mac w) (buffer_send cfg env' turns 2 w1)
  served turns env' locks_sd locks_req v here options few =
      Returns.weaken (Served cfg w1.send_req w1) (Delivered cfg d i e mac w) _
        (buffer_send-Served cfg env' turns locks_sd locks_req 2 w1 (rw one_request (omega arith)) v
          (subst (All (Ready turns w1)) (sym one_request) (ready, tt)))
        (λ ended w' s.
          let emptied : Emptied w' (d, i) × Unit = subst (All (Emptied w')) one_request s.emptied in
          record {
            ends = s.ends;
            right = s.right;
            requests = s.requests;
            emptied = emptied.0;
            sent =
                s.sent
                ∙ ap₂ (λ (x y : List (ℕ × List ℕ)). x ++ y) sent_before
                    (ap (waiting cfg w1) one_request ∙ waits_there);
          })
    where
      ready : Ready turns w1 (d, i)
      ready = record {
        entry = taught env mac e;
        here = here;
        used = refl;
        options =
            subst (λ (x : SendData). All HasOptions x.bufs) (sym (sd-taught env mac e)) options;
        few = subst (λ (x : SendData). length x.bufs < turns) (sym (sd-taught env mac e)) few;
      }

      waits_there : waiting cfg w1 ((d, i) ∷ []) ≡ map (outgoing cfg d mac) e.sd.bufs
      waits_there =
          ap (λ (x : Option Ip2mac). frames_at cfg d x ++ []) here
          ∙ append-nil (map (outgoing cfg d mac) (taught env mac e).sd.bufs)
          ∙ ap (λ (x : SendData). map (outgoing cfg d mac) x.bufs) (sd-taught env mac e)

module _ (cfg : Config) (env env' : Env) (d : DeviceNo) (bytes : List ℕ) (size turns i : ℕ)
    (e : Ip2mac) (w : World) (b : IsBuffer bytes) where
  abbrev sha : List ℕ
  sha = slice bytes 22 6

  sha-IsMac : IsMac sha
  sha-IsMac = (length-slice bytes 22 6 (omega (arith, b.size)), slice-IsBytes bytes b 22 6)

  -- `AnalyzePacket` with the ARP frame.
  learned :
      IsFor cfg d bytes size ethertype_arp
      → 42 ≤ size
      → (net16_at bytes 20 ≡ 1) ⊎ (net16_at bytes 20 ≡ 2)
      → e.addr ≡ addr_at bytes 28
      → distinct (table d w).entries ≡ true
      → get_elem? (table d w).entries i ≡ some e
      → is_free e.flag ≡ false
      → (es : List Ip2mac) × ((ip2mac_search env d e.addr (some sha) w
            ≡ ok (i, woken_world env d i e es w))
          × ((analyze_packet cfg env d bytes size w
                ≡ ok ((pos 0, bytes), woken_world env d i e es w))
              × (get_elem? (table d (woken_world env d i e es w)).entries i
                  ≡ some (taught env sha e))))
  learned f long op for_it u at used =
      let (es, (is, (found, here))) = ip2mac-taught cfg env d sha i w e u at used in
      let asks : (net16_at bytes 20 == 1 || net16_at bytes 20 == 2) ≡ true = ground arith in
      let looks_up : ip2mac cfg env d (addr_at bytes 28) (some sha) w
          ≡ ok (i, woken_world env d i e es w) =
        ap (λ (a : ℕ). ip2mac cfg env d a (some sha) w) (sym for_it) ∙ found in
      let verdict : Verdict = (pos 0, bytes) in
      (
        es,
        (
          is,
          (
            arp_frame cfg env d bytes size w b f
                ∙ rw (analyze_arp-value cfg env d bytes size w b long, asks)
                    (then-ok (ip2mac cfg env d (addr_at bytes 28) (some sha)) (pure verdict) w
                      looks_up),
            here,
          ),
        ),
      )

  -- The frames that wait for a MAC address go out once it is known. An ARP request or reply of at
  -- least 42 bytes for the device comes from the address of an entry in use at which frames wait;
  -- no request is there yet. Then `AnalyzePacket`, and after it the inner loop of `BufferSend`,
  -- return with no request left, the queue of the entry empty, and every frame that waited sent,
  -- the oldest first, rewritten with the sender's MAC address; nothing else is sent, and the state
  -- is right. The state is right before, allocations succeed, the locks can be taken, the frames
  -- hold their IP options, and they are fewer than the turns of `BufferSendOne`.
  pub learned-Delivered :
      IsFor cfg d bytes size ethertype_arp
      → 42 ≤ size
      → (net16_at bytes 20 ≡ 1) ⊎ (net16_at bytes 20 ≡ 2)
      → e.addr ≡ addr_at bytes 28
      → get_elem? (table d w).entries i ≡ some e
      → is_free e.flag ≡ false
      → is_nonempty e.sd.bufs ≡ true
      → All HasOptions e.sd.bufs
      → length e.sd.bufs < turns
      → w.send_req ≡ []
      → IsWorld w
      → (env.alloc_table ≡ true) × ((env.alloc_req ≡ true) × (env.lock_req ≡ true))
      → (env'.lock_sd ≡ true) × (env'.lock_req ≡ true)
      → Returns
          (Delivered cfg d i e sha w)
          ((analyze_packet cfg env d bytes size >> buffer_send cfg env' turns 2) w)
  learned-Delivered f long op for_it at used waits options few quiet v works locks =
      let (es, (is, (taken, here))) = learned f long op for_it ((v.tables d).unique) at used in
      let after = woken_world env d i e es w in
      let right : IsWorld after × Holds env d e.addr (some sha) i after × (after.sent ≡ w.sent) =
        rw is at (ip2mac_search-IsWorld env d e.addr (some sha) w v sha-IsMac works.0) in
      subst (Returns (Delivered cfg d i e sha w))
        (sym (then-ok (analyze_packet cfg env d bytes size) (buffer_send cfg env' turns 2) w taken))
        (served cfg env d i e sha w es waits quiet works.1.1 works.1.0 turns env' locks.0 locks.1
          right.0 here options few)

-- ===== src/State/Resolve.antt =====
-- `Ip2Mac`: the search, and the ARP request where the MAC address is not known.
use c_router.Base.{
  ℕ, ◌≡◌, List, [], ◌∷◌, ◌++◌, true, Bool-cases, inl, inr, Option, some, if◌then◌else◌, ok,
  get_elem?,
}
use c_router.Device.{DeviceNo, Config, Ip2mac, World, Env, table}
use c_router.Device.Cmd.{pure, ◌>>=◌, ◌>>◌, write}
use c_router.Device.Returns.{Returns}
use c_router.Device.Returns
use c_router.Arp.{arp_frame, send_arp_request_b}
use c_router.Ip2Mac.{is_ok, ip2mac_search, ip2mac, entry_at, bcast}
use c_router.Ip2Mac.Entry.{IsMac?}
use c_router.State.{IsWorld, Holds, sent-IsWorld, table-sent, ip2mac_search-IsWorld}

pub entry_at-ok :
    (d : DeviceNo) (i : ℕ) (w : World) {e : Ip2mac}
    → get_elem? (table d w).entries i ≡ some e
    → entry_at d i w ≡ ok (e, w)
unfolding entry_at
entry_at-ok d i w h = rw (h, entry_at)

-- The frames after `Ip2Mac`: those before, and the ARP request for an entry not in `FLAG_OK`.
abbrev pub asked : Config → DeviceNo → ℕ → Ip2mac → List (ℕ × List ℕ) → List (ℕ × List ℕ)
asked cfg d addr e sent =
    let dev = cfg.device d in
    if is_ok e.flag
    then sent
    else sent ++ ((dev.soc, arp_frame addr bcast dev.addr dev.hwaddr) ∷ [])

-- What `Ip2Mac` leaves: a right state, the entry that it returns, and what it sent.
pub record Resolved (cfg : Config) (env : Env) (d : DeviceNo) (addr : ℕ) (hwaddr : Option (List ℕ))
    (w : World) (i : ℕ) (w' : World) : Type 0 where
  pub right : IsWorld w'
  pub holds : Holds env d addr hwaddr i w'
  pub sent : w'.sent ≡ asked cfg d addr holds.entry w.sent

module _ (cfg : Config) (env : Env) (d : DeviceNo) (addr : ℕ) (hwaddr : Option (List ℕ))
    (w : World) where
  answer :
      (i : ℕ) (w' : World) (v : IsWorld w') (h : Holds env d addr hwaddr i w')
      → w'.sent ≡ w.sent
      → Returns (Resolved cfg env d addr hwaddr w) (
          (entry_at d i >>= λ e.
          if is_ok e.flag
          then pure i
          else (send_arp_request_b
                (cfg.device d).soc
                addr
                bcast
                (cfg.device d).addr
                (cfg.device d).hwaddr
              >> pure i))
            w')
  unfolding send_arp_request_b write
  answer i w' v h same =
      Returns.step (Resolved cfg env d addr hwaddr w) (entry_at d i) _ w'
        (entry_at-ok d i w' h.here)
        (elim (Bool-cases (is_ok h.entry.flag)) [
          | inl known ↦ rw known (record { right = v; holds = h; sent = rw known same })
          | inr unknown ↦ rw unknown (record {
            right = sent-IsWorld w' _ v;
            holds = record {
              entry = h.entry;
              here = rw table-sent h.here;
              for_addr = h.for_addr;
              in_use = h.in_use;
              learned = h.learned;
            };
            sent = rw (unknown, same);
          })
        ])

  -- From a right state, with a MAC address of 6 bytes or none, and where a table can be allocated,
  -- `Ip2Mac` leaves a right state and returns an entry in use for the address. It sends one ARP
  -- request out of the device if the entry is not in `FLAG_OK`, and else nothing.
  pub ip2mac-Resolved :
      IsWorld w
      → IsMac? hwaddr
      → env.alloc_table ≡ true
      → Returns (Resolved cfg env d addr hwaddr w) (ip2mac cfg env d addr hwaddr w)
  unfolding ip2mac
  ip2mac-Resolved v m alloc =
      Returns.bind (Resolved cfg env d addr hwaddr w)
        (λ i w'. IsWorld w' × Holds env d addr hwaddr i w' × (w'.sent ≡ w.sent))
        (ip2mac_search env d addr hwaddr) _ w (ip2mac_search-IsWorld env d addr hwaddr w v m alloc)
        (λ i w' h. answer i w' h.0 h.1 h.2)

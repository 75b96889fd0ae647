-- ===== src/Ip2Mac/Adds.antt =====
-- `Ip2Mac` asks the sending thread for one entry at most.
use c_router.Base.{
  ℕ, ◌+◌, ◌++◌, [], ◌∷◌, List, true, false, Option, none, some, Outcome, ok, fault, length, arith,
  get_elem?,
}
use c_router.Device.{DeviceNo, dev0, dev1, Config, Ip2mac, Ip2macs, World, Env, table, with_table}
use c_router.Device.Cmd.{pure, ◌>>◌}
use c_router.Device.Adds.{AtMost, Adds, Adds-pure, Adds-write, Adds-if, Adds-bind, Adds-first}
use c_router.SendReq.Pending.{length-append_send_req_data}
use c_router.Arp.{send_arp_request_b}
use c_router.Ip2Mac.{
  is_ok, Scanned, found, missed, request_sending, grown, new_entry, settle, scan, ip2mac_search,
  ip2mac, entry_at,
}

with_table-AtMost :
    {A : Type 0} (a : A) (n : ℕ) (d : DeviceNo) (t : Ip2macs) (w : World)
    → AtMost {A = A} (n + length w.send_req) (ok (a, with_table d t w))
with_table-AtMost a n dev0 t w = omega arith
with_table-AtMost a n dev1 t w = omega arith

request_sending-AtMost :
    (env : Env) (d : DeviceNo) (i : ℕ) (e : DeviceNo) (t : Ip2macs) (w : World)
    → AtMost (1 + length w.send_req) ((request_sending env d i >> pure i) (with_table e t w))
unfolding request_sending
request_sending-AtMost env d i dev0 t w = length-append_send_req_data env d i w.send_req
request_sending-AtMost env d i dev1 t w = length-append_send_req_data env d i w.send_req

settle-Adds :
    (env : Env) (d : DeviceNo) (addr : ℕ) (hwaddr : Option (List ℕ)) (size : ℕ) (s : Scanned)
    → Adds 1 (settle env d addr hwaddr size s)
unfolding settle
settle-Adds env d addr hwaddr size (found true i es) w = request_sending-AtMost env d i d _ w
settle-Adds env d addr hwaddr size (found false i es) w = with_table-AtMost i 1 d _ w
settle-Adds env d addr hwaddr size (missed (some k) es) w = with_table-AtMost k 1 d _ w
settle-Adds env d addr hwaddr size (missed none es) w = go (grown env (length es) size)
  where
    go :
        (o : Outcome ℕ)
        → AtMost {A = ℕ} (1 + length w.send_req) (elim o [
          | fault ↦ fault
          | ok size' ↦
              let es' = es ++ (new_entry env d addr hwaddr ∷ []) in
              ok (length es, with_table d (record { entries = es'; size = size' }) w)
        ])
    go fault = tt
    go (ok size') = with_table-AtMost (length es) 1 d _ w

ip2mac_search-Adds :
    (env : Env) (d : DeviceNo) (addr : ℕ) (hwaddr : Option (List ℕ))
    → Adds 1 (ip2mac_search env d addr hwaddr)
unfolding ip2mac_search
ip2mac_search-Adds env d addr hwaddr w =
    settle-Adds env d addr hwaddr (table d w).size (scan env addr hwaddr 0 none (table d w).entries)
      w

pub entry_at-Adds : (d : DeviceNo) (i : ℕ) → Adds 0 (entry_at d i)
unfolding entry_at
entry_at-Adds d i w = go (get_elem? (table d w).entries i)
  where
    go :
        (o : Option Ip2mac)
        → AtMost {A = Ip2mac} (0 + length w.send_req) (elim o [ none ↦ fault | some e ↦ ok (e, w) ])
    go none = tt
    go (some e) = omega arith

pub ip2mac-Adds :
    (cfg : Config) (env : Env) (d : DeviceNo) (addr : ℕ) (hwaddr : Option (List ℕ))
    → Adds 1 (ip2mac cfg env d addr hwaddr)
unfolding ip2mac send_arp_request_b
ip2mac-Adds cfg env d addr hwaddr =
    Adds-first 1 (ip2mac_search env d addr hwaddr) _ (ip2mac_search-Adds env d addr hwaddr) (λ i.
      Adds-bind 0 (entry_at d i) _ (entry_at-Adds d i) (λ e.
        Adds-if 0 (is_ok e.flag) _ _ (Adds-pure 0 i)
          (Adds-bind 0 _ _ (Adds-write 0 _ _) (λ _. Adds-pure 0 i))))

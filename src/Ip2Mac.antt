-- ===== src/Ip2Mac.antt =====
-- router/ip2mac.c: the table of IP and MAC addresses, `Ip2MacSearch` and `Ip2Mac`.
pub mod Scan
pub mod Cache
pub mod Table
pub mod Entry
pub mod Search
pub mod Adds
pub mod Hit
use c_router.Base.{
  ℕ, ◌+◌, ◌-◌, ◌≤◌, ◌++◌, List, [], ◌∷◌, Bool, true, false, ◌&&◌, ◌||◌, Option, none, some, ltb,
  leb, ◌==◌, if◌then◌else◌, not, Outcome, ok, fault, length, set, get_elem?, replicate,
}
use c_router.Device.{
  DeviceNo, Device, Config, Flag, flag_free, flag_ok, flag_ng, Ip2mac, Ip2macs, World, Env, table,
  with_table,
}
use c_router.Device.Cmd.{M, pure, ◌>>=◌, ◌>>◌}
use c_router.SendBuf.{is_nonempty, empty, free_send_data}
use c_router.SendReq.{append_send_req_data}
use c_router.Arp.{send_arp_request_b}

-- `IP2MAC_TIMEOUT_SEC`, `IP2MAC_NG_TIMEOUT_SEC`
abbrev pub timeout_sec : ℕ
timeout_sec = 60

abbrev pub ng_timeout_sec : ℕ
ng_timeout_sec = 1

abbrev pub is_free : Flag → Bool
is_free flag_free = true
is_free f = false

abbrev pub is_ok : Flag → Bool
is_ok flag_ok = true
is_ok f = false

abbrev pub is_ng : Flag → Bool
is_ng flag_ng = true
is_ng f = false

-- The test for an entry that is too old. `now - lastTime` is signed in C, and below 0 it is not
-- greater than the limit, as 0 is not.
pub expired : ℕ → Ip2mac → Bool
expired now e =
    (is_ok e.flag && ltb timeout_sec (now - e.last_time))
    || (is_ng e.flag && ltb ng_timeout_sec (now - e.last_time))

-- `FreeSendData(ip2mac)` and `flag = FLAG_FREE`.
pub release : Env → Ip2mac → Ip2mac
release env e = record e { flag = flag_free; sd = (free_send_data env e.sd).1 }

-- `lastTime = now` at an entry in `FLAG_OK`.
abbrev pub touch : ℕ → Ip2mac → Ip2mac
touch now e = if is_ok e.flag then record e { last_time = now } else e

-- What one round of the loop makes of its entry: it is free, it stays, it is freed now, or it is
-- returned, with the test that asks for `AppendSendReqData`.
pub data Visit : Type 0 where
  vacant kept : Visit
  freed : Ip2mac → Visit
  hit : Bool → Ip2mac → Visit

-- An entry of the address, once touched.
pub visit_match : Env → Option (List ℕ) → Ip2mac → Visit
visit_match env (some hwaddr) e =
    hit (is_nonempty e.sd.bufs) (record e { hwaddr = hwaddr; flag = flag_ok })
visit_match env none e = if expired env.now e then freed (release env e) else hit false e

pub visit : Env → ℕ → Option (List ℕ) → Ip2mac → Visit
visit env addr hwaddr e =
    if is_free e.flag
    then vacant
    else if e.addr == addr
    then visit_match env hwaddr (touch env.now e)
    else if expired env.now e
    then freed (release env e)
    else kept

-- What the loop ends with: an entry to return, or `freeNo` (`none` for -1); and the entries.
pub data Scanned : Type 0 where
  found : Bool → ℕ → List Ip2mac → Scanned
  missed : Option ℕ → List Ip2mac → Scanned

abbrev pub keep : Ip2mac → Scanned → Scanned
keep e (found wake i es) = found wake i (e ∷ es)
keep e (missed free es) = missed free (e ∷ es)

-- `if (freeNo == -1) { freeNo = i; }`
abbrev pub first_free : Option ℕ → ℕ → Option ℕ
first_free none i = some i
first_free (some k) i = some k

-- The rest of the round at index `i`; `more` goes on with the loop from a `freeNo`.
abbrev pub advance : Visit → Ip2mac → ℕ → Option ℕ → List Ip2mac → (Option ℕ → Scanned) → Scanned
advance vacant e i free es more = keep e (more (first_free free i))
advance kept e i free es more = keep e (more free)
advance (freed e') e i free es more = keep e' (more (first_free free i))
advance (hit wake e') e i free es more = found wake i (e' ∷ es)

-- The loop from index `i` on, over the entries that are left.
pub scan : Env → ℕ → Option (List ℕ) → ℕ → Option ℕ → List Ip2mac → Scanned
scan env addr hwaddr i free [] = missed free []
scan env addr hwaddr i free (e ∷ es) =
    advance (visit env addr hwaddr e) e i free es (λ free'. scan env addr hwaddr (i + 1) free' es)

-- The entry that is written in the end.
pub new_entry : Env → DeviceNo → ℕ → Option (List ℕ) → Ip2mac
new_entry env d addr none = record {
  flag = flag_ng;
  device_no = d;
  addr = addr;
  hwaddr = replicate 6 0;
  last_time = env.now;
  sd = empty;
}
new_entry env d addr (some hwaddr) = record {
  flag = flag_ok;
  device_no = d;
  addr = addr;
  hwaddr = hwaddr;
  last_time = env.now;
  sd = empty;
}

-- `size` after `malloc` or `realloc`. A `NULL` is written through at once.
pub grown : Env → ℕ → ℕ → Outcome ℕ
grown env used size =
    if leb size used
    then (if env.alloc_table then ok (if size == 0 then 1024 else size + 1024) else fault)
    else ok size

-- `AppendSendReqData(deviceNo, i)`, its return code unused.
pub request_sending : Env → DeviceNo → ℕ → M (Unit {0})
request_sending env d i w =
    ok (tt, record w { send_req = (append_send_req_data env d i w.send_req).1 })

-- What follows the loop. The result is the index of the entry that is returned.
pub settle : Env → DeviceNo → ℕ → Option (List ℕ) → ℕ → Scanned → M ℕ
settle env d addr hwaddr size (found wake i es) w =
    let w' = with_table d (record { entries = es; size = size }) w in
    if wake then (request_sending env d i >> pure i) w' else ok (i, w')
settle env d addr hwaddr size (missed (some k) es) w =
    let es' = set es k (new_entry env d addr hwaddr) in
    ok (k, with_table d (record { entries = es'; size = size }) w)
settle env d addr hwaddr size (missed none es) w = elim (grown env (length es) size) [
  | fault ↦ fault
  | ok size' ↦
      let es' = es ++ (new_entry env d addr hwaddr ∷ []) in
      ok (length es, with_table d (record { entries = es'; size = size' }) w)
]

pub ip2mac_search : Env → DeviceNo → ℕ → Option (List ℕ) → M ℕ
ip2mac_search env d addr hwaddr w =
    let t = table d w in settle env d addr hwaddr t.size (scan env addr hwaddr 0 none t.entries) w

-- `Ip2Macs[deviceNo].data[i]`
unfoldable pub entry_at : DeviceNo → ℕ → M Ip2mac
entry_at d i w = elim (get_elem? (table d w).entries i) [ none ↦ fault | some e ↦ ok (e, w) ]

-- `bcast`
abbrev pub bcast : List ℕ
bcast = replicate 6 0xFF

module _ (cfg : Config) where
  unfoldable pub ip2mac : Env → DeviceNo → ℕ → Option (List ℕ) → M ℕ
  ip2mac env d addr hwaddr = do
    i ← ip2mac_search env d addr hwaddr
    e ← entry_at d i
    let dev = cfg.device d
    if is_ok e.flag
        then pure i
        else (send_arp_request_b dev.soc addr bcast dev.addr dev.hwaddr >> pure i)

-- ===== src/Ip2Mac/Hit.antt =====
-- `Ip2MacSearch` with a MAC address for an entry that is there: what the entry becomes.
use c_router.Base.{
  ℕ, zero, suc, ◌+◌, ◌≡◌, ◌≢◌, refl, sym, subst, ap, ◌∙◌, List, [], ◌∷◌, Bool, Bool-cases, inl, inr,
  true, false, Option, none, some, ◌==◌, if◌then◌else◌, ok, arith, get_elem?,
}
use c_router.Device.{DeviceNo, dev0, dev1, Config, flag_ok, Ip2mac, World, Env, table, with_table}
use c_router.Device.Returns
use c_router.SendBuf.{is_nonempty}
use c_router.SendReq.{append_send_req_data}
use c_router.Ip2Mac.{
  is_free, is_ok, touch, Visit, vacant, kept, freed, hit, visit_match, visit, Scanned, found, keep,
  advance, scan, ip2mac_search, ip2mac, entry_at,
}
use c_router.Ip2Mac.Scan.{holds, distinct, Visited, visit-Visited}
use c_router.Ip2Mac.Search.{found_returns}

-- The entry once its MAC address is learned.
abbrev pub taught : Env → List ℕ → Ip2mac → Ip2mac
taught env mac e = record (touch env.now e) { hwaddr = mac; flag = flag_ok }

pub sd-taught : (env : Env) (mac : List ℕ) (e : Ip2mac) → (taught env mac e).sd ≡ e.sd
sd-taught env mac e = elim (Bool-cases (is_ok e.flag)) [
  | inl known ↦ rw known refl
  | inr unknown ↦ rw unknown refl
]

holds_of_get_elem? :
    (es : List Ip2mac) (i : ℕ) {e : Ip2mac}
    → get_elem? es i ≡ some e
    → is_free e.flag ≡ false
    → holds e.addr es ≡ true
holds_of_get_elem? [] i at used = absurd (ground (arith, at))
holds_of_get_elem? (x ∷ es) zero at used = ground (arith, at, used)
holds_of_get_elem? (x ∷ es) (suc i) at used = ground (arith, holds_of_get_elem? es i at used)

visit-taught :
    (env : Env) (mac : List ℕ) (e : Ip2mac)
    → is_free e.flag ≡ false
    → visit env e.addr (some mac) e ≡ hit (is_nonempty e.sd.bufs) (taught env mac e)
unfolding visit visit_match
visit-taught env mac e used = rw (used, equal e.addr, sd-taught env mac e) refl
  where
    equal : (a : ℕ) → (a == a) ≡ true
    equal a = ground arith

-- The loop ends at index `m`, where entry `j` of what it has left is `e'`.
abbrev Hits : Bool → ℕ → ℕ → Ip2mac → Scanned → Type 0
Hits wake m j e' s = (es' : List Ip2mac) × ((s ≡ found wake m es') × (get_elem? es' j ≡ some e'))

keep-Hits :
    (wake : Bool) (m j : ℕ) (e' x : Ip2mac) (s : Scanned)
    → Hits wake m j e' s
    → Hits wake m (suc j) e' (keep x s)
keep-Hits wake m j e' x s (es', (is, here)) = (x ∷ es', (ap (keep x) is, here))

advance-Hits :
    (wake : Bool) (m j : ℕ) (e' x : Ip2mac) (addr n : ℕ) (free : Option ℕ) (es : List Ip2mac)
    (v : Visit) (more : Option ℕ → Scanned)
    → Visited addr x v
    → (is_free x.flag ≡ false → x.addr ≢ addr)
    → ((f : Option ℕ) → Hits wake m j e' (more f))
    → Hits wake m (suc j) e' (advance v x n free es more)
advance-Hits wake m j e' x addr n free es vacant more h out go = keep-Hits wake m j e' x _ (go _)
advance-Hits wake m j e' x addr n free es kept more h out go = keep-Hits wake m j e' x _ (go _)
advance-Hits wake m j e' x addr n free es (freed y) more h out go = keep-Hits wake m j e' y _ (go _)
advance-Hits wake m j e' x addr n free es (hit b y) more h out go = absurd (out h.0 h.2)

first_hit :
    (env : Env) (mac : List ℕ) (n m : ℕ) (free : Option ℕ) (es : List Ip2mac) (e : Ip2mac)
    → m ≡ n + 0
    → is_free e.flag ≡ false
    → Hits
        (is_nonempty e.sd.bufs)
        m
        0
        (taught env mac e)
        (scan env e.addr (some mac) n free (e ∷ es))
unfolding scan
first_hit env mac n m free es e same used =
    let at_n : m ≡ n = omega (arith, same) in
    (taught env mac e ∷ es, (rw (visit-taught env mac e used, at_n) refl, refl))

scan-Hits :
    (env : Env) (mac : List ℕ) (n m i : ℕ) (free : Option ℕ) (es : List Ip2mac) (e : Ip2mac)
    → m ≡ n + i
    → distinct es ≡ true
    → get_elem? es i ≡ some e
    → is_free e.flag ≡ false
    → Hits (is_nonempty e.sd.bufs) m i (taught env mac e) (scan env e.addr (some mac) n free es)
unfolding scan
scan-Hits env mac n m i free [] e same u at used = absurd (ground (arith, at))
scan-Hits env mac n m zero free (x ∷ es) e same u at used =
    let same_entry : x ≡ e = ground (arith, at) in
    subst
      (λ (y : Ip2mac).
        Hits (is_nonempty e.sd.bufs) m 0 (taught env mac e)
          (scan env e.addr (some mac) n free (y ∷ es)))
      (sym same_entry) (first_hit env mac n m free es e same used)
scan-Hits env mac n m (suc i) free (x ∷ es) e same u at used =
    advance-Hits (is_nonempty e.sd.bufs) m i (taught env mac e) x e.addr n free es
      (visit env e.addr (some mac) x) _ (visit-Visited env e.addr (some mac) x)
      (λ used_x same_addr.
        absurd (ground (arith, u, used_x, same_addr, holds_of_get_elem? es i at used)))
      (λ f. scan-Hits env mac (n + 1) m i f es e (omega (arith, same)) (ground (arith, u)) at used)

-- The world after the search: the requests have the entry too, if frames wait at it.
abbrev pub woken_world : Env → DeviceNo → ℕ → Ip2mac → List Ip2mac → World → World
woken_world env d i e es w =
    record (with_table d (record { entries = es; size = (table d w).size }) w) {
      send_req =
          if is_nonempty e.sd.bufs then (append_send_req_data env d i w.send_req).1 else w.send_req;
    }

-- Where an entry in use is for the address, `Ip2MacSearch` with a MAC address returns that entry, in
-- `FLAG_OK` with the MAC address and with its queue, and asks for the frames that wait there.
pub ip2mac_search-taught :
    (env : Env) (d : DeviceNo) (mac : List ℕ) (i : ℕ) (w : World) (e : Ip2mac)
    → distinct (table d w).entries ≡ true
    → get_elem? (table d w).entries i ≡ some e
    → is_free e.flag ≡ false
    → (es : List Ip2mac) × ((ip2mac_search env d e.addr (some mac) w
          ≡ ok (i, woken_world env d i e es w))
        × (get_elem? es i ≡ some (taught env mac e)))
unfolding ip2mac_search
ip2mac_search-taught env d mac i w e u at used =
    let t = table d w in
    let (es, (is, here)) = scan-Hits env mac 0 i i none t.entries e (omega arith) u at used in
    (
      es,
      (rw is (found_returns env d e.addr (some mac) t.size (is_nonempty e.sd.bufs) i es w), here),
    )

pub here_after :
    (env : Env) (d : DeviceNo) (i : ℕ) (e : Ip2mac) (es : List Ip2mac) (w : World)
    → (table d (woken_world env d i e es w)).entries ≡ es
here_after env dev0 i e es w = refl
here_after env dev1 i e es w = refl

-- The same of `Ip2Mac`, which sends no ARP request then.
pub ip2mac-taught :
    (cfg : Config) (env : Env) (d : DeviceNo) (mac : List ℕ) (i : ℕ) (w : World) (e : Ip2mac)
    → distinct (table d w).entries ≡ true
    → get_elem? (table d w).entries i ≡ some e
    → is_free e.flag ≡ false
    → (es : List Ip2mac) × ((ip2mac_search env d e.addr (some mac) w
          ≡ ok (i, woken_world env d i e es w))
        × ((ip2mac cfg env d e.addr (some mac) w ≡ ok (i, woken_world env d i e es w))
            × (get_elem? (table d (woken_world env d i e es w)).entries i
                ≡ some (taught env mac e))))
unfolding ip2mac entry_at
ip2mac-taught cfg env d mac i w e u at used =
    let (es, (is, here)) = ip2mac_search-taught env d mac i w e u at used in
    let w1 = woken_world env d i e es w in
    let here' : get_elem? (table d w1).entries i ≡ some (taught env mac e) =
      ap (λ (x : List Ip2mac). get_elem? x i) (here_after env d i e es w) ∙ here in
    let read : entry_at d i w1 ≡ ok (taught env mac e, w1) = rw (here', entry_at) in
    (
      es,
      (
        is,
        (
          Returns.bind-ok (ip2mac_search env d e.addr (some mac)) _ w is
              ∙ Returns.bind-ok (entry_at d i) _ w1 read,
          here',
        ),
      ),
    )

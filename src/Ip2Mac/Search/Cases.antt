-- ===== src/Ip2Mac/Search/Cases.antt =====
-- `Ip2MacSearch` by the ways in which its loop ends.
use c_router.Base.{
  ℕ, ◌≡◌, ◌≢◌, refl, ◌∙◌, inl, inr, List, [], ◌∷◌, ◌++◌, Bool, true, false, Option, none, some,
  if◌then◌else◌, arith, length, length-append, length-set, set, get_elem?, get_elem?-set_self,
  get_elem?-append_length, lt_of_get_elem?, All, All-set, All-append,
}
use c_router.Device.{DeviceNo, Ip2mac, World, Env, table}
use c_router.SendReq.{append_send_req_data}
use c_router.Ip2Mac.{is_free, Scanned, found, missed, scan, new_entry, settle, ip2mac_search}
use c_router.Ip2Mac.Scan.{
  holds, distinct, entries_of, Finds, scan-Finds, Slots, scan-Slots, length-scan, distinct-scan,
  holds-missed,
}
use c_router.Ip2Mac.Cache.{resolve, resolve-scan, resolve-set, resolve-append}
use c_router.Ip2Mac.Entry.{IsMac?, IsEntry, new_entry-IsEntry, scan-IsEntry}
use c_router.Ip2Mac.Table.{distinct-set, distinct-append}
use c_router.Ip2Mac.Search.{
  Learned, requests, Searched, new_entry_lem, IsHit_lem, found_returns, slot_returns,
  behind_returns, grown_lem,
}

module _ (env : Env) (d : DeviceNo) (addr : ℕ) (hwaddr : Option (List ℕ)) (w : World) where
  abbrev before : List Ip2mac
  before = (table d w).entries

  abbrev room_before : ℕ
  room_before = (table d w).size

  abbrev looped : Scanned
  looped = scan env addr hwaddr 0 none before

  -- The cases share what the loop keeps.
  unique_after :
      (s : Scanned) → looped ≡ s → distinct before ≡ true → distinct (entries_of s) ≡ true
  unique_after s is u = rw is at (distinct-scan env addr hwaddr 0 none before u)

  length_after : (s : Scanned) → looped ≡ s → length (entries_of s) ≡ length before
  length_after s is = rw is at (length-scan env addr hwaddr 0 none before)

  resolve_after :
      (s : Scanned)
      → looped ≡ s
      → (a : ℕ) → a ≢ addr
      → resolve env.now a (entries_of s) ≡ resolve env.now a before
  resolve_after s is a ne = rw is at (resolve-scan env addr hwaddr a ne 0 none before)

  sound_after :
      (s : Scanned)
      → looped ≡ s
      → IsMac? hwaddr
      → All (IsEntry d) before
      → All (IsEntry d) (entries_of s)
  sound_after s is m v = rw is at (scan-IsEntry env d addr hwaddr 0 none before m v)

  none_left : (slot : Option ℕ) (es : List Ip2mac) → looped ≡ missed slot es → holds addr es ≡ false
  none_left slot es is = rw is at (holds-missed env addr hwaddr 0 none before (rw is refl))

  settle-found :
      (wake : Bool) (i : ℕ) (es : List Ip2mac)
      → looped ≡ found wake i es
      → Searched env d addr hwaddr w (settle env d addr hwaddr room_before (found wake i es) w)
  settle-found wake i es is =
      let finds : Finds env addr hwaddr 0 (found wake i es) =
        rw is at (scan-Finds env addr hwaddr 0 none before) in
      let (j, e, at, here, is_hit) = finds in
      let (for_addr, in_use, learned, wakes) = IsHit_lem env addr hwaddr wake e is_hit in
      let same : j ≡ i = omega arith in
      record {
        index = i;
        after = record { entries = es; size = room_before };
        reqs = if wake then (append_send_req_data env d i w.send_req).1 else w.send_req;
        entry = e;
        returns = found_returns env d addr hwaddr room_before wake i es w;
        here = rw same at here;
        for_addr = for_addr;
        in_use = in_use;
        learned = learned;
        wakes = rw wakes;
        unique = unique_after (found wake i es) is;
        room = λ h. omega (arith, length_after (found wake i es) is);
        grows = omega (arith, length_after (found wake i es) is);
        sound = sound_after (found wake i es) is;
        others = resolve_after (found wake i es) is;
      }

  abbrev new : Ip2mac
  new = new_entry env d addr hwaddr

  new_lem :
      (new.addr ≡ addr)
      × (is_free new.flag ≡ false)
      × (new.sd.bufs ≡ [])
      × Learned env.now hwaddr new
  new_lem = new_entry_lem env d addr hwaddr

  not_woken : (i : ℕ) → w.send_req ≡ requests env d hwaddr i new w.send_req
  not_woken i = go hwaddr new new_lem.2
    where
      go :
          (h : Option (List ℕ)) (e : Ip2mac)
          → e.sd.bufs ≡ []
          → w.send_req ≡ requests env d h i e w.send_req
      go none e empty = refl
      go (some mac) e empty = rw empty

  settle-slot :
      (k : ℕ) (es : List Ip2mac)
      → looped ≡ missed (some k) es
      → Searched env d addr hwaddr w (settle env d addr hwaddr room_before (missed (some k) es) w)
  settle-slot k es is = at_slot (rw is at (scan-Slots env addr hwaddr 0 none before))
    where
      at_slot :
          Slots env addr hwaddr 0 none (missed (some k) es)
          → Searched env d addr hwaddr w
              (settle env d addr hwaddr room_before (missed (some k) es) w)
      at_slot (inl impossible) = absurd (ground arith)
      at_slot (inr (j, e, at, here, free)) =
          let same : j ≡ k = omega arith in
          let here' : get_elem? es k ≡ some e = rw same at here in
          record {
            index = k;
            after = record { entries = set es k new; size = room_before };
            reqs = w.send_req;
            entry = new;
            returns = slot_returns env d addr hwaddr room_before k es w;
            here = get_elem?-set_self es k new (lt_of_get_elem? es k here');
            for_addr = new_lem.0;
            in_use = new_lem.1;
            learned = new_lem.3;
            wakes = not_woken k;
            unique = λ u.
                distinct-set new es k (unique_after (missed (some k) es) is u)
                  (rw new_lem.0 (none_left (some k) es is));
            room = λ h. omega (arith, length_after (missed (some k) es) is, length-set es k new);
            grows = omega (arith, length_after (missed (some k) es) is, length-set es k new);
            sound = λ m v.
                All-set (IsEntry d) es k new (sound_after (missed (some k) es) is m v)
                  (new_entry-IsEntry env d addr hwaddr m);
            others = λ a ne.
                resolve-set env.now a new (rw new_lem.0 ne) es k here' free
                ∙ resolve_after (missed (some k) es) is a ne;
          }

  settle-behind :
      (es : List Ip2mac)
      → env.alloc_table ≡ true
      → looped ≡ missed none es
      → Searched env d addr hwaddr w (settle env d addr hwaddr room_before (missed none es) w)
  settle-behind es alloc is =
      let (size', returns, fits) = grown_lem env (length es) room_before alloc in
      record {
        index = length es;
        after = record { entries = es ++ (new ∷ []); size = size' };
        reqs = w.send_req;
        entry = new;
        returns = behind_returns env d addr hwaddr room_before size' es w returns;
        here = get_elem?-append_length es new;
        for_addr = new_lem.0;
        in_use = new_lem.1;
        learned = new_lem.3;
        wakes = not_woken (length es);
        unique = λ u.
            distinct-append new es (unique_after (missed none es) is u)
              (rw new_lem.0 (none_left none es is));
        room =
            λ h. omega (arith, length_after (missed none es) is, length-append es (new ∷ []), fits);
        grows = omega (arith, length_after (missed none es) is, length-append es (new ∷ []));
        sound = λ m v.
            All-append (IsEntry d) es (new ∷ []) (sound_after (missed none es) is m v)
              (new_entry-IsEntry env d addr hwaddr m, tt);
        others = λ a ne.
            resolve-append env.now a new (rw new_lem.0 ne) es
            ∙ resolve_after (missed none es) is a ne;
      }

  settle-Searched :
      (s : Scanned)
      → env.alloc_table ≡ true
      → looped ≡ s
      → Searched env d addr hwaddr w (settle env d addr hwaddr room_before s w)
  settle-Searched (found wake i es) alloc is = settle-found wake i es is
  settle-Searched (missed (some k) es) alloc is = settle-slot k es is
  settle-Searched (missed none es) alloc is = settle-behind es alloc is

  -- Where the table can grow, `Ip2MacSearch` returns an entry in use for the address, with the MAC
  -- address that was given, if any. The table keeps at most one entry for an address and stays
  -- within its room, no other address is known otherwise than before, and a MAC address given for
  -- an entry where frames wait asks for them to be sent.
  pub ip2mac_search-Searched :
      env.alloc_table ≡ true → Searched env d addr hwaddr w (ip2mac_search env d addr hwaddr w)
  unfolding ip2mac_search
  ip2mac_search-Searched alloc = settle-Searched looped alloc refl

-- ===== src/Flush/Served.antt =====
-- The inner loop of `BufferSend`: every request is served.
use c_router.Base.{
  ℕ, zero, suc, ◌<◌, ◌≡◌, refl, sym, ap, ap₂, ◌∙◌, List, [], ◌∷◌, ◌++◌, map, append_assoc,
  append-nil, Bool, true, false, Option, none, some, arith, length, get_elem?, All,
}
use c_router.Device.{DeviceNo, Config, Ip2mac, World, Env, table}
use c_router.Device.Returns.{Returns}
use c_router.Device.Returns
use c_router.SendReq.{pending, get_send_req_data}
use c_router.SendReq.Pending
use c_router.Ip2Mac.{is_free}
use c_router.State.{IsWorld}
use c_router.State.Kept.{is_for, SameAt, SameAt-trans, popped-SameAt, popped-IsWorld}
use c_router.Flush.{buffer_send_one, serve, buffer_send}
use c_router.Flush.Drained.{HasOptions, outgoing, Drained, buffer_send_one-Drained}

-- A request for an entry in use, at which fewer frames wait than there are turns.
pub record Ready (turns : ℕ) (w : World) (r : DeviceNo × ℕ) : Type 0 where
  pub entry : Ip2mac
  pub here : get_elem? (table r.0 w).entries r.1 ≡ some entry
  pub used : is_free entry.flag ≡ false
  pub options : All HasOptions entry.sd.bufs
  pub few : length entry.sd.bufs < turns

-- The frames of a request's entry, as they go out, and those of some requests.
abbrev pub frames_at : Config → DeviceNo → Option Ip2mac → List (ℕ × List ℕ)
frames_at cfg d none = []
frames_at cfg d (some e) = map (outgoing cfg d e.hwaddr) e.sd.bufs

abbrev pub waiting : Config → World → List (DeviceNo × ℕ) → List (ℕ × List ℕ)
waiting cfg w [] = []
waiting cfg w ((d, i) ∷ reqs) =
    frames_at cfg d (get_elem? (table d w).entries i) ++ waiting cfg w reqs

-- Nothing waits at a request's entry.
pub record Emptied (w : World) (r : DeviceNo × ℕ) : Type 0 where
  pub entry : Ip2mac
  pub here : get_elem? (table r.0 w).entries r.1 ≡ some entry
  pub none_wait : entry.sd.bufs ≡ []
  pub counted : entry.sd.dno ≡ 0

-- The loop ended with no request left, every entry that was asked for is empty and its frames went
-- out, and the other entries are as they were.
pub record Served (cfg : Config) (reqs : List (DeviceNo × ℕ)) (w : World) (ended : Bool)
    (w' : World) : Type 0 where
  pub ends : ended ≡ true
  pub right : IsWorld w'
  pub requests : w'.send_req ≡ []
  pub emptied : All (Emptied w') reqs
  pub others : (r : DeviceNo × ℕ) → pending r.0 r.1 reqs ≡ false → SameAt r w w'
  pub sent : w'.sent ≡ w.sent ++ waiting cfg w reqs

Ready-SameAt :
    (turns : ℕ) (w w' : World) (r : DeviceNo × ℕ)
    → Ready turns w r
    → SameAt r w w'
    → Ready turns w' r
Ready-SameAt turns w w' (d, i) q same = record {
  entry = q.entry;
  here = same ∙ q.here;
  used = q.used;
  options = q.options;
  few = q.few;
}

Emptied-SameAt : (w w' : World) (r : DeviceNo × ℕ) → Emptied w r → SameAt r w w' → Emptied w' r
Emptied-SameAt w w' (d, i) q same = record {
  entry = q.entry;
  here = same ∙ q.here;
  none_wait = q.none_wait;
  counted = q.counted;
}

All-Ready :
    (turns : ℕ) (w w' : World) (reqs : List (DeviceNo × ℕ))
    → All (λ r. SameAt r w w') reqs
    → All (Ready turns w) reqs
    → All (Ready turns w') reqs
All-Ready turns w w' [] same q = tt
All-Ready turns w w' (r ∷ reqs) same q =
    (Ready-SameAt turns w w' r q.0 same.0, All-Ready turns w w' reqs same.1 q.1)

waiting-same :
    (cfg : Config) (w w' : World) (reqs : List (DeviceNo × ℕ))
    → All (λ r. SameAt r w w') reqs
    → waiting cfg w' reqs ≡ waiting cfg w reqs
waiting-same cfg w w' [] same = refl
waiting-same cfg w w' ((d, i) ∷ reqs) same =
    ap₂ (λ (x : Option Ip2mac) (y : List (ℕ × List ℕ)). frames_at cfg d x ++ y) same.0
      (waiting-same cfg w w' reqs same.1)

-- The requests that are left stand for other entries than the first.
kept_others :
    (d : DeviceNo) (i : ℕ) (w w' : World) (reqs : List (DeviceNo × ℕ))
    → pending d i reqs ≡ false
    → ((r : DeviceNo × ℕ) → is_for d i r ≡ false → SameAt r w w')
    → All (λ r. SameAt r w w') reqs
unfolding pending
kept_others d i w w' [] h k = tt
kept_others d i w w' ((e, j) ∷ reqs) h k =
    (k (e, j) (ground (arith, h)), kept_others d i w w' reqs (ground (arith, h)) k)

is_for-sym :
    (d : DeviceNo) (i : ℕ) (e : DeviceNo) (j : ℕ)
    → is_for e j (d, i) ≡ false
    → is_for d i (e, j) ≡ false
is_for-sym d i e j h = ground (arith, h, Pending.same_dev-sym d e)

module _ (cfg : Config) (env : Env) (turns : ℕ) (d : DeviceNo) (i : ℕ) (reqs : List (DeviceNo × ℕ))
    (w w1 : World) (e : Ip2mac) (at : get_elem? (table d w).entries i ≡ some e)
    (out : pending d i reqs ≡ false) (ended : Bool)
    (h : Drained cfg d i e (record w { send_req = reqs }) ended w1) where
  -- The other entries, after the first request.
  same_others : (r : DeviceNo × ℕ) → is_for d i r ≡ false → SameAt r w w1
  same_others r o =
      SameAt-trans r w (record w { send_req = reqs }) w1 (popped-SameAt w reqs r)
        (h.kept.others r o)

  pub same_left : All (λ r. SameAt r w w1) reqs
  same_left = kept_others d i w w1 reqs out same_others

  others_after :
      (w2 : World) (r : DeviceNo × ℕ)
      → ((r : DeviceNo × ℕ) → pending r.0 r.1 reqs ≡ false → SameAt r w1 w2)
      → pending r.0 r.1 ((d, i) ∷ reqs) ≡ false
      → SameAt r w w2
  unfolding pending
  others_after w2 (f, j) k o =
      SameAt-trans (f, j) w w1 w2 (same_others (f, j) (is_for-sym d i f j (ground (arith, o))))
        (k (f, j) (ground (arith, o)))

  -- The first request served, and then the rest.
  pub first_and_rest :
      (ended' : Bool) (w2 : World)
      → Served cfg reqs w1 ended' w2
      → Served cfg ((d, i) ∷ reqs) w ended' w2
  first_and_rest ended' w2 s = record {
    ends = s.ends;
    right = s.right;
    requests = s.requests;
    emptied = (
      Emptied-SameAt w1 w2 (d, i)
          (record { entry = h.entry; here = h.here; none_wait = h.emptied; counted = h.counted })
          (s.others (d, i) out),
      s.emptied,
    );
    others = λ r. others_after w2 r s.others;
    sent =
        s.sent
        ∙ ap₂ (λ (x y : List (ℕ × List ℕ)). x ++ y) h.sent (waiting-same cfg w w1 reqs same_left)
        ∙ append_assoc w.sent (map (outgoing cfg d e.hwaddr) e.sd.bufs) (waiting cfg w reqs)
        ∙ ap (λ (x : Option Ip2mac). w.sent ++ (frames_at cfg d x ++ waiting cfg w reqs)) (sym at);
  }

first_out :
    (w : World) (d : DeviceNo) (i : ℕ) (reqs : List (DeviceNo × ℕ))
    → w.send_req ≡ (d, i) ∷ reqs
    → Pending.distinct w.send_req ≡ true
    → pending d i reqs ≡ false
first_out w d i reqs e once = first (ap Pending.distinct (sym e) ∙ once)
  where
    first : Pending.distinct ((d, i) ∷ reqs) ≡ true → pending d i reqs ≡ false
    first h = ground (arith, h)

got :
    (env : Env) (r : DeviceNo × ℕ) (reqs reqs' : List (DeviceNo × ℕ))
    → env.lock_req ≡ true
    → reqs' ≡ r ∷ reqs
    → get_send_req_data env reqs' ≡ (some r, reqs)
unfolding get_send_req_data
got env r reqs reqs' locks e = rw (e, locks) refl

pub got_none :
    (env : Env) (reqs : List (DeviceNo × ℕ)) → reqs ≡ [] → get_send_req_data env reqs ≡ (none, [])
unfolding get_send_req_data
got_none env reqs e = rw e refl

module _ (cfg : Config) (env : Env) (turns : ℕ) (sd_locks : env.lock_sd ≡ true)
    (req_locks : env.lock_req ≡ true) where
  serves :
      (rounds : ℕ) (reqs : List (DeviceNo × ℕ)) (w : World)
      → w.send_req ≡ reqs
      → length reqs < rounds
      → IsWorld w
      → All (Ready turns w) reqs
      → Returns (Served cfg reqs w) (buffer_send cfg env turns rounds w)
  unfolding buffer_send serve
  serves zero reqs w e enough v q = absurd (omega arith)
  serves (suc more) [] w e enough v q = rw (got_none env w.send_req e) (record {
    ends = refl;
    right = v;
    requests = e;
    emptied = tt;
    others = λ (d, i) o. refl;
    sent = sym (append-nil w.sent);
  })
  serves (suc more) ((d, i) ∷ reqs) w e enough v q =
      let popped = record w { send_req = reqs } in
      let out = first_out w d i reqs e v.once in
      let at : get_elem? (table d popped).entries i ≡ some q.0.entry =
        popped-SameAt w reqs (d, i) ∙ q.0.here in
      rw (got env (d, i) reqs w.send_req req_locks e) (
        Returns.bind (Served cfg ((d, i) ∷ reqs) w) (Drained cfg d i q.0.entry popped)
          (buffer_send_one cfg env turns d i) _ popped
          (buffer_send_one-Drained cfg env d i sd_locks turns q.0.entry popped q.0.few q.0.options
            (popped-IsWorld w (d, i) reqs e v) at q.0.used)
          (λ ended w1 h.
            Returns.weaken (Served cfg reqs w1) (Served cfg ((d, i) ∷ reqs) w) _
              (serves more reqs w1 h.kept.requests (omega arith) h.right (
                All-Ready turns w w1 reqs
                  (same_left cfg env turns d i reqs w w1 q.0.entry q.0.here out ended h) q.1))
              (first_and_rest cfg env turns d i reqs w w1 q.0.entry q.0.here out ended h)))

  -- The inner loop of `BufferSend`, in one round more than there are requests, ends with no request
  -- left: at each entry that was asked for nothing waits any more, every frame that waited there
  -- has gone out, request by request and the oldest first, and no other entry has changed. The
  -- state is right before and after. The entries are in use, fewer frames wait at each than it has
  -- turns, each frame holds its IP options, and the locks can be taken.
  pub buffer_send-Served :
      (rounds : ℕ) (w : World)
      → length w.send_req < rounds
      → IsWorld w
      → All (Ready turns w) w.send_req
      → Returns (Served cfg w.send_req w) (buffer_send cfg env turns rounds w)
  buffer_send-Served rounds w = serves rounds w.send_req w refl

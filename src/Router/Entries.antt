-- ===== src/Router/Entries.antt =====
-- `AppendSendData` at an entry of the table.
use c_router.Base.{
  ℕ, zero, suc, ◌≡◌, refl, ap, ◌∙◌, List, [], ◌∷◌, false, ◌&&◌, ◌||◌, not, some, ◌==◌, arith,
  get_elem?, set, length-set, All-set, All-get_elem?, get_elem?-set_self, lt_of_get_elem?,
}
use c_router.Device.{DeviceNo, dev0, dev1, Ip2mac, Ip2macs, World, Env, table, with_table}
use c_router.Device.Returns.{Returns}
use c_router.Device.Returns
use c_router.SendBuf.Queue.{IsFrame, append_send_data-value, appended, appended-IsQueue}
use c_router.Ip2Mac.{is_free}
use c_router.Ip2Mac.Scan.{holds, distinct}
use c_router.Ip2Mac.Entry.{IsEntry}
use c_router.State.{IsTable, IsWorld, updated, updated-IsWorld, sent_updated, table_self}
use c_router.Router.{put_entry, queue_frame}

-- An entry written over with its address and flag kept.
holds-set_same :
    (a : ℕ) (es : List Ip2mac) (i : ℕ) (e' : Ip2mac) {e : Ip2mac}
    → get_elem? es i ≡ some e
    → e'.addr ≡ e.addr
    → e'.flag ≡ e.flag
    → holds a (set es i e') ≡ holds a es
holds-set_same a [] i e' at addr flag = refl
holds-set_same a (x ∷ es) zero e' at addr flag = ground arith
holds-set_same a (x ∷ es) (suc i) e' {e} at addr flag =
    ap (λ t. (not (is_free x.flag) && x.addr == a) || t) (holds-set_same a es i e' at addr flag)

distinct-set_same :
    (es : List Ip2mac) (i : ℕ) (e' : Ip2mac) {e : Ip2mac}
    → get_elem? es i ≡ some e
    → e'.addr ≡ e.addr
    → e'.flag ≡ e.flag
    → distinct (set es i e') ≡ distinct es
distinct-set_same [] i e' at addr flag = refl
distinct-set_same (x ∷ es) zero e' at addr flag = ground arith
distinct-set_same (x ∷ es) (suc i) e' {e} at addr flag =
    rw (holds-set_same x.addr es i e' at addr flag, distinct-set_same es i e' at addr flag)

with_table-updated :
    (d : DeviceNo) (t : Ip2macs) (w : World) → with_table d t w ≡ updated d t w.send_req w
with_table-updated dev0 t w = refl
with_table-updated dev1 t w = refl

-- A write through the pointer keeps the state right, if it keeps the entry right, its address and
-- its flag; it sends nothing, and the entry is there.
pub put_entry-IsWorld :
    (d : DeviceNo) (i : ℕ) (e' : Ip2mac) (w : World) {e : Ip2mac}
    → IsWorld w
    → get_elem? (table d w).entries i ≡ some e
    → e'.addr ≡ e.addr
    → e'.flag ≡ e.flag
    → IsEntry d e'
    → Returns
        (λ _ w'. IsWorld w' × (w'.sent ≡ w.sent) × (get_elem? (table d w').entries i ≡ some e'))
        (put_entry d i e' w)
unfolding put_entry
put_entry-IsWorld d i e' w v at addr flag is =
    let t = v.tables d in
    let es = (table d w).entries in
    let t' : Ip2macs = record (table d w) { entries = set es i e' } in
    let table' : IsTable d t' = record {
      room = omega (arith, t.room, length-set es i e');
      unique = distinct-set_same es i e' at addr flag ∙ t.unique;
      sound = All-set (IsEntry d) es i e' t.sound is;
    } in
    rw with_table-updated (
      updated-IsWorld d t' w.send_req w v table' (omega (arith, length-set es i e'))
          (λ named. named) v.once,
      sent_updated d t' w.send_req w,
      rw (table_self d t' w.send_req w) (get_elem?-set_self es i e' (lt_of_get_elem? es i at)),
    )

pub IsWorld-IsEntry :
    (d : DeviceNo) (i : ℕ) (w : World) {e : Ip2mac}
    → IsWorld w
    → get_elem? (table d w).entries i ≡ some e
    → IsEntry d e
IsWorld-IsEntry d i w v at = All-get_elem? (IsEntry d) (table d w).entries i (v.tables d).sound at

-- The entry with the frame behind those that wait, where `AppendSendData` takes it.
abbrev pub queued : Env → Ip2mac → List ℕ → ℕ → Ip2mac
queued env e bytes size = record e { sd = (appended env e.sd bytes size).1 }

-- Queueing a frame at an entry in use keeps the state right and sends nothing.
pub queue_frame-IsWorld :
    (env : Env) (d : DeviceNo) (i : ℕ) (e : Ip2mac) (bytes : List ℕ) (size : ℕ) (w : World)
    → IsWorld w
    → get_elem? (table d w).entries i ≡ some e
    → is_free e.flag ≡ false
    → IsFrame bytes size
    → Returns
        (λ _ w'.
          IsWorld w'
          × (w'.sent ≡ w.sent)
          × (get_elem? (table d w').entries i ≡ some (queued env e bytes size)))
        (queue_frame env d i e bytes size w)
unfolding queue_frame
queue_frame-IsWorld env d i e bytes size w v at used f =
    let is = IsWorld-IsEntry d i w v at in
    Returns.bind_of_eq
      (λ _ w'.
        IsWorld w'
        × (w'.sent ≡ w.sent)
        × (get_elem? (table d w').entries i ≡ some (queued env e bytes size)))
      _ w (append_send_data-value env e.sd bytes size f.present)
      (put_entry-IsWorld d i (queued env e bytes size) w v at refl refl (record {
        of_device = is.of_device;
        mac = is.mac;
        queue = λ _. appended-IsQueue env e.sd bytes size (is.queue used) f;
      }))

-- ===== src/Ip2Mac/Entry.antt =====
-- What holds of each entry of a table.
use c_router.Base.{ℕ, ◌≡◌, refl, List, Bool, false, Option, none, some, arith, length, All, IsBytes}
use mathlib.Core.Option
use c_router.Device.{DeviceNo, flag_free, Ip2mac, Env}
use c_router.SendBuf.Queue.{IsQueue, empty-IsQueue}
use c_router.Ip2Mac.{is_free, release, freed, hit, visit_match, visit, scan, new_entry}
use c_router.Ip2Mac.Scan.{entries_of, All-scan}

-- Six bytes.
abbrev pub IsMac : List ℕ → Type 0
IsMac mac = (length mac ≡ 6) × IsBytes mac

abbrev pub IsMac? : Option (List ℕ) → Type 0
IsMac? none = Unit
IsMac? (some mac) = IsMac mac

-- An entry belongs to its device and holds a MAC address; in use, its queue is right.
pub record IsEntry (d : DeviceNo) (e : Ip2mac) : Type 0 where
  pub of_device : e.device_no ≡ d
  pub mac : IsMac e.hwaddr
  pub queue : is_free e.flag ≡ false → IsQueue e.sd

pub new_entry-IsEntry :
    (env : Env) (d : DeviceNo) (addr : ℕ) (hwaddr : Option (List ℕ))
    → IsMac? hwaddr
    → IsEntry d (new_entry env d addr hwaddr)
unfolding new_entry
new_entry-IsEntry env d addr none m = record {
  of_device = refl;
  mac = (refl, omega arith);
  queue = λ u. empty-IsQueue;
}
new_entry-IsEntry env d addr (some mac) m = record {
  of_device = refl;
  mac = m;
  queue = λ u. empty-IsQueue;
}

module _ (env : Env) (d : DeviceNo) (addr : ℕ) where
  freed_lem :
      (hwaddr : Option (List ℕ)) (e e' : Ip2mac)
      → visit env addr hwaddr e ≡ freed e'
      → (e'.device_no ≡ e.device_no) × (e'.hwaddr ≡ e.hwaddr) × (e'.flag ≡ flag_free)
  unfolding visit visit_match release
  freed_lem none e e' h = ground arith
  freed_lem (some mac) e e' h = ground arith

  freed-IsEntry :
      (hwaddr : Option (List ℕ)) (e e' : Ip2mac)
      → IsEntry d e
      → visit env addr hwaddr e ≡ freed e'
      → IsEntry d e'
  freed-IsEntry hwaddr e e' v h =
      let (dev, mac, flag) = freed_lem hwaddr e e' h in
      record {
        of_device = rw dev v.of_device;
        mac = rw mac v.mac;
        queue = λ u. absurd (ground arith);
      }

  hit_lem :
      (hwaddr : Option (List ℕ)) (e e' : Ip2mac) (wake : Bool)
      → visit env addr hwaddr e ≡ hit wake e'
      → (e'.device_no ≡ e.device_no)
        × (e'.hwaddr ≡ Option.get_or hwaddr e.hwaddr)
        × (e'.sd ≡ e.sd)
        × (is_free e.flag ≡ false)
  unfolding visit visit_match release
  hit_lem none e e' wake h = ground arith
  hit_lem (some mac) e e' wake h = ground arith

  hit-IsEntry :
      (hwaddr : Option (List ℕ)) (e e' : Ip2mac) (wake : Bool)
      → IsMac? hwaddr
      → IsEntry d e
      → visit env addr hwaddr e ≡ hit wake e'
      → IsEntry d e'
  hit-IsEntry hwaddr e e' wake m v h =
      let (dev, mac, sd, used) = hit_lem hwaddr e e' wake h in
      record {
        of_device = rw dev v.of_device;
        mac = rw mac (either hwaddr m);
        queue = λ u. rw sd (v.queue used);
      }
    where
      either : (h : Option (List ℕ)) → IsMac? h → IsMac (Option.get_or h e.hwaddr)
      either none m = v.mac
      either (some mac) m = m

  -- The loop keeps the entries right.
  pub scan-IsEntry :
      (hwaddr : Option (List ℕ)) (i : ℕ) (free : Option ℕ) (es : List Ip2mac)
      → IsMac? hwaddr
      → All (IsEntry d) es
      → All (IsEntry d) (entries_of (scan env addr hwaddr i free es))
  scan-IsEntry hwaddr i free es m v =
      All-scan env addr hwaddr (IsEntry d) (freed-IsEntry hwaddr)
        (λ e e' wake v h. hit-IsEntry hwaddr e e' wake m v h) i free es v

-- ===== src/Flush/Sound.antt =====
-- `BufferSendOne` on any entry, in use or freed, and whether or not its lock can be taken.
use c_router.Base.{
  ℕ, zero, suc, ◌≡◌, refl, ◌∙◌, List, [], ◌∷◌, true, false, Option, none, some, Outcome, ok, fault,
  load, get_elem?,
}
use c_router.Device.{DeviceNo, Config, DataBuf, SendData, Ip2mac, World, Env, table}
use c_router.Device.Cmd.{M, ◌>>=◌, lift, write}
use c_router.Device.Returns.{Returns}
use c_router.Device.Returns
use c_router.SendBuf.{take_first, get_send_data}
use c_router.SendBuf.Queue.{Got, get_send_data-Got}
use c_router.Ip2Mac.{is_free, entry_at}
use c_router.State.{IsWorld, sent-IsWorld}
use c_router.State.Resolve.{entry_at-ok}
use c_router.Router.{put_entry}
use c_router.Router.Entries.{put_entry-IsWorld, IsWorld-IsEntry}
use c_router.Resend.{flush_frame}
use c_router.Flush.{flush_one, buffer_send_one}

-- What holds of the result and of the world, if the command returns.
abbrev pub IfReturns : {A : Type 0} → (A → World → Type 0) → Outcome (A × World) → Type 0
IfReturns P (ok (a, w)) = P a w
IfReturns P fault = Unit

abbrev Sound : {A : Type 0} → Outcome (A × World) → Type 0
Sound = IfReturns (λ _ w. IsWorld w)

module _ {A B : Type 0} where
  from_outcome :
      (Q : A → World → Type 0) (o : Outcome (A × World)) (f : A → M B)
      → IfReturns Q o
      → ((a : A) (w : World) → Q a w → Sound (f a w))
      → Sound (elim o as (λ _. Outcome (B × World)) [ fault ↦ fault | ok (a, w) ↦ f a w ])
  from_outcome Q (ok (a, w)) f h k = k a w h
  from_outcome Q fault f h k = tt

  Sound-bind :
      (Q : A → World → Type 0) (m : M A) (f : A → M B) (w : World)
      → IfReturns Q (m w)
      → ((a : A) (w' : World) → Q a w' → Sound (f a w'))
      → Sound ((m >>= f) w)
  Sound-bind Q m f w h k = from_outcome Q (m w) f h k

if_returns :
    {A : Type 0} (P Q : A → World → Type 0) (o : Outcome (A × World))
    → Returns P o
    → ((a : A) (w : World) → P a w → Q a w)
    → IfReturns Q o
if_returns P Q (ok (a, w)) h k = k a w h
if_returns P Q fault h k = tt

Sound-lift : {A : Type 0} (o : Outcome A) (w : World) → IsWorld w → Sound (lift o w)
Sound-lift (ok a) w v = v
Sound-lift fault w v = tt

Sound-write : (soc : ℕ) (bytes : List ℕ) (w : World) → IsWorld w → Sound (write soc bytes w)
unfolding write
Sound-write soc bytes w v = sent-IsWorld w _ v

found :
    (w : World) (out : Option Ip2mac)
    → IfReturns
        (λ e w'. (w' ≡ w) × (out ≡ some e))
        (elim out as (λ _. Outcome (Ip2mac × World)) [ none ↦ fault | some e ↦ ok (e, w) ])
found w none = tt
found w (some e) = (refl, refl)

entry_at-found :
    (d : DeviceNo) (i : ℕ) (w : World)
    → IfReturns (λ e w'. (w' ≡ w) × (get_elem? (table d w).entries i ≡ some e)) (entry_at d i w)
unfolding entry_at
entry_at-found d i w = found w (get_elem? (table d w).entries i)

module _ (cfg : Config) (env : Env) (d : DeviceNo) (i : ℕ) where
  -- A turn, and the rest.
  flush_one-Sound :
      (turns : ℕ) (e : Ip2mac) (out : Option DataBuf × SendData) (w : World)
      → IsWorld w
      → get_elem? (table d w).entries i ≡ some e
      → (is_free e.flag ≡ false → Got env e.sd out)
      → ((w' : World) → IsWorld w' → Sound (buffer_send_one cfg env turns d i w'))
      → Sound (flush_one cfg env d i e out (buffer_send_one cfg env turns d i) w)
  unfolding flush_one
  flush_one-Sound turns e (none, sd) w v at got rest = v
  flush_one-Sound turns e (some buf, sd) w v at got rest =
      let is = IsWorld-IsEntry d i w v at in
      Sound-bind (λ _ w'. IsWorld w') (put_entry d i (record e { sd = sd })) _ w
        (if_returns _ (λ _ w'. IsWorld w') (put_entry d i (record e { sd = sd }) w)
          (put_entry-IsWorld d i (record e { sd = sd }) w v at refl refl
            (record { of_device = is.of_device; mac = is.mac; queue = λ used. (got used).2 }))
          (λ _ w' h. h.0))
        (λ _ w1 v1.
          Sound-bind (λ _ w'. IsWorld w') (lift (flush_frame e.hwaddr buf.bytes)) _ w1
            (Sound-lift (flush_frame e.hwaddr buf.bytes) w1 v1)
            (λ data' w2 v2.
              Sound-bind (λ _ w'. IsWorld w') (lift (load data' 0 buf.size)) _ w2
                (Sound-lift (load data' 0 buf.size) w2 v2)
                (λ frame w3 v3.
                  Sound-bind (λ _ w'. IsWorld w') (write (cfg.device d).soc frame) _ w3
                    (Sound-write (cfg.device d).soc frame w3 v3) (λ _ w4 v4. rest w4 v4))))

  -- From a right state, whatever the entry is, `BufferSendOne` leaves a right state if it returns.
  pub buffer_send_one-Sound :
      (turns : ℕ) (w : World)
      → IsWorld w
      → IfReturns (λ _ w'. IsWorld w') (buffer_send_one cfg env turns d i w)
  unfolding buffer_send_one
  buffer_send_one-Sound zero w v = v
  buffer_send_one-Sound (suc turns) w v =
      Sound-bind (λ e w'. (w' ≡ w) × (get_elem? (table d w).entries i ≡ some e)) (entry_at d i) _ w
        (entry_at-found d i w)
        (λ e w' h. rw h.0 (
          flush_one-Sound turns e (get_send_data env e.sd) w v h.1
            (λ used. get_send_data-Got env e.sd ((IsWorld-IsEntry d i w v h.1).queue used))
            (λ w1 v1. buffer_send_one-Sound turns w1 v1)))

  -- Where the lock fails or nothing waits, it ends at once.
  pub buffer_send_one-idle :
      (e : Ip2mac) (w : World)
      → get_elem? (table d w).entries i ≡ some e
      → get_send_data env e.sd ≡ (none, e.sd)
      → buffer_send_one cfg env (suc zero) d i w ≡ ok (true, w)
  unfolding buffer_send_one flush_one
  buffer_send_one-idle e w at idle =
      Returns.bind-ok (entry_at d i) _ w (entry_at-ok d i w at) ∙ rw idle refl

pub get_send_data_empty :
    (env : Env) (sd : SendData) → sd.bufs ≡ [] → get_send_data env sd ≡ (none, sd)
unfolding get_send_data take_first
get_send_data_empty env sd nil = rw nil refl

take_first_unlocked :
    (env : Env) (sd : SendData) (bufs : List DataBuf)
    → env.lock_sd ≡ false
    → take_first env sd bufs ≡ (none, sd)
unfolding take_first
take_first_unlocked env sd [] fails = refl
take_first_unlocked env sd (d ∷ rest) fails = rw fails refl

pub get_send_data_unlocked :
    (env : Env) (sd : SendData) → env.lock_sd ≡ false → get_send_data env sd ≡ (none, sd)
unfolding get_send_data
get_send_data_unlocked env sd fails = take_first_unlocked env sd sd.bufs fails

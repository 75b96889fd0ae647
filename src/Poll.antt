-- ===== src/Poll.antt =====
-- What `poll` and `read` give to `Router` of router/main.c and to `Bridge` of bridge/main.c.
use c_router.Base.{ℕ, List}

-- `revents` of a device, and the bytes that `read` gives, none where it returns 0 or -1.
pub record Event : Type 0 where
  pub revents : ℕ
  pub bytes : List ℕ

-- What `poll` returns: -1 or 0, or that there are events, those of the two devices.
pub data Poll : Type 0 where
  idle : Poll
  events : Event → Event → Poll

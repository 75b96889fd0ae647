-- ===== src/Tests/Pointers.antt =====
-- A queue of one frame with its pointers.
use c_router.Base.{ℕ, ◌+◌, Bool, refl, [], ◌∷◌, none, some, ok, ◌==◌, if◌then◌else◌, arith}
use c_router.Device.{dev0, dev1}
use c_router.SendBuf.{append_send_data, get_send_data}
use c_router.SendReq.{append_send_req_data, get_send_req_data}
use c_router.Links.{Links}
use c_router.Links.Queue.{IsLinked}
use c_router.Links.Freed.{FreesBufs, free_data_bufs, free_data_bufs-FreesBufs}
use c_router.Links.Requests
use c_router.Links.Buffers.{
  SendLinks, append_data_buf, get_data_buf, Represents, Implements, append_data_buf-Implements,
  get_data_buf-Implements,
}
use c_router.Tests.{live, queue, waiting, working}

abbrev one_frame : SendLinks
one_frame = record {
  links = record {
    top = some 100;
    bottom = some 100;
    heap = λ p.
        if p == 100 then some (record { next = none; before = none; item = waiting }) else none;
  };
  dno = 1;
  in_bucket_size = 34;
}

one_frame-Represents : Represents one_frame (100 ∷ []) queue
one_frame-Represents = record {
  linked = record { chain = (refl, tt); distinct = (tt, tt); top = refl; bottom = refl };
  dno = refl;
  in_bucket_size = refl;
}

append_data_buf-Implements_example :
    Implements
      (append_send_data working queue live 34)
      (append_data_buf working 200 one_frame live 34)
append_data_buf-Implements_example =
    append_data_buf-Implements working 200 one_frame (100 ∷ []) queue live 34 one_frame-Represents
      ((λ e. omega (arith, e)), tt)

get_data_buf-Implements_example :
    Implements (ok (get_send_data working queue)) (get_data_buf working one_frame)
get_data_buf-Implements_example =
    get_data_buf-Implements working one_frame (100 ∷ []) queue one_frame-Represents

-- Its bytes are at 500, the only block.
abbrev data_of : ℕ → ℕ
data_of p = p + 400

abbrev blocks : ℕ → Bool
blocks q = q == 500

free_data_bufs-FreesBufs_example :
    FreesBufs working data_of
      (100 ∷ [])
      queue
      blocks
      (free_data_bufs working data_of 1 one_frame blocks)
free_data_bufs-FreesBufs_example =
    free_data_bufs-FreesBufs working data_of blocks one_frame (100 ∷ []) queue one_frame-Represents
      (tt, tt) (refl, tt)

-- One request.
abbrev one_request : Links Requests.Request
one_request = record {
  top = some 300;
  bottom = some 300;
  heap = λ p.
      if p == 300 then some (record { next = none; before = none; item = (dev1, 4) }) else none;
}

one_request-IsLinked : IsLinked one_request (300 ∷ []) ((dev1, 4) ∷ [])
one_request-IsLinked = record { chain = (refl, tt); distinct = (tt, tt); top = refl; bottom = refl }

append_req_links-Implements_example :
    Requests.Implements
      (append_send_req_data working dev0 2 ((dev1, 4) ∷ []))
      (Requests.append_req_links working 1 400 dev0 2 one_request)
append_req_links-Implements_example =
    Requests.append_req_links-Implements working 1 400 dev0 2 one_request (300 ∷ [])
      ((dev1, 4) ∷ []) one_request-IsLinked ((λ e. omega (arith, e)), tt) (omega arith)

get_req_links-Implements_example :
    Requests.Implements
      (get_send_req_data working ((dev1, 4) ∷ []))
      (Requests.get_req_links working one_request)
get_req_links-Implements_example =
    Requests.get_req_links-Implements working one_request (300 ∷ []) ((dev1, 4) ∷ [])
      one_request-IsLinked

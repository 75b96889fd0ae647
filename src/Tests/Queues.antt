-- ===== src/Tests/Queues.antt =====
-- The queue of an entry, the requests, and the sending of what waits.
use c_router.Base.{refl, arith}
use c_router.Device.{dev1}
use c_router.Device.Returns.{Returns}
use c_router.Flush.{buffer_send_one}
use c_router.Flush.Drained.{Drained, buffer_send_one-Drained}
use c_router.Tests.{config, working, busy_entry, world_of, busy-IsWorld}

buffer_send_one-Drained_example :
    Returns
      (Drained config dev1 0 busy_entry (world_of busy_entry))
      (buffer_send_one config working 2 dev1 0 (world_of busy_entry))
buffer_send_one-Drained_example =
    buffer_send_one-Drained config working dev1 0 refl 2 busy_entry (world_of busy_entry)
      (omega arith) (omega arith, tt) busy-IsWorld refl refl

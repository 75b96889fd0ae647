-- ===== src/Icmp/Adds.antt =====
-- `SendIcmpTimeExceeded` asks the sending thread for nothing.
use c_router.Base.{ℕ, List, pos, load}
use c_router.Checksum.{checksum, checksum2}
use c_router.Device.{DeviceNo, Config}
use c_router.Device.Adds.{Adds, Adds-lift, Adds-write, Adds-bind}
use c_router.Icmp.{time_exceeded, send_icmp_time_exceeded}

pub send_icmp_time_exceeded-Adds :
    (cfg : Config) (d : DeviceNo) (bytes : List ℕ) → Adds 0 (send_icmp_time_exceeded cfg d bytes)
unfolding send_icmp_time_exceeded
send_icmp_time_exceeded-Adds cfg d bytes = Adds-bind 0 _ _ (Adds-lift 0 (load bytes 6 6)) (λ shost.
    Adds-bind 0 _ _ (Adds-lift 0 (load bytes 26 4)) (λ saddr.
      Adds-bind 0 _ _ (Adds-lift 0 (checksum _ 20)) (λ check.
        Adds-bind 0 _ _ (Adds-lift 0 (load bytes 14 64)) (λ ipptr.
          Adds-bind 0 _ _ (Adds-lift 0 (checksum2 (time_exceeded 0) 8 ipptr (pos 64)))
            (λ cksum. Adds-write 0 _ _)))))

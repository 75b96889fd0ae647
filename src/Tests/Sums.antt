-- ===== src/Tests/Sums.antt =====
-- The checksum functions on an IP header, and the ICMP reply.
use c_router.Base.{
  ℕ, ◌-◌, ◌%◌, ◌<◌, ◌≡◌, ◌↔◌, refl, List, [], ◌∷◌, ◌++◌, true, pos, ok, arith, take, slice,
}
use c_router.Checksum.{checksum, checksum2, check_ip_checksum}
use c_router.Checksum.Ones.{ones_sum, total, checksum-ones_sum}
use c_router.Checksum.Split.{checksum2-ones_sum, checksum2-odd_iff}
use c_router.Checksum.Header.{
  covered, with_check, check_ip_checksum_iff, check_ip_checksum-with_check,
}
use c_router.Device.{dev0}
use c_router.Icmp.Reply.{IsReply, reply-IsReply}
use c_router.Forward.Result.{Rewritten, rewrite-Rewritten}
use c_router.Forward.{rewrite}
use c_router.Resend.{flush_frame}
use c_router.Resend.Result.{flush_frame-rewrite}
use c_router.Router.Fields.{IsBuffer, opts, opt_len}
use c_router.Tests.{config, live, dying, mac, buffer, buffer-IsBuffer}

abbrev iphdr : List ℕ
iphdr = slice live 14 20

checksum-ones_sum_example : checksum iphdr 19 ≡ ok (65535 - ones_sum (take 19 iphdr))
checksum-ones_sum_example = checksum-ones_sum iphdr 19 (omega arith) (omega arith)

checksum2-ones_sum_example :
    checksum2 iphdr 20 (1 ∷ 2 ∷ 3 ∷ 4 ∷ []) (pos 4)
    ≡ ok (65535 - ones_sum (iphdr ++ (1 ∷ 2 ∷ 3 ∷ 4 ∷ [])))
checksum2-ones_sum_example =
    checksum2-ones_sum iphdr 20 (1 ∷ 2 ∷ 3 ∷ 4 ∷ []) (pos 4) refl (omega arith) (omega arith)
      (omega arith) (omega arith)

checksum2-odd_iff_example :
    (checksum2 (1 ∷ 2 ∷ []) 1 (3 ∷ []) (pos 1) ≡ checksum (1 ∷ 3 ∷ []) 2) ↔ ◌≡◌ {A = ℕ} 1 3
checksum2-odd_iff_example = checksum2-odd_iff 1 2 3 (omega arith) (omega arith) (omega arith)

check_ip_checksum_iff_example :
    (check_ip_checksum iphdr [] (pos 0) ≡ ok true) ↔ (total (covered iphdr [] (pos 0)) % 65535 ≡ 0)
check_ip_checksum_iff_example =
    check_ip_checksum_iff iphdr [] (pos 0) (omega arith) (omega arith) (omega arith) tt

zeroed_sum : checksum2 (with_check iphdr 0) 20 [] (pos 0) ≡ ok 27128
zeroed_sum =
    checksum2-ones_sum (with_check iphdr 0) 20 [] (pos 0) refl (omega arith) (omega arith)
      (omega arith) tt

check_ip_checksum-with_check_example :
    (check_ip_checksum (with_check iphdr 27128) [] (pos 0) ≡ ok true) × (27128 < 65536)
check_ip_checksum-with_check_example =
    check_ip_checksum-with_check iphdr [] (pos 0) refl (omega arith) (omega arith) tt zeroed_sum

abbrev received : List ℕ
received = buffer dying

received-IsBuffer : IsBuffer received
received-IsBuffer = buffer-IsBuffer dying (omega arith) (omega arith)

reply-IsReply_example : IsReply config dev0 received
reply-IsReply_example =
    reply-IsReply config dev0 received (omega (arith, received-IsBuffer.size))
      received-IsBuffer.octets refl

rewrite-Rewritten_example :
    (out : List ℕ) × (rewrite live (mac 3) (mac 11) [] (pos 0) ≡ ok out)
    × Rewritten live (mac 3) (mac 11) [] (pos 0) out
rewrite-Rewritten_example =
    rewrite-Rewritten live (mac 3) (mac 11) [] (pos 0) (omega arith) (omega arith)
      (refl, omega arith) (refl, omega arith) (omega arith) tt

flush_frame-rewrite_example :
    flush_frame (mac 3) live ≡ rewrite live (mac 3) (mac 2) (opts live) (opt_len live)
flush_frame-rewrite_example =
    flush_frame-rewrite (mac 3) live (omega arith) (omega arith) (omega arith) (refl, omega arith)

-- ===== src/Tests/Packets.antt =====
-- `AnalyzePacket` and `Router` on frames of each kind.
use c_router.Base.{◌≡◌, refl, [], ◌∷◌, ◌++◌, inl, inr, minus_one, ok, arith}
use c_router.Device.{dev0, other, World}
use c_router.Device.Returns.{Returns}
use c_router.Frame.{ethertype_ip, ethertype_arp}
use c_router.Icmp.Reply.{reply}
use c_router.Router.{analyze_packet}
use c_router.Router.Fields.{IsBuffer}
use c_router.Router.Packet.{Routed, IsFor, analyze_packet_dropped}
use c_router.Router.Verdicts.{
  Safe, Heard, analyze_packet-time_exceeded, analyze_packet-Routed, analyze_packet-Heard,
  analyze_packet-Safe,
}
use c_router.Router.Loop.{router, Right, router-Right}
use c_router.Tests.{
  config, config-IsConfig, working, turns, turns-AllTurns, live, dying, arp_reply, buffer,
  buffer-IsBuffer, idle_entry, world_of, idle-IsWorld,
}

abbrev w : World
w = world_of idle_entry

live-IsBuffer : IsBuffer (buffer live)
live-IsBuffer = buffer-IsBuffer live (omega arith) (omega arith)

dying-IsBuffer : IsBuffer (buffer dying)
dying-IsBuffer = buffer-IsBuffer dying (omega arith) (omega arith)

arp-IsBuffer : IsBuffer (buffer arp_reply)
arp-IsBuffer = buffer-IsBuffer arp_reply (omega arith) (omega arith)

live-IsFor : IsFor config dev0 (buffer live) 60 ethertype_ip
live-IsFor = record { least = omega arith; most = omega arith; dhost = refl; ether_type = refl }

dying-IsFor : IsFor config dev0 (buffer dying) 60 ethertype_ip
dying-IsFor = record { least = omega arith; most = omega arith; dhost = refl; ether_type = refl }

arp-IsFor : IsFor config dev0 (buffer arp_reply) 60 ethertype_arp
arp-IsFor = record { least = omega arith; most = omega arith; dhost = refl; ether_type = refl }

analyze_packet-Safe_example : Returns Safe (analyze_packet config working dev0 (buffer live) 60 w)
analyze_packet-Safe_example =
    analyze_packet-Safe config working dev0 (buffer live) 60 w live-IsBuffer config-IsConfig
      idle-IsWorld refl (omega arith)

router-Right_example : Returns Right (router config turns (buffer arp_reply) w)
router-Right_example =
    router-Right config config-IsConfig turns (buffer arp_reply) w turns-AllTurns
      (idle-IsWorld, arp-IsBuffer)

analyze_packet-Routed_example :
    Returns
      (Routed config working (other dev0) (buffer live) 60 w)
      (analyze_packet config working dev0 (buffer live) 60 w)
analyze_packet-Routed_example =
    analyze_packet-Routed config working dev0 (buffer live) 60 w live-IsBuffer live-IsFor
      (omega arith) refl (omega arith) config-IsConfig idle-IsWorld refl

analyze_packet-time_exceeded_example :
    analyze_packet config working dev0 (buffer dying) 60 w
    ≡ ok (
      (minus_one, buffer dying),
      record w { sent = w.sent ++ ((3, reply config dev0 (buffer dying)) ∷ []) },
    )
analyze_packet-time_exceeded_example =
    analyze_packet-time_exceeded config working dev0 (buffer dying) 60 w dying-IsBuffer dying-IsFor
      (omega arith) refl refl

analyze_packet-Heard_example :
    Returns
      (Heard config working dev0 (buffer arp_reply) w)
      (analyze_packet config working dev0 (buffer arp_reply) 60 w)
analyze_packet-Heard_example =
    analyze_packet-Heard config working dev0 (buffer arp_reply) 60 w arp-IsBuffer arp-IsFor
      (omega arith) (inr refl) idle-IsWorld refl

analyze_packet_dropped_example :
    analyze_packet config working dev0 (buffer live) 13 w ≡ ok ((minus_one, buffer live), w)
analyze_packet_dropped_example =
    analyze_packet_dropped config working dev0 (buffer live) 13 w live-IsBuffer (inl (omega arith))

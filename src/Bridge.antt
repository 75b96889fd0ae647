-- ===== src/Bridge.antt =====
-- bridge/main.c: `AnalyzePacket` and `Bridge`, which hands each frame of a device to the other.
-- `debug_out` is `Param.DebugOut`; the messages of `perror` are left out.
pub mod Frames
pub mod Program
use c_router.Base.{
  ℕ, ◌+◌, ◌%◌, List, [], ◌∷◌, ◌++◌, Bool, true, false, ltb, ◌==◌, if◌then◌else◌, ℤ, pos, negsuc,
  minus_one, Outcome, ok, fault, ◌>>=◌, length, load, overwrite, zero, suc,
}
use c_router.Device.{DeviceNo, dev0, dev1, other}
use c_router.Poll.{Event, Poll, idle, events}
use c_router.Frame.{sizeof_ether_header}
use c_router.Text.{codes, concat, dec}
use c_router.Netutil.{Kernel, Run, init_raw_socket as open_raw}
use c_router.Pcap.Print.{print_ether_header as print_header}

-- `InitRawSocket` of bridge/netutil.c, whose text is that of router/netutil.c.
pub init_raw_socket : Kernel → List ℕ → Bool → Bool → Run ℕ
init_raw_socket k device promisc_flag ip_only = open_raw k device promisc_flag ip_only

-- `PrintEtherHeader` of bridge/netutil.c, which prints what that of pcap/print.c prints.
pub print_ether_header : List ℕ → Outcome (List ℕ)
print_ether_header eh = print_header eh

pub debug_printf : Bool → List ℕ → List ℕ
debug_printf debug_out text = if debug_out then text else []

abbrev pub device_no : DeviceNo → ℕ
device_no dev0 = 0
device_no dev1 = 1

-- `Param.DebugOut` makes the header print on `stderr`.
pub debug_header : Bool → List ℕ → Outcome (List ℕ)
debug_header false eh = ok []
debug_header true eh = print_ether_header eh

-- The return code, and the text on `stderr`.
pub analyze_packet : Bool → DeviceNo → List ℕ → ℕ → Outcome (ℤ × List ℕ)
analyze_packet debug_out d bytes size =
    if ltb size sizeof_ether_header
    then ok (
      minus_one,
      debug_printf debug_out (
          concat (
            codes "["
            ∷ dec (device_no d)
            ∷ codes "]:lest("
            ∷ dec size
            ∷ codes ") < sizeof(struct ether_header)\n"
            ∷ [])),
    )
    else do
      header ← debug_header debug_out bytes
      ok (
        pos 0,
        debug_printf debug_out (concat (codes "[" ∷ dec (device_no d) ∷ codes "]" ∷ [])) ++ header,
      )

-- The buffer, the frames written, each with the device, and the text on `stderr`.
pub record State : Type 0 where
  pub buf : List ℕ
  pub sent : List (DeviceNo × List ℕ)
  pub err : List ℕ

-- `revents & (POLLIN || POLLERR)`: the mask is 1, which is `POLLIN`.
abbrev pub ready : Event → Bool
ready event = event.revents % 2 == 1

-- `AnalyzePacket(i, buf, size) != -1`, and the frame written to the other device.
pub pass_on : DeviceNo → ℕ → ℤ × List ℕ → State → Outcome State
pass_on d size (negsuc zero, text) s = ok (record s { err = s.err ++ text })
pass_on d size (code, text) s = do
  frame ← load s.buf 0 size
  ok (record s { sent = s.sent ++ ((other d, frame) ∷ []); err = s.err ++ text })

pub read_frame : Bool → DeviceNo → List ℕ → State → Outcome State
read_frame debug_out d [] s = ok s
read_frame debug_out d (x ∷ frame) s =
    let buf = overwrite s.buf (x ∷ frame) in
    let size = length (x ∷ frame) in
    do result ← analyze_packet debug_out d buf size; pass_on d size result (record s { buf = buf })

-- The body of the loop over the two devices.
pub receive : Bool → DeviceNo → Event → State → Outcome State
receive debug_out d event s = if ready event then read_frame debug_out d event.bytes s else ok s

-- The loop, over what `poll` returns.
pub bridge : Bool → List Poll → State → Outcome State
bridge debug_out [] s = ok s
bridge debug_out (idle ∷ polls) s = bridge debug_out polls s
bridge debug_out (events event0 event1 ∷ polls) s = do
  s1 ← receive debug_out dev0 event0 s
  s2 ← receive debug_out dev1 event1 s1
  bridge debug_out polls s2

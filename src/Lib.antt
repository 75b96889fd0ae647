-- ===== src/Lib.antt =====
-- Network programs for Ethernet. router/ is a two-port IPv4 router. Its receiving thread (`Router`,
-- `AnalyzePacket`) reads frames from two raw sockets, learns MAC addresses from ARP, answers expired
-- frames with ICMP, and sends the rest on, or queues them at the entry of their next hop in a table
-- that `Ip2Mac` keeps. When a MAC address is learned, a request asks the sending thread
-- (`BufferSend`, `BufferSendOne`) to send what waits there. pcap/ prints the headers of the frames
-- that it reads, and checks their checksums; bridge/ hands frames from one device to another;
-- ltest/ prints Ethernet headers.
--
-- Files, with the code that they model:
--   Base            shared names; the memory behind a pointer is a list of bytes, and an access
--                   out of range is the outcome `fault` (Memory), writes in place (Splice)
--   Checksum        router/netutil.c: checksum, checksum2, checkIPchecksum; Ones, Split and Header
--                   compare them with the ones' complement sum of RFC 1071
--   Device          router/base.h and the globals: DEVICE, IP2MAC, SEND_DATA, DATA_BUF, Ip2Macs,
--                   SendReq; Cmd is the state and fault monad, Returns its total correctness,
--                   Adds counts the requests that a command makes
--   SendBuf         router/sendBuf.c: AppendSendData, GetSendData, FreeSendData; Queue
--   Links           the linked lists with their pointers (Chain, Queue), and with them
--                   AppendSendData and GetSendData (Buffers), FreeSendData (Freed),
--                   AppendSendReqData and GetSendReqData (Requests)
--   SendReq         router/ip2mac.c: AppendSendReqData, GetSendReqData; Pending
--   Frame           the fields of a frame by their offsets
--   Arp             router/netutil.c: SendArpRequestB
--   Ip2Mac          router/ip2mac.c: Ip2MacSearch (its loop is `scan`, a round `visit`, what
--                   follows `settle`) and Ip2Mac; Scan, Table, Entry, Cache, Search, Hit and
--                   Adds hold proofs
--   Icmp            router/main.c: SendIcmpTimeExceeded; Reply
--   Forward         router/main.c: what AnalyzePacket writes into a frame; Rewritten, Result
--   Router          router/main.c: AnalyzePacket (analyze_packet, analyze_ip, analyze_arp, route,
--                   forward); Packet, Onward and Verdicts hold its cases, Loop is `Router`
--   Poll            what `poll` and `read` give to the loops of router/ and bridge/
--   Resend, Flush   router/ip2mac.c: BufferSendOne (Drained) and the inner loop of BufferSend
--                   (Served); Sound is about any entry, freed or not; Delivered and Waited join
--                   them with AnalyzePacket
--   State           the invariant of the shared state, and Ip2Mac over it; Kept is about what a
--                   step leaves alone
--   Netutil         router/netutil.c: InitRawSocket, GetDeviceInfo and, in Print, the printing;
--                   router/main.c: main up to the configuration of the devices (configure);
--                   Opened and Left are about the sockets, Configured about the configuration
--   Process         DisableIpForward, EndSignal, `signal` and `close` in the mains of router/ and
--                   bridge/; Closed
--   Threads         Router, the outer loop of BufferSend and EndSignal as steps, in any order;
--                   Progress, Shutdown and Ended are about their runs
--   Start           router/main.c: main, with its configuration and its threads; Exits
--   Text            the formats of fprintf and snprintf, and the texts of addresses:
--                   my_ether_ntoa_r, arp_ip2str, ip_ip2str; Numbers and Addresses read them back
--   Pcap            pcap/print.c (Print, Messages), pcap/checksum.c (Sums), pcap/analyze.c
--                   (Analyze), pcap/pcap.c (Capture)
--   Bridge          bridge/main.c: AnalyzePacket and Bridge (Frames), main (Program)
--   Listener        what main of ltest/ and pcap/ have in common; Started
--   Ltest           ltest/ltest.c; Heard
--   Tests           data and examples
--
-- The state of the router is a `World`: the two tables, the requests, and the frames handed to
-- `write`, oldest first. A pointer into `Ip2Macs` is an index. Linked lists are lists, from `top`
-- to `bottom`; Links has those of the queues and of the requests with their pointers. An
-- `in_addr_t` is the number that its bytes in memory make, little-endian. `time`, `malloc`,
-- `realloc` and the locks are the fields of `Env`, constant during one call of a function; the
-- calls on sockets and interfaces are the fields of `Kernel`. A free entry of the table may hold
-- any queue. What a program prints on `stdout` is the list of its bytes.
--
-- Bounds: sums of checksums are cut to 32 bits, counters of a queue to 64, a TTL to 8.
-- The carry loop of `checksum` has 2 rounds, which are enough for a 32-bit sum. The loop of
-- `BufferSendOne` has a number of turns, and one more than the frames that wait are enough. A
-- number is printed in at most 10 decimal or 8 hexadecimal digits, as many as 32 bits have.
-- The inner loop of `BufferSend` has a number of rounds, and one more than the requests are enough;
-- the search for a request takes a round for each, as does the loop that frees a queue. Where
-- `EndFlag` is set, `left` of Threads/Shutdown bounds the steps that remain.
--
-- A step of `Threads` is a turn of `poll`, one call of AnalyzePacket or of BufferSendOne, a wake-up
-- or the end of a thread, or the signal. What the system answers may differ from step to step. A
-- call that reads out of range is no step, since what follows it is not defined, and in a step of
-- `Router` a table can be allocated.
--
-- The bytes of a `DATA_BUF` are a part of it; only for `FreeSendData` (Links/Freed) they are a block
-- with an address of its own, allocated or freed.
--
-- Not modelled: the text of messages on `stderr`, but for those that `DebugOut` makes in the
-- bridge; the error numbers of `poll` and `read`; interleavings within a function, and so the locks
-- but for their failure; signals before their handlers are installed. The functions
-- `my_ether_ntoa_r` of bridge/ and ltest/ are that of pcap/print.c.
pub mod Base
pub mod Checksum
pub mod Device
pub mod SendBuf
pub mod SendReq
pub mod Frame
pub mod Arp
pub mod Icmp
pub mod State
pub mod Forward
pub mod Resend
pub mod Links
pub mod Start
pub mod Threads
pub mod Text
pub mod Router
pub mod Flush
pub mod Pcap
pub mod Poll
pub mod Process
pub mod Bridge
pub mod Netutil
pub mod Listener
pub mod Ltest
pub mod Ip2Mac
pub mod Tests

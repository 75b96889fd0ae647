-- ===== src/Pcap/Messages.antt =====
-- pcap/print.c: the text of ICMP, ICMPv6, TCP and UDP headers.
use Prim.Native.String.{String}
use c_router.Base.{
  ℕ, ◌/◌, ◌%◌, List, [], ◌∷◌, Bool, true, false, ◌||◌, leb, ◌==◌, if◌then◌else◌, Outcome, ok, ◌>>=◌,
}
use c_router.Frame.{u8, u16_net}
use c_router.Text.{codes, concat, dec}
use c_router.Pcap.Print.{u16_raw, label}

-- No comma stands between "Information Request" and "Information Reply", so they are one string.
abbrev pub icmp_type : List String
icmp_type =
    "Echo Reply" ∷ "undifined" ∷ "undifined" ∷ "Destination Unreachable" ∷ "Source Quench"
    ∷ "Redirect" ∷ "undifined" ∷ "undifined" ∷ "Echo Request" ∷ "Router Adverisment"
    ∷ "Router Selection" ∷ "Time Exceeded for Datagram" ∷ "Parameter Problem on Datagram"
    ∷ "Timestamp Request" ∷ "Timestamp Reply" ∷ "Information RequestInformation Reply"
    ∷ "Address Mask Request" ∷ "Address Mask Reply" ∷ []

-- The identifier and the sequence number, where the type has them.
unfoldable pub print_echo : Bool → String → String → List ℕ → Outcome (List ℕ)
print_echo false id_name seq_name icmp = ok []
print_echo true id_name seq_name icmp = do
  id ← u16_net icmp 4
  seq ← u16_net icmp 6
  ok (concat (codes id_name ∷ dec id ∷ codes ", " ∷ codes seq_name ∷ dec seq ∷ codes ", " ∷ []))

unfoldable pub print_icmp : List ℕ → Outcome (List ℕ)
print_icmp icmp = do
  type ← u8 icmp 0
  type_label ← label icmp_type 18 "undifined" type
  code ← u8 icmp 1
  cksum ← u16_net icmp 2
  echo ← print_echo (type == 0 || type == 8) "icmp_id=" "icmp_seq=" icmp
  ok (
      concat (
        codes "icmp-------------------------------\n"
        ∷ codes "icmp_type="
        ∷ dec type
        ∷ codes ", "
        ∷ codes "("
        ∷ type_label
        ∷ codes "), "
        ∷ codes "icmp_code="
        ∷ dec code
        ∷ codes ", "
        ∷ codes "icmp_cksum="
        ∷ dec cksum
        ∷ codes "\n"
        ∷ echo
        ∷ []))

-- The labels that `PrintIcmp6` has.
pub data Icmp6Kind : Type 0 where
  unreachable too_big time_exceeded parameter_problem echo_request echo_reply undefined : Icmp6Kind

abbrev pub kind_text : Icmp6Kind → String
kind_text unreachable = "(Destionation Unreachable), "
kind_text too_big = "(Packet too Big), "
kind_text time_exceeded = "(Time Exceeded), "
kind_text parameter_problem = "(Parameter Problem), "
kind_text echo_request = "(Echo Request), "
kind_text echo_reply = "(Echo Reply), "
kind_text undefined = "(undifined), "

-- The chain of tests on `icmp6_type`; two of them can never hold.
unfoldable pub icmp6_kind : ℕ → Icmp6Kind
icmp6_kind type =
    if leb type 1
    then unreachable
    else if leb type 1
    then undefined
    else if leb type 2
    then too_big
    else if leb type 3
    then time_exceeded
    else if leb type 4
    then parameter_problem
    else if leb type 128
    then echo_request
    else if leb type 128
    then echo_reply
    else undefined

unfoldable pub print_icmp6 : List ℕ → Outcome (List ℕ)
print_icmp6 icmp6 = do
  type ← u8 icmp6 0
  code ← u8 icmp6 1
  cksum ← u16_net icmp6 2
  echo ← print_echo (type == 128 || type == 129) "icmp6_id=" "icmp6_seq=" icmp6
  ok (
      concat (
        codes "icmp6------------------------------\n"
        ∷ codes "icmp6_type="
        ∷ dec type
        ∷ codes ", "
        ∷ codes (kind_text (icmp6_kind type))
        ∷ codes "icmp6_code="
        ∷ dec code
        ∷ codes ", "
        ∷ codes "icmp6_cksum="
        ∷ dec cksum
        ∷ codes "\n"
        ∷ echo
        ∷ []))

-- `ntohs` takes 16 of the 32 bits of `seq` and of `ack_seq`: those of the first two bytes.
unfoldable pub print_tcp : List ℕ → Outcome (List ℕ)
print_tcp tcphdr = do
  source ← u16_net tcphdr 0
  dest ← u16_net tcphdr 2
  seq ← u16_net tcphdr 4
  ack_seq ← u16_net tcphdr 8
  res_doff ← u8 tcphdr 12
  flags ← u8 tcphdr 13
  window ← u16_net tcphdr 14
  check ← u16_net tcphdr 16
  urg_ptr ← u16_net tcphdr 18
  ok (
      concat (
        codes "tcp--------------------------------\n"
        ∷ codes "source="
        ∷ dec source
        ∷ codes ", "
        ∷ codes "dest="
        ∷ dec dest
        ∷ codes "\n"
        ∷ codes "seq="
        ∷ dec seq
        ∷ codes "\n"
        ∷ codes "ack_seq="
        ∷ dec ack_seq
        ∷ codes "\n"
        ∷ codes "doff="
        ∷ dec (res_doff / 16)
        ∷ codes ", "
        ∷ codes "urg="
        ∷ dec (flags / 32 % 2)
        ∷ codes ", "
        ∷ codes "ack="
        ∷ dec (flags / 16 % 2)
        ∷ codes ", "
        ∷ codes "psh="
        ∷ dec (flags / 8 % 2)
        ∷ codes ", "
        ∷ codes "rst="
        ∷ dec (flags / 4 % 2)
        ∷ codes ", "
        ∷ codes "syn="
        ∷ dec (flags / 2 % 2)
        ∷ codes ", "
        ∷ codes "fin="
        ∷ dec (flags % 2)
        ∷ codes ", "
        ∷ codes "th_win="
        ∷ dec window
        ∷ codes "\n"
        ∷ codes "th_sum="
        ∷ dec check
        ∷ codes ", "
        ∷ codes "th_urp="
        ∷ dec urg_ptr
        ∷ codes "\n"
        ∷ []))

unfoldable pub print_udp : List ℕ → Outcome (List ℕ)
print_udp udphdr = do
  source ← u16_net udphdr 0
  dest ← u16_net udphdr 2
  len ← u16_raw udphdr 4
  check ← u16_net udphdr 6
  ok (
      concat (
        codes "udp--------------------------------\n"
        ∷ codes "source="
        ∷ dec source
        ∷ codes ", "
        ∷ codes "dest="
        ∷ dec dest
        ∷ codes "\n"
        ∷ codes "len="
        ∷ dec len
        ∷ codes ", "
        ∷ codes "check="
        ∷ dec check
        ∷ codes "\n"
        ∷ []))

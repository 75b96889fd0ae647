-- ===== src/Ltest.antt =====
-- ltest/ltest.c, which prints the ethernet header of each frame. The messages on `stderr` are left
-- out.
pub mod Heard
use c_router.Base.{
  ℕ, List, [], ◌∷◌, ◌++◌, Bool, false, leb, if◌then◌else◌, Outcome, ok, fault, ◌>>=◌, length, drop,
  overwrite,
}
use c_router.Frame.{sizeof_ether_header, u16_net}
use c_router.Text.{codes, concat, hex_upper, my_ether_ntoa_r}
use c_router.Pcap.Print.{protocol_label}
use c_router.Listener.{Status, run}
use c_router.Netutil.{Kernel, Sockets, Run, init_raw_socket as open_raw}

-- `InitRawSocket` of ltest.c, whose text is that of router/netutil.c.
pub init_raw_socket : Kernel → List ℕ → Bool → Bool → Run ℕ
init_raw_socket k device promisc_flag ip_only = open_raw k device promisc_flag ip_only

-- `PrintEtherHeader`
pub print_ether_header : List ℕ → Outcome (List ℕ)
print_ether_header eh = do
  dhost ← my_ether_ntoa_r eh 80
  shost ← my_ether_ntoa_r (drop 6 eh) 80
  ether_type ← u16_net eh 12
  ok (
      concat (
        codes "ether_header------------------------------------------\n"
        ∷ codes "ether_dhost = "
        ∷ dhost
        ∷ codes "\n"
        ∷ codes "ether_shost = "
        ∷ shost
        ∷ codes "\n"
        ∷ codes "ether_type = "
        ∷ hex_upper ether_type
        ∷ protocol_label ether_type
        ∷ []))

-- The loop of `main`, over what `read` gives: the bytes, none for an error. The text on `stdout`.
pub listen : List ℕ → List (List ℕ) → Outcome (List ℕ)
listen buf [] = ok []
listen buf ([] ∷ reads) = listen buf reads
listen buf ((x ∷ frame) ∷ reads) = do
  text ←
      (if leb sizeof_ether_header (length (x ∷ frame))
        then print_ether_header (overwrite buf (x ∷ frame))
        else ok [])
  more ← listen (overwrite buf (x ∷ frame)) reads
  ok (text ++ more)

-- `main`, of its arguments; the loop has no end, and `reads` is what it has read so far.
pub ltest_main :
    Kernel → List (List ℕ) → List ℕ → List (List ℕ) → Sockets → Outcome (Status × Sockets)
ltest_main k argv buf reads s =
    run (λ device. init_raw_socket k device false false) (listen buf reads) argv s

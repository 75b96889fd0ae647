-- ===== src/Pcap/Capture.antt =====
-- pcap/pcap.c: the socket, and the loop of `main` over the frames that come in. The messages on
-- `stderr` are left out.
use c_router.Base.{
  ℕ, List, [], ◌∷◌, ◌++◌, Bool, false, ltb, if◌then◌else◌, pos, minus_one, ◌≡◌, refl, Outcome, ok,
  ◌>>=◌, length, drop, overwrite,
}
use c_router.Listener.{Status, run}
use c_router.Listener.Started.{Starts, run-Starts}
use c_router.Netutil.{Kernel, Sockets, Run, init_raw_socket as open_raw}
use c_router.Text.{concat}
use c_router.Pcap.Analyze.{analyze_packet}
use c_router.Pcap.Analyze.Datagram.{IsDatagram}
use c_router.Pcap.Analyze.Capture.{packet_past, analyze_packet-returns}

-- `InitRawSocket` of pcap.c, whose text is that of router/netutil.c.
pub init_raw_socket : Kernel → List ℕ → Bool → Bool → Run ℕ
init_raw_socket k device promisc_flag ip_only = open_raw k device promisc_flag ip_only

-- The loop, over what `read` gives: the bytes, none for an error. The text on `stdout`.
unfoldable pub capture : List ℕ → List (List ℕ) → Outcome (List ℕ)
capture buf [] = ok []
capture buf ([] ∷ reads) = capture buf reads
capture buf ((x ∷ frame) ∷ reads) = do
  (code, text) ← analyze_packet (overwrite buf (x ∷ frame)) (pos (length (x ∷ frame)))
  more ← capture (overwrite buf (x ∷ frame)) reads
  ok (text ++ more)

-- Each frame, over what the buffer held before it, tells a total length that the buffer holds, and
-- is not one on which `AnalyzePacket` reads past the table of ICMP types.
abbrev pub AllHeld : List ℕ → List (List ℕ) → Type 0
AllHeld buf [] = Unit
AllHeld buf ([] ∷ reads) = AllHeld buf reads
AllHeld buf ((x ∷ frame) ∷ reads) =
    (IsDatagram (drop 14 (overwrite buf (x ∷ frame)))
      × (packet_past (overwrite buf (x ∷ frame)) (length (x ∷ frame)) ≡ false))
    × AllHeld (overwrite buf (x ∷ frame)) reads

-- The texts, one for each read that gives bytes, in the order of the reads: what `AnalyzePacket`
-- prints of these bytes, over what the buffer held before, and of their number. It returns -1 for
-- less than 14 bytes, and else 0.
abbrev pub AllShown : List ℕ → List (List ℕ) → List (List ℕ) → Type 0
AllShown buf [] [] = Unit
AllShown buf [] (text ∷ texts) = ⊥
AllShown buf ([] ∷ reads) texts = AllShown buf reads texts
AllShown buf ((x ∷ frame) ∷ reads) [] = ⊥
AllShown buf ((x ∷ frame) ∷ reads) (text ∷ texts) =
    (analyze_packet (overwrite buf (x ∷ frame)) (pos (length (x ∷ frame)))
      ≡ ok (if ltb (length (x ∷ frame)) 14 then minus_one else pos 0, text))
    × AllShown (overwrite buf (x ∷ frame)) reads texts

-- The loop prints one text for each frame.
capture-AllShown :
    (buf : List ℕ) (reads : List (List ℕ))
    → AllHeld buf reads
    → (texts : List (List ℕ)) × ((capture buf reads ≡ ok (concat texts)) × AllShown buf reads texts)
unfolding capture concat
capture-AllShown buf [] h = ([], (refl, tt))
capture-AllShown buf ([] ∷ reads) h = capture-AllShown buf reads h
capture-AllShown buf ((x ∷ frame) ∷ reads) h =
    let (text, e) = analyze_packet-returns (overwrite buf (x ∷ frame)) (length (x ∷ frame)) h.0.0 in
    let e' : analyze_packet (overwrite buf (x ∷ frame)) (pos (length (x ∷ frame)))
        ≡ ok (if ltb (length (x ∷ frame)) 14 then minus_one else pos 0, text) =
      rw h.0.1 at e in
    let (texts, (e1, shown)) = capture-AllShown (overwrite buf (x ∷ frame)) reads h.1 in
    (text ∷ texts, (rw (e', e1) refl, (e', shown)))

-- `main`, of its arguments; the loop has no end, and `reads` is what it has read so far.
pub pcap_main :
    Kernel → List (List ℕ) → List ℕ → List (List ℕ) → Sockets → Outcome (Status × Sockets)
pcap_main k argv buf reads s =
    run (λ device. init_raw_socket k device false false) (capture buf reads) argv s

-- `pcap` without a device returns 1 and opens nothing. With one it returns -1, with every socket
-- closed that it opened, or it reads from one socket, bound to the interface that its first argument
-- names, and what it has printed is, for each read that gave bytes and in their order, what
-- `AnalyzePacket` prints of it, whatever that returns. The frames tell total lengths that the buffer
-- holds, and none is one on which `AnalyzePacket` reads past the table of ICMP types.
pub pcap_main-Starts :
    (k : Kernel) (argv : List (List ℕ)) (buf : List ℕ) (reads : List (List ℕ)) (s : Sockets)
    → AllHeld buf reads
    → (texts : List (List ℕ)) × (AllShown buf reads texts
        × Starts k (concat texts) argv s (pcap_main k argv buf reads s))
unfolding pcap_main init_raw_socket
pcap_main-Starts k argv buf reads s h =
    let (texts, (e, shown)) = capture-AllShown buf reads h in
    (texts, (shown, run-Starts k (concat texts) (capture buf reads) argv s e))

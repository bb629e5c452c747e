-- ===== src/Capture/Delivery.antt =====
-- From the handshake on the wire to the numbers of the fake: the capture and the tracker together.
use gecit_unofficial.Base.{
  ℕ, ◌≡◌, refl, ◌≢◌, inl, inr, true, Option, none, some, List, [], ◌∷◌, ◌++◌, arith, ◌==◌,
  if◌then◌else◌, Bool-cases, ◌+◌, ◌<◌, ap, ◌∙◌, ok, All, u32,
}
use gecit_unofficial.Capture.Fresh.{
  newest, load-delete_port, load-store_all, IsQuiet, store_rounds, wait-quiet,
}
use gecit_unofficial.Rawsock.Packet.{ConnInfo}
use gecit_unofficial.Capture.Packet.{
  Captured, has_port, Handshake, syn_ack, first_segment, capture_packet-syn_ack, captured,
  captured-append, captured-some,
}
use gecit_unofficial.Capture.Tracker.{
  Conns, load, delete_port, store_all, Poll, wait_for_seq_ack, seq_ack_timeout, numbers_after,
  get_seq_ack,
}

newest_kept :
    (port : ℕ) (known : Option ConnInfo) (evts : List ConnInfo)
    → newest port none evts ≡ none
    → newest port known evts ≡ known
newest_kept port known [] h = refl
newest_kept port known (evt ∷ evts) h = elim (Bool-cases (evt.src_port == port)) [
  | inl same ↦ absurd (newest_some port evt evts (rw same at h))
  | inr other ↦ rw other (newest_kept port known evts (rw other at h))
]
  where
    newest_some :
        (port : ℕ) (e : ConnInfo) (evts : List ConnInfo) → newest port (some e) evts ≢ none
    newest_some port e [] = λ k. cc
    newest_some port e (evt ∷ evts) = elim (Bool-cases (evt.src_port == port)) [
      | inl same ↦ rw same (newest_some port evt evts)
      | inr other ↦ rw other (newest_some port e evts)
    ]

newest_last :
    (port : ℕ) (known : Option ConnInfo) (before after : List ConnInfo) (evt : ConnInfo)
    → evt.src_port ≡ port
    → newest port none after ≡ none
    → newest port known (before ++ evt ∷ after) ≡ some evt
newest_last port known [] after evt same h =
    let e : (evt.src_port == port) ≡ true = ground (arith, same) in
    rw (newest, e) (newest_kept port (some evt) after h)
newest_last port known (b ∷ before) after evt same h =
    newest_last port (if b.src_port == port then some b else known) before after evt same h

-- A tracker with no entry for the connection's port, asked after the handshake: where the rounds
-- before are quiet and the round that captures the server's SYN-ACK (with any other traffic before
-- it, and none for the port behind it) comes within 500 ms, GetSeqAck gives the sequence numbers of
-- the client's first data segment, and the entry is gone again.
pub get_seq_ack-first_segment :
    (ports : List ℕ) (h : Handshake) (cs : Conns) (asked : ℕ) (quiet rest : List Poll) (now : ℕ)
    (before after : List Captured)
    → h.server_port ≡ 443
    → has_port 443 ports ≡ true
    → load h.client_port cs ≡ none
    → All (IsQuiet h.client_port (asked + seq_ack_timeout)) quiet
    → now < asked + seq_ack_timeout
    → newest h.client_port none (captured ports after) ≡ none
    → (left : Conns) × (get_seq_ack (some cs) (some h.client_port) asked (
          quiet
          ++ record { now = now; arrivals = captured ports (before ++ syn_ack h ∷ after) } ∷ rest)
        ≡ ok ((u32 (h.client_isn + 1), u32 (h.server_isn + 1)), some left))
      × (load h.client_port left ≡ none)
unfolding get_seq_ack wait_for_seq_ack captured
get_seq_ack-first_segment ports h cs asked quiet rest now before after to_443 on clean q early
      none_after =
    let (same, still) =
      wait-quiet cs h.client_port (asked + seq_ack_timeout) quiet
        (record { now = now; arrivals = captured ports (before ++ syn_ack h ∷ after) } ∷ rest) clean
        q in
    let stored = store_all (store_rounds cs quiet) (captured ports (before ++ syn_ack h ∷ after)) in
    let evts : captured ports (before ++ syn_ack h ∷ after)
        ≡ captured ports before ++ first_segment h ∷ captured ports after =
      captured-append ports before (syn_ack h ∷ after)
      ∙ ap (◌++◌ (captured ports before)) (
          captured-some ports (syn_ack h) after (first_segment h)
            (capture_packet-syn_ack ports h to_443 on)) in
    let found : load h.client_port stored ≡ some (first_segment h) =
      load-store_all h.client_port (store_rounds cs quiet)
        (captured ports (before ++ syn_ack h ∷ after))
      ∙ rw evts (
          newest_last h.client_port (load h.client_port (store_rounds cs quiet))
            (captured ports before) (captured ports after) (first_segment h) refl none_after) in
    let answered : wait_for_seq_ack (store_rounds cs quiet) h.client_port (asked + seq_ack_timeout)
          (record { now = now; arrivals = captured ports (before ++ syn_ack h ∷ after) } ∷ rest)
        ≡ ok (some (first_segment h), delete_port h.client_port stored) =
      ground (arith, early, found) in
    (
      delete_port h.client_port stored,
      ap numbers_after (same ∙ answered),
      load-delete_port h.client_port stored,
    )

-- An entry that an earlier connection of the same local port has left is handed out at once: if
-- no SYN-ACK for the port has come since, and the first round is within the 500 ms, GetSeqAck
-- gives the old numbers there, whatever the connection's own handshake was, and removes the
-- entry.
pub get_seq_ack_stale :
    (cs : Conns) (port : ℕ) (old : ConnInfo) (asked : ℕ) (p : Poll) (rest : List Poll)
    → load port cs ≡ some old
    → p.now < asked + seq_ack_timeout
    → newest port none p.arrivals ≡ none
    → get_seq_ack (some cs) (some port) asked (p ∷ rest)
      ≡ ok ((old.seq, old.ack), some (delete_port port (store_all cs p.arrivals)))
unfolding get_seq_ack wait_for_seq_ack
get_seq_ack_stale cs port old asked p rest held early quiet =
    let found : load port (store_all cs p.arrivals) ≡ some old =
      load-store_all port cs p.arrivals ∙ rw held (newest_kept port (some old) p.arrivals quiet) in
    let answered : wait_for_seq_ack cs port (asked + seq_ack_timeout) (p ∷ rest)
        ≡ ok (some old, delete_port port (store_all cs p.arrivals)) =
      ground (arith, early, found) in
    ap numbers_after answered

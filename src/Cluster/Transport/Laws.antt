-- ===== src/Cluster/Transport/Laws.antt =====
-- src/lex/distributed/srd_transport.cpp: a message arrives whole, whatever the order of its packets.
use green_gate.Base.{
  ℕ, ◌+◌, ◌*◌, ◌%◌, ◌^◌, ◌≤◌, ◌<◌, ◌≡◌, refl, sym, ap, subst, ◌∙◌, ◌≢◌, inl, true, false, none,
  List, [], ◌∷◌, ◌++◌, arith, length, set, get_or, replicate, concat, All, IsDistinct, ◌==◌,
  ==_self, ==_iff, length-replicate,
}
use green_gate.Base.Assoc.{lookup, insert, nat_eq, lookup-insert, lookup-insert_self, lookup-erase}
use green_gate.Cluster.{ShuffleEntry}
use green_gate.Cluster.Transport.{
  SrdHeader, MessageReconstruction, Receiver, packet_count, fragment, packet, send_packets,
  recon_key, open_message, add_packet, store_message, receive, receive_all,
}
use green_gate.Cluster.Transport.Slots.{filled-replicate, get_or-replicate}
use green_gate.Cluster.Transport.Steps.{
  IsPending, receive-whole, add_packet-new, open_message-total, open_message-some, filled_in,
  whole-message, ne_test, IsPending-step, All-awaited, packet_count-pos,
}

module _ (node_id msg_id : ℕ) (entries : List ShuffleEntry)
    (small : packet_count entries < 2 ^ 32) where
  -- The header of packet `p`, and the key of the message.
  abbrev pub head_of : ℕ → SrdHeader
  head_of p = (packet node_id msg_id entries p).header

  abbrev pub key : ℕ
  key = recon_key (head_of 0)

  -- What the receiver finds when a packet of the message comes.
  abbrev found : Receiver → MessageReconstruction
  found r = open_message (lookup key r.recon_buffers) (head_of 0)

  -- The receiver with the bytes of packet `p` counted.
  abbrev counting : Receiver → ℕ → Receiver
  counting r p = record r {
    total_bytes_received =
        (r.total_bytes_received + (20 + length (fragment entries p) * 24)) % 2 ^ 64;
  }

  receive-packet :
      (r : Receiver) (p : ℕ)
      → p < packet_count entries
      → (found r).total_packets ≡ packet_count entries
      → get_or (found r).packets p [] ≡ []
      → receive (packet node_id msg_id entries p) r
        ≡ store_message key (filled_in entries (found r) p, true) (counting r p)
  unfolding packet recon_key
  receive-packet r p lt total e =
      let pkt = packet node_id msg_id entries p in
      let whole : 20 + pkt.header.payload_len ≤ pkt.received = omega arith in
      let same : open_message (lookup key r.recon_buffers) pkt.header ≡ found r =
        open_message-total (lookup key r.recon_buffers) pkt.header (head_of 0) refl in
      let seq : pkt.header.packet_seq ≡ p = omega arith in
      let below : pkt.header.packet_seq < (found r).total_packets = omega (arith, seq, total) in
      let empty : get_or (found r).packets pkt.header.packet_seq [] ≡ [] =
        ap (λ i. get_or (found r).packets i []) seq ∙ e in
      receive-whole pkt r whole
      ∙ ap (λ m. store_message key (add_packet m pkt) (counting r p)) same
      ∙ ap (λ x. store_message key x (counting r p)) (add_packet-new (found r) pkt below empty)
      ∙ ap
          (λ i.
            store_message key
              (
                record (found r) {
                  packets_received = ((found r).packets_received + 1) % 2 ^ 32;
                  packets = set (found r).packets i (fragment entries p);
                },
                true,
              )
              (counting r p))
          seq

  -- What a delivery leaves: the message at the end of the results, its buffer gone, all other
  -- buffers as they were.
  abbrev pub IsDelivered : Receiver → Receiver → Type 0
  IsDelivered r r' =
      (r'.completed_messages ≡ r.completed_messages ++ entries ∷ [])
      × (lookup key r'.recon_buffers ≡ none)
      × ((j : ℕ) → key ≢ j → lookup j r'.recon_buffers ≡ lookup j r.recon_buffers)

  store-last :
      (msg : MessageReconstruction) (r : Receiver)
      → IsPending entries [] msg
      → IsDelivered r (store_message key (msg, true) r)
  unfolding store_message
  store-last msg r h =
      let full : (msg.packets_received == msg.total_packets) ≡ true =
        (==_iff msg.packets_received msg.total_packets).1 (omega (arith, h.missing, h.total)) in
      let whole : concat msg.packets ≡ entries =
        whole-message entries msg.packets h.slots (h.counted ∙ omega (arith, h.missing)) h.held in
      (
        rw (full, whole) refl,
        rw (full, lookup-erase key key r.recon_buffers, ==_self key) refl,
        λ j ne. rw (full, lookup-erase key j r.recon_buffers, ne_test entries key j ne) refl,
      )

  store-more :
      (msg : MessageReconstruction) (r : Receiver)
      → msg.packets_received < msg.total_packets
      → store_message key (msg, true) r
        ≡ record r { recon_buffers = insert key msg r.recon_buffers }
  unfolding store_message
  store-more msg r lt =
      let more : (msg.packets_received == msg.total_packets) ≡ false = ground arith in rw (more)

  deliver :
      (p : ℕ) (ps : List ℕ) (r : Receiver)
      → IsDistinct (p ∷ ps)
      → IsPending entries (p ∷ ps) (found r)
      → IsDelivered r (receive_all (send_packets node_id msg_id entries (p ∷ ps)) r)
  unfolding receive_all send_packets
  deliver p [] r d h =
      let got = receive-packet r p h.awaited.0.0 h.total h.awaited.0.1 in
      subst (IsDelivered r) (sym got) (
        store-last (filled_in entries (found r) p) (counting r p)
          (IsPending-step entries p [] (found r) small d h))
  deliver p (q ∷ ps) r d h =
      let msg = filled_in entries (found r) p in
      let next = IsPending-step entries p (q ∷ ps) (found r) small d h in
      let r' : Receiver = record (counting r p) {
        recon_buffers = insert key msg r.recon_buffers;
      } in
      let got : receive (packet node_id msg_id entries p) r ≡ r' =
        receive-packet r p h.awaited.0.0 h.total h.awaited.0.1
        ∙ store-more msg (counting r p) (omega (arith, next.missing, next.total)) in
      let same : found r' ≡ msg =
        ap (λ o. open_message o (head_of 0)) (lookup-insert_self key msg r.recon_buffers)
        ∙ open_message-some msg (head_of 0) (omega (arith, next.total, next.missing)) in
      let rest = deliver q ps r' d.1 (subst (IsPending entries (q ∷ ps)) (sym same) next) in
      subst (λ x. IsDelivered r (receive_all (send_packets node_id msg_id entries (q ∷ ps)) x))
        (sym got)
        (
          rest.0,
          rest.1,
          λ j ne.
              rest.2 j ne ∙ lookup-insert key j msg r.recon_buffers ∙ rw (ne_test entries key j ne),
        )

  -- A message whose key has no buffer starts with all its packets missing.
  IsPending-start :
      (order : List ℕ) (r : Receiver)
      → length order ≡ packet_count entries
      → All (λ p. p < packet_count entries) order
      → lookup key r.recon_buffers ≡ none
      → IsPending entries order (found r)
  unfolding open_message packet
  IsPending-start order r len below none_yet =
      let fits : packet_count entries % 2 ^ 32 ≡ packet_count entries = omega arith in
      let fresh : MessageReconstruction = record {
        total_packets = packet_count entries;
        packets_received = 0;
        packets = replicate {A = List ShuffleEntry} (packet_count entries) [];
      } in
      let start : found r ≡ fresh =
        ap (λ o. open_message o (head_of 0)) none_yet
        ∙ ap (λ n. record { total_packets = n; packets_received = 0; packets = replicate n [] })
            fits in
      subst (IsPending entries order) (sym start) (record {
        total = refl;
        slots = length-replicate (packet_count entries) [];
        missing = omega (arith, len);
        counted = filled-replicate ShuffleEntry (packet_count entries);
        awaited = All-awaited entries order below;
        held = λ i. inl (get_or-replicate (packet_count entries) i);
      })

  -- Whatever the order in which the packets of a message of at least one entry and fewer than 2 ^ 32
  -- packets come, when each comes once and no buffer is open for the message, the receiver hands the
  -- entries out once, as they were sent, closes the message's buffer and changes no other.
  pub receive_all-send_packets :
      (order : List ℕ) (r : Receiver)
      → 0 < length entries
      → IsDistinct order
      → length order ≡ packet_count entries
      → All (λ p. p < packet_count entries) order
      → lookup key r.recon_buffers ≡ none
      → IsDelivered r (receive_all (send_packets node_id msg_id entries order) r)
  receive_all-send_packets [] r some_entries d len below none_yet =
      absurd (omega (arith, packet_count-pos entries some_entries, len))
  receive_all-send_packets (p ∷ ps) r some_entries d len below none_yet =
      deliver p ps r d (IsPending-start (p ∷ ps) r len below none_yet)

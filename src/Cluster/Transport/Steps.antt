-- ===== src/Cluster/Transport/Steps.antt =====
-- src/lex/distributed/srd_transport.cpp: what one packet does to the message it belongs to.
use green_gate.Base.{
  ℕ, ◌+◌, ◌%◌, ◌^◌, ◌≤◌, ◌<◌, ◌≡◌, sym, ap, subst, ◌∙◌, ◌≢◌, ◌⊎◌, inl, inr, true, false, Option,
  none, some, List, [], ◌∷◌, arith, length, set, get_or, replicate, concat, All, IsDistinct, ltb,
  lt→ltb, ◌==◌, ==_iff, Bool-cases, length-set, get_or-set_self, get_or-set_ne,
}
use green_gate.Base.Assoc.{lookup, nat_eq}
use green_gate.Cluster.{ShuffleEntry}
use green_gate.Cluster.Transport.{
  Packet, SrdHeader, MessageReconstruction, Receiver, header_size, packet_count, fragment,
  recon_key, open_message, add_packet, store_message, receive,
}
use green_gate.Cluster.Transport.Slots.{
  filled, get_or-replicate, filled-set, filled-all, length-fragment, concat-fragments,
}

-- A message whose packets of `order` are missing and whose others have come.
pub record IsPending (entries : List ShuffleEntry) (order : List ℕ) (msg : MessageReconstruction)
    : Type 0 where
  pub total : msg.total_packets ≡ packet_count entries
  pub slots : length msg.packets ≡ packet_count entries
  pub missing : msg.packets_received + length order ≡ packet_count entries
  pub counted : filled msg.packets ≡ msg.packets_received
  pub awaited : All (λ p. (p < packet_count entries) × (get_or msg.packets p [] ≡ [])) order
  pub held :
      (i : ℕ) → (get_or msg.packets i [] ≡ []) ⊎ (get_or msg.packets i [] ≡ fragment entries i)

-- A whole datagram is added to its message.
pub receive-whole :
    (pkt : Packet) (r : Receiver)
    → header_size + pkt.header.payload_len ≤ pkt.received
    → receive pkt r
      ≡ store_message
          (recon_key pkt.header)
          (add_packet (open_message (lookup (recon_key pkt.header) r.recon_buffers) pkt.header) pkt)
          (record r { total_bytes_received = (r.total_bytes_received + pkt.received) % 2 ^ 64 })
unfolding receive
receive-whole pkt r h =
    let short : ltb pkt.received 20 ≡ false = ground arith in
    let cut : ltb pkt.received (20 + pkt.header.payload_len) ≡ false = ground arith in
    rw (short, cut)

-- The first packet of its number fills its slot.
pub add_packet-new :
    (msg : MessageReconstruction) (pkt : Packet)
    → pkt.header.packet_seq < msg.total_packets
    → get_or msg.packets pkt.header.packet_seq [] ≡ []
    → add_packet msg pkt ≡ (
      record msg {
        packets_received = (msg.packets_received + 1) % 2 ^ 32;
        packets = set msg.packets pkt.header.packet_seq pkt.payload;
      },
      true,
    )
unfolding add_packet
add_packet-new msg pkt lt e = rw (lt→ltb pkt.header.packet_seq msg.total_packets lt, e)

-- The header of a packet of a message matters by its number of packets only.
pub open_message-total :
    (o : Option MessageReconstruction) (g h : SrdHeader)
    → g.total_packets ≡ h.total_packets
    → open_message o g ≡ open_message o h
unfolding open_message
open_message-total none g h e = rw e
open_message-total (some msg) g h e = rw e

pub open_message-some :
    (msg : MessageReconstruction) (h : SrdHeader)
    → 0 < msg.total_packets
    → open_message (some msg) h ≡ msg
unfolding open_message
open_message-some msg h lt = let used : (msg.total_packets == 0) ≡ false = ground arith in rw (used)

module _ (entries : List ShuffleEntry) where
  pub nonempty-fragment : (p : ℕ) → p < packet_count entries → 0 < length (fragment entries p)
  unfolding packet_count
  nonempty-fragment p h = omega (arith, length-fragment entries p)

  -- The message after its packet `p`.
  abbrev pub filled_in : MessageReconstruction → ℕ → MessageReconstruction
  filled_in msg p = record msg {
    packets_received = (msg.packets_received + 1) % 2 ^ 32;
    packets = set msg.packets p (fragment entries p);
  }

  -- Slots of which all are filled make the message.
  pub whole-message :
      (slots : List (List ShuffleEntry))
      → length slots ≡ packet_count entries
      → filled slots ≡ packet_count entries
      → ((i : ℕ) → (get_or slots i [] ≡ []) ⊎ (get_or slots i [] ≡ fragment entries i))
      → concat slots ≡ entries
  unfolding packet_count
  whole-message slots len full held =
      concat-fragments entries slots 0
        (λ i lt. elim (held i) [
          | inl e ↦ absurd (filled-all slots i (omega arith) lt e)
          | inr e ↦ e ∙ ap (fragment entries) (omega arith)
        ])
        (omega arith)

  still-awaited :
      (p : ℕ) (ps : List ℕ) (slots : List (List ShuffleEntry))
      → All (λ q. p ≢ q) ps
      → All (λ q. (q < packet_count entries) × (get_or slots q [] ≡ [])) ps
      → All
          (λ q. (q < packet_count entries) × (get_or (set slots p (fragment entries p)) q [] ≡ []))
          ps
  still-awaited p [] slots d h = h
  still-awaited p (q ∷ ps) slots d h = (
    (h.0.0, get_or-set_ne slots p q (fragment entries p) [] d.0 ∙ h.0.1),
    still-awaited p ps slots d.1 h.1,
  )

  eq-cases : (m n : ℕ) → (m ≡ n) ⊎ (m ≢ n)
  eq-cases m n = elim (Bool-cases (m == n)) [
    | inl e ↦ inl ((==_iff m n).0 e)
    | inr e ↦ inr (λ same. ground (arith, e, (==_iff m n).1 same))
  ]

  still-held :
      (p : ℕ) (slots : List (List ShuffleEntry))
      → p < length slots
      → ((i : ℕ) → (get_or slots i [] ≡ []) ⊎ (get_or slots i [] ≡ fragment entries i))
      → (i : ℕ)
      → (get_or (set slots p (fragment entries p)) i [] ≡ [])
        ⊎ (get_or (set slots p (fragment entries p)) i [] ≡ fragment entries i)
  still-held p slots lt held i = elim (eq-cases p i) [
    | inl e ↦ inr (
        subst (λ j. get_or (set slots p (fragment entries p)) j [] ≡ fragment entries j) e
          (get_or-set_self slots p (fragment entries p) [] lt))
    | inr ne ↦
        subst (λ x. (x ≡ []) ⊎ (x ≡ fragment entries i))
          (sym (get_or-set_ne slots p i (fragment entries p) [] ne)) (held i)
  ]

  -- One more packet.
  pub IsPending-step :
      (p : ℕ) (ps : List ℕ) (msg : MessageReconstruction)
      → packet_count entries < 2 ^ 32
      → IsDistinct (p ∷ ps)
      → IsPending entries (p ∷ ps) msg
      → IsPending entries ps (filled_in msg p)
  IsPending-step p ps msg small d h = record {
    total = h.total;
    slots = length-set msg.packets p (fragment entries p) ∙ h.slots;
    missing = omega (arith, h.missing);
    counted =
        filled-set msg.packets p (fragment entries p) (omega (arith, h.slots, h.awaited.0.0))
          h.awaited.0.1 (nonempty-fragment p h.awaited.0.0)
        ∙ omega (arith, h.counted, h.missing);
    awaited = still-awaited p ps msg.packets d.0 h.awaited.1;
    held = still-held p msg.packets (omega (arith, h.slots, h.awaited.0.0)) h.held;
  }

  pub ne_test : (m n : ℕ) → m ≢ n → (m == n) ≡ false
  ne_test m n ne = ground (arith, ne)

  pub All-awaited :
      (order : List ℕ)
      → All (λ p. p < packet_count entries) order
      → All
          (λ p.
            (p < packet_count entries)
            × (get_or (replicate {A = List ShuffleEntry} (packet_count entries) []) p [] ≡ []))
          order
  All-awaited [] h = h
  All-awaited (p ∷ ps) h = ((h.0, get_or-replicate (packet_count entries) p), All-awaited ps h.1)

  pub packet_count-pos : 0 < length entries → 0 < packet_count entries
  unfolding packet_count
  packet_count-pos h = omega arith

-- ===== src/Cluster/Transport/Tests.antt =====
-- Messages sent and received.
use green_gate.Base.{ℕ, ◌+◌, ◌≡◌, refl, arith, none, List, [], ◌∷◌}
use green_gate.Base.Assoc.{lookup, insert, erase, nat_eq}
use green_gate.Cluster.{ShuffleEntry}
use green_gate.Cluster.Transport.{
  Receiver, packet_count, fragment, packet, send_packets, recon_key, open_message, add_packet,
  store_message, receive, receive_all,
}
use green_gate.Cluster.Transport.Laws.{receive_all-send_packets, IsDelivered}

abbrev entry_of : ℕ → ShuffleEntry
entry_of n = record { sig = record { kim = n; xor_sum = n + 1 }; row_id = n + 2 }

abbrev seven : List ShuffleEntry
seven =
    entry_of 1 ∷ entry_of 2 ∷ entry_of 3 ∷ entry_of 4 ∷ entry_of 5 ∷ entry_of 6 ∷ entry_of 7 ∷ []

abbrev idle : Receiver
idle = record { recon_buffers = []; completed_messages = []; total_bytes_received = 0 }

no_buffer : lookup (recon_key (packet 1 9 seven 0).header) idle.recon_buffers ≡ none
unfolding lookup
no_buffer = refl

seven-count : packet_count seven ≡ 2
unfolding packet_count
seven-count = refl

-- Two packets, the second first.
receive_all-send_packets_example :
    IsDelivered 1 9 seven
      (omega (arith, seven-count))
      idle
      (receive_all (send_packets 1 9 seven (1 ∷ 0 ∷ [])) idle)
receive_all-send_packets_example =
    receive_all-send_packets 1 9 seven (omega (arith, seven-count)) (1 ∷ 0 ∷ []) idle (omega arith)
      ((λ e. omega (arith, e), tt), (tt, tt)) (omega (arith, seven-count))
      (omega (arith, seven-count), (omega (arith, seven-count), tt)) no_buffer

-- A message of one packet that the network repeats is handed out twice.
receive_twice :
    (receive_all (send_packets 1 9 (entry_of 1 ∷ []) (0 ∷ 0 ∷ [])) idle).completed_messages
    ≡ (entry_of 1 ∷ []) ∷ (entry_of 1 ∷ []) ∷ []
unfolding receive_all receive send_packets packet packet_count fragment recon_key open_message
    add_packet store_message lookup insert erase
receive_twice = refl

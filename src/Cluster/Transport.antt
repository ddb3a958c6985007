-- ===== src/Cluster/Transport.antt =====
-- src/lex/distributed/srd_transport.cpp: a message is cut into packets of five entries, which the
-- network may reorder, lose or repeat, and is put together again by the receiver. The payload of a
-- packet is the list of its entries; the random order of sending is the order of the datagrams.
pub mod Slots
pub mod Steps
pub mod Laws
mod Tests
use green_gate.Base.{
  ℕ, zero, suc, ◌+◌, ◌-◌, ◌*◌, ◌/◌, ◌%◌, ◌^◌, min, bit_or, Bool, true, false, ◌&&◌, Option, none,
  some, List, [], ◌∷◌, ◌++◌, leb, ltb, ◌==◌, if◌then◌else◌, length, take, drop, replicate, set,
  get_or, concat,
}
use green_gate.Base.Assoc.{lookup, insert, erase, nat_eq}
use green_gate.Cluster.{ShuffleEntry}

pub record SrdHeader : Type 0 where
  pub sender_node_id : ℕ
  pub msg_id : ℕ
  pub packet_seq : ℕ
  pub total_packets : ℕ
  pub payload_len : ℕ

-- `received` is the number of bytes that `recvfrom` returned.
pub record Packet : Type 0 where
  pub received : ℕ
  pub header : SrdHeader
  pub payload : List ShuffleEntry

-- `sizeof(SrdHeader)` and `sizeof(ShuffleEntry)`.
abbrev pub header_size : ℕ
header_size = 20

abbrev pub entry_size : ℕ
entry_size = 24

abbrev pub entries_per_packet : ℕ
entries_per_packet = 5

unfoldable pub packet_count : List ShuffleEntry → ℕ
packet_count entries = (length entries + entries_per_packet - 1) / entries_per_packet

-- The entries of packet `p`.
unfoldable pub fragment : List ShuffleEntry → ℕ → List ShuffleEntry
fragment entries p =
    let start_idx = p * entries_per_packet in
    let end_idx = min (start_idx + entries_per_packet) (length entries) in
    take (end_idx - start_idx) (drop start_idx entries)

-- Packet `p` of a message.
unfoldable pub packet : ℕ → ℕ → List ShuffleEntry → ℕ → Packet
unfolding fragment packet_count
packet node_id msg_id entries p =
    let payload = fragment entries p in
    let payload_len = length payload * entry_size in
    record {
      received = header_size + payload_len;
      header = record {
        sender_node_id = node_id % 2 ^ 32;
        msg_id = msg_id;
        packet_seq = p % 2 ^ 32;
        total_packets = packet_count entries % 2 ^ 32;
        payload_len = payload_len % 2 ^ 32;
      };
      payload = payload;
    }

-- The packets of a message in the order in which they are sent: a random permutation of the
-- numbers below `packet_count entries`.
unfoldable pub send_packets : ℕ → ℕ → List ShuffleEntry → List ℕ → List Packet
unfolding packet
send_packets node_id msg_id entries [] = []
send_packets node_id msg_id entries (p ∷ packet_indices) =
    packet node_id msg_id entries p ∷ send_packets node_id msg_id entries packet_indices

pub record MessageReconstruction : Type 0 where
  pub total_packets : ℕ
  pub packets_received : ℕ
  pub packets : List (List ShuffleEntry)

pub record Receiver : Type 0 where
  pub recon_buffers : List (ℕ × MessageReconstruction)
  pub completed_messages : List (List ShuffleEntry)
  pub total_bytes_received : ℕ

unfoldable pub recon_key : SrdHeader → ℕ
recon_key h = bit_or (h.sender_node_id * 2 ^ 32 % 2 ^ 64) h.msg_id

-- `recon_buffers_[recon_key]`, which makes an empty entry on a new key, and its first use.
unfoldable pub open_message : Option MessageReconstruction → SrdHeader → MessageReconstruction
open_message none h = record {
  total_packets = h.total_packets;
  packets_received = 0;
  packets = replicate h.total_packets [];
}
open_message (some msg) h =
    if msg.total_packets == 0
    then record msg {
      total_packets = h.total_packets;
      packets =
          take h.total_packets msg.packets ++ replicate (h.total_packets - length msg.packets) [];
    }
    else msg

abbrev pub is_empty {ℓ} : {A : Type ℓ} → List A → Bool
is_empty [] = true
is_empty (x ∷ xs) = false

-- The message with one more packet, and whether that packet was new.
unfoldable pub add_packet : MessageReconstruction → Packet → MessageReconstruction × Bool
add_packet msg pkt =
    let seq = pkt.header.packet_seq in
    if ltb seq msg.total_packets && is_empty (get_or msg.packets seq [])
    then (
      record msg {
        packets_received = (msg.packets_received + 1) % 2 ^ 32;
        packets = set msg.packets seq pkt.payload;
      },
      true,
    )
    else (msg, false)

-- What follows a packet: a complete message moves to the results.
unfoldable pub store_message : ℕ → MessageReconstruction × Bool → Receiver → Receiver
store_message key (msg, added) r =
    if added && msg.packets_received == msg.total_packets
    then record r {
      recon_buffers = erase key r.recon_buffers;
      completed_messages = r.completed_messages ++ concat msg.packets ∷ [];
    }
    else record r { recon_buffers = insert key msg r.recon_buffers }

-- One round of `ReceiverLoop` that got a datagram.
unfoldable pub receive : Packet → Receiver → Receiver
unfolding recon_key open_message add_packet store_message
receive pkt r =
    if ltb pkt.received header_size
    then r
    else (let r' = record r {
      total_bytes_received = (r.total_bytes_received + pkt.received) % 2 ^ 64;
    } in
        if ltb pkt.received (header_size + pkt.header.payload_len)
        then r'
        else (let key = recon_key pkt.header in
            let msg = open_message (lookup key r'.recon_buffers) pkt.header in
            store_message key (add_packet msg pkt) r'))

unfoldable pub receive_all : List Packet → Receiver → Receiver
unfolding receive
receive_all [] r = r
receive_all (pkt ∷ pkts) r = receive_all pkts (receive pkt r)

-- `ReceiveAll`: hands out the completed messages and forgets them.
unfoldable pub take_completed : Receiver → List (List ShuffleEntry) × Receiver
take_completed r = (r.completed_messages, record r { completed_messages = [] })

-- ===== src/Cluster/RowId.antt =====
-- `PackRowId` and `UnpackRowId` of src/lex/distributed/distributed_coordinator.cpp.
mod Tests
use green_gate.Base.{
  ℕ, ◌+◌, ◌*◌, ◌/◌, ◌%◌, ◌^◌, ◌<◌, ◌≡◌, ◌≢◌, ◌≤◌, ap, ap₂, ◌∙◌, bit_and, bit_or, arith,
}
use green_gate.Base.Bits.{bit_or_fields, bit_and_mask, bit_or-lt}

-- `(node_id << 24) | (batch_idx << 12) | row_idx`, in 32 bits.
unfoldable pub pack_row_id : ℕ → ℕ → ℕ → ℕ
pack_row_id node_id batch_idx row_idx =
    bit_or (bit_or (node_id * 2 ^ 24 % 2 ^ 32) (batch_idx * 2 ^ 12 % 2 ^ 32)) row_idx

pub record RowId : Type 0 where
  pub node_id : ℕ
  pub batch_idx : ℕ
  pub row_idx : ℕ

unfoldable pub unpack_row_id : ℕ → RowId
unpack_row_id packed = record {
  node_id = packed / 2 ^ 24;
  batch_idx = bit_and (packed / 2 ^ 12) 0xFFF;
  row_idx = bit_and packed 0xFFF;
}

-- A number with the three fields in range.
pub record InRange (n b r : ℕ) : Type 0 where
  pub node_range : n < 256
  pub batch_range : b < 4096
  pub row_range : r < 4096

pack_as_sum : (n b r : ℕ) → InRange n b r → pack_row_id n b r ≡ n * 2 ^ 24 + b * 2 ^ 12 + r
unfolding pack_row_id
pack_as_sum n b r h =
    let high : n * 2 ^ 24 % 2 ^ 32 ≡ n * 2 ^ 24 = omega (arith, h.node_range) in
    let middle : b * 2 ^ 12 % 2 ^ 32 ≡ b * 2 ^ 12 = omega (arith, h.batch_range) in
    let two = bit_or_fields 8 24 n (b * 2 ^ 12) h.node_range (omega (arith, h.batch_range)) in
    let shifted : n * 2 ^ 24 + b * 2 ^ 12 ≡ (n * 4096 + b) * 2 ^ 12 = omega arith in
    let three =
      bit_or_fields 20 12 (n * 4096 + b) r (omega (arith, h.node_range, h.batch_range))
        h.row_range in
    ap (λ (x : ℕ). bit_or x r) (ap₂ bit_or high middle ∙ two ∙ shifted)
    ∙ three
    ∙ omega (arith, shifted)

-- Node, batch and row come back from a packed number, when the node is below 256 and the batch and
-- the row are below 4096.
pub unpack_row_id-pack_row_id :
    (n b r : ℕ)
    → InRange n b r
    → unpack_row_id (pack_row_id n b r) ≡ record { node_id = n; batch_idx = b; row_idx = r }
unfolding unpack_row_id
unpack_row_id-pack_row_id n b r h =
    let p = pack_row_id n b r in
    let e = pack_as_sum n b r h in
    let batch = bit_and_mask 32 12 (p / 2 ^ 12) (omega (arith, e, h)) in
    let row = bit_and_mask 32 12 p (omega (arith, e, h)) in
    λ i. record {
      node_id = (let node : p / 2 ^ 24 ≡ n = omega (arith, e, h) in node) i;
      batch_idx = (batch ∙ (let b' : p / 2 ^ 12 % 2 ^ 12 ≡ b = omega (arith, e, h) in b')) i;
      row_idx = (row ∙ (let r' : p % 2 ^ 12 ≡ r = omega (arith, e, h) in r')) i;
    }

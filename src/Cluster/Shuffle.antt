-- ===== src/Cluster/Shuffle.antt =====
-- The exchange of join signatures between the nodes in
-- src/lex/distributed/distributed_coordinator.cpp, and the join that each node makes of what it got.
-- `hot` is membership in `global_hot_signatures`.
pub mod Laws
mod Tests
use green_gate.Base.{
  ℕ, ◌+◌, ◌%◌, ◌^◌, bit_and, bit_xor, ◌/◌, Bool, true, false, ◌&&◌, List, [], ◌∷◌, ◌++◌, ◌==◌,
  if◌then◌else◌, get_or, set, replicate,
}
use green_gate.Base.Loops.{for_steps}
use green_gate.Cluster.{FatSignature, ShuffleEntry}
use green_gate.Cluster.RowId.{unpack_row_id}

-- `operator==`.
unfoldable pub sig_eq : FatSignature → FatSignature → Bool
sig_eq a b = a.kim == b.kim && a.xor_sum == b.xor_sum

-- `sends[n].push_back(entry)`.
unfoldable pub push : ShuffleEntry → ℕ → List (List ShuffleEntry) → List (List ShuffleEntry)
push entry n sends = set sends n (get_or sends n [] ++ entry ∷ [])

-- The hashing partition of a signature.
unfoldable pub cold_target : ℕ → FatSignature → ℕ
cold_target num_nodes sig = bit_xor sig.kim sig.xor_sum % num_nodes

-- The loop of `ShuffleLeftSignatures`: the build side, hot signatures to every node.
unfoldable pub shuffle_left :
    (FatSignature → Bool)
    → ℕ
    → List ShuffleEntry
    → List (List ShuffleEntry)
    → List (List ShuffleEntry)
unfolding push cold_target
shuffle_left hot num_nodes [] sends = sends
shuffle_left hot num_nodes (entry ∷ entries) sends = shuffle_left hot num_nodes entries (
    if hot entry.sig
    then for_steps num_nodes 0 1 (push entry) sends
    else push entry (cold_target num_nodes entry.sig) sends)

-- The node that gets an entry of the probe side.
unfoldable pub right_target : (FatSignature → Bool) → ℕ → ShuffleEntry → ℕ
unfolding cold_target
right_target hot num_nodes entry =
    if hot entry.sig
    then (bit_xor entry.sig.kim entry.sig.xor_sum + (unpack_row_id entry.row_id).batch_idx)
      % 2 ^ 64
      % num_nodes
    else cold_target num_nodes entry.sig

-- The loop of `ShuffleRightSignatures`.
unfoldable pub shuffle_right :
    (FatSignature → Bool)
    → ℕ
    → List ShuffleEntry
    → List (List ShuffleEntry)
    → List (List ShuffleEntry)
unfolding push right_target
shuffle_right hot num_nodes [] sends = sends
shuffle_right hot num_nodes (entry ∷ entries) sends =
    shuffle_right hot num_nodes entries (push entry (right_target hot num_nodes entry) sends)

-- `left_sends(num_nodes_)` and `right_sends(num_nodes_)` after the loops.
unfoldable pub left_sends : (FatSignature → Bool) → ℕ → List ShuffleEntry → List (List ShuffleEntry)
left_sends hot num_nodes entries = shuffle_left hot num_nodes entries (replicate num_nodes [])

unfoldable pub right_sends :
    (FatSignature → Bool) → ℕ → List ShuffleEntry → List (List ShuffleEntry)
right_sends hot num_nodes entries = shuffle_right hot num_nodes entries (replicate num_nodes [])

-- The rows of the build side with a signature, in the order of `equal_range`: that of the build side
-- stands for the order in which the hash table keeps equal keys.
unfoldable pub equal_range : FatSignature → List ShuffleEntry → List ℕ
equal_range sig [] = []
equal_range sig (entry ∷ entries) =
    if sig_eq entry.sig sig then entry.row_id ∷ equal_range sig entries else equal_range sig entries

-- The pairs of one entry of the probe side.
unfoldable pub probe : List ℕ → ℕ → List (ℕ × ℕ)
probe [] right_id = []
probe (left_id ∷ left_ids) right_id = (left_id, right_id) ∷ probe left_ids right_id

-- `PerformLocalJoin`.
unfoldable pub perform_local_join : List ShuffleEntry → List ShuffleEntry → List (ℕ × ℕ)
unfolding equal_range probe
perform_local_join left [] = []
perform_local_join left (right_entry ∷ right) =
    probe (equal_range right_entry.sig left) right_entry.row_id ++ perform_local_join left right

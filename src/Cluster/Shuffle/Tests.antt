-- ===== src/Cluster/Shuffle/Tests.antt =====
-- An exchange between three nodes.
use green_gate.Base.{ℕ, ◌≡◌, refl, arith, Bool, List, [], ◌∷◌, ◌==◌, get_or}
use green_gate.Cluster.{FatSignature, ShuffleEntry}
use green_gate.Cluster.RowId.{unpack_row_id}
use green_gate.Cluster.Shuffle.{
  sig_eq, push, cold_target, right_target, shuffle_right, left_sends, right_sends, equal_range,
  probe, perform_local_join,
}
use green_gate.Cluster.Shuffle.Laws.{count, sum_below, perform_local_join-left_sends}

abbrev entry_of : ℕ → ℕ → ShuffleEntry
entry_of k id = record { sig = record { kim = k; xor_sum = 0 }; row_id = id }

-- Signature 7 is hot.
abbrev is_hot : FatSignature → Bool
is_hot sig = sig.kim == 7

abbrev left_entries : List ShuffleEntry
left_entries = entry_of 7 1 ∷ entry_of 4 2 ∷ entry_of 4 3 ∷ []

abbrev right_entries : List ShuffleEntry
right_entries = entry_of 4 4096 ∷ entry_of 7 4097 ∷ entry_of 5 3 ∷ []

perform_local_join-left_sends_example :
    sum_below 3 (λ n.
      count
        (λ pair. pair.0 == 2)
        (perform_local_join
          (get_or (left_sends is_hot 3 left_entries) n [])
          (get_or (right_sends is_hot 3 right_entries) n [])))
    ≡ count (λ pair. pair.0 == 2) (perform_local_join left_entries right_entries)
perform_local_join-left_sends_example =
    perform_local_join-left_sends is_hot 3 left_entries right_entries (λ pair. pair.0 == 2)
      (omega arith)

perform_local_join-entries :
    perform_local_join left_entries right_entries ≡ (2, 4096) ∷ (3, 4096) ∷ (1, 4097) ∷ []
unfolding perform_local_join equal_range probe sig_eq
perform_local_join-entries = refl

right_sends_entries :
    right_sends is_hot 3 right_entries
    ≡ [] ∷ (entry_of 4 4096 ∷ []) ∷ (entry_of 7 4097 ∷ entry_of 5 3 ∷ []) ∷ []
unfolding right_sends shuffle_right right_target cold_target push unpack_row_id
right_sends_entries = refl

-- ===== src/Cluster/Join/Laws.antt =====
-- The join of the cluster is the join of all rows.
use green_gate.Base.{
  ℕ, zero, suc, ◌+◌, ◌%◌, ◌^◌, ◌<◌, ◌≡◌, refl, ap, ◌∙◌, Bool, true, false, List, [], ◌∷◌, arith,
  if◌then◌else◌, get_or,
}
use green_gate.Base.Bytes.{Bytes, bytes_eq}
use green_gate.Cluster.{ShuffleEntry}
use green_gate.Cluster.Shuffle.{left_sends, right_sends, perform_local_join}
use green_gate.Cluster.Shuffle.Laws.{count, sum_below, perform_local_join-left_sends}
use green_gate.Cluster.Join.{
  Cluster, prepare_all, is_hot, numeric_val, same_strings, verify_matches, join_nodes,
  execute_join_query,
}
use green_gate.Query.{Predicate}

-- `f n + … + f (n + k - 1)`.
unfoldable sum_from : ℕ → ℕ → (ℕ → ℕ) → ℕ
sum_from n zero f = 0
sum_from n (suc k) f = f n + sum_from (n + 1) k f

sum_from-last : (n k : ℕ) (f : ℕ → ℕ) → sum_from n (suc k) f ≡ sum_from n k f + f (n + k)
unfolding sum_from
sum_from-last n zero f = omega (arith, ap f {x = n + 0} {y = n} (omega arith))
sum_from-last n (suc k) f =
    omega (arith, sum_from-last (n + 1) k f, ap f {x = n + 1 + k} {y = n + suc k} (omega arith))

sum_from_below : (k : ℕ) (f : ℕ → ℕ) → sum_from 0 k f ≡ sum_below k f
unfolding sum_from
sum_from_below zero f = refl
sum_from_below (suc k) f =
    omega (arith, sum_from-last 0 k f, sum_from_below k f, ap f {x = 0 + k} {y = k} (omega arith))

module _ (cluster : Cluster) (left_join_col right_join_col agg_col : Bytes) where
  abbrev test : ℕ × ℕ → Bool
  test = same_strings cluster left_join_col right_join_col

  verify_matches-count :
      (matches : List (ℕ × ℕ)) (total sum : ℕ)
      → (verify_matches cluster left_join_col right_join_col agg_col matches (total % 2 ^ 64) sum).0
        ≡ (total + count test matches) % 2 ^ 64
  unfolding verify_matches
  verify_matches-count [] total sum = omega arith
  verify_matches-count ((l, r) ∷ matches) total sum =
      let more = if test (l, r) then 1 else 0 in
      let step : (if test (l, r) then (total % 2 ^ 64 + 1) % 2 ^ 64 else total % 2 ^ 64)
          ≡ (total + more) % 2 ^ 64 =
        counted (test (l, r)) total in
      let added = (sum + numeric_val cluster.left_batches l agg_col) % 2 ^ 64 in
      let new_sum = if test (l, r) then (if bytes_eq agg_col [] then sum else added) else sum in
      ap
        (λ (t : ℕ).
          (verify_matches cluster left_join_col right_join_col agg_col matches t new_sum).0)
        step
      ∙ verify_matches-count matches (total + more) _
      ∙ omega arith
    where
      counted :
          (b : Bool) (total : ℕ)
          → (if b then (total % 2 ^ 64 + 1) % 2 ^ 64 else total % 2 ^ 64)
            ≡ (total + (if b then 1 else 0)) % 2 ^ 64
      counted true total = omega arith
      counted false total = omega arith

  join_nodes-count :
      (left right : List (List ShuffleEntry)) (n k total sum : ℕ)
      → (join_nodes cluster left_join_col right_join_col agg_col left right n k
          (total % 2 ^ 64)
          sum).0
        ≡ (total
            + sum_from n k
                (λ i. count test (perform_local_join (get_or left i []) (get_or right i []))))
          % 2 ^ 64
  unfolding join_nodes sum_from
  join_nodes-count left right n zero total sum = omega arith
  join_nodes-count left right n (suc k) total sum =
      let matches = perform_local_join (get_or left n []) (get_or right n []) in
      let new_sum =
        (verify_matches cluster left_join_col right_join_col agg_col matches (total % 2 ^ 64)
          sum).1 in
      ap
        (λ (t : ℕ).
          (join_nodes cluster left_join_col right_join_col agg_col left right (n + 1) k t
            new_sum).0)
        (verify_matches-count matches total sum)
      ∙ join_nodes-count left right (n + 1) k (total + count test matches) _
      ∙ omega arith

  -- The number that `ExecuteJoinQuery` returns is that of one join of all prepared entries, modulo
  -- `2 ^ 64`: the pairs of entries with equal signatures whose strings are equal. There is at least
  -- one node.
  pub execute_join_query-perform_local_join :
      (left_preds right_preds : List Predicate)
      → 0 < cluster.num_nodes
      → (execute_join_query cluster left_join_col right_join_col left_preds right_preds agg_col).0
        ≡ count (same_strings cluster left_join_col right_join_col) (
            perform_local_join
              (prepare_all cluster.left_batches left_preds left_join_col 0 cluster.num_nodes)
              (prepare_all cluster.right_batches right_preds right_join_col 0 cluster.num_nodes))
          % 2 ^ 64
  unfolding execute_join_query
  execute_join_query-perform_local_join left_preds right_preds h =
      let left = prepare_all cluster.left_batches left_preds left_join_col 0 cluster.num_nodes in
      let right =
        prepare_all cluster.right_batches right_preds right_join_col 0 cluster.num_nodes in
      let hot = is_hot left in
      join_nodes-count (left_sends hot cluster.num_nodes left)
        (right_sends hot cluster.num_nodes right) 0 cluster.num_nodes 0 0
      ∙ omega (
        arith,
        sum_from_below cluster.num_nodes (λ i. count test (
            perform_local_join (get_or (left_sends hot cluster.num_nodes left) i [])
              (get_or (right_sends hot cluster.num_nodes right) i []))),
        perform_local_join-left_sends hot cluster.num_nodes left right test h,
      )

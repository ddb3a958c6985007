-- ===== src/Cluster/Sides/Laws.antt =====
-- Each row of a batch goes to one node, in order; and rows with equal strings get equal signatures.
use native.Mathlib.Nat.{div-add-mod, add-mul}
use green_gate.Base.{
  ℕ, zero, suc, ◌+◌, ◌-◌, ◌*◌, ◌/◌, ◌≤◌, ◌<◌, ◌≡◌, refl, ap, ap₂, ◌∙◌, List, [], ◌∷◌, ◌++◌,
  append-nil, arith, true, false, ltb, ◌==◌, if◌then◌else◌,
}
use green_gate.Cluster.Sides.{distribute_from, distribute}

-- The rows `start, …, start + length - 1`, and those of slices.
unfoldable pub rows_between : ℕ → ℕ → List ℕ
rows_between start zero = []
rows_between start (suc n) = start ∷ rows_between (start + 1) n

unfoldable pub rows_sent : List (ℕ × ℕ × ℕ) → List ℕ
unfolding rows_between
rows_sent [] = []
rows_sent ((n, start, length) ∷ slices) = rows_between start length ++ rows_sent slices

rows_between-append :
    (start m n : ℕ)
    → rows_between start m ++ rows_between (start + m) n ≡ rows_between start (m + n)
unfolding rows_between
rows_between-append start zero n = ap₂ rows_between (omega arith) (omega arith)
rows_between-append start (suc m) n =
    let e : start + suc m ≡ start + 1 + m = omega arith in
    let e' : suc m + n ≡ suc (m + n) = omega arith in
    rw (e, e') (ap (λ rows. start ∷ rows) (rows_between-append (start + 1) m n))

-- A slice without rows is not sent.
rows_sent_if :
    (n start length : ℕ) (slices : List (ℕ × ℕ × ℕ))
    → rows_sent (if ltb 0 length then (n, start, length) ∷ slices else slices)
      ≡ rows_between start length ++ rows_sent slices
unfolding rows_sent rows_between
rows_sent_if n start zero slices = refl
rows_sent_if n start (suc length) slices =
    let some_rows : ltb 0 (suc length) ≡ true = ground arith in rw (some_rows) refl

share-le : (num_nodes total m : ℕ) → m ≤ num_nodes → m * (total / num_nodes) ≤ total
share-le num_nodes total m h =
    let rpn = total / num_nodes in
    let parts : num_nodes * rpn ≡ m * rpn + (num_nodes - m) * rpn =
      ap (λ (x : ℕ). x * rpn) (omega arith) ∙ add-mul m (num_nodes - m) rpn in
    omega (arith, parts, div-add-mod total num_nodes)

distribute_from-rows_sent :
    (num_nodes total n k : ℕ)
    → n + suc k ≡ num_nodes
    → rows_sent (distribute_from num_nodes total n (suc k))
      ≡ rows_between (n * (total / num_nodes)) (total - n * (total / num_nodes))
unfolding distribute_from rows_sent rows_between
distribute_from-rows_sent num_nodes total n zero h =
    let start = n * (total / num_nodes) in
    let last : (n == num_nodes - 1) ≡ true = ground (arith, h) in
    rw (last)
      (rows_sent_if n start (total - start) [] ∙ append-nil (rows_between start (total - start)))
distribute_from-rows_sent num_nodes total n (suc k) h =
    let rpn = total / num_nodes in
    let start = n * rpn in
    let slices = distribute_from num_nodes total (n + 1) (suc k) in
    let inner : (n == num_nodes - 1) ≡ false = ground (arith, h) in
    let next : (n + 1) * rpn ≡ start + rpn = add-mul n 1 rpn ∙ omega arith in
    let room : start + rpn ≤ total =
      omega (arith, next, share-le num_nodes total (n + 1) (omega (arith, h))) in
    let left : total - (n + 1) * rpn ≡ total - (start + rpn) = ap (λ (x : ℕ). total - x) next in
    rw (inner) (
      rows_sent_if n start rpn slices
      ∙ ap (λ rows. rows_between start rpn ++ rows)
          (distribute_from-rows_sent num_nodes total (n + 1) k (omega (arith, h))
            ∙ ap₂ rows_between next left)
      ∙ rows_between-append start rpn (total - (start + rpn))
      ∙ ap (rows_between start) (omega (arith, room)))

-- The slices that `DistributeAndIngest` sends to the nodes have each row of the batch once and in
-- order, for at least one node.
pub distribute-rows_sent :
    (num_nodes total : ℕ)
    → 0 < num_nodes
    → rows_sent (distribute num_nodes total) ≡ rows_between 0 total
unfolding distribute
distribute-rows_sent zero total h = absurd (omega arith)
distribute-rows_sent (suc k) total h =
    distribute_from-rows_sent (suc k) total 0 k (omega arith)
    ∙ ap₂ rows_between (omega arith) (omega arith)

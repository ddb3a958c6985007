-- ===== src/Cluster/Shuffle/Laws.antt =====
-- The nodes' joins together are the join of all entries.
use green_gate.Base.{
  ℕ, zero, suc, ◌+◌, ◌<◌, ◌≤◌, ◌≡◌, refl, sym, ap, ap₂, ◌∙◌, ◌≢◌, Bool, true, false, ◌&&◌, List, [],
  ◌∷◌, ◌++◌, append_assoc, append-nil, leb, ltb, arith, ◌==◌, ==_iff, if◌then◌else◌, Bool-cases,
  inl, inr, length, length-set, get_or, set, replicate, length-replicate, lt→ltb, get_or-set_self,
  get_or-set_ne,
}
use native.Mathlib.Nat.{mod-lt}
use green_gate.Base.Loops.{for_steps}
use green_gate.Cluster.{FatSignature, ShuffleEntry}
use green_gate.Cluster.Transport.Slots.{get_or-replicate}
use green_gate.Cluster.Shuffle.{
  sig_eq, push, cold_target, shuffle_left, right_target, shuffle_right, left_sends, right_sends,
  equal_range, probe, perform_local_join,
}

-- The entries that pass a test.
abbrev pub select : (ShuffleEntry → Bool) → List ShuffleEntry → List ShuffleEntry
select test [] = []
select test (e ∷ es) = if test e then e ∷ select test es else select test es

length-push :
    (e : ShuffleEntry) (m : ℕ) (sends : List (List ShuffleEntry))
    → length (push e m sends) ≡ length sends
unfolding push
length-push e m sends = length-set sends m (get_or sends m [] ++ e ∷ [])

get_or-push :
    (e : ShuffleEntry) (m n : ℕ) (sends : List (List ShuffleEntry))
    → m < length sends
    → get_or (push e m sends) n []
      ≡ (if m == n then get_or sends n [] ++ e ∷ [] else get_or sends n [])
unfolding push
get_or-push e m n sends h = elim (Bool-cases (m == n)) [
  | inl same ↦ rw (same) (
      ap (λ (q : ℕ). get_or (set sends m (get_or sends m [] ++ e ∷ [])) q [])
        (sym ((==_iff m n).0 same))
      ∙ get_or-set_self sends m (get_or sends m [] ++ e ∷ []) [] h
      ∙ ap (λ (q : ℕ). get_or sends q [] ++ e ∷ []) ((==_iff m n).0 same))
  | inr other ↦
      let apart : m ≢ n = λ q. ground (arith, other, (==_iff m n).1 q) in
      rw (other) (get_or-set_ne sends m n (get_or sends m [] ++ e ∷ []) [] apart)
]

append_step :
    (b : Bool) (sent : List ShuffleEntry) (e : ShuffleEntry) (rest : List ShuffleEntry)
    → (if b then sent ++ e ∷ [] else sent) ++ rest ≡ sent ++ (if b then e ∷ rest else rest)
append_step true sent e rest = append_assoc sent (e ∷ []) rest
append_step false sent e rest = refl

-- `push` at `k` nodes from node `i` on.
length-push_all :
    (e : ShuffleEntry) (k i : ℕ) (sends : List (List ShuffleEntry))
    → length (for_steps k i 1 (push e) sends) ≡ length sends
unfolding for_steps
length-push_all e zero i sends = refl
length-push_all e (suc k) i sends =
    length-push_all e k (i + 1) (push e i sends) ∙ length-push e i sends

get_or-push_all :
    (e : ShuffleEntry) (k i n : ℕ) (sends : List (List ShuffleEntry))
    → i + k ≤ length sends
    → get_or (for_steps k i 1 (push e) sends) n []
      ≡ (if leb i n && ltb n (i + k) then get_or sends n [] ++ e ∷ [] else get_or sends n [])
unfolding for_steps
get_or-push_all e zero i n sends h = ground arith
get_or-push_all e (suc k) i n sends h = ground (
  arith,
  get_or-push_all e k (i + 1) n (push e i sends),
  get_or-push e i n sends,
  length-push e i sends,
)

module _ (hot : FatSignature → Bool) (num_nodes : ℕ) where
  -- The build side's entries that node `n` gets, and the probe side's.
  abbrev goes : ℕ → ShuffleEntry → Bool
  goes n e = if hot e.sig then true else cold_target num_nodes e.sig == n

  abbrev probes : ℕ → ShuffleEntry → Bool
  probes n e = right_target hot num_nodes e == n

  cold_target-lt : (sig : FatSignature) → 0 < num_nodes → cold_target num_nodes sig < num_nodes
  unfolding cold_target
  cold_target-lt sig h = mod-lt _ h

  right_target-lt : (e : ShuffleEntry) → 0 < num_nodes → right_target hot num_nodes e < num_nodes
  unfolding right_target
  right_target-lt e h = elim (Bool-cases (hot e.sig)) [
    | inl is_hot ↦ rw (is_hot) (mod-lt _ h)
    | inr is_cold ↦ rw (is_cold) (cold_target-lt e.sig h)
  ]

  sig_eq→eq : (a b : FatSignature) → sig_eq a b ≡ true → a ≡ b
  unfolding sig_eq
  sig_eq→eq a b h =
      let k : a.kim ≡ b.kim = ground (arith, h) in
      let x : a.xor_sum ≡ b.xor_sum = ground (arith, h) in λ i. record { kim = k i; xor_sum = x i }

  goes_to :
      (n : ℕ) (r l : ShuffleEntry)
      → sig_eq l.sig r.sig ≡ true
      → right_target hot num_nodes r ≡ n
      → goes n l ≡ true
  unfolding right_target
  goes_to n r l same h = elim (Bool-cases (hot r.sig)) [
    | inl is_hot ↦ rw (sig_eq→eq l.sig r.sig same, is_hot)
    | inr is_cold ↦
        let at : cold_target num_nodes r.sig ≡ n = (rw (is_cold) at h) in
        rw (sig_eq→eq l.sig r.sig same, is_cold) ((==_iff _ n).1 at)
  ]

  shuffle_left_lem :
      (n : ℕ) (es : List ShuffleEntry) (sends : List (List ShuffleEntry))
      → length sends ≡ num_nodes
      → n < num_nodes
      → get_or (shuffle_left hot num_nodes es sends) n [] ≡ get_or sends n [] ++ select (goes n) es
  unfolding shuffle_left
  shuffle_left_lem n [] sends h lt = sym (append-nil _)
  shuffle_left_lem n (e ∷ es) sends h lt = elim (Bool-cases (hot e.sig)) [
    | inl is_hot ↦
        let all_sent = get_or-push_all e num_nodes 0 n sends (omega (arith, h)) in
        let here : (leb 0 n && ltb n (0 + num_nodes)) ≡ true = ground (arith, lt) in
        rw (is_hot) (
          shuffle_left_lem n es _ (length-push_all e num_nodes 0 sends ∙ h) lt
          ∙ ap (λ xs. xs ++ select (goes n) es) (all_sent ∙ rw (here))
          ∙ append_assoc (get_or sends n []) (e ∷ []) (select (goes n) es))
    | inr is_cold ↦
        let target = cold_target num_nodes e.sig in
        let below : target < length sends = omega (arith, h, cold_target-lt e.sig (omega arith)) in
        rw (is_cold) (
          shuffle_left_lem n es _ (length-push e target sends ∙ h) lt
          ∙ ap (λ xs. xs ++ select (goes n) es) (get_or-push e target n sends below)
          ∙ append_step (target == n) (get_or sends n []) e (select (goes n) es))
  ]

  shuffle_right_lem :
      (n : ℕ) (es : List ShuffleEntry) (sends : List (List ShuffleEntry))
      → length sends ≡ num_nodes
      → n < num_nodes
      → get_or (shuffle_right hot num_nodes es sends) n []
        ≡ get_or sends n [] ++ select (probes n) es
  unfolding shuffle_right
  shuffle_right_lem n [] sends h lt = sym (append-nil _)
  shuffle_right_lem n (e ∷ es) sends h lt =
      let target = right_target hot num_nodes e in
      let below : target < length sends = omega (arith, h, right_target-lt e (omega arith)) in
      shuffle_right_lem n es _ (length-push e target sends ∙ h) lt
      ∙ ap (λ xs. xs ++ select (probes n) es) (get_or-push e target n sends below)
      ∙ append_step (target == n) (get_or sends n []) e (select (probes n) es)

  -- An entry of the probe side meets at its node all entries of the build side with its signature.
  equal_range-select :
      (n : ℕ) (r : ShuffleEntry) (left : List ShuffleEntry)
      → right_target hot num_nodes r ≡ n
      → equal_range r.sig (select (goes n) left) ≡ equal_range r.sig left
  unfolding equal_range
  equal_range-select n r [] h = refl
  equal_range-select n r (l ∷ left) h = elim (Bool-cases (sig_eq l.sig r.sig)) [
    | inl same ↦ rw (goes_to n r l same h, same, equal_range-select n r left h)
    | inr differ ↦ elim (Bool-cases (goes n l)) [
      | inl sent ↦ rw (sent, differ) (equal_range-select n r left h)
      | inr kept ↦ rw (kept, differ) (equal_range-select n r left h)
    ]
  ]

-- The number of pairs that pass a test.
abbrev pub count : (ℕ × ℕ → Bool) → List (ℕ × ℕ) → ℕ
count test [] = 0
count test (pair ∷ pairs) = (if test pair then 1 else 0) + count test pairs

-- The sum of `f` over the numbers below `n`.
abbrev pub sum_below : ℕ → (ℕ → ℕ) → ℕ
sum_below zero f = 0
sum_below (suc n) f = sum_below n f + f n

pub count-append :
    (test : ℕ × ℕ → Bool) (xs ys : List (ℕ × ℕ))
    → count test (xs ++ ys) ≡ count test xs + count test ys
count-append test [] ys = omega arith
count-append test (x ∷ xs) ys = omega (arith, count-append test xs ys)

sum_below_ext :
    (n : ℕ) (f g : ℕ → ℕ) → ((i : ℕ) → i < n → f i ≡ g i) → sum_below n f ≡ sum_below n g
sum_below_ext zero f g h = refl
sum_below_ext (suc n) f g h =
    ap₂ ◌+◌ (sum_below_ext n f g (λ i lt. h i (omega arith))) (h n (omega arith))

sum_below_zero : (n : ℕ) → sum_below n (λ i. 0) ≡ 0
sum_below_zero zero = refl
sum_below_zero (suc n) = omega (arith, sum_below_zero n)

-- One summand more.
sum_below_one :
    (n t : ℕ) (f g : ℕ → ℕ)
    → sum_below n (λ i. (if t == i then f i else 0) + g i)
      ≡ (if ltb t n then f t else 0) + sum_below n g
sum_below_one zero t f g = ground arith
sum_below_one (suc n) t f g = elim (Bool-cases (t == n)) [
  | inl same ↦
      let at : f n ≡ f t = ap f (sym ((==_iff t n).0 same)) in
      ground (arith, sum_below_one n t f g, same, at)
  | inr other ↦ ground (arith, sum_below_one n t f g, other)
]

module _ (hot : FatSignature → Bool) (num_nodes : ℕ) (left : List ShuffleEntry)
    (test : ℕ × ℕ → Bool) where
  -- The pairs found at a node, out of those of a list of probe entries.
  abbrev found_at : List ShuffleEntry → ℕ → ℕ
  found_at right n = count test (
      perform_local_join (select (goes hot num_nodes n) left)
        (select (probes hot num_nodes n) right))

  found_step :
      (r : ShuffleEntry) (right : List ShuffleEntry) (n : ℕ)
      → found_at (r ∷ right) n
        ≡ (if right_target hot num_nodes r == n
            then count test (probe (equal_range r.sig left) r.row_id)
            else 0)
          + found_at right n
  unfolding perform_local_join
  found_step r right n = elim (Bool-cases (right_target hot num_nodes r == n)) [
    | inl here ↦ rw (here) (
        count-append test (probe (equal_range r.sig (select (goes hot num_nodes n) left)) r.row_id)
          _
        ∙ ap (λ ids. count test (probe ids r.row_id) + found_at right n)
            (equal_range-select hot num_nodes n r left ((==_iff _ n).0 here)))
    | inr elsewhere ↦ rw (elsewhere) (omega arith)
  ]

  found_everywhere :
      (right : List ShuffleEntry)
      → 0 < num_nodes
      → sum_below num_nodes (found_at right) ≡ count test (perform_local_join left right)
  unfolding perform_local_join
  found_everywhere [] h = sum_below_zero num_nodes
  found_everywhere (r ∷ right) h =
      let pairs = probe (equal_range r.sig left) r.row_id in
      let target = right_target hot num_nodes r in
      sum_below_ext num_nodes (found_at (r ∷ right)) _ (λ n lt. found_step r right n)
      ∙ sum_below_one num_nodes target (λ n. count test pairs) (found_at right)
      ∙ ap₂ ◌+◌ (rw (lt→ltb target num_nodes (right_target-lt hot num_nodes r h)))
          (found_everywhere right h)
      ∙ sym (count-append test pairs (perform_local_join left right))

-- However the entries of both sides are exchanged, the joins that the nodes make of what they got
-- find, all together, each pair of rows as often as one join of all entries does: the number of
-- pairs that pass any test, summed over the nodes, is that of the join of all entries. There is at
-- least one node, and the nodes agree on the hot signatures.
pub perform_local_join-left_sends :
    (hot : FatSignature → Bool) (num_nodes : ℕ) (left right : List ShuffleEntry)
    (test : ℕ × ℕ → Bool)
    → 0 < num_nodes
    → sum_below num_nodes (λ n. count test (
        perform_local_join
          (get_or (left_sends hot num_nodes left) n [])
          (get_or (right_sends hot num_nodes right) n [])))
      ≡ count test (perform_local_join left right)
unfolding left_sends right_sends
perform_local_join-left_sends hot num_nodes left right test h =
    let start = replicate {A = List ShuffleEntry} num_nodes [] in
    let len : length start ≡ num_nodes = length-replicate num_nodes [] in
    sum_below_ext num_nodes _ (found_at hot num_nodes left test right) (λ n lt.
      ap₂ (λ ls rs. count test (perform_local_join ls rs))
        (shuffle_left_lem hot num_nodes n left start len lt
          ∙ ap (λ xs. xs ++ select (goes hot num_nodes n) left) (get_or-replicate num_nodes n))
        (shuffle_right_lem hot num_nodes n right start len lt
          ∙ ap (λ xs. xs ++ select (probes hot num_nodes n) right) (get_or-replicate num_nodes n)))
    ∙ found_everywhere hot num_nodes left test right h

-- ===== src/Lsm/Scan/Statistics/Laws.antt =====
-- The statistics of a table state count the rows that `Execute` counts.
use green_gate.Base.{
  ℕ, zero, suc, ◌+◌, ◌-◌, ◌%◌, ◌^◌, ◌≡◌, refl, ap, ap₂, ◌∙◌, inl, inr, bit_and, Bool, true, false,
  Option, none, some, List, [], ◌∷◌, ◌++◌, map, ◌==◌, get_or, ◌*◌, if◌then◌else◌, Bool-cases,
}
use green_gate.Base.Bytes.{Bytes}
use green_gate.Base.SetBits.{ctz, for_set_bits}
use green_gate.Base.SetBits.Sums.{popcount}
use green_gate.Ingest.Transposer.{butterfly_transpose}
use green_gate.Query.{Column}
use green_gate.Query.Tail.{Memory, memory_of}
use green_gate.Query.Runner.{QueryRunner, rows_of_block, execute_blocks, execute}
use green_gate.Lsm.MemTable.Statistics.{
  QueryResult, no_result, Collected, numeric_statistics, string_statistics, execute_query_result,
}
use green_gate.Lsm.MemTable.Statistics.Laws.{
  numeric_statistics-totals, string_statistics-totals, execute_query_result-count,
}
use green_gate.Lsm.Promotion.Access.{Counts}
use green_gate.Lsm.Registry.{TableState, Store}
use green_gate.Lsm.Scan.{add_result, scan_groups, scan_memtable, execute_state}
use green_gate.Lsm.Scan.Statistics.Selection.{result_mask, result_mask-final_mask}
use green_gate.Lsm.Scan.Statistics.{
  strings_before, push_string, push_number, gather, gather_blocks, has_column, execute_group_result,
  Merge, merge_one, merge_all, merge_numbers, merge_results, part_results, execute_state_result,
}
use green_gate.Storage.{CbstTile, BlockData, RowGroup}

-- What every round of a loop keeps, the loop keeps.
for_set_bits-keeps :
    (fuel : ℕ) (body : ℕ → Collected → Collected) (w : ℕ) (c : Collected)
    → ((i : ℕ) (d : Collected) → (body i d).count ≡ d.count)
    → (for_set_bits fuel body w c).count ≡ c.count
unfolding for_set_bits
for_set_bits-keeps zero body w c h = refl
for_set_bits-keeps (suc fuel) body w c h =
    elim (w == 0)
      as (λ b.
        let d : Collected = elim b [
          | true ↦ c
          | false ↦ for_set_bits fuel body (bit_and w (w - 1)) (body (ctz 64 w) c)
        ] in
        d.count ≡ c.count) [
          | true ↦ refl
          | false ↦
              for_set_bits-keeps fuel body (bit_and w (w - 1)) (body (ctz 64 w) c) h
              ∙ h (ctz 64 w) c
        ]

abbrev tile_of : BlockData → ℕ → CbstTile
tile_of block col = get_or block.columns col (record { planes = []; validity = 0; padding = [] })

gather-count :
    (agg : Option ℕ) (mem : Memory) (rg : RowGroup) (rows mask : ℕ) (block : BlockData)
    (c : Collected)
    → (gather agg mem rg rows mask block c).count ≡ c.count
unfolding gather push_string push_number
gather-count none mem rg rows mask block c = refl
gather-count (some col) mem rg rows mask block c =
    elim c.is_agg_str
      as (λ b.
        (if b
          then for_set_bits 64 (push_string mem (strings_before rg.column_types col * rows)) mask c
          else for_set_bits 64 (push_number (butterfly_transpose (tile_of block col).planes)) mask
              c).count
        ≡ c.count) [
          | true ↦ for_set_bits-keeps 64 _ mask c (λ i d. refl)
          | false ↦ for_set_bits-keeps 64 _ mask c (λ i d. refl)
        ]

gather_blocks-execute_blocks :
    (runner : QueryRunner) (outside : Memory) (rg : RowGroup) (b : ℕ) (blocks : List BlockData)
    (c : Collected) (total sum : ℕ)
    → c.count ≡ total
    → (gather_blocks runner outside rg b blocks c).count
      ≡ (execute_blocks runner outside rg b blocks total sum).0
unfolding gather_blocks execute_blocks
gather_blocks-execute_blocks runner outside rg b [] c total sum e = e
gather_blocks-execute_blocks runner outside rg b (block ∷ blocks) c total sum e =
    let mem = memory_of outside block.tail_payload in
    let rows = rows_of_block rg b in
    let mask = result_mask runner mem rows block in
    let pop = ap (popcount 64) (result_mask-final_mask runner mem rows block) in
    let counted : Collected = record c { count = (c.count + popcount 64 mask) % 2 ^ 64 } in
    gather_blocks-execute_blocks runner outside rg (b + 1) blocks _ _ _
      (elim (Bool-cases (popcount 64 mask == 0)) [
        | inl idle ↦ rw idle (ap₂ (λ (n k : ℕ). (n + k) % 2 ^ 64) e pop)
        | inr busy ↦ rw busy (
            gather-count runner.agg_col_idx mem rg rows mask block counted
            ∙ ap₂ (λ (n k : ℕ). (n + k) % 2 ^ 64) e pop)
      ])

-- Whichever statistics are taken, the count stays.
finish-count :
    (idle column is_str : Bool) (strings : List Bytes) (numerics : List ℕ) (res : QueryResult)
    → (if idle
        then res
        else if column
        then (if is_str then string_statistics strings res else numeric_statistics numerics res)
        else res).count
      ≡ res.count
finish-count true column is_str strings numerics res = refl
finish-count false false is_str strings numerics res = refl
finish-count false true true strings numerics res = (string_statistics-totals strings res).0
finish-count false true false strings numerics res = (numeric_statistics-totals numerics res).0

execute_group_result-count :
    (runner : QueryRunner) (outside : Memory) (rg : RowGroup)
    → (execute_group_result runner outside rg).count ≡ (execute runner outside rg).0
unfolding execute_group_result execute
execute_group_result-count runner outside rg =
    finish-count _ (has_column runner.agg_col_idx) _ _ _ _
    ∙ gather_blocks-execute_blocks runner outside rg 0 rg.blocks _ 0 0 refl

-- The counts of the results, added to a count.
unfoldable add_counts : List QueryResult → ℕ → ℕ
add_counts [] total = total
add_counts (r ∷ results) total = add_counts results ((total + r.count) % 2 ^ 64)

add_counts-append :
    (results others : List QueryResult) (total : ℕ)
    → add_counts (results ++ others) total ≡ add_counts others (add_counts results total)
unfolding add_counts
add_counts-append [] others total = refl
add_counts-append (r ∷ results) others total =
    add_counts-append results others ((total + r.count) % 2 ^ 64)

merge_one-count :
    (m : Merge) (r : QueryResult)
    → (merge_one m r).merged.count ≡ (m.merged.count + r.count) % 2 ^ 64
unfolding merge_one
merge_one-count m r = elim (Bool-cases (r.count == 0)) [
  | inl nothing ↦ rw nothing refl
  | inr something ↦ rw something refl
]

merge_all-count :
    (results : List QueryResult) (m : Merge)
    → (merge_all m results).merged.count ≡ add_counts results m.merged.count
unfolding merge_all add_counts
merge_all-count [] m = refl
merge_all-count (r ∷ results) m =
    merge_all-count results (merge_one m r) ∙ ap (add_counts results) (merge_one-count m r)

merge_numbers-count :
    (values : List ℕ) (merged : QueryResult) → (merge_numbers values merged).count ≡ merged.count
unfolding merge_numbers
merge_numbers-count [] merged = refl
merge_numbers-count (v ∷ values) merged = refl

merge_results-count :
    (is_string : Bool) (results : List QueryResult)
    → (merge_results is_string results).count ≡ add_counts results 0
unfolding merge_results
merge_results-count is_string results =
    let m =
      merge_all (record { merged = no_result; first = true; all_numerics = []; all_strings = [] })
        results in
    choice (m.merged.count == 0) is_string _ _ m.all_numerics m.merged ∙ merge_all-count results _
  where
    choice :
        (idle strings : Bool) (n : ℕ) (dist : List Bytes) (numerics : List ℕ) (res : QueryResult)
        → (if idle
            then res
            else if strings
            then record res { distinct_count = n; distinct_strings = dist }
            else merge_numbers numerics res).count
          ≡ res.count
    choice true strings n dist numerics res = refl
    choice false true n dist numerics res = refl
    choice false false n dist numerics res = merge_numbers-count numerics res

scan_groups-count :
    (runner : QueryRunner) (outside : Memory) (s : Store) (ps : List ℕ) (total sum : ℕ)
    → add_counts (map (λ p. execute_group_result runner outside (s.groups p)) ps) total
      ≡ (scan_groups runner outside s.groups ps (total, sum)).0
unfolding add_counts scan_groups add_result
scan_groups-count runner outside s [] total sum = refl
scan_groups-count runner outside s (p ∷ ps) total sum =
    ap
      (λ n.
        add_counts (map (λ p. execute_group_result runner outside (s.groups p)) ps)
          ((total + n) % 2 ^ 64))
      (execute_group_result-count runner outside (s.groups p))
    ∙ scan_groups-count runner outside s ps _ _

-- The statistics of a table state, from its row groups, its active and its frozen table, have the
-- count that `Execute` returns, whatever the types of the columns.
pub execute_state_result-execute_state :
    (has_string_type : Column → Bool) (runner : QueryRunner) (outside : Memory) (s : Store)
    (state : TableState) (counts : Counts)
    → (execute_state_result has_string_type runner outside s state counts).0.count
      ≡ (execute_state runner outside s state).0
unfolding execute_state_result execute_state part_results add_counts scan_memtable add_result
execute_state_result-execute_state has_string_type runner outside s state counts =
    let of_table : ℕ → QueryResult = λ p.
      execute_query_result has_string_type (s.memtables p) runner.all_predicates
        runner.agg_col_name in
    let table_count = λ (p : ℕ).
      execute_query_result-count has_string_type (s.memtables p) runner.all_predicates
        runner.agg_col_name in
    let groups =
      map (λ p. execute_group_result runner outside (s.groups p)) state.persisted_groups in
    let scanned = scan_groups runner outside s.groups state.persisted_groups (0, 0) in
    let active = scan_memtable runner (s.memtables state.active_memtable) scanned in
    let active_count : (add_counts groups 0 + (of_table state.active_memtable).count) % 2 ^ 64
        ≡ active.0 =
      ap₂ (λ (t n : ℕ). (t + n) % 2 ^ 64)
        (scan_groups-count runner outside s state.persisted_groups 0 0)
        (table_count state.active_memtable) in
    merge_results-count _ (part_results has_string_type runner outside s state)
    ∙ add_counts-append groups _ 0
    ∙ elim state.frozen_memtable
        as (λ frozen.
          add_counts
            (of_table state.active_memtable ∷ elim frozen [ none ↦ [] | some p ↦ of_table p ∷ [] ])
            (add_counts groups 0)
          ≡ (elim frozen as (λ o. ℕ × ℕ) [
            | none ↦ active
            | some p ↦ scan_memtable runner (s.memtables p) active
          ]).0) [
            | none ↦ active_count
            | some p ↦ ap₂ (λ (t n : ℕ). (t + n) % 2 ^ 64) active_count (table_count p)
          ]

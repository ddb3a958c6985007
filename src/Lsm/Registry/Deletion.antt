-- ===== src/Lsm/Registry/Deletion.antt =====
-- `DeleteRow` clears the bit of its row and no other.
use green_gate.Base.{
  ℕ, zero, suc, ◌+◌, ◌-◌, ◌*◌, ◌/◌, ◌%◌, ◌^◌, ◌<◌, ◌≤◌, ◌≡◌, refl, ap, ◌∙◌, ◌≢◌, inl, inr, bit_and,
  true, false, ◌&&◌, some, List, [], ◌∷◌, arith, ltb, leb, ◌==◌, ==_self, if◌then◌else◌, Bool-cases,
  length, get_or, set, All, IsDistinct, get_or-set_self, get_or-set_ne, All-get_or, lt→ltb,
}
use native.Mathlib.Nat.{pow-suc, one-le-pow}
use green_gate.Base.Bytes.{Bytes}
use green_gate.Base.Bits.{bit, bit-le, bit-bit_and, bit-complement, bit-pow}
use green_gate.Storage.{BlockData, RowGroup}
use green_gate.Lsm.Registry.{
  Store, update, done, map_outcome, clear_row, delete_in_groups, get_table_state, delete_row,
}

abbrev no_block : BlockData
no_block = record { columns = []; tail_payload = []; delete_mask = 0 }

-- The bit of a row of a row group: 1 if it is active.
abbrev pub active_bit : RowGroup → ℕ → ℕ
active_bit rg j = bit (get_or rg.blocks (j / 64) no_block).delete_mask (j % 64)

-- The bit of a row of row groups one after the other; 0 beyond their rows.
unfoldable pub row_bit : (ℕ → RowGroup) → List ℕ → ℕ → ℕ
row_bit groups [] j = 0
row_bit groups (p ∷ ps) j =
    let later = row_bit groups ps (j - (groups p).num_rows) in
    if ltb j (groups p).num_rows then active_bit (groups p) j else later

unfoldable pub total_rows : (ℕ → RowGroup) → List ℕ → ℕ
total_rows groups [] = 0
total_rows groups (p ∷ ps) = (groups p).num_rows + total_rows groups ps

-- A block for each 64 rows, and masks of 64 bits.
pub record IsMasked (rg : RowGroup) : Type 0 where
  pub enough : rg.num_rows ≤ 64 * length rg.blocks
  pub masks : All (λ b. b.delete_mask < 2 ^ 64) rg.blocks

pow_lt : (n b : ℕ) → b < n → 2 ^ b < 2 ^ n
pow_lt zero b h = elim h [ ]
pow_lt (suc n) zero h = omega (arith, pow-suc 2 n, one-le-pow n 2)
pow_lt (suc n) (suc b) h = omega (arith, pow-suc 2 n, pow-suc 2 b, pow_lt n b (omega arith))

bit_and-clear :
    (m b k : ℕ)
    → m < 2 ^ 64
    → b < 64
    → k < 64
    → bit (bit_and m (2 ^ 64 - 1 - 2 ^ b)) k ≡ (if k == b then 0 else bit m k)
bit_and-clear m b k hm hb hk =
    let power : 2 ^ b < 2 ^ 64 = pow_lt 64 b hb in
    ground (
      arith,
      bit-bit_and m (2 ^ 64 - 1 - 2 ^ b) k,
      bit-complement 64 (2 ^ b) k power hk,
      bit-pow b k,
      bit-le m k,
    )

-- Clearing a row of a row group.
clear_row_lem :
    (rg : RowGroup) (i : ℕ)
    → IsMasked rg
    → i < rg.num_rows
    → (rg' : RowGroup) × (clear_row i rg ≡ done rg')
      × (rg'.num_rows ≡ rg.num_rows)
      × ((j : ℕ) → active_bit rg' j ≡ (if j == i then 0 else active_bit rg j))
unfolding clear_row
clear_row_lem rg i h lt =
    let block = get_or rg.blocks (i / 64) no_block in
    let mask = bit_and block.delete_mask (2 ^ 64 - 1 - 2 ^ (i % 64)) in
    let block' : BlockData = record block { delete_mask = mask } in
    let inside : i / 64 < length rg.blocks = omega (arith, h.enough) in
    let word : block.delete_mask < 2 ^ 64 =
      All-get_or (λ (b : BlockData). b.delete_mask < 2 ^ 64) rg.blocks (i / 64) no_block h.masks
        (omega arith) in
    (
      record rg { blocks = set rg.blocks (i / 64) block' },
      (rw (lt→ltb (i / 64) (length rg.blocks) inside)),
      refl,
      λ j. elim (Bool-cases (j / 64 == i / 64)) [
        | inl same ↦
            let at : j / 64 ≡ i / 64 = ground arith in
            let written : get_or (set rg.blocks (i / 64) block') (j / 64) no_block ≡ block' =
              ap (λ (q : ℕ). get_or (set rg.blocks (i / 64) block') q no_block) at
              ∙ get_or-set_self rg.blocks (i / 64) block' no_block inside in
            let mine : get_or rg.blocks (j / 64) no_block ≡ block =
              ap (λ (q : ℕ). get_or rg.blocks q no_block) at in
            rw (written, mine)
              (ground (
                arith,
                at,
                bit_and-clear block.delete_mask (i % 64) (j % 64) word (omega arith) (omega arith),
              ))
        | inr other ↦
            let apart : i / 64 ≢ j / 64 = λ e. ground (arith, e, other) in
            rw (get_or-set_ne rg.blocks (i / 64) (j / 64) block' no_block apart)
              (ground (arith, other))
      ],
    )

-- An update at an address that is not in the list changes no row.
row_bit-update :
    (groups : ℕ → RowGroup) (p : ℕ) (rg : RowGroup) (ps : List ℕ) (j : ℕ)
    → All (λ q. p ≢ q) ps
    → row_bit (update p rg groups) ps j ≡ row_bit groups ps j
unfolding row_bit
row_bit-update groups p rg [] j h = refl
row_bit-update groups p rg (q ∷ ps) j h =
    let apart : (q == p) ≡ false = ground (arith, h.0) in
    rw (apart, row_bit-update groups p rg ps (j - (groups q).num_rows) h.1)

-- A row whose place is `i - base` is cleared in the groups from `base` on, and objects elsewhere stay.
record IsCleared (base i : ℕ) (ps : List ℕ) (groups groups' : ℕ → RowGroup) : Type 0 where
  cleared : (j : ℕ) → row_bit groups' ps j ≡ (if base + j == i then 0 else row_bit groups ps j)
  others : (q : ℕ) → All (λ p. q ≢ p) ps → groups' q ≡ groups q

IsCleared-here :
    (p : ℕ) (ps : List ℕ) (base i : ℕ) (groups : ℕ → RowGroup) (rg : RowGroup)
    → All (λ q. p ≢ q) ps
    → base ≤ i
    → i < base + (groups p).num_rows
    → rg.num_rows ≡ (groups p).num_rows
    → ((j : ℕ) → active_bit rg j ≡ (if j == i - base then 0 else active_bit (groups p) j))
    → IsCleared base i (p ∷ ps) groups (update p rg groups)
unfolding row_bit
IsCleared-here p ps base i groups rg d le lt rows bits = record {
  cleared = λ j.
      rw (==_self p, rows, row_bit-update groups p rg ps (j - (groups p).num_rows) d)
        (ground (arith, bits j));
  others = λ q h. let apart : (q == p) ≡ false = ground (arith, h.0) in rw (apart);
}

IsCleared-later :
    (p : ℕ) (ps : List ℕ) (base i : ℕ) (groups groups' : ℕ → RowGroup)
    → All (λ q. p ≢ q) ps
    → base + (groups p).num_rows ≤ i
    → IsCleared (base + (groups p).num_rows) i ps groups groups'
    → IsCleared base i (p ∷ ps) groups groups'
unfolding row_bit
IsCleared-later p ps base i groups groups' d le c = record {
  cleared = λ j. rw (c.others p d) (ground (arith, c.cleared (j - (groups p).num_rows)));
  others = λ q h. c.others q h.1;
}

module _ (p : ℕ) (ps : List ℕ) (base i : ℕ) (groups : ℕ → RowGroup) where
  next_group :
      base + (groups p).num_rows < 2 ^ 64
      → base + (groups p).num_rows ≤ i
      → delete_in_groups (p ∷ ps) base i groups
        ≡ delete_in_groups ps (base + (groups p).num_rows) i groups
  unfolding delete_in_groups
  next_group small past =
      let n = (groups p).num_rows in
      let next : (base + n) % 2 ^ 64 ≡ base + n = omega arith in
      let outside : ltb i ((base + n) % 2 ^ 64) ≡ false = ground (arith, next) in
      let skipped : (leb base i && ltb i ((base + n) % 2 ^ 64)) ≡ false = ground (arith, outside) in
      rw (skipped) (ap (λ (b : ℕ). delete_in_groups ps b i groups) next)

  this_group :
      base ≤ i
      → i < base + (groups p).num_rows
      → base + (groups p).num_rows < 2 ^ 64
      → delete_in_groups (p ∷ ps) base i groups
        ≡ map_outcome (λ rg. update p rg groups) (clear_row (i - base) (groups p))
  unfolding delete_in_groups
  this_group le lt small =
      let n = (groups p).num_rows in
      let next : (base + n) % 2 ^ 64 ≡ base + n = omega arith in
      let inside : (leb base i && ltb i ((base + n) % 2 ^ 64)) ≡ true = ground (arith, next) in
      rw (inside)

delete_in_groups_lem :
    (ps : List ℕ) (base i : ℕ) (groups : ℕ → RowGroup)
    → IsDistinct ps
    → All (λ p. IsMasked (groups p)) ps
    → base + total_rows groups ps < 2 ^ 64
    → base ≤ i
    → (groups' : ℕ → RowGroup) × (delete_in_groups ps base i groups ≡ done groups')
      × IsCleared base i ps groups groups'
unfolding delete_in_groups row_bit total_rows
delete_in_groups_lem [] base i groups d m small le =
    (groups, refl, record { cleared = λ j. ground arith; others = λ q h. refl })
delete_in_groups_lem (p ∷ ps) base i groups d m small le =
    let n = (groups p).num_rows in
    elim (Bool-cases (ltb i (base + n))) [
      | inl here ↦
          let (rg, e, rows, bits) = clear_row_lem (groups p) (i - base) m.0 (ground arith) in
          (
            update p rg groups,
            this_group p ps base i groups le (ground arith) (omega arith)
                ∙ ap (map_outcome λ rg'. update p rg' groups) e,
            IsCleared-here p ps base i groups rg d.0 le (ground arith) rows bits,
          )
      | inr there ↦
          let (groups', e, c) =
            delete_in_groups_lem ps (base + n) i groups d.1 m.1 (omega arith) (ground arith) in
          (
            groups',
            next_group p ps base i groups (omega arith) (ground arith) ∙ e,
            IsCleared-later p ps base i groups groups' d.0 (ground arith) c,
          )
    ]

-- `DeleteRow` on a registered table whose row groups are distinct objects, have a block for each 64
-- rows and masks of 64 bits, and hold fewer than 2 ^ 64 rows together: it returns, the bit of the
-- row is 0 afterwards, and the bit of every other row is as before.
pub delete_row_lem :
    (table_name : Bytes) (i p : ℕ) (s : Store)
    → get_table_state table_name s ≡ some p
    → IsDistinct (s.states p).persisted_groups
    → All (λ q. IsMasked (s.groups q)) (s.states p).persisted_groups
    → total_rows s.groups (s.states p).persisted_groups < 2 ^ 64
    → (s' : Store) × (delete_row table_name i s ≡ done s')
      × ((j : ℕ)
          → row_bit s'.groups (s.states p).persisted_groups j
            ≡ (if j == i then 0 else row_bit s.groups (s.states p).persisted_groups j))
unfolding delete_row get_table_state
delete_row_lem table_name i p s found d m small =
    let ps = (s.states p).persisted_groups in
    let (groups', e, c) = delete_in_groups_lem ps 0 i s.groups d m (omega arith) (omega arith) in
    (
      record s { groups = groups' },
      rw (found, delete_row) (ap (map_outcome (λ g. record s { groups = g })) e),
      λ j. c.cleared j ∙ ap (λ (k : ℕ). if k == i then 0 else row_bit s.groups ps j) (omega arith),
    )

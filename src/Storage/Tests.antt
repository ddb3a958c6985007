-- ===== src/Storage/Tests.antt =====
-- A small file, written, read and damaged.
use green_gate.Base.{
  ◌^◌, ◌<◌, ◌≡◌, refl, some, [], ◌∷◌, ◌++◌, arith, All-replicate, length, replicate,
}
use green_gate.Base.Bytes.{Bytes, bytes_eq, codes}
use green_gate.Base.Loops.{all_lt-All}
use green_gate.Storage.{CbstTile, RowGroup}
use green_gate.Storage.Codec.{from_le, le_bytes, word_bytes, tile_bytes}
use green_gate.Storage.Exporter.{padding}
use green_gate.Storage.Exporter.Chunks.{columns_bytes, tiles_bytes, pairs, blocks_bytes}
use green_gate.Storage.Exporter.Write.{header_bytes, column_bytes, tail_bytes, serialize}
use green_gate.Storage.Exporter.Read.{
  ok, err, too_small, column_metadata, read_header, read_columns, read_column, read, deserialize,
}
use green_gate.Storage.Exporter.RoundTrip.{IsRowGroup, image, deserialize-serialize}
use green_gate.Storage.Exporter.Safety.{Returns, IsShaped, deserialize-Returns}

abbrev small_tile : CbstTile
small_tile = record { planes = replicate 64 5; validity = 3; padding = replicate 7 0 }

abbrev small_group : RowGroup
small_group = record {
  num_rows = 2;
  num_columns = 1;
  column_names = codes "id" ∷ [];
  column_types = 1 ∷ [];
  blocks = record { columns = small_tile ∷ []; tail_payload = codes "tail"; delete_mask = 3 } ∷ [];
}

small_group-IsRowGroup : IsRowGroup small_group
small_group-IsRowGroup = record {
  rows_word = omega arith;
  columns_word = omega arith;
  name_count = refl;
  type_count = refl;
  names_short = (omega arith, tt);
  types_word = (omega arith, tt);
  block_count = refl;
  blocks_ok = (
    record {
      tile_count = refl;
      tiles = (
        record {
          planes_length = refl;
          planes_words = All-replicate (λ w. w < 2 ^ 64) 64 5 (omega arith);
          validity_word = omega arith;
          padding_length = refl;
          padding_words = All-replicate (λ w. w < 2 ^ 64) 7 0 (omega arith);
        },
        tt,
      );
      mask_word = omega arith;
    },
    tt,
  );
}

small_file : length (image small_group small_group-IsRowGroup) ≡ 768
unfolding header_bytes columns_bytes pairs blocks_bytes tile_bytes tail_bytes column_bytes le_bytes
    word_bytes padding tiles_bytes
small_file = refl

deserialize-serialize_example :
    (bs : Bytes) × (serialize small_group ≡ some bs) × (deserialize bs ≡ ok small_group)
deserialize-serialize_example =
    deserialize-serialize small_group small_group-IsRowGroup (omega (arith, small_file))

-- The header of a file with one column, and nothing after it.
abbrev cut_file : Bytes
cut_file = codes "CBST" ++ (1 ∷ replicate 7 0) ++ (1 ∷ replicate 7 0) ++ (1 ∷ replicate 43 0)

deserialize-Returns_example : Returns IsShaped (deserialize cut_file)
deserialize-Returns_example =
    deserialize-Returns cut_file (all_lt-All 256 cut_file refl) (omega arith)

-- A file that ends early is refused.
deserialize_short : deserialize (codes "CBST") ≡ err too_small
unfolding deserialize read_header
deserialize_short = refl

deserialize_cut : deserialize cut_file ≡ err column_metadata
unfolding deserialize read_header read_columns read_column read from_le bytes_eq
deserialize_cut = refl

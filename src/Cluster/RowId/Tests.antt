-- ===== src/Cluster/RowId/Tests.antt =====
-- Packed row numbers on concrete fields.
use green_gate.Base.{◌≡◌, refl, arith}
use green_gate.Cluster.RowId.{pack_row_id, unpack_row_id, unpack_row_id-pack_row_id}

unpack_row_id-pack_row_id_example :
    unpack_row_id (pack_row_id 2 7 4095) ≡ record { node_id = 2; batch_idx = 7; row_idx = 4095 }
unpack_row_id-pack_row_id_example =
    unpack_row_id-pack_row_id 2 7 4095
      (record { node_range = omega arith; batch_range = omega arith; row_range = omega arith })

-- Row 4096 of batch 0 comes back as row 0 of batch 1.
unpack_row_id_overflow :
    unpack_row_id (pack_row_id 2 0 4096) ≡ record { node_id = 2; batch_idx = 1; row_idx = 0 }
unfolding unpack_row_id pack_row_id
unpack_row_id_overflow = refl

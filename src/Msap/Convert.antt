-- ===== src/Msap/Convert.antt =====
-- lib/wpc/include/msap.h: what the node sends, converted to structures for the caller.
use c_mesh_api.Util.{uint32_decode_le, uint16_decode_le}
use c_mesh_api.Prelude.{
  ℕ, Bytes, List, Outcome, drop, ok, ◌+◌, ◌>>=◌, get_or, suc, ◌*◌, ltb, replicate, set, false, true,
  fault, zero,
}

abbrev pub maximum_number_of_neighbor : ℕ
maximum_number_of_neighbor = 8

-- `sizeof(neighbor_info_t)`
abbrev pub neighbor_info_size : ℕ
neighbor_info_size = 13

-- `app_nbor_info_t`
pub record NborInfo : Type 0 where
  pub add : ℕ
  pub link_rel : ℕ
  pub norm_rssi : ℕ
  pub cost : ℕ
  pub channel : ℕ
  pub nbor_type : ℕ
  pub tx_power : ℕ
  pub rx_power : ℕ
  pub last_update : ℕ

abbrev pub no_nbor : NborInfo
no_nbor = record {
  add = 0;
  link_rel = 0;
  norm_rssi = 0;
  cost = 0;
  channel = 0;
  nbor_type = 0;
  tx_power = 0;
  rx_power = 0;
  last_update = 0;
}

-- The neighbour with index `i` in the bytes of a `msap_get_nbors_conf_pl_t`.
unfoldable pub nbor_at : Bytes → ℕ → NborInfo
nbor_at internal i =
    let n = drop (1 + i * neighbor_info_size) internal in
    record {
      add = uint32_decode_le n;
      link_rel = get_or n 4 0;
      norm_rssi = get_or n 5 0;
      cost = get_or n 6 0;
      channel = get_or n 7 0;
      nbor_type = get_or n 8 0;
      tx_power = get_or n 9 0;
      rx_power = get_or n 10 0;
      last_update = uint16_decode_le (drop 11 n);
    }

-- The loop: the rounds left, and `i`. Both arrays have 8 elements.
unfoldable pub convert_loop : ℕ → ℕ → Bytes → List NborInfo → Outcome (List NborInfo)
convert_loop zero i internal nbors = ok nbors
convert_loop (suc left) i internal nbors = elim (ltb i maximum_number_of_neighbor) [
  | true ↦ convert_loop left (i + 1) internal (set nbors i (nbor_at internal i))
  | false ↦ fault
]

-- `number_of_neighbors` and `nbors`
unfoldable pub convert_internal_to_app_neighbors_status : Bytes → Outcome (ℕ × List NborInfo)
convert_internal_to_app_neighbors_status internal = do
  nbors ←
      convert_loop (get_or internal 0 0) 0 internal (replicate maximum_number_of_neighbor no_nbor)
  ok (get_or internal 0 0, nbors)

-- `app_scratchpad_status_t`
pub record ScratchpadStatus : Type 0 where
  pub scrat_len : ℕ
  pub scrat_crc : ℕ
  pub scrat_seq_number : ℕ
  pub scrat_type : ℕ
  pub scrat_status : ℕ
  pub processed_scrat_len : ℕ
  pub processed_scrat_crc : ℕ
  pub processed_scrat_seq_number : ℕ
  pub firmware_memory_area_id : ℕ
  pub firmware_major_ver : ℕ
  pub firmware_minor_ver : ℕ
  pub firmware_maint_ver : ℕ
  pub firmware_dev_ver : ℕ

unfoldable pub convert_internal_to_app_scratchpad_status : Bytes → ScratchpadStatus
convert_internal_to_app_scratchpad_status internal = record {
  scrat_len = uint32_decode_le internal;
  scrat_crc = uint16_decode_le (drop 4 internal);
  scrat_seq_number = get_or internal 6 0;
  scrat_type = get_or internal 7 0;
  scrat_status = get_or internal 8 0;
  processed_scrat_len = uint32_decode_le (drop 9 internal);
  processed_scrat_crc = uint16_decode_le (drop 13 internal);
  processed_scrat_seq_number = get_or internal 15 0;
  firmware_memory_area_id = uint32_decode_le (drop 16 internal);
  firmware_major_ver = get_or internal 20 0;
  firmware_minor_ver = get_or internal 21 0;
  firmware_maint_ver = get_or internal 22 0;
  firmware_dev_ver = get_or internal 23 0;
}

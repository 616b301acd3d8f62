-- ===== src/Msap/Neighbors.antt =====
-- What the conversion of neighbours in lib/wpc/include/msap.h gives.
use c_mesh_api.Msap.Convert.{
  maximum_number_of_neighbor, convert_loop, nbor_at, no_nbor, NborInfo, neighbor_info_size,
  convert_internal_to_app_neighbors_status,
}
use c_mesh_api.Util.{uint32_decode_le, uint16_decode_le}
use c_mesh_api.Request.{get32, get16}
use c_mesh_api.Prelude.{
  inl, inr, false, true, ok, fault, zero, suc, Bytes, ℕ, List, get_or, ◌≡◌, ◌+◌, ◌<◌, ◌≤◌, arith,
  length, set, ◌*◌, ◌⊎◌, Bool-cases, drop, if◌then◌else◌, ltb, get_or-drop, leb, refl, ◌∙◌, ap,
  replicate, ◌&&◌, get_or-replicate, length-set, ◌==◌, get_or-set_at, sym,
}

convert_loop-suc :
    (left i : ℕ) (internal : Bytes) (nbors : List NborInfo)
    → i < maximum_number_of_neighbor
    → convert_loop (suc left) i internal nbors
      ≡ convert_loop left (i + 1) internal (set nbors i (nbor_at internal i))
unfolding convert_loop
convert_loop-suc left i internal nbors h =
    let room : ltb i maximum_number_of_neighbor ≡ true = ground arith in
    rw (convert_loop, room) refl

convert_loop-fault :
    (left i : ℕ) (internal : Bytes) (nbors : List NborInfo)
    → i ≤ maximum_number_of_neighbor
    → maximum_number_of_neighbor < i + left
    → convert_loop left i internal nbors ≡ fault
unfolding convert_loop
convert_loop-fault zero i internal nbors h k = absurd (omega arith)
convert_loop-fault (suc left) i internal nbors h k =
    elim (Bool-cases (ltb i maximum_number_of_neighbor)) [
      | inl q ↦
          convert_loop-suc left i internal nbors (ground arith)
          ∙ convert_loop-fault left (i + 1) internal (set nbors i (nbor_at internal i))
              (ground arith) (omega arith)
      | inr q ↦ rw (convert_loop, q) refl
    ]

-- One round, seen at the index `j`.
convert_step :
    (i j left : ℕ) (internal : Bytes) (nbors : List NborInfo)
    → i < length nbors
    → (if leb (i + 1) j && ltb j (i + 1 + left)
        then nbor_at internal j
        else get_or (set nbors i (nbor_at internal i)) j no_nbor)
      ≡ (if leb i j && ltb j (i + suc left) then nbor_at internal j else get_or nbors j no_nbor)
convert_step i j left internal nbors h = elim (Bool-cases (j == i)) [
  | inl q ↦
      let e : j ≡ i = ground arith in
      let before : (leb (i + 1) j && ltb j (i + 1 + left)) ≡ false = ground arith in
      let now : (leb i j && ltb j (i + suc left)) ≡ true = ground arith in
      rw (before, now, get_or-set_at nbors i j (nbor_at internal i) no_nbor h, q)
        (ap (nbor_at internal) (sym e))
  | inr q ↦
      let same : (leb (i + 1) j && ltb j (i + 1 + left)) ≡ (leb i j && ltb j (i + suc left)) =
        ground arith in
      rw (get_or-set_at nbors i j (nbor_at internal i) no_nbor h, q, same) refl
]

convert_loop-nbor_at :
    (left i : ℕ) (internal : Bytes) (nbors : List NborInfo)
    → i + left ≤ maximum_number_of_neighbor
    → length nbors ≡ maximum_number_of_neighbor
    → (nbors' : List NborInfo) × (convert_loop left i internal nbors ≡ ok nbors')
      × (length nbors' ≡ maximum_number_of_neighbor)
      × ((j : ℕ)
          → get_or nbors' j no_nbor
            ≡ (if leb i j && ltb j (i + left) then nbor_at internal j else get_or nbors j no_nbor))
unfolding convert_loop
convert_loop-nbor_at zero i internal nbors h l =
    (nbors, refl, l, λ j. let q : (leb i j && ltb j (i + 0)) ≡ false = ground arith in rw q refl)
convert_loop-nbor_at (suc left) i internal nbors h l =
    let (nbors', e, l', at) =
      convert_loop-nbor_at left (i + 1) internal (set nbors i (nbor_at internal i)) (omega arith)
        (length-set nbors i (nbor_at internal i) ∙ l) in
    (
      nbors',
      convert_loop-suc left i internal nbors (omega arith) ∙ e,
      l',
      λ j. at j ∙ convert_step i j left internal nbors (omega arith),
    )

-- The neighbour in the 13 bytes from `at` on: the address of four bytes, the seven bytes of the
-- link, and the age of two bytes, the lower bytes first.
abbrev pub nbor_in_bytes : Bytes → ℕ → NborInfo
nbor_in_bytes b at = record {
  add = get32 b at;
  link_rel = get_or b (at + 4) 0;
  norm_rssi = get_or b (at + 5) 0;
  cost = get_or b (at + 6) 0;
  channel = get_or b (at + 7) 0;
  nbor_type = get_or b (at + 8) 0;
  tx_power = get_or b (at + 9) 0;
  rx_power = get_or b (at + 10) 0;
  last_update = get16 b (at + 11);
}

nbor_at-nbor_in_bytes :
    (b : Bytes) (i : ℕ) → nbor_at b i ≡ nbor_in_bytes b (1 + i * neighbor_info_size)
unfolding nbor_at uint32_decode_le uint16_decode_le
nbor_at-nbor_in_bytes b i =
    let at = 1 + i * neighbor_info_size in
    let field : (k : ℕ) → get_or (drop at b) k 0 ≡ get_or b (at + k) 0 =
      λ k. get_or-drop at k b 0 in
    let age : (k : ℕ) → get_or (drop 11 (drop at b)) k 0 ≡ get_or b (at + 11 + k) 0 = λ k.
      get_or-drop 11 k (drop at b) 0
      ∙ get_or-drop at (11 + k) b 0
      ∙ ap (λ j. get_or b j 0) (let e : at + (11 + k) ≡ at + 11 + k = omega arith in e) in
    let first : (x : ℕ) → x ≡ at → get_or b x 0 ≡ get_or b at 0 = λ x e. ap (λ j. get_or b j 0) e in
    rw
      (
        field 0,
        field 1,
        field 2,
        field 3,
        field 4,
        field 5,
        field 6,
        field 7,
        field 8,
        field 9,
        field 10,
        age 0,
        age 1,
        first (at + 0) (omega arith),
        ap (λ j. get_or b j 0) (let e : at + 11 + 0 ≡ at + 11 = omega arith in e),
      )
      refl

-- With at most 8 neighbours announced, the conversion gives their number, for each of them the
-- address, the values of the link and the age at their places in its 13 bytes, and empty entries
-- behind them; with more it accesses the arrays out of bounds.
pub convert_internal_to_app_neighbors_status-nbor_in_bytes :
    (internal : Bytes)
    → let number = get_or internal 0 0 in
      ((maximum_number_of_neighbor < number)
        × (convert_internal_to_app_neighbors_status internal ≡ fault))
      ⊎ ((nbors : List NborInfo) × (convert_internal_to_app_neighbors_status internal
            ≡ ok (number, nbors))
          × (length nbors ≡ maximum_number_of_neighbor)
          × ((j : ℕ)
              → get_or nbors j no_nbor ≡ (
                  if ltb j number
                  then nbor_in_bytes internal (1 + j * neighbor_info_size)
                  else no_nbor)))
unfolding convert_internal_to_app_neighbors_status
convert_internal_to_app_neighbors_status-nbor_in_bytes internal =
    let number : ℕ = get_or internal 0 0 in
    elim (Bool-cases (leb number maximum_number_of_neighbor)) [
      | inl q ↦
          let (nbors, e, l, at) =
            convert_loop-nbor_at number 0 internal (replicate maximum_number_of_neighbor no_nbor)
              (ground arith) refl in
          inr (
            nbors,
            rw e refl,
            l,
            λ j.
                at j
                ∙ (let f = nbor_at-nbor_in_bytes internal j in
                    let z = get_or-replicate maximum_number_of_neighbor j no_nbor in ground arith),
          )
      | inr q ↦ inl (
        ground arith,
        rw
            (convert_loop-fault number 0 internal (replicate maximum_number_of_neighbor no_nbor)
              (omega arith) (ground arith))
            refl,
      )
    ]

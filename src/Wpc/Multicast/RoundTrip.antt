-- ===== src/Wpc/Multicast/RoundTrip.antt =====
-- The multicast groups that lib/wpc/wpc.c reads, after it has written them.
use c_mesh_api.Wpc.Multicast.Reading.{get_groups_loop-got}
use c_mesh_api.Attribute.RoundTrip.{
  Stores, attribute_write_request-stored, Recalls, attribute_read_request-recalled, read_of,
}
use c_mesh_api.Wpc.Errors.{convert_error_code, app_res_ok, converted}
use c_mesh_api.Util.{uint32_decode_le}
use c_mesh_api.Attribute.{
  msap_attribute_write_request, msap_attribute_write, attribute_write_size,
  msap_attribute_read_request, msap_attribute_read, attribute_read_request,
}
use c_mesh_api.Request.{Requests, Frames, payload_offset}
use c_mesh_api.Wpc.Multicast.Groups.{
  IsGroup, group_at, filled_at, group_at-get32, groups_size, set_groups_loop-filled,
}
use c_mesh_api.Wpc.Multicast.{
  group_address, maximum_number_of_multicast_groups, wpc_set_multicast_groups,
  wpc_get_multicast_groups,
}
use c_mesh_api.Prelude.{
  ℕ, some, true, false, pos, Bytes, ok, List, ◌≡◌, if◌then◌else◌, ltb, ◌≤◌, leb, length, ◌&&◌,
  get_or, ◌+◌, ◌==◌, Bool-cases, arith, inl, inr, ◌∙◌, ap, ◌>>=◌, refl, sym, ◌<◌, replicate, ◌%◌,
  ◌^◌, get_or-replicate, drop, ◌*◌, take_all,
}

group_address_lem :
    (groups : Bytes) (i a : ℕ)
    → IsGroup a
    → group_at groups i ≡ a % 2 ^ 24
    → group_address groups i ≡ a
unfolding group_address
group_address_lem groups i a (inl z) e =
    let none_there : uint32_decode_le (drop (4 * i) groups) ≡ 0 = omega arith in
    rw none_there (sym z)
group_address_lem groups i a (inr (b, c)) e =
    let v : ℕ = uint32_decode_le (drop (4 * i) groups) in
    let value : v + 2 ^ 31 ≡ a = omega arith in
    let used : (v == 0) ≡ false = ground arith in
    let low : ltb v (2 ^ 31) ≡ true = ground arith in rw (used, low) value

group_at-zeros : (n j : ℕ) → group_at (replicate n 0) j ≡ 0
group_at-zeros n j =
    group_at-get32 (replicate n 0) j
    ∙ omega (
      arith,
      get_or-replicate {A = ℕ} n (4 * j) 0,
      get_or-replicate {A = ℕ} n (4 * j + 1) 0,
      get_or-replicate {A = ℕ} n (4 * j + 2) 0,
      get_or-replicate {A = ℕ} n (4 * j + 3) 0,
    )

-- The entry that is read, by the one that was written.
entry_read :
    (l : List ℕ) (groups : Bytes) (num capacity i other : ℕ)
    → ((j : ℕ) → j < num → IsGroup (get_or l j 0))
    → num ≤ maximum_number_of_multicast_groups
    → ((j : ℕ)
        → j < maximum_number_of_multicast_groups
        → group_at groups j ≡ filled_at l 0 num (replicate groups_size 0) j)
    → (if leb 0 i && (ltb i (0 + maximum_number_of_multicast_groups) && ltb i capacity)
        then group_address groups i
        else other)
      ≡ (if ltb i maximum_number_of_multicast_groups && ltb i capacity
          then (if ltb i num then get_or l i 0 else 0)
          else other)
entry_read l groups num capacity i other valid few at =
    elim (Bool-cases (ltb i maximum_number_of_multicast_groups && ltb i capacity)) [
      | inr q ↦
          let q' : (leb 0 i && (ltb i (0 + maximum_number_of_multicast_groups) && ltb i capacity))
              ≡ false =
            ground arith in
          rw (q', q) refl
      | inl q ↦
          let q' : (leb 0 i && (ltb i (0 + maximum_number_of_multicast_groups) && ltb i capacity))
              ≡ true =
            ground arith in
          let below : i < maximum_number_of_multicast_groups = ground arith in
          let least : leb 0 i ≡ true = ground arith in
          elim (Bool-cases (ltb i num)) [
            | inl r ↦
                let r' : ltb i (0 + num) ≡ true = ground arith in
                rw (q', q, r)
                  (group_address_lem groups i (get_or l i 0) (valid i (ground arith))
                    (at i below ∙ rw (least, r') refl))
            | inr r ↦
                let r' : ltb i (0 + num) ≡ false = ground arith in
                rw (q', q, r)
                  (group_address_lem groups i 0 (inl refl) (at i below ∙ rw (least, r') refl))
          ]
    ]

module _ {S : Type 0} (requests : Requests S) (stored : S → ℕ → Bytes) where
  wpc_set_multicast_groups-stored :
      (l : List ℕ) (num : ℕ) (frames : Frames) (s : S)
      → Stores requests stored msap_attribute_write
      → num ≤ maximum_number_of_multicast_groups
      → num ≤ length l
      → ((j : ℕ) → j < num → IsGroup (get_or l j 0))
      → payload_offset + attribute_write_size ≤ length frames.request
      → (groups : Bytes) × (s' : S) × (wpc_set_multicast_groups requests l num frames s
          ≡ ok (some app_res_ok, s'))
        × (stored s' 13 ≡ groups)
        × (length groups ≡ groups_size)
        × ((j : ℕ)
            → j < maximum_number_of_multicast_groups
            → group_at groups j ≡ filled_at l 0 num (replicate groups_size 0) j)
  unfolding wpc_set_multicast_groups msap_attribute_write_request convert_error_code
  wpc_set_multicast_groups-stored l num frames s stores few inside valid room =
      let (groups, e, size, at) =
        set_groups_loop-filled l num 0 (replicate groups_size 0) (omega arith) (omega arith) refl
          (λ i b. valid i (omega arith)) (λ j a b. group_at-zeros groups_size j) in
      let (s', e', kept) =
        attribute_write_request-stored requests stored msap_attribute_write 13 groups_size groups
          frames s stores (omega arith) (omega arith) (omega arith) room in
      let fine : ltb maximum_number_of_multicast_groups num ≡ false = ground arith in
      (
        groups,
        s',
        rw (fine, e, ◌>>=◌, e') refl,
        kept ∙ take_all groups_size groups (omega arith),
        size,
        at,
      )

  -- On a node that stores the attributes of the management service and gives them back:
  -- `WPC_set_multicast_groups` with at most 10 addresses, each 0 or between 0x80000000 and
  -- 0x81000000, both excluded, returns `APP_RES_OK`, and `WPC_get_multicast_groups` after that
  -- returns `APP_RES_OK` and the number 10, and writes to the first places of the array, as far as
  -- its size given and 10 allow, these addresses and 0 behind them, and leaves the other places.
  pub set_multicast_groups-get :
      (l : List ℕ) (num : ℕ) (array : List ℕ) (capacity : ℕ) (frames frames' : Frames) (s : S)
      → Stores requests stored msap_attribute_write
      → Recalls requests stored msap_attribute_read
      → num ≤ maximum_number_of_multicast_groups
      → num ≤ length l
      → ((j : ℕ) → j < num → IsGroup (get_or l j 0))
      → capacity ≤ length array
      → payload_offset + attribute_write_size ≤ length frames.request
      → payload_offset + 2 ≤ length frames'.request
      → 7 + groups_size ≤ length frames'.confirm
      → (s' : S) × (array' : List ℕ) × (s'' : S) × (wpc_set_multicast_groups requests l num frames s
          ≡ ok (some app_res_ok, s'))
        × (wpc_get_multicast_groups requests array capacity frames' s'
            ≡ ok ((some app_res_ok, array', maximum_number_of_multicast_groups), s''))
        × (length array' ≡ length array)
        × ((i : ℕ)
            → get_or array' i 0 ≡ (
                if ltb i maximum_number_of_multicast_groups && ltb i capacity
                then (if ltb i num then get_or l i 0 else 0)
                else get_or array i 0))
  unfolding wpc_get_multicast_groups msap_attribute_read_request convert_error_code converted
  set_multicast_groups-get l num array capacity frames frames' s stores recalls few inside valid
        fits room room' fit =
      let (groups, s', e, kept, size, at) =
        wpc_set_multicast_groups-stored l num frames s stores few inside valid room in
      let (s'', e') =
        attribute_read_request-recalled requests stored msap_attribute_read 13 groups_size frames'
          s' recalls (omega arith) room' (omega (arith, ap length kept)) in
      let read : attribute_read_request requests msap_attribute_read 13 groups_size frames' s'
          ≡ ok ((some (pos 0), some groups), s'') =
        e'
        ∙ ap (λ x. ok (read_of groups_size (length x) x, s'')) kept
        ∙ ap (λ n. ok (read_of groups_size n groups, s'')) size in
      let (array', g, length_kept, got) =
        get_groups_loop-got maximum_number_of_multicast_groups 0 groups capacity array fits in
      (
        s',
        array',
        s'',
        e,
        rw (read, ◌>>=◌, g) refl,
        length_kept,
        λ i. got i ∙ entry_read l groups num capacity i (get_or array i 0) valid few at,
      )

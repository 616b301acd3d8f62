-- ===== src/Wpc/Multicast.antt =====
-- WPC_get_multicast_groups and WPC_set_multicast_groups of lib/wpc/wpc.c. The array `groups` is a
-- list of bytes; the mask of the top byte is a quotient, and the `|` of the top bit a sum.
pub mod Groups
pub mod Reading
pub mod RoundTrip
use c_mesh_api.Wpc.Management.{get_msap_attribute, set_msap_attribute}
use c_mesh_api.Wpc.Errors.{AppRes, app_res_invalid_value, app_res_ok}
use c_mesh_api.Request.{Requests, Frames}
use c_mesh_api.Util.{uint32_decode_le, uint32_encode_le}
use c_mesh_api.Prelude.{
  ℕ, none, some, true, false, zero, suc, Bytes, ok, List, Outcome, drop, Option, ◌*◌, ◌>>=◌,
  if◌then◌else◌, load, ltb, ◌==◌, store, ◌+◌, ◌^◌, replicate, ◌/◌, overlay, ◌%◌,
}

-- `MAXIMUM_NUMBER_OF_MULTICAST_GROUPS`
abbrev pub maximum_number_of_multicast_groups : ℕ
maximum_number_of_multicast_groups = 10

-- The address that is stored for the group `n`.
unfoldable pub group_address : Bytes → ℕ → ℕ
group_address groups n =
    let addr = uint32_decode_le (drop (4 * n) groups) in
    if addr == 0 then 0 else if ltb addr (2 ^ 31) then addr + 2 ^ 31 else addr

-- The loop that stores the addresses: the rounds left, and `n`.
unfoldable pub get_groups_loop : ℕ → ℕ → Bytes → ℕ → List ℕ → Outcome (List ℕ)
get_groups_loop zero n groups num_addr addr_list = ok addr_list
get_groups_loop (suc left) n groups num_addr addr_list = do
  addr_list' ← if ltb n num_addr then store addr_list n (group_address groups n) else ok addr_list
  get_groups_loop left (n + 1) groups num_addr addr_list'

-- The loop that fills `groups`, which is `none` for an address that is not valid.
unfoldable pub set_groups_loop : ℕ → ℕ → List ℕ → Bytes → Outcome (Option Bytes)
set_groups_loop zero n addr_list groups = ok (some groups)
set_groups_loop (suc left) n addr_list groups = do
  addr ← load addr_list n
  elim (addr == 0) [
    | true ↦ set_groups_loop left (n + 1) addr_list groups
    | false ↦ elim (addr / 2 ^ 24 == 0x80) [
      | false ↦ ok none
      | true ↦
          set_groups_loop left (n + 1) addr_list
            (overlay (4 * n) (uint32_encode_le (addr % 2 ^ 24)) groups)
    ]
  ]

module _ {S : Type 0} (requests : Requests S) where
  -- The result, the contents of `addr_list` and `*num_addr_p`, and the state.
  unfoldable pub wpc_get_multicast_groups :
      List ℕ → ℕ → Frames → S → Outcome ((Option AppRes × List ℕ × ℕ) × S)
  wpc_get_multicast_groups addr_list num_addr frames s = do
    (r, s') ←
        get_msap_attribute requests 13 (4 * maximum_number_of_multicast_groups) (λ att. att) frames
          s
    elim r.1 [
      | none ↦ ok ((r.0, addr_list, num_addr), s')
      | some groups ↦ (do
        addr_list' ← get_groups_loop maximum_number_of_multicast_groups 0 groups num_addr addr_list
        ok ((some app_res_ok, addr_list', maximum_number_of_multicast_groups), s'))
    ]

  unfoldable pub wpc_set_multicast_groups : List ℕ → ℕ → Frames → S → Outcome (Option AppRes × S)
  wpc_set_multicast_groups addr_list num_addr frames s =
      if ltb maximum_number_of_multicast_groups num_addr
      then ok (some app_res_invalid_value, s)
      else (do
        filled ←
            set_groups_loop num_addr 0 addr_list
              (replicate (4 * maximum_number_of_multicast_groups) 0)
        elim filled [
          | none ↦ ok (some app_res_invalid_value, s)
          | some groups ↦
              set_msap_attribute requests 13 (4 * maximum_number_of_multicast_groups) groups frames
                s
        ])

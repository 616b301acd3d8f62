-- ===== src/Wpc/Tests.antt =====
-- The theorems on lib/wpc/wpc.c, at work on small nodes.
use c_mesh_api.Msap.ConfigData.{msap_stack_stop_request}
use c_mesh_api.Wpc.Stack.Restart.{wpc_start_stack-up}
use c_mesh_api.Wpc.Stack.Polls.{wpc_stop_stack-polls}
use c_mesh_api.Wpc.Scratchpad.Running.{wpc_download_local_scratchpad-unread}
use c_mesh_api.Wpc.Scratchpad.RoundTrip.{upload_local_block_scratchpad-download}
use c_mesh_api.Wpc.Stack.Forever.{wpc_stop_stack-fails}
use c_mesh_api.Wpc.Scratchpad.{wpc_download_local_scratchpad, wpc_upload_local_block_scratchpad}
use c_mesh_api.Wpc.Stack.{
  StopTimeout, default_timeout_after_stop_stack_s, wpc_start_stack, wpc_stop_stack, stop_request,
  wpc_set_max_poll_fail_duration, after_stop, wait_for_reboot, wait_loop, get_stack_status,
  status_loop,
}
use c_mesh_api.Wpc.Stack.Clock.{
  Clocked, tick_node, tick_control, last_reading, tick_control-Monotonic, tick_control-Ticks,
  tick_node-Answered, tick_node-Prompt, tick_node-StartsStack, tick_node-TellsStatus,
}
use c_mesh_api.Msap.Callbacks.{Registry, stack_status}
use c_mesh_api.Wpc.Scratchpad.Node.{
  Memory, block_node, block_node-RefusesReads, block_node-TellsBlockMax, block_node-WritesBlocks,
  block_node-ReadsBlocks,
}
use c_mesh_api.Wpc.Multicast.RoundTrip.{set_multicast_groups-get}
use c_mesh_api.Wpc.Errors.{app_res_ok, app_res_internal_error, AppRes}
use c_mesh_api.Attribute.{msap_attribute_write, msap_attribute_read}
use c_mesh_api.Wpc.Multicast.{
  wpc_set_multicast_groups, wpc_get_multicast_groups, maximum_number_of_multicast_groups,
}
use c_mesh_api.Wpc.Multicast.Groups.{IsGroup}
use c_mesh_api.Attribute.Node.{Store, node, node-Stores, node-Recalls}
use c_mesh_api.Request.{Frames, plain_request, fill_request, write_at}
use c_mesh_api.Prelude.{
  ℕ, Bytes, List, ok, true, false, [], ◌∷◌, some, none, zero, suc, inl, inr, ◌<◌, replicate, get_or,
  arith, refl, ◌≡◌, length, if◌then◌else◌, ltb, ◌&&◌, Option, ◌≢◌, ◌⊎◌, ap, ◌∙◌,
}

abbrev long_locals : Frames
long_locals = record { request = replicate 130 0; confirm = replicate 130 0 }

abbrev old_array : List ℕ
old_array = replicate 12 7

-- Two groups and an unused entry between them.
abbrev two_groups : List ℕ
two_groups = 0x80000001 ∷ 0 ∷ 0x80ABCDEF ∷ []

two_groups-IsGroup : (j : ℕ) → j < 3 → IsGroup (get_or two_groups j 0)
two_groups-IsGroup zero h = inr (omega arith, omega arith)
two_groups-IsGroup (suc zero) h = inl refl
two_groups-IsGroup (suc (suc zero)) h = inr (omega arith, omega arith)
two_groups-IsGroup (suc (suc (suc j))) h = absurd (omega arith)

set_multicast_groups-get_example :
    (s' : Store) × (array' : List ℕ) × (s'' : Store) × (wpc_set_multicast_groups
        (node msap_attribute_write)
        two_groups
        3
        long_locals
        (λ i. [])
      ≡ ok (some app_res_ok, s'))
    × (wpc_get_multicast_groups (node msap_attribute_write) old_array 12 long_locals s'
        ≡ ok ((some app_res_ok, array', maximum_number_of_multicast_groups), s''))
    × (length array' ≡ length old_array)
    × ((i : ℕ)
        → get_or array' i 0 ≡ (
            if ltb i maximum_number_of_multicast_groups && ltb i 12
            then (if ltb i 3 then get_or two_groups i 0 else 0)
            else get_or old_array i 0))
set_multicast_groups-get_example =
    set_multicast_groups-get (node msap_attribute_write) (λ s. s) two_groups 3 old_array 12
      long_locals long_locals (λ i. []) (node-Stores msap_attribute_write)
      (node-Recalls msap_attribute_write msap_attribute_read refl) (omega arith) (omega arith)
      two_groups-IsGroup (omega arith) (omega arith) (omega arith) (omega arith)

abbrev image : Bytes
image = replicate 40 9

abbrev empty_memory : Memory
empty_memory a = 0

-- Three blocks of 16, 16 and 8 bytes.
upload_local_block_scratchpad-download_example :
    (s' : Memory) × (array' : Bytes) × (s'' : Memory) × (wpc_upload_local_block_scratchpad
        (block_node true)
        41
        40
        image
        100
        long_locals
        (λ i. long_locals)
        empty_memory
      ≡ ok (some app_res_ok, s'))
    × (wpc_download_local_scratchpad
          (block_node true)
          41
          40
          (replicate 50 0)
          100
          long_locals
          (λ i. long_locals)
          s'
        ≡ ok ((some app_res_ok, array'), s''))
    × (length array' ≡ 50)
    × ((i : ℕ)
        → get_or array' i 0 ≡ (if ltb i 40 then get_or image i 0 else get_or (replicate 50 0) i 0))
upload_local_block_scratchpad-download_example =
    upload_local_block_scratchpad-download (block_node true) (λ s. s) 16 40 100 41 image
      (replicate 50 0) long_locals long_locals (λ i. long_locals) (λ i. long_locals) empty_memory
      (block_node-TellsBlockMax true (λ s. s)) (block_node-WritesBlocks true) block_node-ReadsBlocks
      (omega arith) (omega arith) (omega arith) (omega arith) (omega arith) (omega arith)
      (omega arith, omega arith) (omega arith, omega arith) (λ i. omega arith)
      (λ i. (omega arith, omega arith))

wpc_download_local_scratchpad-unread_example :
    (s' : Memory) × (wpc_download_local_scratchpad
        (block_node false)
        41
        40
        (replicate 50 0)
        100
        long_locals
        (λ i. long_locals)
        empty_memory
      ≡ ok ((some app_res_ok, replicate 50 0), s'))
wpc_download_local_scratchpad-unread_example =
    wpc_download_local_scratchpad-unread (block_node false) 16 40 100 (λ i. long_locals)
      (omega arith) (omega arith) (λ i. (omega arith, omega arith)) block_node-RefusesReads
      (replicate 50 0) 41 long_locals empty_memory (block_node-TellsBlockMax false (λ s a. 0))
      (omega arith) (omega arith, omega arith)

abbrev one_callback : Registry ℕ Clocked
one_callback = record {
  m_app_conf_cb = none;
  m_scan_neighbor_cb = none;
  m_stack_status_cb = some 71;
  m_config_data_item_cb = none;
  lower = record { tick = 5; is_disabled = false };
}

abbrev at_five : Clocked
at_five = record { tick = 5; is_disabled = false }

abbrev with_default : StopTimeout Clocked
with_default = record {
  m_timeout_after_stop_task_s = default_timeout_after_stop_stack_s;
  below = at_five;
}

wpc_stop_stack-polls_example :
    (res : Option AppRes) × (t' : StopTimeout Clocked) × (wpc_stop_stack tick_node
        (tick_control (λ t. t))
        60001
        long_locals
        (λ i. long_locals)
        with_default
      ≡ ok (res, t'))
    × ((res ≡ none) ⊎ (t'.below.is_disabled ≡ false))
wpc_stop_stack-polls_example =
    wpc_stop_stack-polls tick_node (tick_control (λ t. t)) (λ s. s.tick) 1 tick_control-Ticks
      tick_node-Answered 60001 (λ i. long_locals) (λ i. (omega arith, omega arith)) long_locals
      with_default (omega arith, omega arith) (omega arith) (omega arith)

wpc_start_stack-up_example :
    (t' : Registry ℕ Clocked) × (wpc_start_stack tick_node
        (tick_control (λ t. t))
        200
        long_locals
        (λ i. long_locals)
        one_callback
      ≡ ok (some app_res_ok, stack_status 71 0 ∷ [], t'))
wpc_start_stack-up_example =
    wpc_start_stack-up tick_node (tick_control (λ t. t)) (λ s. s.tick) 1 1 tick_control-Ticks
      tick_node-Prompt (λ i. long_locals) (λ i. (omega arith, omega arith)) 100 200 long_locals
      one_callback tick_node-StartsStack (tick_node-TellsStatus 105) (omega arith) (omega arith)
      (omega arith) (omega arith, omega arith)

-- A duration of zero seconds, which stands for ever.
abbrev stopped_forever : StopTimeout Clocked
stopped_forever = record {
  m_timeout_after_stop_task_s = 0;
  below = record { tick = 10; is_disabled = false };
}

set_forever :
    wpc_set_max_poll_fail_duration tick_node (tick_control last_reading) 0 with_default
    ≡ (app_res_ok, record with_default { m_timeout_after_stop_task_s = 0 })
unfolding wpc_set_max_poll_fail_duration
set_forever = refl

stop_forever :
    wpc_stop_stack tick_node
      (tick_control last_reading)
      4
      long_locals
      (λ i. long_locals)
      (record with_default { m_timeout_after_stop_task_s = 0 })
    ≡ ok (some app_res_internal_error, stopped_forever)
unfolding wpc_stop_stack stop_request msap_stack_stop_request plain_request fill_request write_at
    after_stop wait_for_reboot wait_loop get_stack_status status_loop
stop_forever = refl

wpc_stop_stack-fails_example : some app_res_internal_error ≢ some app_res_ok
wpc_stop_stack-fails_example =
    wpc_stop_stack-fails tick_node (tick_control last_reading) tick_control-Monotonic 4
      (λ i. long_locals) 0 long_locals with_default (some app_res_internal_error) stopped_forever
      refl (ap (λ r. r.0) set_forever)
      (ap
          (λ r.
            wpc_stop_stack tick_node (tick_control last_reading) 4 long_locals (λ i. long_locals)
              r.1)
          set_forever
        ∙ stop_forever)

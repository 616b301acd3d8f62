-- ===== src/Dsap/Receive.antt =====
-- Indications and registration in lib/wpc/dsap.c, in the default build, without
-- `REGISTER_DATA_PER_ENDPOINT`. `C` is the type of a callback for sent packets, `D` that of a
-- callback for received data; a call of a callback is a value. The time and the results of the
-- allocations are arguments.
use c_mesh_api.Dsap.Transmit.{dsap_frag_last_flag_mask}
use c_mesh_api.Util.{internal_time_to_ms}
use c_mesh_api.Request.{get16, get32}
use c_mesh_api.Reassembly.{
  Fragment, InternalFragment, State, FullPacket, Allocations, reassembly_garbage_collect,
  reassembly_set_max_fragment_duration, reassembly_add_fragment, reassembly_get_full_message,
  key_of,
}
use c_mesh_api.Dsap.Callbacks.{empty_table, Entry, get_indication_cb}
use c_mesh_api.Reassembly.Containers.{PacketKey, UtList, UtHash}
use c_mesh_api.Prelude.{
  ℕ, none, some, true, Bool, Bytes, List, Option, drop, get_or, ◌%◌, ◌==◌, ◌^◌, Outcome, ◌+◌, ◌/◌,
  ◌>>=◌, if◌then◌else◌, length, ◌&&◌, not, ok,
}

abbrev pub dsap_frag_length_mask : ℕ
dsap_frag_length_mask = 0x0FFF

-- The static variables of dsap.c but `packet_id`, and those of reassembly.c.
pub record Receiver (C D Table : Type 0) : Type 0 where
  pub m_data_cb : Option D
  pub reassembly_buffer : Bytes
  pub sent_cb_table : List (Entry C)
  pub reassembly : State Table

-- A call of a callback for received data: the bytes from its pointer on, and the other arguments.
pub record DataReceived (D : Type 0) : Type 0 where
  pub callback : D
  pub bytes : Bytes
  pub num_bytes : ℕ
  pub src_addr : ℕ
  pub dst_addr : ℕ
  pub is_qos_high : Bool
  pub src_ep : ℕ
  pub dst_ep : ℕ
  pub travel_time : ℕ
  pub hop_count : ℕ
  pub timestamp_ms : ℕ

-- A call of a callback for a sent packet.
pub record DataSent (C : Type 0) : Type 0 where
  pub callback : C
  pub pdu_id : ℕ
  pub buffering_delay : ℕ
  pub result : ℕ

-- When the clock is read in the garbage collection that follows a fragment.
pub record GcClock : Type 0 where
  pub test : ℕ
  pub stamp : ℕ
  pub packet : PacketKey → ℕ

-- The fields of `dsap_data_rx_frag_ind_pl_t` in a frame, as a fragment; `full_packet_id` has 12
-- bits.
unfoldable pub fragment_of : Bytes → Fragment
fragment_of frame =
    let fragment_offset_flag = get16 frame 21 in
    record {
      src_add = get32 frame 4;
      packet_id = get16 frame 19 % 2 ^ 12;
      size = get_or frame 23 0;
      offset = fragment_offset_flag % (dsap_frag_length_mask + 1);
      last_fragment = fragment_offset_flag / dsap_frag_last_flag_mask % 2 == 1;
      bytes = drop 24 frame;
    }

-- The arguments that both indications of received data take from the fields at the same places.
abbrev pub data_received : {D : Type 0} → D → Bytes → ℕ → Bytes → ℕ → DataReceived D
data_received cb bytes num_bytes frame timestamp_ms_epoch = record {
  callback = cb;
  bytes = bytes;
  num_bytes = num_bytes;
  src_addr = get32 frame 4;
  dst_addr = get32 frame 9;
  is_qos_high = get_or frame 14 0 % 2 == 1;
  src_ep = get_or frame 8 0;
  dst_ep = get_or frame 13 0;
  travel_time = internal_time_to_ms (get32 frame 15);
  hop_count = get_or frame 14 0 / 2 ^ 2;
  timestamp_ms = timestamp_ms_epoch;
}

module _ {C D Table : Type 0} where
  unfoldable pub dsap_data_tx_indication_handler :
      Bytes → Receiver C D Table → Option (DataSent C) × Receiver C D Table
  dsap_data_tx_indication_handler frame t =
      let pdu_id = get16 frame 4 in
      let (cb, table) = get_indication_cb pdu_id t.sent_cb_table in
      (
        elim cb [
          | none ↦ none
          | some f ↦ some (record {
            callback = f;
            pdu_id = pdu_id;
            buffering_delay = internal_time_to_ms (get32 frame 12);
            result = get_or frame 16 0;
          })
        ],
        record t { sent_cb_table = table },
      )

  unfoldable pub dsap_data_rx_indication_handler :
      Bytes → ℕ → Receiver C D Table → Option (DataReceived D)
  dsap_data_rx_indication_handler frame timestamp_ms_epoch t = elim t.m_data_cb [
    | none ↦ none
    | some cb ↦ some (data_received cb (drop 20 frame) (get_or frame 19 0) frame timestamp_ms_epoch)
  ]

  unfoldable pub dsap_register_for_data : D → Receiver C D Table → Bool × Receiver C D Table
  dsap_register_for_data cb t = (true, record t { m_data_cb = some cb })

  unfoldable pub dsap_unregister_for_data : Receiver C D Table → Bool × Receiver C D Table
  dsap_unregister_for_data t = (true, record t { m_data_cb = none })

  unfoldable pub dsap_init : Receiver C D Table → Receiver C D Table
  dsap_init t = record t { m_data_cb = none; sent_cb_table = empty_table }

module _ {C D : Type 0} (ll : UtList InternalFragment) (hh : UtHash (FullPacket ll.Head)) where
  unfoldable pub dsap_set_max_fragment_duration :
      ℕ → Receiver C D hh.Table → Bool × Receiver C D hh.Table
  dsap_set_max_fragment_duration duration_s t = (
    true,
    record t { reassembly = reassembly_set_max_fragment_duration ll hh duration_s t.reassembly },
  )

  -- The end of the handler.
  abbrev pub collect_garbage : GcClock → Receiver C D hh.Table → Receiver C D hh.Table
  collect_garbage clock t = record t {
    reassembly = reassembly_garbage_collect ll hh clock.test clock.stamp clock.packet t.reassembly;
  }

  -- What is done when the packet is full: without a callback, no garbage is collected.
  unfoldable pub deliver_full :
      GcClock
      → Bytes
      → ℕ
      → Receiver C D hh.Table
      → Outcome (Option (DataReceived D) × Receiver C D hh.Table)
  deliver_full clock frame timestamp_ms_epoch t = do
    (found, buffer, full_size, r) ←
        reassembly_get_full_message ll hh (key_of (fragment_of frame)) t.reassembly_buffer
          (length t.reassembly_buffer) t.reassembly
    let t' : Receiver C D hh.Table = record t { reassembly_buffer = buffer; reassembly = r }
    ok (elim t'.m_data_cb [
      | none ↦ (none, t')
      | some cb ↦ (
        some (data_received cb buffer full_size frame timestamp_ms_epoch),
        collect_garbage clock t',
      )
    ])

  unfoldable pub dsap_data_rx_frag_indication_handler :
      Allocations
      → ℕ
      → GcClock
      → Bytes
      → ℕ
      → Receiver C D hh.Table
      → Outcome (Option (DataReceived D) × Receiver C D hh.Table)
  dsap_data_rx_frag_indication_handler mem now clock frame timestamp_ms_epoch t = do
    (added, full_size, r) ← reassembly_add_fragment ll hh mem now (fragment_of frame) t.reassembly
    let t' : Receiver C D hh.Table = record t { reassembly = r }
    if added && not (full_size == 0)
        then deliver_full clock frame timestamp_ms_epoch t'
        else ok (none, collect_garbage clock t')

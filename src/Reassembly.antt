-- ===== src/Reassembly.antt =====
-- lib/wpc/reassembly/reassembly.c: packets put together from fragments that arrive in any order.
-- A packet under construction is an item of a hash, and its fragments are a linked list; uthash
-- and utlist are parameters (Containers). The module's static variables are the record `State`.
-- The time and the results of the allocations are arguments; a freed block is one that the state
-- no longer holds. An out-of-bounds copy is `fault`.
pub mod Containers
pub mod Write
pub mod Arrive
pub mod Message
pub mod Queue
pub mod Collect
pub mod Refuse
pub mod Assoc
mod Tests
use c_mesh_api.Reassembly.Containers.{PacketKey, UtList, UtHash}
use c_mesh_api.Prelude.{
  ℕ, Bool, Bytes, List, ◌+◌, Outcome, false, if◌then◌else◌, ◌^◌, ◌∷◌, Option, [], leb, ltb, not, ok,
  some, true, ◌-◌, length, none, ◌%◌, ◌&&◌, ◌/◌, ◌==◌, ◌>>=◌, overlay, take, ◌*◌, fault,
}

-- `reassembly_fragment_t`; its timestamp is not used by the module.
pub record Fragment : Type 0 where
  pub src_add : ℕ
  pub packet_id : ℕ
  pub size : ℕ
  pub offset : ℕ
  pub last_fragment : Bool
  pub bytes : Bytes

-- `internal_fragment_t`, in a list of type `UtList`.
pub record InternalFragment : Type 0 where
  pub bytes : Bytes
  pub size : ℕ
  pub offset : ℕ

-- `full_packet_t`, with `Head` the type of the list head.
pub record FullPacket (Head : Type 0) : Type 0 where
  pub key : PacketKey
  pub full_size : ℕ
  pub is_full : Bool
  pub head : Head
  pub timestamp_ms_epoch_last : ℕ

-- The static variables, with `Table` the type of the hash.
pub record State (Table : Type 0) : Type 0 where
  pub fragment_max_duration_s : ℕ
  pub packets : Table
  pub is_queue_empty : Bool
  pub last_gc_ts_ms : ℕ

-- Which of the three allocations of a call succeed.
pub record Allocations : Type 0 where
  pub packet : Bool
  pub header : Bool
  pub payload : Bool

-- Subtraction of `unsigned long long`.
abbrev pub sub64 : ℕ → ℕ → ℕ
sub64 a b = (a + 2 ^ 64 - b) % 2 ^ 64

-- `memcpy (data, bytes, size)` into a new block of that size.
unfoldable pub copy_bytes : Bytes → ℕ → Outcome Bytes
copy_bytes bytes size = if leb size (length bytes) then ok (take size bytes) else fault

-- The sum of the sizes, as `is_packet_full` computes it.
unfoldable pub rx_size : List InternalFragment → ℕ
rx_size [] = 0
rx_size (f ∷ fs) = f.size + rx_size fs

-- The loop of `reassemble_full_packet`: each fragment is copied to its offset in the buffer.
unfoldable pub write_fragments : List InternalFragment → Bytes → Outcome Bytes
write_fragments [] buffer = ok buffer
write_fragments (f ∷ fs) buffer =
    if leb (f.offset + f.size) (length buffer)
    then write_fragments fs (overlay f.offset (take f.size f.bytes) buffer)
    else fault

abbrev pub key_of : Fragment → PacketKey
key_of frag = record { src_add = frag.src_add; packet_id = frag.packet_id }

module _ (ll : UtList InternalFragment) where
  abbrev pub Packet : Type 0
  Packet = FullPacket ll.Head

  -- The compound literal of `create_packet_in_hash`.
  abbrev pub new_packet : PacketKey → Packet
  new_packet key = record {
    key = key;
    full_size = 0;
    is_full = false;
    head = ll.null;
    timestamp_ms_epoch_last = 0;
  }

  -- The packet after a fragment with a copy of its payload is put in front of the list.
  abbrev pub with_fragment : ℕ → Packet → Fragment → Bytes → Packet
  with_fragment now p frag payload = record p {
    full_size = if frag.last_fragment then frag.offset + frag.size else p.full_size;
    head = ll.prepend (record { bytes = payload; size = frag.size; offset = frag.offset }) p.head;
    timestamp_ms_epoch_last = now;
  }

  unfoldable pub add_fragment_to_full_packet :
      Allocations → ℕ → Packet → Fragment → Outcome (Bool × Packet)
  add_fragment_to_full_packet mem now p frag =
      elim (ll.search_scalar (λ f. f.offset) frag.offset p.head) [
        | some f ↦ ok (false, p)
        | none ↦
            if mem.header && mem.payload
            then (do
              payload ← copy_bytes frag.bytes frag.size
              ok (true, with_fragment now p frag payload))
            else ok (false, p)
      ]

  -- The flag, and the packet with the flag cached.
  unfoldable pub is_packet_full : Packet → Bool × Packet
  is_packet_full p =
      if p.is_full
      then (true, p)
      else if p.full_size == 0
      then (false, p)
      else if rx_size (ll.elements p.head) == p.full_size
      then (true, record p { is_full = true })
      else (false, p)

  module _ (hh : UtHash (FullPacket ll.Head)) where
    -- `get_packet_from_hash`, and `create_packet_in_hash` where it finds none; `none` if there is
    -- no memory.
    unfoldable pub get_or_create :
        Allocations → PacketKey → hh.Table → Option (FullPacket ll.Head × hh.Table)
    get_or_create mem key packets = elim (hh.find key packets) [
      | some p ↦ some (p, packets)
      | none ↦
          if mem.packet then some (new_packet key, hh.add key (new_packet key) packets) else none
    ]

    -- `reassembly_add_fragment`: the result, `*full_size_p`, and the state.
    unfoldable pub reassembly_add_fragment :
        Allocations → ℕ → Fragment → State hh.Table → Outcome (Bool × ℕ × State hh.Table)
    reassembly_add_fragment mem now frag s = elim (get_or_create mem (key_of frag) s.packets) [
      | none ↦ ok (false, 0, record s { is_queue_empty = false })
      | some (p, packets) ↦ (do
        (added, p') ← add_fragment_to_full_packet mem now p frag
        let (full, p'') = if added then is_packet_full p' else (false, p')
        ok (
          added,
          if full then p''.full_size else 0,
          record s { packets = hh.replace (key_of frag) p'' packets; is_queue_empty = false },
        ))
    ]

    -- `reassemble_full_packet`: the result, the buffer, `*size` and the state.
    unfoldable pub reassemble_full_packet :
        FullPacket ll.Head
        → Bytes
        → ℕ
        → State hh.Table
        → Outcome (Bool × Bytes × ℕ × State hh.Table)
    reassemble_full_packet p buffer size s =
        if not p.is_full
        then ok (false, buffer, 0, s)
        else if ltb size p.full_size
        then ok (false, buffer, size, s)
        else (do
          buffer' ← write_fragments (ll.elements p.head) buffer
          let packets' = hh.del p.key s.packets
          ok (
            true,
            buffer',
            p.full_size,
            record s { packets = packets'; is_queue_empty = hh.count packets' == 0 },
          ))

    unfoldable pub reassembly_get_full_message :
        PacketKey → Bytes → ℕ → State hh.Table → Outcome (Bool × Bytes × ℕ × State hh.Table)
    reassembly_get_full_message key buffer size s = elim (hh.find key s.packets) [
      | none ↦ ok (false, buffer, size, s)
      | some p ↦ reassemble_full_packet p buffer size s
    ]

    -- `last_activity > m_fragment_max_duration_s`, with `last_activity` a `uint32_t`.
    unfoldable pub is_stale : ℕ → ℕ → FullPacket ll.Head → Bool
    is_stale max_s now p = ltb max_s (sub64 now p.timestamp_ms_epoch_last / 1000 % 2 ^ 32)

    -- The loop of `reassembly_garbage_collect`; the clock is read for every packet.
    unfoldable pub collect : ℕ → (PacketKey → ℕ) → List PacketKey → hh.Table → hh.Table
    unfolding is_stale
    collect max_s now_at [] packets = packets
    collect max_s now_at (k ∷ ks) packets = collect max_s now_at ks (elim (hh.find k packets) [
      | none ↦ packets
      | some p ↦ if is_stale max_s (now_at k) p then hh.del k packets else packets
    ])

    -- `reassembly_garbage_collect`; `now` is read for the test, and `now'` for the new time stamp.
    unfoldable pub reassembly_garbage_collect :
        ℕ → ℕ → (PacketKey → ℕ) → State hh.Table → State hh.Table
    reassembly_garbage_collect now now' now_at s =
        if ltb 0 s.fragment_max_duration_s && ltb (5 * 1000) (sub64 now s.last_gc_ts_ms)
        then (let left = collect s.fragment_max_duration_s now_at (hh.keys s.packets) s.packets in
            record s { packets = left; last_gc_ts_ms = now'; is_queue_empty = hh.count left == 0 })
        else s

    unfoldable pub reassembly_set_max_fragment_duration : ℕ → State hh.Table → State hh.Table
    reassembly_set_max_fragment_duration duration_s s = record s {
      fragment_max_duration_s = duration_s;
    }

    unfoldable pub reassembly_is_queue_empty : State hh.Table → Bool
    reassembly_is_queue_empty s = s.is_queue_empty

    -- The static variables at program start.
    abbrev pub initial : State hh.Table
    initial = record {
      fragment_max_duration_s = 0;
      packets = hh.empty;
      is_queue_empty = true;
      last_gc_ts_ms = 0;
    }

-- ===== src/Reassembly/Tests.antt =====
-- The theorems on reassembly at concrete fragments, with lists and association lists.
use c_mesh_api.Reassembly.Collect.{unless_inactive, reassembly_garbage_collect-find}
use c_mesh_api.Reassembly.Refuse.{
  reassembly_add_fragment_duplicate, reassembly_get_full_message_past,
}
use c_mesh_api.Reassembly.Queue.{
  reassembly_is_queue_empty_right, after, at_start, get_message, add_fragment, add_fragment_step,
  get_message_step,
}
use c_mesh_api.Reassembly.Assoc.{list, table}
use c_mesh_api.Reassembly.Message.{add_all_and_get, granted, reassembly_complete}
use c_mesh_api.Reassembly.{
  Fragment, FullPacket, State, reassembly_add_fragment, reassembly_garbage_collect,
  reassembly_is_queue_empty, rx_size, InternalFragment, collect, initial,
  reassembly_get_full_message, get_or_create, is_stale, add_fragment_to_full_packet, copy_bytes,
  is_packet_full, reassemble_full_packet, write_fragments,
}
use c_mesh_api.Reassembly.Containers.{PacketKey, UtHash, UtList, key_eq}
use c_mesh_api.Prelude.{
  ℕ, Bytes, List, false, replicate, true, ◌∷◌, ◌≡◌, [], if◌then◌else◌, none, ok, fault, ltb, refl,
  ◌++◌, map, ◌&&◌, arith, length, overlay, Bool, Option, some, unfinished, ◌+◌,
}

abbrev ll : UtList InternalFragment
ll = list

abbrev hh : UtHash (FullPacket (List InternalFragment))
hh = table

abbrev key : PacketKey
key = record { src_add = 7; packet_id = 1 }

abbrev message : Bytes
message = 10 ∷ 20 ∷ 30 ∷ 40 ∷ 50 ∷ []

abbrev front : Fragment
front = record {
  src_add = 7;
  packet_id = 1;
  size = 3;
  offset = 0;
  last_fragment = false;
  bytes = 10 ∷ 20 ∷ 30 ∷ [];
}

abbrev back : Fragment
back = record {
  src_add = 7;
  packet_id = 1;
  size = 2;
  offset = 3;
  last_fragment = true;
  bytes = 40 ∷ 50 ∷ [];
}

-- A fragment that is as long as the offset of `back` but lies elsewhere.
abbrev stray : Fragment
stray = record {
  src_add = 7;
  packet_id = 1;
  size = 3;
  offset = 9;
  last_fragment = false;
  bytes = 10 ∷ 20 ∷ 30 ∷ [];
}

abbrev buffer : Bytes
buffer = replicate 6 0

abbrev half : FullPacket (List InternalFragment)
half = record {
  key = key;
  full_size = 5;
  is_full = false;
  head = record { bytes = 40 ∷ 50 ∷ []; size = 2; offset = 3 } ∷ [];
  timestamp_ms_epoch_last = 1000;
}

abbrev with_half : State (List (PacketKey × FullPacket (List InternalFragment)))
with_half = record {
  fragment_max_duration_s = 10;
  packets = (key, half) ∷ [];
  is_queue_empty = false;
  last_gc_ts_ms = 0;
}

abbrev whole : Fragment
whole = record {
  src_add = 7;
  packet_id = 1;
  size = 2;
  offset = 0;
  last_fragment = true;
  bytes = 10 ∷ 20 ∷ [];
}

-- What two calls report, and the buffer after it, with the last fragment first.
abbrev out_of_order_result : Option (List (Bool × ℕ) × Bytes × Bool)
out_of_order_result =
    elim (add_all_and_get ll hh key buffer (λ _. 0) (back ∷ front ∷ []) (initial ll hh)) [
      | ok (reports, found, out, n, s) ↦ some (reports, out, reassembly_is_queue_empty ll hh s)
      | fault ↦ none
      | unfinished ↦ none
    ]

abbrev expected : List (Bool × ℕ) × Bytes × Bool
expected = ((true, 0) ∷ (true, 5) ∷ [], 10 ∷ 20 ∷ 30 ∷ 40 ∷ 50 ∷ 0 ∷ [], true)

out_of_order : out_of_order_result ≡ some expected
unfolding reassembly_add_fragment reassembly_get_full_message get_or_create
    add_fragment_to_full_packet copy_bytes is_packet_full rx_size reassemble_full_packet
    write_fragments key_eq reassembly_is_queue_empty
out_of_order = refl

collected :
    hh.count (reassembly_garbage_collect ll hh 20000 20000 (λ _. 20000) with_half).packets ≡ 0
unfolding reassembly_garbage_collect collect is_stale key_eq
collected = refl

reassembly_complete_example :
    (s' : State hh.Table) × (add_all_and_get ll hh key buffer
        (λ _. 0)
        ((back ∷ []) ++ (front ∷ []))
        (initial ll hh)
      ≡ ok (
        map (λ _. (true, 0)) (back ∷ []) ++ ((true, length message) ∷ []),
        true,
        overlay 0 message buffer,
        length message,
        s',
      ))
    × ((j : PacketKey) → hh.find j s'.packets ≡ (if key_eq key j then none else none))
unfolding rx_size
reassembly_complete_example =
    reassembly_complete ll hh message key (λ _. 0) (back ∷ []) front (initial ll hh) buffer refl
      (
        (refl, omega arith, omega arith, (omega arith, omega arith, refl), refl),
        tt,
        (
          (refl, omega arith, omega arith, (omega arith, omega arith, refl), refl),
          ((ground arith), tt),
          tt,
        ),
      )
      refl (λ i h. ground arith) (omega arith)

-- A packet of one fragment comes and goes.
abbrev after_add : State (List (PacketKey × FullPacket (List InternalFragment)))
after_add = record {
  fragment_max_duration_s = 0;
  packets =
      (
        key,
        record {
          key = key;
          full_size = 2;
          is_full = true;
          head = record { bytes = 10 ∷ 20 ∷ []; size = 2; offset = 0 } ∷ [];
          timestamp_ms_epoch_last = 5;
        },
      )
      ∷ [];
  is_queue_empty = false;
  last_gc_ts_ms = 0;
}

whole_added :
    reassembly_add_fragment ll hh granted 5 whole (initial ll hh) ≡ ok (true, 2, after_add)
unfolding reassembly_add_fragment get_or_create add_fragment_to_full_packet copy_bytes
    is_packet_full rx_size key_eq
whole_added = refl

whole_taken :
    reassembly_get_full_message ll hh key buffer 6 after_add
    ≡ ok (true, 10 ∷ 20 ∷ 0 ∷ 0 ∷ 0 ∷ 0 ∷ [], 2, initial ll hh)
unfolding reassembly_get_full_message reassemble_full_packet write_fragments key_eq
whole_taken = refl

reassembly_is_queue_empty_right_example : hh.find key (initial ll hh).packets ≡ none
unfolding reassembly_is_queue_empty
reassembly_is_queue_empty_right_example =
    reassembly_is_queue_empty_right ll hh (initial ll hh)
      (after (get_message key buffer 6)
        (after (add_fragment granted 5 whole) at_start
          (add_fragment_step granted 5 whole whole_added))
        (get_message_step key buffer 6 whole_taken))
      refl key

reassembly_garbage_collect-find_example :
    hh.find key (reassembly_garbage_collect ll hh 20000 20001 (λ _. 20000) with_half).packets ≡ (
      if ltb 0 10 && ltb (0 + 5000) 20000
      then unless_inactive ll hh 10 20000 (hh.find key with_half.packets)
      else hh.find key with_half.packets)
unfolding key_eq
reassembly_garbage_collect-find_example =
    reassembly_garbage_collect-find ll hh 20000 20001 (λ _. 20000) with_half key (omega arith)
      (omega arith) (omega arith) (omega arith, omega arith)

reassembly_add_fragment_duplicate_example :
    (s' : State hh.Table) × (reassembly_add_fragment ll hh granted 5 back with_half
      ≡ ok (false, 0, s'))
    × ((k : PacketKey) → hh.find k s'.packets ≡ hh.find k with_half.packets)
unfolding key_eq
reassembly_add_fragment_duplicate_example =
    reassembly_add_fragment_duplicate ll hh granted 5 back with_half half refl (λ h. h.0 refl)

reassembly_get_full_message_past_example :
    add_all_and_get ll hh key buffer (λ _. 0) (stray ∷ back ∷ []) (initial ll hh) ≡ fault
reassembly_get_full_message_past_example =
    reassembly_get_full_message_past ll hh (λ _. 0) stray back (initial ll hh) buffer refl refl refl
      refl (omega arith) (omega arith) (ground arith) (omega arith) refl (omega arith) (omega arith)

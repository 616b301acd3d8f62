-- ===== src/Platform/Tests.antt =====
-- The queue of indications at concrete steps.
use c_mesh_api.Platform.Fifo.{Event, queue_run, put, fifo_run, oldest, done, queue_run_refines}
use c_mesh_api.Util.{min_of}
use c_mesh_api.Platform.Room.{
  Step, received, dispatched, accepted, rounds, free_buffer_room-accepted, free_buffer_room_wraps,
}
use c_mesh_api.Platform.{
  Queue, free_buffer_room, dispatch_round, dispatch_done, min_of, empty_queue, some,
  max_num_indication,
}
use c_mesh_api.Prelude.{
  ℕ, ◌∷◌, true, false, List, replicate, All, [], ◌≡◌, arith, inl, refl, some, map,
}

-- Two indications are in the queue, and two more fit before the end of the array.
abbrev some_queue : Queue ℕ
some_queue = record {
  m_indications_queue = replicate 60 0;
  m_ind_queue_write = 58;
  m_ind_queue_read = 56;
  m_queue_empty = false;
}

abbrev steps : List (Step ℕ)
steps = received 7 ∷ dispatched ∷ received 8 ∷ received 9 ∷ []

free_buffer_room-accepted_example :
    All
      (λ found_room. found_room ≡ true)
      (accepted steps (rounds 0 (rounds 1 (rounds 0 (rounds 0 some_queue)))))
unfolding free_buffer_room dispatch_round dispatch_done min_of
free_buffer_room-accepted_example =
    free_buffer_room-accepted some_queue 0 0 1 0 59 steps (omega arith, omega arith, inl refl)
      (omega arith) refl (omega arith)

-- The oldest of 51 indications is in the last element of the array.
abbrev last_queue : Queue ℕ
last_queue = record {
  m_indications_queue = replicate 60 0;
  m_ind_queue_write = 50;
  m_ind_queue_read = 59;
  m_queue_empty = false;
}

free_buffer_room_wraps_example :
    (room : ℕ) × (free_buffer_room last_queue last_queue last_queue last_queue
        (dispatch_round last_queue)
      ≡ some room)
    × (max_num_indication room ≡ 30)
    × (¬ All
        (λ found_room. found_room ≡ true)
        (accepted (map received (replicate 30 7)) (dispatch_round last_queue)))
unfolding min_of
free_buffer_room_wraps_example =
    free_buffer_room_wraps last_queue (replicate 30 7) (omega arith, omega arith, inl refl) refl
      (omega arith) (omega arith) refl

abbrev events : List (Event ℕ)
events = put 7 ∷ oldest ∷ put 8 ∷ oldest ∷ done ∷ oldest ∷ done ∷ oldest ∷ []

queue_run_refines_example : queue_run 0 events (empty_queue (replicate 60 0)) ≡ fifo_run 0 events []
queue_run_refines_example = queue_run_refines 0 events (replicate 60 0) refl

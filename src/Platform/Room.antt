-- ===== src/Platform/Room.antt =====
-- Whether the queue of indications has room when the polling thread hands an indication over.
use c_mesh_api.Util.{min_of}
use c_mesh_api.Platform.{
  Queue, dispatch_round, free_buffer_room, on_indication_received, dispatch_done, min_of, ltb,
  max_number_indication_queue, some, true, false, List, Bool, max_num_indication,
  max_number_indication, sub32,
}
use c_mesh_api.Prelude.{
  ◌∷◌, ℕ, if◌then◌else◌, suc, ◌<◌, ◌≡◌, ltb, some, true, zero, ◌-◌, arith, false, refl, ◌+◌, ◌≤◌,
  ◌⊎◌, Bool-cases, inl, inr, List, All, Bool, [], ◌∙◌, length, map,
}

-- Steps of both threads during one poll: an indication is received, or one was dispatched.
pub data Step (A : Type 0) : Type 0 where
  received : A → Step A
  dispatched : Step A

module _ {A : Type 0} where
  abbrev pub IsQueue : Queue A → Type 0
  IsQueue q =
      (q.m_ind_queue_write < max_number_indication_queue)
      × (q.m_ind_queue_read < max_number_indication_queue)
      × ((q.m_queue_empty ≡ false) ⊎ (q.m_ind_queue_write ≡ q.m_ind_queue_read))

  -- The number of indications in the queue.
  abbrev pub count : Queue A → ℕ
  count q =
      if q.m_queue_empty
      then 0
      else if ltb q.m_ind_queue_read q.m_ind_queue_write
      then q.m_ind_queue_write - q.m_ind_queue_read
      else max_number_indication_queue + q.m_ind_queue_write - q.m_ind_queue_read

  pub on_indication_received-count :
      (frame : A) (q : Queue A)
      → IsQueue q
      → ((on_indication_received frame q).0 ≡ ltb (count q) max_number_indication_queue)
        × IsQueue (on_indication_received frame q).1
        × (count (on_indication_received frame q).1
            ≡ min_of (count q + 1) max_number_indication_queue)
  unfolding on_indication_received min_of
  on_indication_received-count frame q (w, r, e) = ground arith

  pub dispatch_round-count :
      (q : Queue A)
      → IsQueue q
      → IsQueue (dispatch_round q)
        × (count (dispatch_round q) ≡ count q - 1)
        × ((dispatch_round q).m_ind_queue_write ≡ q.m_ind_queue_write)
  unfolding dispatch_round dispatch_done
  dispatch_round-count q (w, r, e) = ground arith

  -- Rounds of the dispatching thread.
  abbrev pub rounds : ℕ → Queue A → Queue A
  rounds zero q = q
  rounds (suc n) q = rounds n (dispatch_round q)

  pub rounds-IsQueue : (n : ℕ) (q : Queue A) → IsQueue q → IsQueue (rounds n q)
  rounds-IsQueue zero q h = h
  rounds-IsQueue (suc n) q h = rounds-IsQueue n (dispatch_round q) (dispatch_round-count q h).0

  rounds_stay_empty :
      (n : ℕ) (q : Queue A) → q.m_queue_empty ≡ true → (rounds n q).m_queue_empty ≡ true
  unfolding dispatch_round
  rounds_stay_empty zero q h = h
  rounds_stay_empty (suc n) q h = rounds_stay_empty n (dispatch_round q) (ground arith)

  rounds-empty : (n : ℕ) (q : Queue A) → q.m_queue_empty ≡ true → count (rounds n q) ≡ 0
  unfolding dispatch_round
  rounds-empty zero q h = rw h refl
  rounds-empty (suc n) q h = rounds-empty n (dispatch_round q) (ground arith)

  pub rounds-write :
      (n : ℕ) (q : Queue A) → IsQueue q → (rounds n q).m_ind_queue_write ≡ q.m_ind_queue_write
  rounds-write zero q h = refl
  rounds-write (suc n) q h =
      let (h', _, w) = dispatch_round-count q h in rounds-write n (dispatch_round q) h' ∙ w

  -- The index that follows the other one comes up to it, and the queue is empty then.
  rounds-read :
      (n : ℕ) (q : Queue A)
      → IsQueue q
      → q.m_ind_queue_read < q.m_ind_queue_write
      → ((rounds n q).m_queue_empty ≡ true)
        ⊎ ((rounds n q).m_ind_queue_read < (rounds n q).m_ind_queue_write)
  unfolding dispatch_round dispatch_done
  rounds-read zero q h k = inr k
  rounds-read (suc n) q h k = elim (Bool-cases (dispatch_round q).m_queue_empty) [
    | inl z ↦ inl (rounds_stay_empty n (dispatch_round q) z)
    | inr z ↦ rounds-read n (dispatch_round q) (dispatch_round-count q h).0 (ground arith)
  ]

  -- The room is not more than there is, however many rounds the other thread makes meanwhile, if
  -- its index does not go back to the start between the comparison and the subtraction.
  pub free_buffer_room-count :
      (q1 q2 q3 : Queue A) (a b room : ℕ)
      → IsQueue q3
      → (rounds a q3).m_ind_queue_read ≤ (rounds b (rounds a q3)).m_ind_queue_read
      → free_buffer_room q1 q2 q3 (rounds a q3) (rounds b (rounds a q3)) ≡ some room
      → room + count (rounds b (rounds a q3)) ≤ max_number_indication_queue
  unfolding free_buffer_room
  free_buffer_room-count q1 q2 q3 a b room h k e =
      let q4 : Queue A = rounds a q3 in
      let q5 : Queue A = rounds b q4 in
      let h4 : IsQueue q4 = rounds-IsQueue a q3 h in
      let (w5, r5, f5) = rounds-IsQueue b q4 h4 in
      let same : q5.m_ind_queue_write ≡ q4.m_ind_queue_write = rounds-write b q4 h4 in
      elim (Bool-cases q3.m_queue_empty) [
        | inl z ↦ let none_left = rounds-empty b q4 (rounds_stay_empty a q3 z) in ground arith
        | inr z ↦ elim (Bool-cases (ltb q4.m_ind_queue_read q4.m_ind_queue_write)) [
          | inl l ↦ let below = rounds-read b q4 h4 (ground arith) in ground arith
          | inr l ↦ ground arith
        ]
      ]

  -- Whether the indications received found room.
  abbrev pub accepted : List (Step A) → Queue A → List Bool
  accepted [] q = []
  accepted (received frame ∷ steps) q =
      let (room, q') = on_indication_received frame q in room ∷ accepted steps q'
  accepted (dispatched ∷ steps) q = accepted steps (dispatch_round q)

  abbrev pub receptions : List (Step A) → ℕ
  receptions [] = 0
  receptions (received frame ∷ steps) = 1 + receptions steps
  receptions (dispatched ∷ steps) = receptions steps

  accepted-count :
      (steps : List (Step A)) (q : Queue A)
      → IsQueue q
      → receptions steps + count q ≤ max_number_indication_queue
      → All (λ room. room ≡ true) (accepted steps q)
  unfolding min_of
  accepted-count [] q h k = tt
  accepted-count (received frame ∷ steps) q h k =
      let (room, h', n) = on_indication_received-count frame q h in
      (
        room ∙ ground arith,
        accepted-count steps (on_indication_received frame q).1 h' (ground arith),
      )
  accepted-count (dispatched ∷ steps) q h k =
      let (h', n, _) = dispatch_round-count q h in
      accepted-count steps (dispatch_round q) h' (omega arith)

  -- If the room is computed from five states between which the dispatching thread may have made any
  -- number of rounds, its index does not go back to the start of the array between the comparison
  -- and the subtraction, and the poll hands over at most the number of indications that is asked
  -- for on account of that room, with any number of rounds of the other thread between them, then
  -- each indication is accepted.
  pub free_buffer_room-accepted :
      (q1 : Queue A) (a b c d room : ℕ) (steps : List (Step A))
      → IsQueue q1
      → (rounds c (rounds b (rounds a q1))).m_ind_queue_read
        ≤ (rounds d (rounds c (rounds b (rounds a q1)))).m_ind_queue_read
      → free_buffer_room q1
          (rounds a q1)
          (rounds b (rounds a q1))
          (rounds c (rounds b (rounds a q1)))
          (rounds d (rounds c (rounds b (rounds a q1))))
        ≡ some room
      → receptions steps ≤ max_num_indication room
      → All
          (λ found_room. found_room ≡ true)
          (accepted steps (rounds d (rounds c (rounds b (rounds a q1)))))
  unfolding min_of
  free_buffer_room-accepted q1 a b c d room steps h k e n =
      let h3 = rounds-IsQueue b (rounds a q1) (rounds-IsQueue a q1 h) in
      let q4 = rounds c (rounds b (rounds a q1)) in
      let fits = free_buffer_room-count q1 (rounds a q1) (rounds b (rounds a q1)) c d room h3 k e in
      accepted-count steps (rounds d q4)
        (rounds-IsQueue d q4 (rounds-IsQueue c (rounds b (rounds a q1)) h3)) (ground arith)

  -- Receptions that are more than there is room for.
  accepted_too_many :
      (frames : List A) (q : Queue A)
      → IsQueue q
      → max_number_indication_queue < count q + length frames
      → count q ≤ max_number_indication_queue
      → ¬ All (λ found_room. found_room ≡ true) (accepted (map received frames) q)
  unfolding min_of
  accepted_too_many [] q h k l all = omega arith
  accepted_too_many (frame ∷ frames) q h k l (first, others) =
      let (found, h', n) = on_indication_received-count frame q h in
      accepted_too_many frames (on_indication_received frame q).1 h' (ground arith) (ground arith)
        others

  -- The index of the dispatching thread is read once for the comparison and once more for the
  -- subtraction. If it was the last index of the array and one round is made between, the
  -- difference wraps: the polling thread asks for 30 indications whatever the room, and of 30 that
  -- come while the other thread is busy, not all are accepted if more than 30 were still waiting.
  pub free_buffer_room_wraps :
      (q : Queue A) (frames : List A)
      → IsQueue q
      → q.m_ind_queue_read ≡ max_number_indication_queue - 1
      → max_number_indication < q.m_ind_queue_write
      → q.m_ind_queue_write < q.m_ind_queue_read
      → length frames ≡ max_number_indication
      → (room : ℕ) × (free_buffer_room q q q q (dispatch_round q) ≡ some room)
        × (max_num_indication room ≡ max_number_indication)
        × (¬ All
            (λ found_room. found_room ≡ true)
            (accepted (map received frames) (dispatch_round q)))
  unfolding free_buffer_room dispatch_round dispatch_done min_of
  free_buffer_room_wraps q frames h r w l n =
      let (h', m, same) = dispatch_round-count q h in
      let busy : q.m_queue_empty ≡ false = ground arith in
      let left : count q ≡ q.m_ind_queue_write + 1 = ground arith in
      (
        sub32 0 q.m_ind_queue_write,
        ground arith,
        ground arith,
        accepted_too_many frames (dispatch_round q) h' (omega arith) (omega arith),
      )

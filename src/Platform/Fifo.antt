-- ===== src/Platform/Fifo.antt =====
-- The queue of indications as a list, the oldest one first.
use c_mesh_api.Util.{min_of}
use c_mesh_api.Platform.Room.{IsQueue, count, dispatch_round-count, on_indication_received-count}
use c_mesh_api.Platform.{
  Queue, Bool, Option, on_indication_received, dispatch_round, ltb, max_number_indication_queue,
  set, dispatch_done, empty_queue, min_of, is_full,
}
use c_mesh_api.Prelude.{
  ℕ, ◌∷◌, true, false, none, some, List, Bool, get_or, ◌≤◌, Option, length, tail_of, ◌+◌, [],
  if◌then◌else◌, ◌%◌, ◌++◌, ◌≡◌, ltb, suc, ◌==◌, arith, get_elem?, refl, ◌<◌, ◌∙◌, set, zero,
  get_or-set_at, ap₂, ◌-◌, ap, inr, Bool-cases, sym, inl, subst, length-set, length-append,
}

-- An indication is received; the dispatching thread looks at the oldest one; it is done with it.
pub data Event (A : Type 0) : Type 0 where
  put : A → Event A
  oldest : Event A
  done : Event A

get_or-append_last :
    {A : Type 0} (xs : List A) (x d : A) (i : ℕ)
    → i ≤ length xs
    → get_or (xs ++ (x ∷ [])) i d ≡ (if i == length xs then x else get_or xs i d)
get_or-append_last [] x d zero h = refl
get_or-append_last [] x d (suc i) h = absurd (omega arith)
get_or-append_last (y ∷ ys) x d zero h = ground arith
get_or-append_last (y ∷ ys) x d (suc i) h = get_or-append_last ys x d i (omega arith) ∙ ground arith

length-tail_of : {A : Type 0} (xs : List A) → length (tail_of xs) ≡ length xs - 1
length-tail_of [] = refl
length-tail_of (x ∷ xs) = omega arith

get_or-tail_of :
    {A : Type 0} (xs : List A) (d : A) (i : ℕ) → get_or (tail_of xs) i d ≡ get_or xs (suc i) d
get_or-tail_of [] d i = refl
get_or-tail_of (x ∷ xs) d i = refl

module _ {A : Type 0} (d : A) where
  -- The indication at a place behind the oldest one.
  abbrev at : Queue A → ℕ → A
  at q i = get_or q.m_indications_queue ((q.m_ind_queue_read + i) % max_number_indication_queue) d

  -- Whether there was room, and what the dispatching thread sees.
  abbrev pub queue_event : Event A → Queue A → (Bool × Option A) × Queue A
  queue_event (put frame) q = let (room, q') = on_indication_received frame q in ((room, none), q')
  queue_event oldest q = (
    (
      true,
      if q.m_queue_empty then none else some (get_or q.m_indications_queue q.m_ind_queue_read d),
    ),
    q,
  )
  queue_event done q = ((true, none), dispatch_round q)

  abbrev pub queue_run : List (Event A) → Queue A → List (Bool × Option A)
  queue_run [] q = []
  queue_run (e ∷ es) q = let (r, q') = queue_event e q in r ∷ queue_run es q'

  abbrev pub fifo_event : Event A → List A → (Bool × Option A) × List A
  fifo_event (put frame) xs =
      if ltb (length xs) max_number_indication_queue
      then ((true, none), xs ++ (frame ∷ []))
      else ((false, none), xs)
  fifo_event oldest xs = ((true, get_elem? xs 0), xs)
  fifo_event done xs = ((true, none), tail_of xs)

  abbrev pub fifo_run : List (Event A) → List A → List (Bool × Option A)
  fifo_run [] xs = []
  fifo_run (e ∷ es) xs = let (r, xs') = fifo_event e xs in r ∷ fifo_run es xs'

  Holds : List A → Queue A → Type 0
  Holds xs q =
      IsQueue q
      × (length q.m_indications_queue ≡ max_number_indication_queue)
      × (length xs ≡ count q)
      × ((i : ℕ) → i < length xs → get_or xs i d ≡ at q i)

  at-set :
      (q : Queue A) (frame : A) (i : ℕ)
      → IsQueue q
      → length q.m_indications_queue ≡ max_number_indication_queue
      → i ≤ count q
      → count q < max_number_indication_queue
      → get_or
          (set q.m_indications_queue q.m_ind_queue_write frame)
          ((q.m_ind_queue_read + i) % max_number_indication_queue)
          d
        ≡ (if i == count q then frame else at q i)
  at-set q frame i (w, r, e) l h k =
      let place : (((q.m_ind_queue_read + i) % max_number_indication_queue) == q.m_ind_queue_write)
          ≡ (i == count q) =
        ground arith in
      get_or-set_at q.m_indications_queue q.m_ind_queue_write
        ((q.m_ind_queue_read + i) % max_number_indication_queue) frame d (omega arith)
      ∙ rw place refl

  place :
      (frame : A) (q : Queue A) (xs : List A) (i : ℕ)
      → Holds xs q
      → i ≤ length xs
      → count q < max_number_indication_queue
      → (if i == length xs then frame else get_or xs i d)
        ≡ get_or
            (set q.m_indications_queue q.m_ind_queue_write frame)
            ((q.m_ind_queue_read + i) % max_number_indication_queue)
            d
  unfolding Holds
  place frame q xs i (h, l, n, f) m k =
      let there = at-set q frame i h l (omega arith) k in
      elim (Bool-cases (i == length xs)) [
        | inl z ↦ let z' : (i == count q) ≡ true = ground arith in rw z (sym (there ∙ rw z' refl))
        | inr z ↦
            let z' : (i == count q) ≡ false = ground arith in
            rw z (f i (ground arith) ∙ sym (there ∙ rw z' refl))
      ]

  -- The queue after an indication that finds room.
  abbrev after_put : A → Queue A → Queue A
  after_put frame q = record q {
    m_indications_queue = set q.m_indications_queue q.m_ind_queue_write frame;
    m_ind_queue_write = (q.m_ind_queue_write + 1) % max_number_indication_queue;
    m_queue_empty = false;
  }

  on_indication_received-after_put :
      (frame : A) (q : Queue A)
      → is_full q ≡ false
      → on_indication_received frame q ≡ (true, after_put frame q)
  unfolding on_indication_received
  on_indication_received-after_put frame q h = rw (on_indication_received, h) refl

  on_indication_received-full :
      (frame : A) (q : Queue A) → is_full q ≡ true → on_indication_received frame q ≡ (false, q)
  unfolding on_indication_received
  on_indication_received-full frame q h = rw (on_indication_received, h) refl

  Holds-after_put :
      (frame : A) (q : Queue A) (xs : List A)
      → Holds xs q
      → count q < max_number_indication_queue
      → is_full q ≡ false
      → Holds (xs ++ (frame ∷ [])) (after_put frame q)
  unfolding Holds min_of
  Holds-after_put frame q xs (h, l, n, f) k free =
      let step = on_indication_received-after_put frame q free in
      let (room, h', c) = on_indication_received-count frame q h in
      let size : length (xs ++ (frame ∷ [])) ≡ length xs + 1 = length-append xs (frame ∷ []) in
      let c' : count (after_put frame q) ≡ min_of (count q + 1) max_number_indication_queue =
        subst (λ r. count r.1 ≡ min_of (count q + 1) max_number_indication_queue) step c in
      (
        subst (λ r. IsQueue r.1) step h',
        length-set q.m_indications_queue q.m_ind_queue_write frame ∙ l,
        ground arith,
        λ i m.
            get_or-append_last xs frame d i (omega arith)
            ∙ place frame q xs i (h, l, n, f) (omega arith) k,
      )

  Holds-put :
      (frame : A) (q : Queue A) (xs : List A)
      → Holds xs q
      → ((queue_event (put frame) q).0 ≡ (fifo_event (put frame) xs).0)
        × Holds (fifo_event (put frame) xs).1 (queue_event (put frame) q).1
  unfolding Holds
  Holds-put frame q xs (h, l, n, f) =
      elim (Bool-cases (ltb (length xs) max_number_indication_queue)) [
        | inl z ↦
            let free : is_full q ≡ false = ground arith in
            rw (z, on_indication_received-after_put frame q free)
              (refl, Holds-after_put frame q xs (h, l, n, f) (ground arith) free)
        | inr z ↦
            let full : is_full q ≡ true = ground arith in
            rw (z, on_indication_received-full frame q full) (refl, (h, l, n, f))
      ]

  dispatch_round-at :
      (q : Queue A) (i : ℕ) → q.m_queue_empty ≡ false → at q (suc i) ≡ at (dispatch_round q) i
  unfolding dispatch_round dispatch_done
  dispatch_round-at q i h =
      rw (dispatch_round, h)
        (ap (λ k. get_or q.m_indications_queue k d)
          (let e : (q.m_ind_queue_read + suc i) % max_number_indication_queue
                ≡ ((q.m_ind_queue_read + 1) % max_number_indication_queue + i)
                  % max_number_indication_queue =
              omega arith in
            e))

  length-dispatch_round :
      (q : Queue A) → length (dispatch_round q).m_indications_queue ≡ length q.m_indications_queue
  unfolding dispatch_round dispatch_done
  length-dispatch_round q = elim (Bool-cases q.m_queue_empty) [
    | inl z ↦ rw (dispatch_round, z) refl
    | inr z ↦ rw (dispatch_round, z) refl
  ]

  Holds-done : (q : Queue A) (xs : List A) → Holds xs q → Holds (tail_of xs) (dispatch_round q)
  unfolding Holds
  Holds-done q xs (h, l, n, f) =
      let (h', c, w) = dispatch_round-count q h in
      (
        h',
        length-dispatch_round q ∙ l,
        length-tail_of xs ∙ ap (λ x. x - 1) n ∙ sym c,
        λ i k.
            let more : suc i < length xs = omega (arith, length-tail_of xs) in
            let some_left : q.m_queue_empty ≡ false = ground arith in
            get_or-tail_of xs d i ∙ f (suc i) more ∙ dispatch_round-at q i some_left,
      )

  Holds-oldest :
      (q : Queue A) (xs : List A) → Holds xs q → (queue_event oldest q).0 ≡ (fifo_event oldest xs).0
  unfolding Holds
  Holds-oldest q [] (h, l, n, f) = let z : q.m_queue_empty ≡ true = ground arith in rw z refl
  Holds-oldest q (x ∷ xs) (h, l, n, f) =
      let z : q.m_queue_empty ≡ false = ground arith in
      let first : q.m_ind_queue_read ≡ (q.m_ind_queue_read + 0) % max_number_indication_queue =
        omega arith in
      rw z (
        ap (λ y. (true, some y))
          (ap (λ k. get_or q.m_indications_queue k d) first ∙ sym (f 0 (omega arith))))

  queue_run-fifo_run :
      (es : List (Event A)) (q : Queue A) (xs : List A)
      → Holds xs q
      → queue_run es q ≡ fifo_run es xs
  queue_run-fifo_run [] q xs h = refl
  queue_run-fifo_run (put frame ∷ es) q xs h =
      let (a, b) = Holds-put frame q xs h in ap₂ ◌∷◌ a (queue_run-fifo_run es _ _ b)
  queue_run-fifo_run (oldest ∷ es) q xs h =
      ap₂ ◌∷◌ (Holds-oldest q xs h) (queue_run-fifo_run es q xs h)
  queue_run-fifo_run (done ∷ es) q xs h =
      ap (◌∷◌ (true, none)) (queue_run-fifo_run es _ _ (Holds-done q xs h))

  -- From the empty queue with 60 slots, for any sequence of indications received, looks at the
  -- oldest one and ends of its handling, the queue answers as a list does that holds at most 60
  -- indications: an indication is accepted if there is room and put behind the others, and the
  -- dispatching thread sees the oldest one, unchanged until it is done with it.
  pub queue_run_refines :
      (es : List (Event A)) (slots : List A)
      → length slots ≡ max_number_indication_queue
      → queue_run es (empty_queue slots) ≡ fifo_run es []
  unfolding Holds
  queue_run_refines es slots l =
      queue_run-fifo_run es (empty_queue slots) []
        ((omega arith, omega arith, inr refl), l, refl, λ i k. absurd (omega arith))

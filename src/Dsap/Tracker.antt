-- ===== src/Dsap/Tracker.antt =====
-- What the table of callbacks of lib/wpc/dsap.c is for: a bounded map from packets to callbacks.
use c_mesh_api.Dsap.Callbacks.{
  Entry, max_sent_packet_with_indication, set_indication_cb, waiting, get_indication_cb, in_use,
  set_indication_cb-in_use, set_indication_cb-waiting, empty_table, last_of, release_loop-waiting,
  length-release_loop, in_use-le-length,
}
use c_mesh_api.Prelude.{
  ℕ, Bool, List, Option, if◌then◌else◌, none, [], ltb, ◌∷◌, ◌≡◌, some, true, ◌∙◌, ap, length, ◌==◌,
  ◌+◌, ap₂, false, ◌-◌, arith, refl,
}

pub data Op (C : Type 0) : Type 0 where
  -- a packet is sent with a callback
  track : C → ℕ → Op C
  -- its indication arrives
  indicate : ℕ → Op C

-- The answers of the table: whether there was room, or the callback to call.
pub data Reply (C : Type 0) : Type 0 where
  tracked : Bool → Reply C
  confirmed : Option C → Reply C

-- The callbacks that are due, and how many there are.
pub record Tracker (C : Type 0) : Type 0 where
  pub due : ℕ → Option C
  pub count : ℕ

module _ {C : Type 0} where
  abbrev pub table_step : (Op C) → List (Entry C) → (Reply C) × List (Entry C)
  table_step (track cb pdu_id) t =
      let (done, t') = set_indication_cb cb pdu_id t in (tracked done, t')
  table_step (indicate pdu_id) t = let (cb, t') = get_indication_cb pdu_id t in (confirmed cb, t')

  abbrev pub table_run : List (Op C) → List (Entry C) → List (Reply C)
  table_run [] t = []
  table_run (o ∷ os) t = let (r, t') = table_step o t in r ∷ table_run os t'

  abbrev pub tracker_step : (Op C) → (Tracker C) → (Reply C) × (Tracker C)
  tracker_step (track cb pdu_id) m =
      if ltb m.count max_sent_packet_with_indication
      then (
        tracked true,
        record { due = λ q. if q == pdu_id then some cb else m.due q; count = m.count + 1 },
      )
      else (tracked false, m)
  tracker_step (indicate pdu_id) m = (
    confirmed (m.due pdu_id),
    record {
      due = λ q. if q == pdu_id then none else m.due q;
      count = elim (m.due pdu_id) [ none ↦ m.count | some c ↦ m.count - 1 ];
    },
  )

  abbrev pub tracker_run : List (Op C) → (Tracker C) → List (Reply C)
  tracker_run [] m = []
  tracker_run (o ∷ os) m = let (r, m') = tracker_step o m in r ∷ tracker_run os m'

  -- No packet is sent with a callback under an id that still waits for its indication.
  abbrev pub AreFresh : List (Op C) → (Tracker C) → Type 0
  AreFresh [] m = Unit
  AreFresh (track cb pdu_id ∷ os) m =
      (m.due pdu_id ≡ none) × AreFresh os (tracker_step (track cb pdu_id) m).1
  AreFresh (indicate pdu_id ∷ os) m = AreFresh os (tracker_step (indicate pdu_id) m).1

  abbrev pub no_callback : (Tracker C)
  no_callback = record { due = λ q. none; count = 0 }

  abbrev waiting_of : Option C → List (Option C)
  waiting_of none = []
  waiting_of (some c) = some c ∷ []

  last_of-waiting_of : (c : Option C) → last_of none (waiting_of c) ≡ c
  last_of-waiting_of none = refl
  last_of-waiting_of (some c) = refl

  Holds : List (Entry C) → (Tracker C) → Type 0
  Holds t m =
      ((q : ℕ) → waiting q t ≡ waiting_of (m.due q))
      × (in_use t ≡ m.count)
      × (length t ≡ max_sent_packet_with_indication)

  Holds-track :
      (cb : C) (pdu_id : ℕ) (t : List (Entry C)) (m : (Tracker C))
      → Holds t m
      → m.due pdu_id ≡ none
      → (set_indication_cb cb pdu_id t).0 ≡ ltb m.count max_sent_packet_with_indication
        × Holds (set_indication_cb cb pdu_id t).1 (tracker_step (track cb pdu_id) m).1
  unfolding Holds
  Holds-track cb pdu_id t m (w, u, l) d =
      let free : waiting pdu_id t ≡ [] = w pdu_id ∙ ap waiting_of d in
      let size = set_indication_cb-in_use cb pdu_id t in
      let done : (set_indication_cb cb pdu_id t).0 ≡ ltb m.count max_sent_packet_with_indication =
        size.1 ∙ ap₂ ltb u l in
      (
        done,
        (
          (λ q.
              let a = set_indication_cb-waiting cb pdu_id q t free in let b = w q in ground arith),
          ground (arith, in_use-le-length t),
          size.0 ∙ l,
        ),
      )

  Holds-indicate :
      (pdu_id : ℕ) (t : List (Entry C)) (m : Tracker C)
      → Holds t m
      → ((get_indication_cb pdu_id t).0 ≡ m.due pdu_id)
        × Holds (get_indication_cb pdu_id t).1 (tracker_step (indicate pdu_id) m).1
  unfolding Holds get_indication_cb
  Holds-indicate pdu_id t m (w, u, l) =
      let one = release_loop-waiting pdu_id pdu_id none t in
      let here = w pdu_id in
      (
        one.0 ∙ ap (last_of none) here ∙ last_of-waiting_of (m.due pdu_id),
        (
          (λ q. let a = release_loop-waiting pdu_id q none t in let b = w q in ground arith),
          (let k = ap length here in ground arith),
          length-release_loop pdu_id none t ∙ l,
        ),
      )

  table_run-tracker_run :
      (ops : List (Op C)) (t : List (Entry C)) (m : Tracker C)
      → Holds t m
      → AreFresh ops m
      → table_run ops t ≡ tracker_run ops m
  table_run-tracker_run [] t m h f = refl
  table_run-tracker_run (track cb pdu_id ∷ os) t m h (d, f) =
      let (e, h') = Holds-track cb pdu_id t m h d in
      ap₂ ◌∷◌ (ground arith) (table_run-tracker_run os _ _ h' f)
  table_run-tracker_run (indicate pdu_id ∷ os) t m h f =
      let (e, h') = Holds-indicate pdu_id t m h in
      ap₂ ◌∷◌ (ap confirmed e) (table_run-tracker_run os _ _ h' f)

  -- As long as no packet is sent with a callback under an id that still waits for its indication,
  -- the table of 16 entries behaves as a map with at most 16 callbacks: a callback is kept if there
  -- is room, and an indication gives the callback of its packet, once.
  pub table_run_refines :
      (ops : List (Op C))
      → AreFresh ops no_callback
      → table_run ops empty_table ≡ tracker_run ops no_callback
  unfolding Holds
  table_run_refines ops f =
      table_run-tracker_run ops empty_table no_callback ((λ q. refl), refl, refl) f

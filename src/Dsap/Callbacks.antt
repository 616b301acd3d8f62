-- ===== src/Dsap/Callbacks.antt =====
-- The table of the callbacks for sent packets of lib/wpc/dsap.c. `C` is the type of a callback.
use c_mesh_api.Prelude.{
  ℕ, List, Option, Bool, length, none, replicate, ◌∷◌, ◌≡◌, [], false, if◌then◌else◌, ltb, ◌&&◌,
  min, true, ◌+◌, ◌==◌, arith, some, refl, ◌∙◌, ◌≤◌, ap, suc,
}

-- `packet_with_indication_t`
pub record Entry (C : Type 0) : Type 0 where
  pub cb : Option C
  pub pdu_id : ℕ
  pub busy : Bool

abbrev pub max_sent_packet_with_indication : ℕ
max_sent_packet_with_indication = 16

module _ {C : Type 0} where
  -- The table after `memset`.
  abbrev pub empty_table : List (Entry C)
  empty_table =
      replicate max_sent_packet_with_indication (record { cb = none; pdu_id = 0; busy = false })

  -- `set_indication_cb`: the loop up to the first free entry.
  unfoldable pub set_indication_cb : C → ℕ → List (Entry C) → Bool × List (Entry C)
  set_indication_cb cb pdu_id [] = (false, [])
  set_indication_cb cb pdu_id (e ∷ es) =
      let rest = set_indication_cb cb pdu_id es in
      if e.busy
      then (rest.0, e ∷ rest.1)
      else (true, record { cb = some cb; pdu_id = pdu_id; busy = true } ∷ es)

  -- The loop of `get_indication_cb`, with the variable `cb`.
  unfoldable pub release_loop : ℕ → Option C → List (Entry C) → Option C × List (Entry C)
  release_loop pdu_id cb [] = (cb, [])
  release_loop pdu_id cb (e ∷ es) =
      let hit = e.busy && e.pdu_id == pdu_id in
      let (cb', rest) = release_loop pdu_id (if hit then e.cb else cb) es in
      (cb', (if hit then record e { busy = false } else e) ∷ rest)

  unfoldable pub get_indication_cb : ℕ → List (Entry C) → Option C × List (Entry C)
  get_indication_cb pdu_id table = release_loop pdu_id none table

  -- The callbacks that wait for a packet.
  abbrev pub waiting : ℕ → List (Entry C) → List (Option C)
  waiting pdu_id [] = []
  waiting pdu_id (e ∷ es) =
      let rest = waiting pdu_id es in if e.busy && e.pdu_id == pdu_id then e.cb ∷ rest else rest

  -- The number of entries in use.
  abbrev pub in_use : List (Entry C) → ℕ
  in_use [] = 0
  in_use (e ∷ es) = (if e.busy then 1 else 0) + in_use es

  abbrev pub last_of : Option C → List (Option C) → Option C
  last_of c [] = c
  last_of c (d ∷ ds) = last_of d ds

  pub set_indication_cb-waiting :
      (cb : C) (pdu_id q : ℕ) (table : List (Entry C))
      → waiting pdu_id table ≡ []
      → waiting q (set_indication_cb cb pdu_id table).1 ≡ (
          if (set_indication_cb cb pdu_id table).0 && q == pdu_id
          then some cb ∷ []
          else waiting q table)
  unfolding set_indication_cb
  set_indication_cb-waiting cb pdu_id q [] h = ground arith
  set_indication_cb-waiting cb pdu_id q (e ∷ es) h =
      ground (arith, set_indication_cb-waiting cb pdu_id q es)

  pub in_use-le-length : (table : List (Entry C)) → in_use table ≤ length table
  in_use-le-length [] = omega arith
  in_use-le-length (e ∷ es) = ground (arith, in_use-le-length es)

  pub set_indication_cb-in_use :
      (cb : C) (pdu_id : ℕ) (table : List (Entry C))
      → (length (set_indication_cb cb pdu_id table).1 ≡ length table)
        × ((set_indication_cb cb pdu_id table).0 ≡ ltb (in_use table) (length table))
        × (in_use (set_indication_cb cb pdu_id table).1 ≡ min (in_use table + 1) (length table))
  unfolding set_indication_cb
  set_indication_cb-in_use cb pdu_id [] = ground arith
  set_indication_cb-in_use cb pdu_id (e ∷ es) =
      let ih = set_indication_cb-in_use cb pdu_id es in ground (arith, in_use-le-length es)

  last_of_if :
      (hit : Bool) (c d : Option C) (ds : List (Option C))
      → last_of (if hit then c else d) ds ≡ last_of d (if hit then c ∷ ds else ds)
  last_of_if true c d ds = refl
  last_of_if false c d ds = refl

  pub release_loop-waiting :
      (pdu_id q : ℕ) (cb : Option C) (table : List (Entry C))
      → ((release_loop pdu_id cb table).0 ≡ last_of cb (waiting pdu_id table))
        × (waiting q (release_loop pdu_id cb table).1
            ≡ (if q == pdu_id then [] else waiting q table))
        × (in_use (release_loop pdu_id cb table).1 + length (waiting pdu_id table) ≡ in_use table)
  unfolding release_loop
  release_loop-waiting pdu_id q cb [] = ground arith
  release_loop-waiting pdu_id q cb (e ∷ es) =
      let hit : Bool = e.busy && e.pdu_id == pdu_id in
      let ih = release_loop-waiting pdu_id q (if hit then e.cb else cb) es in
      (ih.0 ∙ last_of_if hit e.cb cb (waiting pdu_id es), ground arith, ground arith)

  pub length-release_loop :
      (pdu_id : ℕ) (cb : Option C) (table : List (Entry C))
      → length (release_loop pdu_id cb table).1 ≡ length table
  unfolding release_loop
  length-release_loop pdu_id cb [] = refl
  length-release_loop pdu_id cb (e ∷ es) =
      ap suc (length-release_loop pdu_id (if e.busy && e.pdu_id == pdu_id then e.cb else cb) es)

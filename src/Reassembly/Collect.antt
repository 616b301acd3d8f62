-- ===== src/Reassembly/Collect.antt =====
-- What `reassembly_garbage_collect` removes.
use c_mesh_api.Reassembly.{
  InternalFragment, UtHash, FullPacket, PacketKey, collect, reassembly_garbage_collect, State,
  is_stale, sub64,
}
use c_mesh_api.Reassembly.Containers.{
  UtList, UtHash, PacketKey, has_key, key_eq, key_eq_iff, key_eq_comm,
}
use c_mesh_api.Prelude.{
  true, false, ℕ, List, Option, some, ◌≡◌, arith, if◌then◌else◌, ltb, none, Bool-cases, refl, ◌&&◌,
  ◌∷◌, [], inl, inr, Bool, Option-cases, ◌∙◌, ap, ◌||◌, sym, leb, ◌<◌, ◌≤◌, ◌+◌, ◌^◌, ◌*◌,
}

module _ (ll : UtList InternalFragment) (hh : UtHash (FullPacket ll.Head)) where
  -- A packet, if there is one and less than `max_s + 1` seconds have passed from its last activity
  -- to `now`.
  abbrev pub unless_inactive : ℕ → ℕ → Option (FullPacket ll.Head) → Option (FullPacket ll.Head)
  unless_inactive max_s now none = none
  unless_inactive max_s now (some p) =
      if leb (p.timestamp_ms_epoch_last + 1000 * (max_s + 1)) now then none else some p

  -- The last activity is not in the future, nor 2 ^ 32 seconds in the past.
  abbrev pub IsRecent : ℕ → Option (FullPacket ll.Head) → Type 0
  IsRecent now none = Unit
  IsRecent now (some p) =
      (p.timestamp_ms_epoch_last ≤ now) × (now < p.timestamp_ms_epoch_last + 1000 * 2 ^ 32)

  -- A packet that is not stale, if there is one.
  abbrev unless_stale : ℕ → ℕ → Option (FullPacket ll.Head) → Option (FullPacket ll.Head)
  unless_stale max_s now none = none
  unless_stale max_s now (some p) = if is_stale ll hh max_s now p then none else some p

  unless_stale_twice :
      (max_s now : ℕ) (o : Option (FullPacket ll.Head))
      → unless_stale max_s now (unless_stale max_s now o) ≡ unless_stale max_s now o
  unless_stale_twice max_s now none = refl
  unless_stale_twice max_s now (some p) = ground arith

  unless_stale_inactive :
      (max_s now : ℕ) (o : Option (FullPacket ll.Head))
      → now < 2 ^ 64
      → IsRecent now o
      → unless_stale max_s now o ≡ unless_inactive max_s now o
  unfolding is_stale
  unless_stale_inactive max_s now none h r = refl
  unless_stale_inactive max_s now (some p) h r = ground arith

  -- One round of the loop, as the loop has it.
  abbrev round : ℕ → (PacketKey → ℕ) → PacketKey → hh.Table → hh.Table
  round max_s now_at k packets = elim (hh.find k packets) [
    | none ↦ packets
    | some p ↦ if is_stale ll hh max_s (now_at k) p then hh.del k packets else packets
  ]

  find-round :
      (max_s : ℕ) (now_at : PacketKey → ℕ) (k j : PacketKey) (packets : hh.Table)
      → hh.find j (round max_s now_at k packets) ≡ (
          if key_eq k j
          then unless_stale max_s (now_at j) (hh.find j packets)
          else hh.find j packets)
  find-round max_s now_at k j packets = elim (Option-cases (hh.find k packets)) [
    | inl q ↦ elim (Bool-cases (key_eq k j)) [
      | inl e ↦
          let none' : hh.find j packets ≡ none =
            ap (λ x. hh.find x packets) (sym ((key_eq_iff k j).0 e)) ∙ q in
          rw (round, q, e) (none' ∙ rw none' refl)
      | inr e ↦ rw (round, q, e) refl
    ]
    | inr (p, q) ↦ elim (Bool-cases (key_eq k j)) [
      | inl e ↦
          let same : k ≡ j = (key_eq_iff k j).0 e in
          let here : hh.find j packets ≡ some p = ap (λ x. hh.find x packets) (sym same) ∙ q in
          elim (Bool-cases (is_stale ll hh max_s (now_at j) p)) [
            | inl r ↦
                rw (round, q, e, same, here, r)
                  (hh.find-del j j packets ∙ rw ((key_eq_iff j j).1 refl) refl)
            | inr r ↦ rw (round, q, e, same, here, r) here
          ]
      | inr e ↦
          let del : hh.find j (hh.del k packets) ≡ hh.find j packets =
            hh.find-del k j packets ∙ rw e refl in
          elim (Bool-cases (is_stale ll hh max_s (now_at k) p)) [
            | inl r ↦ rw (round, q, e, r) del
            | inr r ↦ rw (round, q, e, r) refl
          ]
    ]
  ]

  once :
      (here later : Bool) (max_s now : ℕ) (o : Option (FullPacket ll.Head))
      → (if later
          then unless_stale max_s now (if here then unless_stale max_s now o else o)
          else if here
          then unless_stale max_s now o
          else o)
        ≡ (if here || later then unless_stale max_s now o else o)
  once true true max_s now o = unless_stale_twice max_s now o
  once true false max_s now o = refl
  once false true max_s now o = refl
  once false false max_s now o = refl

  find-collect :
      (max_s : ℕ) (now_at : PacketKey → ℕ) (ks : List PacketKey) (j : PacketKey)
      (packets : hh.Table)
      → hh.find j (collect ll hh max_s now_at ks packets) ≡ (
          if has_key j ks
          then unless_stale max_s (now_at j) (hh.find j packets)
          else hh.find j packets)
  unfolding collect
  find-collect max_s now_at [] j packets = refl
  find-collect max_s now_at (k ∷ ks) j packets =
      find-collect max_s now_at ks j (round max_s now_at k packets)
      ∙ rw (find-round max_s now_at k j packets, key_eq_comm k j)
          (once (key_eq j k) (has_key j ks) max_s (now_at j) (hh.find j packets))

  -- A packet that is there after `reassembly_garbage_collect`, if the collection is due.
  find-collected :
      (now now' : ℕ) (now_at : PacketKey → ℕ) (s : State hh.Table) (k : PacketKey)
      → hh.find k (reassembly_garbage_collect ll hh now now' now_at s).packets ≡ (
          if ltb 0 s.fragment_max_duration_s && ltb 5000 (sub64 now s.last_gc_ts_ms)
          then unless_stale s.fragment_max_duration_s (now_at k) (hh.find k s.packets)
          else hh.find k s.packets)
  unfolding reassembly_garbage_collect
  find-collected now now' now_at s k =
      elim (Bool-cases (ltb 0 s.fragment_max_duration_s && ltb 5000 (sub64 now s.last_gc_ts_ms))) [
        | inl e ↦
            rw (e, reassembly_garbage_collect)
              (find-collect s.fragment_max_duration_s now_at (hh.keys s.packets) k s.packets
                ∙ elim (Option-cases (hh.find k s.packets)) [
                  | inl n ↦ ground arith
                  | inr (p, f) ↦ rw (hh.find_in_keys k p s.packets f) refl
                ])
        | inr e ↦ rw (e, reassembly_garbage_collect) refl
      ]

  -- If a maximum age of `m` seconds is set and more than five seconds have passed since the last
  -- collection, `reassembly_garbage_collect` removes exactly the packets whose last activity is
  -- `m + 1` seconds or more before the time read for them, and keeps each other packet as it is;
  -- otherwise it removes none. The 64-bit clock does not go back behind the last collection or the
  -- last activity of the packet, which is less than 2 ^ 32 seconds ago.
  pub reassembly_garbage_collect-find :
      (now now' : ℕ) (now_at : PacketKey → ℕ) (s : State hh.Table) (k : PacketKey)
      → s.last_gc_ts_ms ≤ now
      → now < 2 ^ 64
      → now_at k < 2 ^ 64
      → IsRecent (now_at k) (hh.find k s.packets)
      → hh.find k (reassembly_garbage_collect ll hh now now' now_at s).packets ≡ (
          if ltb 0 s.fragment_max_duration_s && ltb (s.last_gc_ts_ms + 5000) now
          then unless_inactive s.fragment_max_duration_s (now_at k) (hh.find k s.packets)
          else hh.find k s.packets)
  reassembly_garbage_collect-find now now' now_at s k g w v r =
      let due : ltb 5000 (sub64 now s.last_gc_ts_ms) ≡ ltb (s.last_gc_ts_ms + 5000) now =
        ground arith in
      find-collected now now' now_at s k
      ∙ rw
          (
            due,
            unless_stale_inactive s.fragment_max_duration_s (now_at k) (hh.find k s.packets) v r,
          )
          refl

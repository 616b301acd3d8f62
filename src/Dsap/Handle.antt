-- ===== src/Dsap/Handle.antt =====
-- One call after the other of the handler of fragments in lib/wpc/dsap.c.
use c_mesh_api.Dsap.Receive.{
  GcClock, Receiver, dsap_data_rx_frag_indication_handler, deliver_full, fragment_of, DataReceived,
  data_received, collect_garbage,
}
use c_mesh_api.Reassembly.Message.{granted, add_all}
use c_mesh_api.Reassembly.{
  InternalFragment, FullPacket, reassembly_add_fragment, Fragment, State, get_or_create, key_of,
  add_fragment_to_full_packet, reassembly_garbage_collect, reassembly_get_full_message,
}
use c_mesh_api.Reassembly.Containers.{UtList, UtHash, PacketKey}
use c_mesh_api.Prelude.{
  ℕ, Bytes, List, Bool, ◌≡◌, ok, Option-cases, inl, sym, ap, Outcome, inr, fault, returned,
  unfinished, Option, ltb, false, true, arith, none, ◌<◌, ◌∷◌, refl, ◌>>=◌, [], length, some, ◌==◌,
  map, ◌++◌, ◌∙◌,
}

module _ (ll : UtList InternalFragment) (hh : UtHash (FullPacket ll.Head)) where
  -- The setting in the state of an outcome.
  abbrev duration_of : Outcome (Bool × ℕ × State hh.Table) → ℕ → ℕ
  duration_of (ok (a, n, s)) d = s.fragment_max_duration_s
  duration_of fault d = d
  duration_of unfinished d = d

  -- A fragment that is added keeps the setting of the garbage collection.
  reassembly_add_fragment-duration :
      (now : ℕ) (frag : Fragment) (s s' : State hh.Table) (a : Bool) (n : ℕ)
      → reassembly_add_fragment ll hh granted now frag s ≡ ok (a, n, s')
      → s'.fragment_max_duration_s ≡ s.fragment_max_duration_s
  unfolding reassembly_add_fragment
  reassembly_add_fragment-duration now frag s s' a n e =
      elim (Option-cases (get_or_create ll hh granted (key_of frag) s.packets)) [
        | inl q ↦ sym (ap (λ o. duration_of o 0) (rw (q, reassembly_add_fragment) at e))
        | inr ((p, packets), q) ↦
            let (r, _, e') =
              returned (add_fragment_to_full_packet ll granted now p frag) _
                (rw (q, reassembly_add_fragment) at e) in
            sym (ap (λ o. duration_of o 0) e')
      ]

  -- With no maximal duration no garbage is collected.
  reassembly_garbage_collect-off :
      (now now' : ℕ) (now_at : PacketKey → ℕ) (s : State hh.Table)
      → s.fragment_max_duration_s ≡ 0
      → reassembly_garbage_collect ll hh now now' now_at s ≡ s
  unfolding reassembly_garbage_collect
  reassembly_garbage_collect-off now now' now_at s h =
      let q : ltb 0 s.fragment_max_duration_s ≡ false = ground arith in rw q refl

  -- The first report of a run, the others with the state, and the state.
  abbrev first_report : Outcome (List (Bool × ℕ) × State hh.Table) → Bool × ℕ
  first_report (ok (x ∷ xs, s)) = x
  first_report _ = (false, 0)

  abbrev other_reports :
      State hh.Table → Outcome (List (Bool × ℕ) × State hh.Table) → List (Bool × ℕ) × State hh.Table
  other_reports d (ok (x ∷ xs, s)) = (xs, s)
  other_reports d _ = ([], d)

module _ {C D : Type 0} (ll : UtList InternalFragment) (hh : UtHash (FullPacket ll.Head))
    (now : Fragment → ℕ) (clock : GcClock) (timestamp_ms : Bytes → ℕ) where
  -- All frames are handled, with the calls that they cause.
  abbrev pub handle_all :
      List Bytes
      → Receiver C D hh.Table
      → Outcome (List (Option (DataReceived D)) × Receiver C D hh.Table)
  handle_all [] t = ok ([], t)
  handle_all (f ∷ fs) t = do
    (call, t') ←
        dsap_data_rx_frag_indication_handler ll hh granted (now (fragment_of f)) clock f
          (timestamp_ms f) t
    (calls, t'') ← handle_all fs t'
    ok (call ∷ calls, t'')

  -- A fragment that does not fill its packet.
  handler-kept :
      (f : Bytes) (t : Receiver C D hh.Table) (s' : State hh.Table)
      → reassembly_add_fragment ll hh granted (now (fragment_of f)) (fragment_of f) t.reassembly
        ≡ ok (true, 0, s')
      → s'.fragment_max_duration_s ≡ 0
      → dsap_data_rx_frag_indication_handler ll hh granted
          (now (fragment_of f))
          clock
          f
          (timestamp_ms f)
          t
        ≡ ok (none, record t { reassembly = s' })
  unfolding dsap_data_rx_frag_indication_handler
  handler-kept f t s' e h = rw e (
      ap (λ r. ok (none, record t { reassembly = r }))
        (reassembly_garbage_collect-off ll hh clock.test clock.stamp clock.packet s' h))

  -- A fragment that fills its packet.
  handler-full :
      (f : Bytes) (t : Receiver C D hh.Table) (s1 s2 : State hh.Table) (n : ℕ) (buffer : Bytes)
      (cb : D)
      → reassembly_add_fragment ll hh granted (now (fragment_of f)) (fragment_of f) t.reassembly
        ≡ ok (true, n, s1)
      → 0 < n
      → reassembly_get_full_message ll hh
          (key_of (fragment_of f))
          t.reassembly_buffer
          (length t.reassembly_buffer)
          s1
        ≡ ok (true, buffer, n, s2)
      → t.m_data_cb ≡ some cb
      → (t' : Receiver C D hh.Table) × (dsap_data_rx_frag_indication_handler ll hh granted
            (now (fragment_of f))
            clock
            f
            (timestamp_ms f)
            t
          ≡ ok (some (data_received cb buffer n f (timestamp_ms f)), t'))
  unfolding dsap_data_rx_frag_indication_handler deliver_full
  handler-full f t s1 s2 n buffer cb e p g h =
      let q : (n == 0) ≡ false = ground arith in
      (
        collect_garbage ll hh clock
            (record t { m_data_cb = some cb; reassembly_buffer = buffer; reassembly = s2 }),
        rw (e, q)
            (rw (g, h)
              (ap
                (λ c. ok (
                  some (data_received cb buffer n f (timestamp_ms f)),
                  collect_garbage ll hh clock
                      (record t { m_data_cb = c; reassembly_buffer = buffer; reassembly = s2 }),
                ))
                h)),
      )

  -- Frames whose fragments are added, the last of which fills the packet.
  pub handle_all-full :
      (fs : List Bytes) (end : Bytes) (t : Receiver C D hh.Table) (s1 s2 : State hh.Table) (n : ℕ)
      (buffer : Bytes) (cb : D)
      → add_all ll hh now (map fragment_of fs ++ (fragment_of end ∷ [])) t.reassembly
        ≡ ok (map (λ _. (true, 0)) fs ++ ((true, n) ∷ []), s1)
      → t.reassembly.fragment_max_duration_s ≡ 0
      → 0 < n
      → reassembly_get_full_message ll hh
          (key_of (fragment_of end))
          t.reassembly_buffer
          (length t.reassembly_buffer)
          s1
        ≡ ok (true, buffer, n, s2)
      → t.m_data_cb ≡ some cb
      → (t' : Receiver C D hh.Table) × (handle_all (fs ++ (end ∷ [])) t
          ≡ ok (
            map (λ _. none) fs ++ (some (data_received cb buffer n end (timestamp_ms end)) ∷ []),
            t',
          ))
  handle_all-full [] end t s1 s2 n buffer cb e d p g h =
      let (r, e1, e2) =
        returned
          (reassembly_add_fragment ll hh granted (now (fragment_of end)) (fragment_of end)
            t.reassembly)
          _ e in
      let x : r ≡ (true, n, s1) = (λ i. (
        (ap (first_report ll hh) e2 i).0,
        (ap (first_report ll hh) e2 i).1,
        (ap (other_reports ll hh s1) e2 i).1,
      )) in
      let (t', e') = handler-full end t s1 s2 n buffer cb (e1 ∙ ap ok x) p g h in (t', rw e' refl)
  handle_all-full (f ∷ fs) end t s1 s2 n buffer cb e d p g h =
      let (r, e1, e2) =
        returned
          (reassembly_add_fragment ll hh granted (now (fragment_of f)) (fragment_of f) t.reassembly)
          _ e in
      let (rest, e3, e4) =
        returned (add_all ll hh now (map fragment_of fs ++ (fragment_of end ∷ [])) r.2) _ e2 in
      let x : r ≡ (true, 0, r.2) =
        (λ i. ((ap (first_report ll hh) e4 i).0, (ap (first_report ll hh) e4 i).1, r.2)) in
      let d' : r.2.fragment_max_duration_s ≡ 0 =
        reassembly_add_fragment-duration ll hh (now (fragment_of f)) (fragment_of f) t.reassembly
          r.2 r.0 r.1 e1
        ∙ d in
      let now_kept = handler-kept f t r.2 (e1 ∙ ap ok x) d' in
      let (t', e') =
        handle_all-full fs end (record t { reassembly = r.2 }) s1 s2 n buffer cb
          (e3 ∙ ap ok (ap (other_reports ll hh s1) e4)) d' p g h in
      (t', rw now_kept (rw e' refl))

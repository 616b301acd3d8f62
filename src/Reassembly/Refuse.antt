-- ===== src/Reassembly/Refuse.antt =====
-- Fragments that are not kept, and a copy past the buffer.
use c_mesh_api.Reassembly.Arrive.{kept}
use c_mesh_api.Reassembly.Message.{granted, add_all_and_get, add_fragment_to_full_packet-new}
use c_mesh_api.Reassembly.{
  InternalFragment, UtHash, FullPacket, reassembly_add_fragment, reassembly_get_full_message,
  get_or_create, reassemble_full_packet, PacketKey, add_fragment_to_full_packet, write_fragments,
  Allocations, Fragment, State, key_of, is_packet_full, rx_size, with_fragment, new_packet,
}
use c_mesh_api.Reassembly.Containers.{UtList, UtHash, PacketKey, key_eq, key_eq_iff}
use c_mesh_api.Prelude.{
  ℕ, Bytes, ◌≡◌, some, All, false, true, ◌∷◌, ◌≢◌, ok, ◌<◌, ◌≤◌, Option-cases, inl, length, inr,
  ◌+◌, Bool-cases, fault, ◌∙◌, leb, refl, arith, sym, ap, none, take, if◌then◌else◌, [], subst,
  ◌==◌, ltb, overlay, length-overlay,
}

module _ (ll : UtList InternalFragment) (hh : UtHash (FullPacket ll.Head)) where
  -- A fragment at an offset where the packet has one already is refused, whatever the allocations
  -- do: `reassembly_add_fragment` returns false, reports no full packet, and each packet that was
  -- there is found as it was.
  pub reassembly_add_fragment_duplicate :
      (mem : Allocations) (now : ℕ) (frag : Fragment) (s : State hh.Table) (p : FullPacket ll.Head)
      → hh.find (key_of frag) s.packets ≡ some p
      → ¬ All (λ f. f.offset ≢ frag.offset) (ll.elements p.head)
      → (s' : State hh.Table) × (reassembly_add_fragment ll hh mem now frag s ≡ ok (false, 0, s'))
        × ((k : PacketKey) → hh.find k s'.packets ≡ hh.find k s.packets)
  unfolding reassembly_add_fragment get_or_create add_fragment_to_full_packet
  reassembly_add_fragment_duplicate mem now frag s p h d =
      elim (Option-cases (ll.search_scalar (λ f. f.offset) frag.offset p.head)) [
        | inl q ↦ absurd (d (ll.search_finds_some (λ f. f.offset) frag.offset p.head q))
        | inr (f, q) ↦
            let s' : State hh.Table = record s {
              packets = hh.replace (key_of frag) p s.packets;
              is_queue_empty = false;
            } in
            (
              s',
              rw (reassembly_add_fragment, get_or_create, h, add_fragment_to_full_packet, q) refl,
              λ k.
                  hh.find-replace (key_of frag) k p p s.packets h
                  ∙ elim (Bool-cases (key_eq (key_of frag) k)) [
                    | inl e ↦
                        rw e
                          (sym h ∙ ap (λ j. hh.find j s.packets) ((key_eq_iff (key_of frag) k).0 e))
                    | inr e ↦ rw e refl
                  ],
            )
      ]

  -- A fragment that is put into a packet, and the packet with it.
  reassembly_add_fragment-put :
      (now : ℕ) (frag : Fragment) (s : State hh.Table) (p : FullPacket ll.Head) (packets : hh.Table)
      → get_or_create ll hh granted (key_of frag) s.packets ≡ some (p, packets)
      → hh.find (key_of frag) packets ≡ some p
      → All (λ g. g.offset ≢ frag.offset) (ll.elements p.head)
      → frag.size ≤ length frag.bytes
      → let (full, p') =
          is_packet_full ll (with_fragment ll now p frag (take frag.size frag.bytes)) in
        (s' : State hh.Table) × (reassembly_add_fragment ll hh granted now frag s
          ≡ ok (true, (if full then p'.full_size else 0), s'))
        × (hh.find (key_of frag) s'.packets ≡ some p')
  unfolding reassembly_add_fragment
  reassembly_add_fragment-put now frag s p packets g f fresh len =
      let key : PacketKey = key_of frag in
      let p' : FullPacket ll.Head =
        (is_packet_full ll (with_fragment ll now p frag (take frag.size frag.bytes))).1 in
      (
        record s { packets = hh.replace key p' packets; is_queue_empty = false },
        rw (reassembly_add_fragment, g, add_fragment_to_full_packet-new ll hh now p frag fresh len)
            refl,
        hh.find-replace key key p p' packets f ∙ rw ((key_eq_iff key key).1 refl) refl,
      )

  -- If a first fragment, not the last, is as long as the offset of a second one, the last, at
  -- another offset, the sizes add up to the full size wherever the first one lies. Where no packet
  -- with their key is there and the first one reaches past the end of the buffer, asking for the
  -- packet writes behind the buffer, although the buffer has room for the full size reported.
  pub reassembly_get_full_message_past :
      (now : Fragment → ℕ) (f1 f2 : Fragment) (s : State hh.Table) (buffer : Bytes)
      → hh.find (key_of f1) s.packets ≡ none
      → key_of f1 ≡ key_of f2
      → f1.last_fragment ≡ false
      → f2.last_fragment ≡ true
      → f1.size ≤ length f1.bytes
      → f2.size ≤ length f2.bytes
      → f1.offset ≢ f2.offset
      → 0 < f1.size
      → f1.size ≡ f2.offset
      → f2.offset + f2.size ≤ length buffer
      → length buffer < f1.offset + f1.size
      → add_all_and_get ll hh (key_of f1) buffer now (f1 ∷ f2 ∷ []) s ≡ fault
  unfolding is_packet_full get_or_create reassembly_get_full_message reassemble_full_packet
      write_fragments rx_size
  reassembly_get_full_message_past now f1 f2 s buffer none' same l1 l2 b1 b2 ne pos' sum room past =
      let key : PacketKey = key_of f1 in
      let p1 : FullPacket ll.Head =
        with_fragment ll (now f1) (new_packet ll key) f1 (take f1.size f1.bytes) in
      let p2 : FullPacket ll.Head = with_fragment ll (now f2) p1 f2 (take f2.size f2.bytes) in
      let e1 : ll.elements p1.head ≡ kept f1 ∷ [] =
        ll.elements-prepend (kept f1) ll.null ∙ ap (◌∷◌ (kept f1)) ll.elements-null in
      let e2 : ll.elements p2.head ≡ kept f2 ∷ kept f1 ∷ [] =
        ll.elements-prepend (kept f2) p1.head ∙ ap (◌∷◌ (kept f2)) e1 in
      let (s1, a1, h1) =
        reassembly_add_fragment-put (now f1) f1 s (new_packet ll key)
          (hh.add key (new_packet ll key) s.packets) (rw (none', get_or_create) refl)
          (hh.find-add key key (new_packet ll key) s.packets none'
            ∙ rw ((key_eq_iff key key).1 refl) refl)
          (subst (All (λ g. g.offset ≢ f1.offset)) (sym ll.elements-null) tt) b1 in
      let x1 : is_packet_full ll p1 ≡ (false, p1) = rw (is_packet_full, l1) refl in
      let some_size : (f2.offset + f2.size == 0) ≡ false = ground arith in
      let all_sizes : (f2.size + (f1.size + 0) == f2.offset + f2.size) ≡ true = ground arith in
      let x2 : is_packet_full ll p2 ≡ (true, record p2 { is_full = true }) =
        rw (is_packet_full, l2, some_size, e2, all_sizes) refl in
      let h1' : hh.find (key_of f2) s1.packets ≡ some p1 =
        ap (λ k. hh.find k s1.packets) (sym same) ∙ h1 ∙ ap (λ x. some x.1) x1 in
      let (s2, a2, h2) =
        reassembly_add_fragment-put (now f2) f2 s1 p1 s1.packets (rw (h1', get_or_create) refl) h1'
          (subst (All (λ g. g.offset ≢ f2.offset)) (sym e1) (ne, tt)) b2 in
      let h2' : hh.find key s2.packets ≡ some (record p2 { is_full = true }) =
        ap (λ k. hh.find k s2.packets) same ∙ h2 ∙ ap (λ x. some x.1) x2 in
      let fits : ltb (length buffer) (f2.offset + f2.size) ≡ false = ground arith in
      let inside : leb (f2.offset + f2.size) (length buffer) ≡ true = ground arith in
      let outside : leb (f1.offset + f1.size)
            (length (overlay f2.offset (take f2.size (take f2.size f2.bytes)) buffer))
          ≡ false =
        ground (arith, length-overlay f2.offset (take f2.size (take f2.size f2.bytes)) buffer) in
      rw a1 (
        rw a2 (
          rw
            (
              reassembly_get_full_message, h2', reassemble_full_packet, l2, fits, e2,
              write_fragments, inside, outside,
            )
            refl))

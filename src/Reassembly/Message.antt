-- ===== src/Reassembly/Message.antt =====
-- The fragments of one message, in any order, and the message that comes out.
use c_mesh_api.Reassembly.Arrive.{
  Arrive, IsFragmentOf, ends, kept, kept_all, kept_all-append, rx_size-kept_all, Arrive-append,
  kept_all-IsPart, ends-covered,
}
use c_mesh_api.Reassembly.Write.{IsPart, covered, write_fragments-message}
use c_mesh_api.Reassembly.Containers.{UtList, PacketKey, UtHash, key_eq, key_eq_iff}
use c_mesh_api.Reassembly.{
  Allocations, Fragment, InternalFragment, PacketKey, UtHash, key_of, FullPacket, State,
  get_or_create, new_packet, reassembly_add_fragment, add_fragment_to_full_packet, is_packet_full,
  copy_bytes, rx_size, with_fragment, reassembly_get_full_message, reassemble_full_packet,
}
use c_mesh_api.Prelude.{
  ℕ, Bytes, List, true, All, Bool, take, ◌∷◌, [], false, ◌≡◌, ◌≢◌, ◌<◌, Outcome, length, none, some,
  ◌==◌, ◌≤◌, if◌then◌else◌, ok, Bool-cases, ◌>>=◌, inl, arith, ◌∙◌, inr, refl, ◌&&◌, leb, ap, subst,
  sym, map, ◌++◌, overlay, Option-cases, Option, ltb, ◌-◌,
}

-- All allocations succeed.
abbrev pub granted : Allocations
granted = record { packet = true; header = true; payload = true }

module _ (ll : UtList InternalFragment) (hh : UtHash (FullPacket ll.Head)) where
  -- One call after the other, each with what it reports.
  abbrev pub add_all :
      (Fragment → ℕ) → List Fragment → State hh.Table → Outcome (List (Bool × ℕ) × State hh.Table)
  add_all now [] s = ok ([], s)
  add_all now (frag ∷ frags) s = do
    (added, full_size, s') ← reassembly_add_fragment ll hh granted (now frag) frag s
    (reports, s'') ← add_all now frags s'
    ok ((added, full_size) ∷ reports, s'')

  -- The packet `p` that a fragment with this key is put into, when the fragments in `got` have
  -- arrived; the other packets are those of `before`.
  Holds : Bytes → PacketKey → List InternalFragment → Bool → hh.Table → State hh.Table → Type 0
  Holds m key got full before s =
      (p : FullPacket ll.Head) × (packets : hh.Table) × (get_or_create ll hh granted key s.packets
        ≡ some (p, packets))
      × (hh.find key packets ≡ some p)
      × (p.key ≡ key)
      × (ll.elements p.head ≡ got)
      × (p.is_full ≡ full)
      × (p.full_size ≡ (if ends m got then length m else 0))
      × ((j : PacketKey) → key_eq key j ≡ false → hh.find j packets ≡ hh.find j before)

  Holds-new_packet :
      (m : Bytes) (key : PacketKey) (s : State hh.Table)
      → hh.find key s.packets ≡ none
      → Holds m key [] false s.packets s
  unfolding Holds get_or_create
  Holds-new_packet m key s h =
      let here : key_eq key key ≡ true = (key_eq_iff key key).1 refl in
      (
        new_packet ll key,
        hh.add key (new_packet ll key) s.packets,
        rw (h, get_or_create) refl,
        hh.find-add key key (new_packet ll key) s.packets h ∙ rw here refl,
        refl,
        ll.elements-null,
        refl,
        refl,
        λ j e. hh.find-add key j (new_packet ll key) s.packets h ∙ rw e refl,
      )

  Holds-find :
      (m : Bytes) (key : PacketKey) (got : List InternalFragment) (full : Bool) (before : hh.Table)
      (s : State hh.Table) (p : FullPacket ll.Head)
      → hh.find key s.packets ≡ some p
      → p.key ≡ key
      → ll.elements p.head ≡ got
      → p.is_full ≡ full
      → p.full_size ≡ (if ends m got then length m else 0)
      → ((j : PacketKey) → key_eq key j ≡ false → hh.find j s.packets ≡ hh.find j before)
      → Holds m key got full before s
  unfolding Holds get_or_create
  Holds-find m key got full before s p f k e b n o =
      (p, s.packets, rw (f, get_or_create) refl, f, k, e, b, n, o)

  -- A fragment at a new offset is put in front of the list.
  pub add_fragment_to_full_packet-new :
      (now : ℕ) (p : FullPacket ll.Head) (frag : Fragment)
      → All (λ g. g.offset ≢ frag.offset) (ll.elements p.head)
      → frag.size ≤ length frag.bytes
      → add_fragment_to_full_packet ll granted now p frag
        ≡ ok (true, with_fragment ll now p frag (take frag.size frag.bytes))
  unfolding add_fragment_to_full_packet copy_bytes
  add_fragment_to_full_packet-new now p frag h k =
      let room : leb frag.size (length frag.bytes) ≡ true = ground arith in
      rw
        (
          add_fragment_to_full_packet,
          ll.search_finds_none (λ f. f.offset) frag.offset p.head h,
          copy_bytes,
          room,
        )
        refl

  -- Whether the packet is full after one more fragment.
  abbrev full_with : Bytes → List InternalFragment → Bool
  full_with m got = ends m got && (rx_size got == length m)

  is_packet_full-kept :
      (m : Bytes) (got : List InternalFragment) (p : FullPacket ll.Head)
      → 0 < length m
      → ll.elements p.head ≡ got
      → p.is_full ≡ false
      → p.full_size ≡ (if ends m got then length m else 0)
      → is_packet_full ll p ≡ (full_with m got, record p { is_full = full_with m got })
  unfolding is_packet_full
  is_packet_full-kept m got p h e b n = elim (Bool-cases (ends m got)) [
    | inl q ↦ elim (Bool-cases (rx_size got == length m)) [
      | inl r ↦ rw q (
          rw r (
            let c : (p.full_size == 0) ≡ false = ground arith in
            let d : (rx_size (ll.elements p.head) == p.full_size) ≡ true = rw e (ground arith) in
            rw (is_packet_full, b, c, d) refl))
      | inr r ↦ ground arith
    ]
    | inr q ↦ ground arith
  ]

  reassembly_add_fragment-step :
      (m : Bytes) (got : List InternalFragment) (before : hh.Table) (s : State hh.Table) (now : ℕ)
      (frag : Fragment)
      → Holds m (key_of frag) got false before s
      → IsFragmentOf m (key_of frag) frag
      → All (λ g. g.offset ≢ frag.offset) got
      → let full = full_with m (kept frag ∷ got) in
        (s' : State hh.Table) × (reassembly_add_fragment ll hh granted now frag s
          ≡ ok (true, (if full then length m else 0), s'))
        × Holds m (key_of frag) (kept frag ∷ got) full before s'
  unfolding Holds reassembly_add_fragment
  reassembly_add_fragment-step m got before s now frag (p, packets, g, f, k, e, b, n, o)
        (same, pos', len, part, last) fresh =
      let full : Bool = full_with m (kept frag ∷ got) in
      let key : PacketKey = key_of frag in
      let p' : FullPacket ll.Head = with_fragment ll now p frag (take frag.size frag.bytes) in
      let p'' : FullPacket ll.Head = record p' { is_full = full } in
      let list : ll.elements p'.head ≡ kept frag ∷ got =
        ll.elements-prepend (kept frag) p.head ∙ ap (◌∷◌ (kept frag)) e in
      let size : p'.full_size ≡ (if ends m (kept frag ∷ got) then length m else 0) = ground arith in
      let here : key_eq key key ≡ true = (key_eq_iff key key).1 refl in
      let s' : State hh.Table = record s {
        packets = hh.replace key p'' packets;
        is_queue_empty = false;
      } in
      let found : (j : PacketKey)
          → hh.find j (hh.replace key p'' packets)
            ≡ (if key_eq key j then some p'' else hh.find j packets) =
        λ j. hh.find-replace key j p p'' packets f in
      (
        s',
        rw
            (
              reassembly_add_fragment,
              g,
              add_fragment_to_full_packet-new now p frag
                  (subst (All (λ x. x.offset ≢ frag.offset)) (sym e) fresh) len,
              is_packet_full-kept m (kept frag ∷ got) p' (omega arith) list b size,
            )
            (ap (λ x. ok (true, x, s')) (ground arith)),
        Holds-find m key (kept frag ∷ got) full before s' p'' (found key ∙ rw here refl) k list refl
            size (λ j d. found j ∙ rw d (o j d)),
      )

  -- The reports are (true, 0) as long as some byte is missing; one more fragment can follow.
  add_all-early :
      (m : Bytes) (key : PacketKey) (got : List InternalFragment) (before : hh.Table)
      (s : State hh.Table) (now : Fragment → ℕ) (frags : List Fragment) (final : Fragment)
      → Holds m key got false before s
      → Arrive m key got frags
      → rx_size (kept_all frags got) < length m
      → (s' : State hh.Table) × Holds m key (kept_all frags got) false before s'
        × ((a : Bool) (n : ℕ) (s'' : State hh.Table)
            → reassembly_add_fragment ll hh granted (now final) final s' ≡ ok (a, n, s'')
            → add_all now (frags ++ (final ∷ [])) s
              ≡ ok (map (λ _. (true, 0)) frags ++ ((a, n) ∷ []), s''))
  add_all-early m key got before s now [] final h a n = (s, h, λ b k s'' e. rw e refl)
  add_all-early m key got before s now (frag ∷ frags) final h (x, y, a) n =
      let h' : Holds m (key_of frag) got false before s =
        subst (λ k. Holds m k got false before s) (sym x.0) h in
      let x' : IsFragmentOf m (key_of frag) frag = subst (λ k. IsFragmentOf m k frag) (sym x.0) x in
      let (s', e, h'') = reassembly_add_fragment-step m got before s (now frag) frag h' x' y in
      let part : full_with m (kept frag ∷ got) ≡ false =
        ground (arith, rx_size-kept_all frags (kept frag ∷ got)) in
      let (s1, r, next) =
        add_all-early m key (kept frag ∷ got) before s' now frags final
          (subst (λ k. Holds m k (kept frag ∷ got) false before s') x.0
            (subst (λ b. Holds m (key_of frag) (kept frag ∷ got) b before s') part h''))
          a n in
      (s1, r, λ b k s'' h2. rw (e, part) (rw (next b k s'' h2) refl))

  -- A full packet is written to the buffer and removed.
  reassembly_get_full_message-full :
      (m : Bytes) (key : PacketKey) (got : List InternalFragment) (before : hh.Table)
      (s : State hh.Table) (buffer : Bytes)
      → Holds m key got true before s
      → ends m got ≡ true
      → All (IsPart m) got
      → ((i : ℕ) → i < length m → covered i got ≡ true)
      → length m ≤ length buffer
      → (s' : State hh.Table) × (reassembly_get_full_message ll hh key buffer (length buffer) s
          ≡ ok (true, overlay 0 m buffer, length m, s'))
        × (hh.find key s'.packets ≡ none)
        × ((j : PacketKey) → key_eq key j ≡ false → hh.find j s'.packets ≡ hh.find j before)
  unfolding Holds reassembly_get_full_message reassemble_full_packet get_or_create
  reassembly_get_full_message-full m key got before s buffer (p, packets, g, f, k, e, b, n, o) last
        parts cover room =
      let marked : Option (FullPacket ll.Head × hh.Table) → Bool = elim [
        | none ↦ true
        | some (u, t) ↦ u.is_full
      ] in
      let same : Option (FullPacket ll.Head × hh.Table) → hh.Table = elim [
        | none ↦ packets
        | some (u, t) ↦ t
      ] in
      elim (Option-cases (hh.find key s.packets)) [
        | inl q ↦
            let new : get_or_create ll hh granted key s.packets
                ≡ some (new_packet ll key, hh.add key (new_packet ll key) s.packets) =
              rw (q, get_or_create) refl in
            let no : false ≡ true = ap marked (sym new ∙ g) ∙ b in absurd (cc)
        | inr (u, q) ↦
            let old : get_or_create ll hh granted key s.packets ≡ some (u, s.packets) =
              rw (q, get_or_create) refl in
            let t : s.packets ≡ packets = ap same (sym old ∙ g) in
            let f' : hh.find key s.packets ≡ some p = rw t f in
            let full : p.full_size ≡ length m = ground arith in
            let enough : ltb (length buffer) p.full_size ≡ false = ground arith in
            let left : hh.Table = hh.del p.key s.packets in
            let s' : State hh.Table = record s {
              packets = left;
              is_queue_empty = hh.count left == 0;
            } in
            let here : key_eq p.key key ≡ true = (key_eq_iff p.key key).1 k in
            (
              s',
              rw
                  (
                    reassembly_get_full_message,
                    f',
                    reassemble_full_packet,
                    b,
                    enough,
                    e,
                    write_fragments-message m got buffer parts cover room,
                  )
                  (ap (λ x. ok (true, overlay 0 m buffer, x, s')) full),
              hh.find-del p.key key s.packets ∙ rw here refl,
              λ j d.
                  hh.find-del p.key j s.packets
                  ∙ rw (ap (λ x. key_eq x j) k ∙ d) (ap (hh.find j) t ∙ o j d),
            )
      ]

  -- All fragments are added, and then the packet is asked for.
  abbrev pub add_all_and_get :
      PacketKey
      → Bytes
      → (Fragment → ℕ)
      → List Fragment
      → State hh.Table
      → Outcome (List (Bool × ℕ) × Bool × Bytes × ℕ × State hh.Table)
  add_all_and_get key buffer now frags s = do
    (reports, s1) ← add_all now frags s
    (found, buffer', size, s2) ← reassembly_get_full_message ll hh key buffer (length buffer) s1
    ok (reports, found, buffer', size, s2)

  -- For the fragments of one message of at least one byte, in any order, with pairwise different
  -- offsets and sizes that add up to the length of the message, such that each byte is in one of
  -- them: if no packet with that key is there and all allocations succeed, each call of
  -- `reassembly_add_fragment` returns true, all but the last report that the packet is not full,
  -- and the last reports the length of the message. `reassembly_get_full_message` then returns
  -- true, writes the message to the start of the buffer if it has room, gives its length, and
  -- removes the packet; packets with other keys stay as they are.
  pub reassembly_complete :
      (m : Bytes) (key : PacketKey) (now : Fragment → ℕ) (frags : List Fragment) (final : Fragment)
      (s : State hh.Table) (buffer : Bytes)
      → hh.find key s.packets ≡ none
      → Arrive m key [] (frags ++ (final ∷ []))
      → rx_size (kept_all (frags ++ (final ∷ [])) []) ≡ length m
      → ((i : ℕ) → i < length m → covered i (kept_all (frags ++ (final ∷ [])) []) ≡ true)
      → length m ≤ length buffer
      → (s' : State hh.Table) × (add_all_and_get key buffer now (frags ++ (final ∷ [])) s
          ≡ ok (
            map (λ _. (true, 0)) frags ++ ((true, length m) ∷ []),
            true,
            overlay 0 m buffer,
            length m,
            s',
          ))
        × ((j : PacketKey)
            → hh.find j s'.packets ≡ (if key_eq key j then none else hh.find j s.packets))
  unfolding rx_size
  reassembly_complete m key now frags final s buffer new arrive sum cover room =
      let got : List InternalFragment = kept_all frags [] in
      let list : kept_all (frags ++ (final ∷ [])) [] ≡ kept final ∷ got =
        kept_all-append frags final [] in
      let (early, rest) = Arrive-append m key [] frags final arrive in
      let (x, fresh, _) = rest in
      let total : rx_size (kept final ∷ got) ≡ length m = sym (ap rx_size list) ∙ sum in
      let parts : All (IsPart m) (kept final ∷ got) =
        (x.3, kept_all-IsPart m key [] frags tt early) in
      let cover' : (i : ℕ) → i < length m → covered i (kept final ∷ got) ≡ true =
        λ i h. sym (ap (covered i) list) ∙ cover i h in
      let some_byte : 0 < length m = omega arith in
      let last : ends m (kept final ∷ got) ≡ true =
        ends-covered m (length m - 1) (kept final ∷ got) parts (omega arith)
          (cover' (length m - 1) (omega arith)) in
      let full : full_with m (kept final ∷ got) ≡ true = ground arith in
      let (s1, h, next) =
        add_all-early m key [] s.packets s now frags final (Holds-new_packet m key s new) early
          (omega arith) in
      let (s2, e, h') =
        reassembly_add_fragment-step m got s.packets s1 (now final) final
          (subst (λ k. Holds m k got false s.packets s1) (sym x.0) h)
          (subst (λ k. IsFragmentOf m k final) (sym x.0) x) fresh in
      let (s3, e', none', others) =
        reassembly_get_full_message-full m key (kept final ∷ got) s.packets s2 buffer
          (subst (λ b. Holds m key (kept final ∷ got) b s.packets s2) full
            (subst (λ k. Holds m k (kept final ∷ got) (full_with m (kept final ∷ got)) s.packets s2)
              x.0 h'))
          last parts cover' room in
      (
        s3,
        rw (next true (length m) s2 (e ∙ rw full refl)) (rw e' refl),
        λ j. elim (Bool-cases (key_eq key j)) [
          | inl d ↦ rw d (ap (λ k. hh.find k s3.packets) (sym ((key_eq_iff key j).0 d)) ∙ none')
          | inr d ↦ rw d (others j d)
        ],
      )

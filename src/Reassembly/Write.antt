-- ===== src/Reassembly/Write.antt =====
-- The loop of `reassemble_full_packet` on fragments of one message.
use c_mesh_api.Reassembly.{InternalFragment, write_fragments}
use c_mesh_api.Prelude.{
  ℕ, Bytes, List, All, Bool, length, ◌+◌, false, leb, ◌<◌, ◌≤◌, get_or, take, ◌&&◌, ◌∷◌, ◌≡◌, drop,
  ltb, ok, overlay, true, ◌||◌, [], if◌then◌else◌, ◌∙◌, ap, arith, length-overlay, Bool-cases,
  get_or_ext, length-take, inl, inr, get_or-overlay_before, refl, get_or-overlay_after, ◌-◌,
  get_or-overlay_in, get_or-take, get_or-drop, sym,
}

-- The fragment `f` is the part of the message `m` at its offset.
abbrev pub IsPart : Bytes → InternalFragment → Type 0
IsPart m f =
    (f.offset + f.size ≤ length m)
    × (f.size ≤ length f.bytes)
    × (take f.size f.bytes ≡ take f.size (drop f.offset m))

abbrev pub covers : ℕ → InternalFragment → Bool
covers i f = leb f.offset i && ltb i (f.offset + f.size)

-- A byte that some fragment holds.
abbrev pub covered : ℕ → List InternalFragment → Bool
covered i [] = false
covered i (f ∷ fs) = covers i f || covered i fs

-- One copy puts the message's bytes where the fragment lies and keeps the others.
overlay-part :
    (m : Bytes) (f : InternalFragment) (buffer : Bytes) (i : ℕ)
    → IsPart m f
    → length m ≤ length buffer
    → get_or (overlay f.offset (take f.size f.bytes) buffer) i 0
      ≡ (if covers i f then get_or m i 0 else get_or buffer i 0)
overlay-part m f buffer i (h, l, e) k =
    let n : length (take f.size f.bytes) ≡ f.size = omega (arith, length-take f.size f.bytes) in
    elim (Bool-cases (leb f.offset i)) [
      | inr p ↦
          rw p (get_or-overlay_before f.offset i (take f.size f.bytes) buffer 0 (ground arith))
      | inl p ↦ elim (Bool-cases (ltb i (f.offset + f.size))) [
        | inr q ↦
            rw (p, q)
              (get_or-overlay_after f.offset i (take f.size f.bytes) buffer 0 (ground arith))
        | inl q ↦
            let a : f.offset ≤ i = ground arith in
            let b : i < f.offset + f.size = ground arith in
            let c : f.offset + (i - f.offset) ≡ i = omega arith in
            rw (p, q)
              (get_or-overlay_in f.offset i (i - f.offset) (take f.size f.bytes) buffer 0
                  (omega arith) (omega arith) (omega arith)
                ∙ ap (λ x. get_or x (i - f.offset) 0) e
                ∙ get_or-take f.size (i - f.offset) (drop f.offset m) 0 (omega arith)
                ∙ get_or-drop f.offset (i - f.offset) m 0
                ∙ ap (λ x. get_or m x 0) c)
      ]
    ]

-- The loop does not fault, and the bytes of the buffer that some fragment holds are the message's.
pub write_fragments-parts :
    (m : Bytes) (fs : List InternalFragment) (buffer : Bytes)
    → All (IsPart m) fs
    → length m ≤ length buffer
    → (out : Bytes) × (write_fragments fs buffer ≡ ok out)
      × (length out ≡ length buffer)
      × ((i : ℕ) → get_or out i 0 ≡ (if covered i fs then get_or m i 0 else get_or buffer i 0))
unfolding write_fragments
write_fragments-parts m [] buffer p h = (buffer, refl, refl, λ i. refl)
write_fragments-parts m (f ∷ fs) buffer p h =
    let next : Bytes = overlay f.offset (take f.size f.bytes) buffer in
    let size : length next ≡ length buffer = length-overlay f.offset (take f.size f.bytes) buffer in
    let (out, e, n, same) = write_fragments-parts m fs next p.1 (omega arith) in
    let room : leb (f.offset + f.size) (length buffer) ≡ true = ground arith in
    (
      out,
      rw room e,
      omega arith,
      λ i. elim (Bool-cases (covered i fs)) [
        | inl c ↦ same i ∙ ground arith
        | inr c ↦ same i ∙ rw c (overlay-part m f buffer i p.0 h ∙ ground arith)
      ],
    )

-- No fragment holds a byte behind the message.
covered_past :
    (m : Bytes) (fs : List InternalFragment) (i : ℕ)
    → All (IsPart m) fs
    → length m ≤ i
    → covered i fs ≡ false
covered_past m [] i p h = refl
covered_past m (f ∷ fs) i p h =
    let rest : covered i fs ≡ false = covered_past m fs i p.1 h in ground arith

-- Fragments that hold every byte of the message put it at the start of the buffer.
pub write_fragments-message :
    (m : Bytes) (fs : List InternalFragment) (buffer : Bytes)
    → All (IsPart m) fs
    → ((i : ℕ) → i < length m → covered i fs ≡ true)
    → length m ≤ length buffer
    → write_fragments fs buffer ≡ ok (overlay 0 m buffer)
write_fragments-message m fs buffer p c h =
    let (out, e, n, same) = write_fragments-parts m fs buffer p h in
    e
    ∙ ap ok (
        get_or_ext 0 out (overlay 0 m buffer) (omega (arith, length-overlay 0 m buffer)) (λ i k.
          elim (Bool-cases (ltb i (length m))) [
            | inl q ↦
                same i
                ∙ rw (c i (ground arith)) (
                    sym (
                      get_or-overlay_in 0 i i m buffer 0 (omega arith) (ground arith)
                        (omega arith)))
            | inr q ↦
                same i
                ∙ rw (covered_past m fs i p (ground arith))
                    (sym (get_or-overlay_after 0 i m buffer 0 (ground arith)))
          ]))

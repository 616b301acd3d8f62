-- ===== src/Dsap/Chunks.antt =====
-- Frames that cut a message into consecutive parts, and the fragments that they stand for.
use c_mesh_api.Reassembly.Write.{covered}
use c_mesh_api.Reassembly.Arrive.{kept_all, Arrive, kept}
use c_mesh_api.Reassembly.{rx_size, Fragment, InternalFragment}
use c_mesh_api.Dsap.Fragment.{fragment_sent}
use c_mesh_api.Prelude.{
  ℕ, Bytes, List, ◌≡◌, All, length, map, ◌<◌, ◌≤◌, true, ◌+◌, ◌∷◌, [], ap, arith, take, All-map,
  Bool-cases, drop, ltb, ◌==◌, ◌≢◌, inl, inr, length-take, take_all, ◌∙◌,
}

-- The frame holds the part of `buffer` at `off`, and says so.
abbrev pub IsChunk : Bytes → ℕ → ℕ → ℕ → Bytes → Type 0
IsChunk buffer src id off frame =
    let g = fragment_sent src frame in
    (g.packet_id ≡ id)
    × (g.offset ≡ off)
    × (0 < g.size)
    × (g.offset + g.size ≤ length buffer)
    × (g.size ≤ length g.bytes)
    × (take g.size g.bytes ≡ take g.size (drop g.offset buffer))
    × (g.last_fragment ≡ (g.offset + g.size == length buffer))

-- The frames cut what the buffer holds from `off` on.
abbrev pub Chunks : Bytes → ℕ → ℕ → ℕ → List Bytes → Type 0
Chunks buffer src id off [] = off ≡ length buffer
Chunks buffer src id off (f ∷ fs) =
    IsChunk buffer src id off f × Chunks buffer src id (off + (fragment_sent src f).size) fs

abbrev pub fragments_sent : ℕ → List Bytes → List Fragment
fragments_sent src frames = map (fragment_sent src) frames

pub Chunks-Arrive :
    (buffer : Bytes) (src id off : ℕ) (frames : List Bytes) (got : List InternalFragment)
    → Chunks buffer src id off frames
    → All (λ g. g.offset < off) got
    → Arrive buffer (record { src_add = src; packet_id = id }) got (fragments_sent src frames)
Chunks-Arrive buffer src id off [] got c h = tt
Chunks-Arrive buffer src id off (f ∷ fs) got ((i, o, p, b, l, e, last), c) h =
    let n : ℕ = (fragment_sent src f).size in
    let part : Bytes = take n (fragment_sent src f).bytes in
    let m : length part ≡ n = omega (arith, length-take n (fragment_sent src f).bytes) in
    (
      (
        ap (λ x. record { src_add = src; packet_id = x }) i,
        p,
        l,
        (b, omega arith, take_all n part (omega arith) ∙ e),
        last,
      ),
      All-map (λ g. g.offset < off) (λ g. g.offset ≢ (fragment_sent src f).offset) got
          (λ g k q. absurd (omega arith)) h,
      Chunks-Arrive buffer src id (off + (fragment_sent src f).size) fs
          (kept (fragment_sent src f) ∷ got) c
          (
            omega arith,
            All-map (λ g. g.offset < off) (λ g. g.offset < off + (fragment_sent src f).size) got
                (λ g k. omega arith) h,
          ),
    )

pub rx_size-Chunks :
    (buffer : Bytes) (src id off : ℕ) (frames : List Bytes) (got : List InternalFragment)
    → Chunks buffer src id off frames
    → rx_size (kept_all (fragments_sent src frames) got) + off ≡ rx_size got + length buffer
unfolding rx_size
rx_size-Chunks buffer src id off [] got c = omega arith
rx_size-Chunks buffer src id off (f ∷ fs) got (x, c) =
    let ih =
      rx_size-Chunks buffer src id (off + (fragment_sent src f).size) fs
        (kept (fragment_sent src f) ∷ got) c in
    omega arith

covered-kept_all :
    (i : ℕ) (frags : List Fragment) (got : List InternalFragment)
    → covered i got ≡ true
    → covered i (kept_all frags got) ≡ true
covered-kept_all i [] got h = h
covered-kept_all i (f ∷ fs) got h = covered-kept_all i fs (kept f ∷ got) (ground arith)

pub covered-Chunks :
    (buffer : Bytes) (src id off i : ℕ) (frames : List Bytes) (got : List InternalFragment)
    → Chunks buffer src id off frames
    → off ≤ i
    → i < length buffer
    → covered i (kept_all (fragments_sent src frames) got) ≡ true
covered-Chunks buffer src id off i [] got c h k = absurd (omega arith)
covered-Chunks buffer src id off i (f ∷ fs) got ((n, o, p, b, l, e, last), c) h k =
    let g : Fragment = fragment_sent src f in
    elim (Bool-cases (ltb i (off + g.size))) [
      | inl q ↦ covered-kept_all i (fragments_sent src fs) (kept g ∷ got) (ground arith)
      | inr q ↦ covered-Chunks buffer src id (off + g.size) i fs (kept g ∷ got) c (ground arith) k
    ]

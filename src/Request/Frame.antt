-- ===== src/Request/Frame.antt =====
-- The frame that a request is, once its fields and its payload are written.
use c_mesh_api.Request.{fill_request, payload_offset, write_at}
use c_mesh_api.Prelude.{
  ℕ, Bytes, length, ◌∷◌, get_or, ◌+◌, ◌≤◌, overlay, ◌%◌, ◌≡◌, arith, ok, ◌++◌, ◌^◌, drop, leb,
  length-append, length-drop, true, [], ap, refl, take, sym, ◌∙◌, take-append,
}

pub overlay-append :
    (xs ys : Bytes) → length xs ≤ length ys → overlay 0 xs ys ≡ xs ++ drop (length xs) ys
overlay-append [] [] h = refl
overlay-append [] (y ∷ ys) h = refl
overlay-append (x ∷ xs) [] h = absurd (omega arith)
overlay-append (x ∷ xs) (y ∷ ys) h = ap (◌∷◌ x) (overlay-append xs ys (omega arith))

-- The frame with the payload, and behind it what the request held.
abbrev pub frame_of : ℕ → ℕ → Bytes → Bytes → Bytes
frame_of primitive payload_length payload request =
    primitive
    ∷ get_or request 1 0
    ∷ payload_length % 2 ^ 8
    ∷ (payload ++ drop (length payload) (drop payload_offset request))

pub fill_request-frame_of :
    (primitive n : ℕ) (payload request : Bytes)
    → payload_offset + length payload ≤ length request
    → fill_request primitive n payload request ≡ ok (frame_of primitive n payload request)
unfolding fill_request write_at
fill_request-frame_of primitive n payload [] h = absurd (omega arith)
fill_request-frame_of primitive n payload (a ∷ []) h = absurd (omega arith)
fill_request-frame_of primitive n payload (a ∷ b ∷ []) h = absurd (omega arith)
fill_request-frame_of primitive n payload (a ∷ b ∷ c ∷ rest) h =
    let room : leb (payload_offset + length payload) (length (a ∷ b ∷ c ∷ rest)) ≡ true =
      ground arith in
    rw (room, overlay-append payload rest (omega arith)) refl

pub length-frame_of :
    (primitive n : ℕ) (payload request : Bytes)
    → payload_offset + length payload ≤ length request
    → length (frame_of primitive n payload request) ≡ length request
length-frame_of primitive n payload request h = omega (
  arith,
  length-append payload (drop (length payload) (drop payload_offset request)),
  length-drop (length payload) (drop payload_offset request),
  length-drop payload_offset request,
)

-- The first part, by its length.
pub take-append_eq : (n : ℕ) (xs ys : Bytes) → length xs ≡ n → take n (xs ++ ys) ≡ xs
take-append_eq n xs ys e = ap (λ k. take k (xs ++ ys)) (sym e) ∙ take-append xs ys

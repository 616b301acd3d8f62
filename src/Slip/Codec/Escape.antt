-- ===== src/Slip/Codec/Escape.antt =====
-- What escaping a list of bytes means, with no arrays.
use c_mesh_api.Prelude.{
  ℕ, ◌*◌, ◌≤◌, [], ◌∷◌, ◌++◌, ◌≡◌, ◌≢◌, refl, Bytes, All, length, append_assoc, arith, ◌==◌,
  if◌then◌else◌,
}
use c_mesh_api.Slip.Codec.{end_slip_octet, esc_slip_octet, end_subs_octet, esc_subs_octet}

abbrev pub escape_byte : ℕ → Bytes
escape_byte c =
    if c == end_slip_octet
    then esc_slip_octet ∷ end_subs_octet ∷ []
    else if c == esc_slip_octet
    then esc_slip_octet ∷ esc_subs_octet ∷ []
    else c ∷ []

unfoldable pub escape : Bytes → Bytes
escape [] = []
escape (c ∷ cs) = escape_byte c ++ escape cs

pub escape-append : (xs ys : Bytes) → escape (xs ++ ys) ≡ escape xs ++ escape ys
unfolding escape
escape-append [] ys = refl
escape-append (x ∷ xs) ys = rw (escape-append xs ys, append_assoc)

pub length-escape-le : (xs : Bytes) → length (escape xs) ≤ 2 * length xs
unfolding escape
length-escape-le [] = omega arith
length-escape-le (x ∷ xs) = ground (arith, length-escape-le xs)

pub length-le-escape : (xs : Bytes) → length xs ≤ length (escape xs)
unfolding escape
length-le-escape [] = omega arith
length-le-escape (x ∷ xs) = ground (arith, length-le-escape xs)

-- No frame delimiter stands in escaped bytes.
abbrev pub IsEscaped : Bytes → Type 0
IsEscaped = All (λ b. b ≢ end_slip_octet)

pub escape-IsEscaped : (xs : Bytes) → IsEscaped (escape xs)
unfolding escape
escape-IsEscaped [] = tt
escape-IsEscaped (x ∷ xs) = ground (arith, escape-IsEscaped xs)

-- ===== src/Prelude/Copy.antt =====
-- `memcpy` into an array: `overlay off src buf` is `buf` with `src` written from index `off` on.
use Prim.Native.Nat.{ℕ, zero, suc, ◌+◌, ◌<◌, ◌≤◌}
use mathlib.Core.Path.{◌≡◌, refl, ap, ap₂, sym, ◌∙◌}
use mathlib.Core.List.{List, [], ◌∷◌, ◌++◌}
use native.Mathlib.Omega.{arith}
use c_mesh_api.Prelude.Lists.{length, get_or, set, take, drop}
use c_mesh_api.Prelude.Tests.{if◌then◌else◌, ◌==◌}

module _ {ℓ} {A : Type ℓ} where
  -- Bytes past the end of the array are dropped.
  abbrev pub overlay : ℕ → List A → List A → List A
  overlay _ _ [] = []
  overlay zero [] (y ∷ ys) = y ∷ ys
  overlay zero (x ∷ xs) (y ∷ ys) = x ∷ overlay zero xs ys
  overlay (suc n) xs (y ∷ ys) = y ∷ overlay n xs ys

  pub length-overlay : (n : ℕ) (xs ys : List A) → length (overlay n xs ys) ≡ length ys
  length-overlay zero xs [] = refl
  length-overlay (suc n) xs [] = refl
  length-overlay zero [] (y ∷ ys) = refl
  length-overlay zero (x ∷ xs) (y ∷ ys) = ap suc (length-overlay zero xs ys)
  length-overlay (suc n) xs (y ∷ ys) = ap suc (length-overlay n xs ys)

  pub get_or-overlay_in :
      (n i j : ℕ) (xs ys : List A) (d : A)
      → i ≡ n + j
      → j < length xs
      → i < length ys
      → get_or (overlay n xs ys) i d ≡ get_or xs j d
  get_or-overlay_in n i j xs [] d e k l = absurd (omega arith)
  get_or-overlay_in zero i j [] (y ∷ ys) d e k l = absurd (omega arith)
  get_or-overlay_in zero zero zero (x ∷ xs) (y ∷ ys) d e k l = refl
  get_or-overlay_in zero (suc i) zero (x ∷ xs) (y ∷ ys) d e k l = absurd (omega arith)
  get_or-overlay_in zero zero (suc j) (x ∷ xs) (y ∷ ys) d e k l = absurd (omega arith)
  get_or-overlay_in zero (suc i) (suc j) (x ∷ xs) (y ∷ ys) d e k l =
      get_or-overlay_in zero i j xs ys d (omega arith) (omega arith) (omega arith)
  get_or-overlay_in (suc n) zero j xs (y ∷ ys) d e k l = absurd (omega arith)
  get_or-overlay_in (suc n) (suc i) j xs (y ∷ ys) d e k l =
      get_or-overlay_in n i j xs ys d (omega arith) (omega arith) (omega arith)

  pub get_or-overlay_before :
      (n i : ℕ) (xs ys : List A) (d : A) → i < n → get_or (overlay n xs ys) i d ≡ get_or ys i d
  get_or-overlay_before zero i xs ys d h = absurd (omega arith)
  get_or-overlay_before (suc n) i xs [] d h = refl
  get_or-overlay_before (suc n) zero xs (y ∷ ys) d h = refl
  get_or-overlay_before (suc n) (suc i) xs (y ∷ ys) d h =
      get_or-overlay_before n i xs ys d (omega arith)

  pub get_or-overlay_after :
      (n i : ℕ) (xs ys : List A) (d : A)
      → n + length xs ≤ i
      → get_or (overlay n xs ys) i d ≡ get_or ys i d
  get_or-overlay_after zero i xs [] d h = refl
  get_or-overlay_after (suc n) i xs [] d h = refl
  get_or-overlay_after zero i [] (y ∷ ys) d h = refl
  get_or-overlay_after zero zero (x ∷ xs) (y ∷ ys) d h = absurd (omega arith)
  get_or-overlay_after zero (suc i) (x ∷ xs) (y ∷ ys) d h =
      get_or-overlay_after zero i xs ys d (omega arith)
  get_or-overlay_after (suc n) zero xs (y ∷ ys) d h = absurd (omega arith)
  get_or-overlay_after (suc n) (suc i) xs (y ∷ ys) d h =
      get_or-overlay_after n i xs ys d (omega arith)

  pub get_or-take : (n i : ℕ) (xs : List A) (d : A) → i < n → get_or (take n xs) i d ≡ get_or xs i d
  get_or-take zero i xs d h = absurd (omega arith)
  get_or-take (suc n) i [] d h = refl
  get_or-take (suc n) zero (x ∷ xs) d h = refl
  get_or-take (suc n) (suc i) (x ∷ xs) d h = get_or-take n i xs d (omega arith)

  pub get_or-append_lt :
      (xs ys : List A) (j : ℕ) (d : A) → j < length xs → get_or (xs ++ ys) j d ≡ get_or xs j d
  get_or-append_lt [] ys j d h = absurd (omega arith)
  get_or-append_lt (x ∷ xs) ys zero d h = refl
  get_or-append_lt (x ∷ xs) ys (suc j) d h = get_or-append_lt xs ys j d (omega arith)

  get_or_nil : (i : ℕ) (d : A) → get_or [] i d ≡ d
  get_or_nil zero d = refl
  get_or_nil (suc i) d = refl

  pub get_or-drop : (n i : ℕ) (xs : List A) (d : A) → get_or (drop n xs) i d ≡ get_or xs (n + i) d
  get_or-drop zero i xs d = ap (λ k. get_or xs k d) (omega arith)
  get_or-drop (suc n) i [] d = get_or_nil i d ∙ sym (get_or_nil (suc n + i) d)
  get_or-drop (suc n) i (x ∷ xs) d =
      get_or-drop n i xs d
      ∙ ap (λ k. get_or (x ∷ xs) k d) (let e : suc (n + i) ≡ suc n + i = omega arith in e)

  -- Lists of one length with equal elements are equal.
  pub get_or_ext :
      (d : A) (xs ys : List A)
      → length xs ≡ length ys
      → ((i : ℕ) → i < length xs → get_or xs i d ≡ get_or ys i d)
      → xs ≡ ys
  get_or_ext d [] [] e h = refl
  get_or_ext d [] (y ∷ ys) e h = absurd (omega arith)
  get_or_ext d (x ∷ xs) [] e h = absurd (omega arith)
  get_or_ext d (x ∷ xs) (y ∷ ys) e h =
      ap₂ (◌∷◌) (h 0 (omega arith))
        (get_or_ext d xs ys (omega arith) (λ i k. h (suc i) (omega arith)))

-- A write, seen at any index.
pub get_or-set_at :
    {A : Type 0} (xs : List A) (i j : ℕ) (v d : A)
    → i < length xs
    → get_or (set xs i v) j d ≡ (if j == i then v else get_or xs j d)
get_or-set_at [] i j v d h = absurd (omega arith)
get_or-set_at (x ∷ xs) zero zero v d h = refl
get_or-set_at (x ∷ xs) zero (suc j) v d h = ground arith
get_or-set_at (x ∷ xs) (suc i) zero v d h = ground arith
get_or-set_at (x ∷ xs) (suc i) (suc j) v d h = get_or-set_at xs i j v d (omega arith) ∙ ground arith

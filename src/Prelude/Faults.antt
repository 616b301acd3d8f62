-- ===== src/Prelude/Faults.antt =====
-- What a piece of C does: it returns, or it touches memory outside of an object, or the model has
-- no more fuel or input for it.
use Prim.Native.Nat.{ℕ}
use mathlib.Core.Path.{◌≡◌, refl, ap}
use mathlib.Core.Logic.{◌≢◌}
use mathlib.Core.List.{List, ◌∷◌, ◌++◌}
use native.Mathlib.Omega.{arith}
use c_mesh_api.Prelude.Tests.{ltb, lt→ltb, if◌then◌else◌}
use c_mesh_api.Prelude.Lists.{
  length, get_or, set, length-append, length-set, get_or-append, set-append,
}

pub data Outcome {ℓ} (A : Type ℓ) : Type ℓ where
  ok : A → Outcome A
  -- a read or write out of the bounds of an object
  fault : Outcome A
  -- the fuel, or the input given, is used up and the code has not returned
  unfinished : Outcome A

abbrev value {ℓ} : {A : Type ℓ} → A → Outcome A → A
value a (ok b) = b
value a fault = a
value a unfinished = a

-- The rest of the code runs only where the first part returns.
infixl 5 ◌>>=◌
abbrev pub ◌>>=◌ {ℓ κ} : {R : Type ℓ} {T : Type κ} → Outcome R → (R → Outcome T) → Outcome T
fault >>= rest = fault
unfinished >>= rest = unfinished
ok r >>= rest = rest r

-- `arr[i]` and `arr[i] = v`
unfoldable pub load : List ℕ → ℕ → Outcome ℕ
load arr i = if ltb i (length arr) then ok (get_or arr i 0) else fault

unfoldable pub store : List ℕ → ℕ → ℕ → Outcome (List ℕ)
store arr i v = if ltb i (length arr) then ok (set arr i v) else fault

-- A chain that returns has returned from its first part.
pub returned {ℓ κ} :
    {R : Type ℓ} {T : Type κ} (first : Outcome R) (rest : R → Outcome T) {t : T}
    → (first >>= rest) ≡ ok t
    → (r : R) × (first ≡ ok r) × (rest r ≡ ok t)
returned fault rest e = cc
returned unfinished rest e = cc
returned (ok r) rest e = (r, refl, e)

-- An access at the end of a known prefix.
pub load-append : (out rest : List ℕ) (y i : ℕ) → i ≡ length out → load (out ++ (y ∷ rest)) i ≡ ok y
unfolding load
load-append out rest y i e =
    rw
      (
        e,
        lt→ltb (length out) (length (out ++ (y ∷ rest)))
            (omega (arith, length-append out (y ∷ rest))),
      )
      (rw (get_or-append out rest y 0))

pub store-append :
    (out rest : List ℕ) (y v i : ℕ)
    → i ≡ length out
    → store (out ++ (y ∷ rest)) i v ≡ ok (out ++ (v ∷ rest))
unfolding store
store-append out rest y v i e =
    rw
      (
        e,
        lt→ltb (length out) (length (out ++ (y ∷ rest)))
            (omega (arith, length-append out (y ∷ rest))),
      )
      (rw (set-append out rest y v))

pub length-store :
    (arr : List ℕ) (i v : ℕ) {arr' : List ℕ} → store arr i v ≡ ok arr' → length arr' ≡ length arr
unfolding store
length-store arr i v h = ground (arith, length-set arr i v)

-- A chain returns or faults when its parts do.
pub >>=-returns {ℓ κ} :
    {A : Type ℓ} {B : Type κ} (m : Outcome A) (f : A → Outcome B)
    → m ≢ unfinished
    → ((a : A) → m ≡ ok a → f a ≢ unfinished)
    → (m >>= f) ≢ unfinished
>>=-returns (ok a) f h k = k a refl
>>=-returns fault f h k = λ e. cc
>>=-returns unfinished f h k = λ e. h refl

pub ok-injective {ℓ} : {A : Type ℓ} (a b : A) → ok a ≡ ok b → a ≡ b
ok-injective a b h = ap (value a) h

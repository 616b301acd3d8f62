-- ===== src/Dsap/Division.antt =====
-- How many fragments `dsap_data_tx_request` of lib/wpc/dsap.c makes, and how long the last one is.
use native.Mathlib.Nat.{div-eq_of_lt, mul-add-div, div-add-mod, mod-lt}
use c_mesh_api.Prelude.{
  ℕ, if◌then◌else◌, suc, ◌<◌, ◌≡◌, ◌%◌, ◌*◌, ◌+◌, ◌≤◌, arith, ◌-◌, ◌/◌, ◌==◌, ap, zero, ◌∙◌,
}

-- A quotient is known by its remainder.
div_of : (a k q r : ℕ) → a ≡ suc k * q + r → r < suc k → a / suc k ≡ q
div_of a k q r e l =
    let small : r / suc k ≡ 0 = div-eq_of_lt l in
    ap (λ x. x / suc k) e ∙ mul-add-div (omega arith) q r ∙ ap (◌+◌ q) small ∙ omega arith

abbrev pub last_size_of : ℕ → ℕ → ℕ
last_size_of len k = if len % k == 0 then k else len % k

-- The same with the quotient and the remainder named.
fragments_of_parts :
    (len k q r : ℕ)
    → suc k * q + r ≡ len
    → r < suc k
    → suc k < len
    → (left : ℕ) × ((len + suc k - 1) / suc k ≡ suc left)
      × (suc k * left + (if r == 0 then suc k else r) ≡ len)
fragments_of_parts len k zero r e l h = absurd (omega arith)
fragments_of_parts len k (suc q) zero e l h =
    (q, div_of (len + suc k - 1) k (suc q) k (omega arith) (omega arith), omega arith)
fragments_of_parts len k (suc q) (suc r) e l h =
    (suc q, div_of (len + suc k - 1) k (suc (suc q)) r (omega arith) (omega arith), ground arith)

-- For a length above `suc k`: the fragments but one of the full size, and the last one.
pub fragments_of :
    (len k : ℕ)
    → suc k < len
    → (left : ℕ) × ((len + suc k - 1) / suc k ≡ suc left)
      × (suc k * left + last_size_of len (suc k) ≡ len)
fragments_of len k h =
    fragments_of_parts len k (len / suc k) (len % suc k) (div-add-mod len (suc k))
      (mod-lt len (omega arith)) h

pub last_size_of_bounds :
    (len k : ℕ) → (0 < last_size_of len (suc k)) × (last_size_of len (suc k) ≤ suc k)
last_size_of_bounds len k = let l : len % suc k < suc k = mod-lt len (omega arith) in ground arith

-- ===== src/Wpc/Multicast/Reading.antt =====
-- The loop of WPC_get_multicast_groups of lib/wpc/wpc.c.
use c_mesh_api.Wpc.Multicast.{get_groups_loop, group_address}
use c_mesh_api.Prelude.{
  ℕ, true, false, zero, suc, Bytes, ok, List, ◌≡◌, if◌then◌else◌, ltb, store, ◌≤◌, leb, length,
  ◌&&◌, get_or, set, ◌+◌, ◌==◌, Bool-cases, arith, inl, inr, ◌∙◌, ap, length-set, ◌>>=◌,
  get_or-set_at, refl, sym,
}

get_groups_loop-next :
    (left n : ℕ) (groups : Bytes) (num : ℕ) (out : List ℕ)
    → num ≤ length out
    → get_groups_loop (suc left) n groups num out
      ≡ get_groups_loop left
          (n + 1)
          groups
          num
          (if ltb n num then set out n (group_address groups n) else out)
unfolding get_groups_loop store
get_groups_loop-next left n groups num out h = elim (Bool-cases (ltb n num)) [
  | inr q ↦ rw (get_groups_loop, q, ◌>>=◌) refl
  | inl q ↦
      let there : ltb n (length out) ≡ true = ground arith in
      rw (get_groups_loop, q, there, ◌>>=◌) refl
]

-- What is in the caller's array behind the loop.
abbrev pub got_at : ℕ → ℕ → Bytes → ℕ → List ℕ → ℕ → ℕ
got_at left n groups num out i =
    if leb n i && (ltb i (n + left) && ltb i num) then group_address groups i else get_or out i 0

got_step :
    (left n num i v w w' : ℕ)
    → (i ≡ n → ltb n num ≡ true → w ≡ v)
    → ((i ≡ n → ltb n num ≡ false) → w ≡ w')
    → (if leb (n + 1) i && (ltb i (n + 1 + left) && ltb i num) then v else w)
      ≡ (if leb n i && (ltb i (n + suc left) && ltb i num) then v else w')
got_step left n num i v w w' here other = elim (Bool-cases (i == n)) [
  | inl q ↦ elim (Bool-cases (ltb n num)) [
    | inl r ↦ let e = here (ground arith) r in ground arith
    | inr r ↦ let e = other (λ s. r) in ground arith
  ]
  | inr q ↦ let e = other (λ s. absurd (ground arith)) in ground arith
]

-- The caller's array after one round.
set_if :
    (out : List ℕ) (n num i v : ℕ)
    → num ≤ length out
    → (length (if ltb n num then set out n v else out) ≡ length out)
      × (get_or (if ltb n num then set out n v else out) i 0
          ≡ (if ltb n num && (i == n) then v else get_or out i 0))
set_if out n num i v h = elim (Bool-cases (ltb n num)) [
  | inr q ↦ rw q (refl, refl)
  | inl q ↦ rw q (length-set out n v, get_or-set_at out n i v 0 (ground arith))
]

written_at :
    (n num i v w : ℕ) → i ≡ n → ltb n num ≡ true → (if ltb n num && (i == n) then v else w) ≡ v
written_at n num i v w e h = ground arith

unwritten_at :
    (n num i v w : ℕ) → (i ≡ n → ltb n num ≡ false) → (if ltb n num && (i == n) then v else w) ≡ w
unwritten_at n num i v w h = elim (Bool-cases (i == n)) [
  | inl q ↦ let r = h (ground arith) in ground arith
  | inr q ↦ ground arith
]

pub get_groups_loop-got :
    (left n : ℕ) (groups : Bytes) (num : ℕ) (out : List ℕ)
    → num ≤ length out
    → (out' : List ℕ) × (get_groups_loop left n groups num out ≡ ok out')
      × (length out' ≡ length out)
      × ((i : ℕ) → get_or out' i 0 ≡ got_at left n groups num out i)
unfolding get_groups_loop
get_groups_loop-got zero n groups num out h = (out, refl, refl, λ i. ground arith)
get_groups_loop-got (suc left) n groups num out h =
    let out1 : List ℕ = if ltb n num then set out n (group_address groups n) else out in
    let size1 : length out1 ≡ length out = (set_if out n num 0 (group_address groups n) h).0 in
    let at1 : (i : ℕ)
        → get_or out1 i 0
          ≡ (if ltb n num && (i == n) then group_address groups n else get_or out i 0) =
      λ i. (set_if out n num i (group_address groups n) h).1 in
    let (out2, e, size, at) = get_groups_loop-got left (n + 1) groups num out1 (omega arith) in
    (
      out2,
      get_groups_loop-next left n groups num out h ∙ e,
      size ∙ size1,
      λ i.
          at i
          ∙ got_step left n num i (group_address groups i) (get_or out1 i 0) (get_or out i 0)
              (λ s t.
                at1 i
                ∙ written_at n num i (group_address groups n) (get_or out i 0) s t
                ∙ ap (group_address groups) (sym s))
              (λ s. at1 i ∙ unwritten_at n num i (group_address groups n) (get_or out i 0) s),
    )

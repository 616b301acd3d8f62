-- ===== src/Wpc/Multicast/Groups.antt =====
-- The multicast groups that lib/wpc/wpc.c writes and reads again.
use c_mesh_api.Request.{get32}
use c_mesh_api.Wpc.Multicast.{maximum_number_of_multicast_groups, set_groups_loop}
use c_mesh_api.Util.{uint32_decode_le, uint32_encode_le}
use c_mesh_api.Prelude.{
  ℕ, some, true, false, zero, suc, Bytes, ok, ◌*◌, ◌+◌, ◌<◌, ◌≡◌, drop, ◌^◌, ◌≤◌, ◌⊎◌, get_or-drop,
  length, arith, get_or, overlay, get_or-overlay_in, if◌then◌else◌, inl, refl,
  get_or-overlay_before, inr, ◌==◌, Bool-cases, get_or-overlay_after, ◌∙◌, ap, sym, List, leb, load,
  ltb, ◌%◌, length-overlay, ◌/◌, ◌>>=◌, ◌≢◌,
}

-- An unused entry, or the address of a group.
abbrev pub IsGroup : ℕ → Type 0
IsGroup a = (a ≡ 0) ⊎ ((2 ^ 31 < a) × (a < 2 ^ 31 + 2 ^ 24))

abbrev pub group_at : Bytes → ℕ → ℕ
group_at groups n = uint32_decode_le (drop (4 * n) groups)

-- `sizeof(groups)`
abbrev pub groups_size : ℕ
groups_size = 4 * maximum_number_of_multicast_groups

pub group_at-get32 : (groups : Bytes) (n : ℕ) → group_at groups n ≡ get32 groups (4 * n)
unfolding uint32_decode_le
group_at-get32 groups n =
    let first : 4 * n + 0 ≡ 4 * n = omega arith in
    rw
      (
        get_or-drop (4 * n) 0 groups 0,
        get_or-drop (4 * n) 1 groups 0,
        get_or-drop (4 * n) 2 groups 0,
        get_or-drop (4 * n) 3 groups 0,
        first,
      )
      refl

get32-overlay_same :
    (p v : ℕ) (g : Bytes)
    → v < 2 ^ 32
    → p + 4 ≤ length g
    → get32 (overlay p (uint32_encode_le v) g) p ≡ v
unfolding uint32_encode_le
get32-overlay_same p v g h k = omega (
  arith,
  get_or-overlay_in p p 0 (uint32_encode_le v) g 0 (omega arith) (omega arith) (omega arith),
  get_or-overlay_in p (p + 1) 1 (uint32_encode_le v) g 0 (omega arith) (omega arith) (omega arith),
  get_or-overlay_in p (p + 2) 2 (uint32_encode_le v) g 0 (omega arith) (omega arith) (omega arith),
  get_or-overlay_in p (p + 3) 3 (uint32_encode_le v) g 0 (omega arith) (omega arith) (omega arith),
)

-- A byte outside of what is written.
get_or-overlay_out :
    (p i : ℕ) (xs g : Bytes)
    → (i < p) ⊎ (p + length xs ≤ i)
    → get_or (overlay p xs g) i 0 ≡ get_or g i 0
get_or-overlay_out p i xs g (inl h) = get_or-overlay_before p i xs g 0 h
get_or-overlay_out p i xs g (inr h) = get_or-overlay_after p i xs g 0 h

get32-overlay_other :
    (p q : ℕ) (xs g : Bytes)
    → (q + 4 ≤ p) ⊎ (p + length xs ≤ q)
    → get32 (overlay p xs g) q ≡ get32 g q
get32-overlay_other p q xs g h =
    let out : (k : ℕ) → k < 4 → get_or (overlay p xs g) (q + k) 0 ≡ get_or g (q + k) 0 = λ k l.
      get_or-overlay_out p (q + k) xs g
        (elim h [ inl a ↦ inl (omega arith) | inr a ↦ inr (omega arith) ]) in
    let zeroth : get_or (overlay p xs g) q 0 ≡ get_or g q 0 =
      get_or-overlay_out p q xs g
        (elim h [ inl a ↦ inl (omega arith) | inr a ↦ inr (omega arith) ]) in
    omega (arith, zeroth, out 1 (omega arith), out 2 (omega arith), out 3 (omega arith))

group_at-overlay :
    (n j v : ℕ) (g : Bytes)
    → v < 2 ^ 32
    → 4 * n + 4 ≤ length g
    → group_at (overlay (4 * n) (uint32_encode_le v) g) j ≡ (if j == n then v else group_at g j)
unfolding uint32_encode_le
group_at-overlay n j v g h k = elim (Bool-cases (j == n)) [
  | inl q ↦
      let e : j ≡ n = ground arith in
      rw q (
        group_at-get32 (overlay (4 * n) (uint32_encode_le v) g) j
        ∙ (ap (λ i. get32 (overlay (4 * n) (uint32_encode_le v) g) (4 * i)) e
            ∙ get32-overlay_same (4 * n) v g h k))
  | inr q ↦
      let apart : (4 * j + 4 ≤ 4 * n) ⊎ (4 * n + length (uint32_encode_le v) ≤ 4 * j) =
        ground arith in
      rw q (
        group_at-get32 (overlay (4 * n) (uint32_encode_le v) g) j
        ∙ (get32-overlay_other (4 * n) (4 * j) (uint32_encode_le v) g apart
            ∙ sym (group_at-get32 g j)))
]

filled_none :
    (n j v w : ℕ) → (n ≤ j → w ≡ 0) → (if leb n j then (if ltb j (n + 0) then v else 0) else w) ≡ w
filled_none n j v w clear = elim (Bool-cases (leb n j)) [
  | inl q ↦
      let past : ltb j (n + 0) ≡ false = ground arith in rw (q, past) (sym (clear (ground arith)))
  | inr q ↦ rw q refl
]

filled_step :
    (n left j v w w' : ℕ)
    → (j ≡ n → w ≡ v)
    → (j ≢ n → w ≡ w')
    → (if leb (n + 1) j then (if ltb j (n + 1 + left) then v else 0) else w)
      ≡ (if leb n j then (if ltb j (n + suc left) then v else 0) else w')
filled_step n left j v w w' same other = elim (Bool-cases (j == n)) [
  | inl q ↦ let e = same (ground arith) in ground arith
  | inr q ↦ let e = other (ground arith) in ground arith
]

written_here : (n j v w : ℕ) → j ≡ n → (if j == n then v else w) ≡ v
written_here n j v w e = ground arith

written_other : (n j v w : ℕ) → j ≢ n → (if j == n then v else w) ≡ w
written_other n j v w e = ground arith

written_after : (n j v w : ℕ) → n + 1 ≤ j → (if j == n then v else w) ≡ w
written_after n j v w h = ground arith

module _ (l : List ℕ) where
  set_groups_loop-skips :
      (left n : ℕ) (g : Bytes)
      → n < length l
      → get_or l n 0 ≡ 0
      → set_groups_loop (suc left) n l g ≡ set_groups_loop left (n + 1) l g
  unfolding set_groups_loop load
  set_groups_loop-skips left n g h z =
      let there : ltb n (length l) ≡ true = ground arith in
      rw (set_groups_loop, there, ◌>>=◌, z) refl

  set_groups_loop-writes :
      (left n : ℕ) (g : Bytes)
      → n < length l
      → 2 ^ 31 < get_or l n 0
      → get_or l n 0 < 2 ^ 31 + 2 ^ 24
      → set_groups_loop (suc left) n l g
        ≡ set_groups_loop left
            (n + 1)
            l
            (overlay (4 * n) (uint32_encode_le (get_or l n 0 % 2 ^ 24)) g)
  unfolding set_groups_loop load
  set_groups_loop-writes left n g h a b =
      let there : ltb n (length l) ≡ true = ground arith in
      let used : (get_or l n 0 == 0) ≡ false = ground arith in
      let quotient : get_or l n 0 / 2 ^ 24 ≡ 0x80 = omega arith in
      let group : (get_or l n 0 / 2 ^ 24 == 0x80) ≡ true = ground arith in
      rw (set_groups_loop, there, ◌>>=◌, used, group) refl

  -- What is in the array from the index `n` on.
  abbrev pub filled_at : ℕ → ℕ → Bytes → ℕ → ℕ
  filled_at n left g j =
      if leb n j then (if ltb j (n + left) then get_or l j 0 % 2 ^ 24 else 0) else group_at g j

  pub set_groups_loop-filled :
      (left n : ℕ) (g : Bytes)
      → n + left ≤ maximum_number_of_multicast_groups
      → n + left ≤ length l
      → length g ≡ groups_size
      → ((i : ℕ) → i < n + left → IsGroup (get_or l i 0))
      → ((j : ℕ) → n ≤ j → j < maximum_number_of_multicast_groups → group_at g j ≡ 0)
      → (g' : Bytes) × (set_groups_loop left n l g ≡ ok (some g'))
        × (length g' ≡ groups_size)
        × ((j : ℕ) → j < maximum_number_of_multicast_groups → group_at g' j ≡ filled_at n left g j)
  unfolding set_groups_loop
  set_groups_loop-filled zero n g h k size groups clear = (
    g,
    refl,
    size,
    λ j b. sym (filled_none n j (get_or l j 0 % 2 ^ 24) (group_at g j) (λ a. clear j a b)),
  )
  set_groups_loop-filled (suc left) n g h k size groups clear = elim (groups n (omega arith)) [
    | inl z ↦
        let (g', e, size', at) =
          set_groups_loop-filled left (n + 1) g (omega arith) (omega arith) size
            (λ i b. groups i (omega arith)) (λ j a b. clear j (omega arith) b) in
        (
          g',
          set_groups_loop-skips left n g (omega arith) z ∙ e,
          size',
          λ j b.
              at j b
              ∙ filled_step n left j (get_or l j 0 % 2 ^ 24) (group_at g j) (group_at g j)
                  (λ e.
                    clear j (omega arith) b
                    ∙ sym (ap (λ v. v % 2 ^ 24) (ap (λ i. get_or l i 0) e ∙ z)))
                  (λ other. refl),
        )
    | inr (a, b) ↦
        let g1 : Bytes = overlay (4 * n) (uint32_encode_le (get_or l n 0 % 2 ^ 24)) g in
        let size1 : length g1 ≡ groups_size =
          length-overlay (4 * n) (uint32_encode_le (get_or l n 0 % 2 ^ 24)) g ∙ size in
        let at1 : (j : ℕ)
            → group_at g1 j ≡ (if j == n then get_or l n 0 % 2 ^ 24 else group_at g j) =
          λ j. group_at-overlay n j (get_or l n 0 % 2 ^ 24) g (omega arith) (omega arith) in
        let (g', e, size', at) =
          set_groups_loop-filled left (n + 1) g1 (omega arith) (omega arith) size1
            (λ i c. groups i (omega arith))
            (λ j c d.
              at1 j
              ∙ written_after n j (get_or l n 0 % 2 ^ 24) (group_at g j) c
              ∙ clear j (omega arith) d) in
        (
          g',
          set_groups_loop-writes left n g (omega arith) a b ∙ e,
          size',
          λ j c.
              at j c
              ∙ filled_step n left j (get_or l j 0 % 2 ^ 24) (group_at g1 j) (group_at g j)
                  (λ e.
                    at1 j
                    ∙ written_here n j (get_or l n 0 % 2 ^ 24) (group_at g j) e
                    ∙ ap (λ i. get_or l i 0 % 2 ^ 24) (sym e))
                  (λ other. at1 j ∙ written_other n j (get_or l n 0 % 2 ^ 24) (group_at g j) other),
        )
  ]

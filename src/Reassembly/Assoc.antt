-- ===== src/Reassembly/Assoc.antt =====
-- Lists and association lists that satisfy what is assumed of utlist and uthash.
use c_mesh_api.Reassembly.Containers.{PacketKey, UtHash, UtList, key_eq, has_key, key_eq_comm}
use c_mesh_api.Prelude.{
  ℕ, List, All, Option, [], length, ◌≡◌, if◌then◌else◌, none, some, ◌∷◌, ◌≢◌, Bool-cases, arith,
  ◌==◌, ap, inl, refl, true, inr,
}

module _ {E : Type 0} where
  abbrev search : (E → ℕ) → ℕ → List E → Option E
  search f v [] = none
  search f v (e ∷ es) = if f e == v then some e else search f v es

  pub search-All : (f : E → ℕ) (v : ℕ) (es : List E) → All (λ e. f e ≢ v) es → search f v es ≡ none
  search-All f v [] h = refl
  search-All f v (e ∷ es) (h, k) =
      let rest : search f v es ≡ none = search-All f v es k in ground arith

  pub All-search : (f : E → ℕ) (v : ℕ) (es : List E) → search f v es ≡ none → All (λ e. f e ≢ v) es
  All-search f v [] h = tt
  All-search f v (e ∷ es) h = elim (Bool-cases (f e == v)) [
    | inl q ↦ absurd (ground arith)
    | inr q ↦
        let rest : search f v es ≡ none = ground arith in
        ((let ne : f e ≢ v = ground arith in ne), All-search f v es rest)
  ]

  abbrev pub list : UtList E
  list = record {
    Head = List E;
    null = [];
    prepend = λ e es. e ∷ es;
    elements = λ es. es;
    search_scalar = search;
    elements-null = refl;
    elements-prepend = λ e h. refl;
    search_finds_none = search-All;
    search_finds_some = All-search;
  }

module _ {V : Type 0} where
  abbrev lookup : PacketKey → List (PacketKey × V) → Option V
  lookup k [] = none
  lookup k ((j, v) ∷ t) = if key_eq k j then some v else lookup k t

  abbrev update : PacketKey → V → List (PacketKey × V) → List (PacketKey × V)
  update k v [] = []
  update k v ((j, u) ∷ t) = if key_eq k j then (j, v) ∷ t else (j, u) ∷ update k v t

  abbrev remove : PacketKey → List (PacketKey × V) → List (PacketKey × V)
  remove k [] = []
  remove k ((j, u) ∷ t) = let rest = remove k t in if key_eq k j then rest else (j, u) ∷ rest

  abbrev keys_of : List (PacketKey × V) → List PacketKey
  keys_of [] = []
  keys_of ((k, _) ∷ t) = k ∷ keys_of t

  pub lookup-update :
      (k j : PacketKey) (u v : V) (t : List (PacketKey × V))
      → lookup k t ≡ some u
      → lookup j (update k v t) ≡ (if key_eq k j then some v else lookup j t)
  unfolding key_eq
  lookup-update k j u v [] h = absurd (cc)
  lookup-update k j u v ((i, w) ∷ t) h = elim (Bool-cases (key_eq k i)) [
    | inl q ↦ ground arith
    | inr q ↦
        let rest : lookup j (update k v t) ≡ (if key_eq k j then some v else lookup j t) =
          lookup-update k j u v t (ground arith) in
        ground arith
  ]

  pub lookup-remove :
      (k j : PacketKey) (t : List (PacketKey × V))
      → lookup j (remove k t) ≡ (if key_eq k j then none else lookup j t)
  unfolding key_eq
  lookup-remove k j [] = ground arith
  lookup-remove k j ((i, w) ∷ t) =
      let rest : lookup j (remove k t) ≡ (if key_eq k j then none else lookup j t) =
        lookup-remove k j t in
      ground arith

  pub lookup-zero : (k : PacketKey) (t : List (PacketKey × V)) → length t ≡ 0 → lookup k t ≡ none
  lookup-zero k [] h = refl
  lookup-zero k (x ∷ t) h = absurd (omega arith)

  pub has_key-lookup :
      (k : PacketKey) (v : V) (t : List (PacketKey × V))
      → lookup k t ≡ some v
      → has_key k (keys_of t) ≡ true
  has_key-lookup k v [] h = absurd (cc)
  has_key-lookup k v ((j, u) ∷ t) h =
      let swap : key_eq j k ≡ key_eq k j = key_eq_comm j k in
      elim (Bool-cases (key_eq k j)) [
        | inl q ↦ ground arith
        | inr q ↦
            let rest : has_key k (keys_of t) ≡ true = has_key-lookup k v t (ground arith) in
            ground arith
      ]

  abbrev pub table : UtHash V
  table = record {
    Table = List (PacketKey × V);
    empty = [];
    find = lookup;
    add = λ k v t. (k, v) ∷ t;
    replace = update;
    del = remove;
    count = length;
    keys = keys_of;
    find-empty = λ k. refl;
    find-add = λ k j v t h. ap (λ b. if b then some v else lookup j t) (key_eq_comm j k);
    find-replace = lookup-update;
    find-del = lookup-remove;
    count_zero = lookup-zero;
    find_in_keys = has_key-lookup;
  }

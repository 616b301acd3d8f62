-- ===== src/Reassembly/Containers.antt =====
-- What lib/wpc/reassembly/reassembly.c uses of the uthash and utlist macros, with their documented
-- behaviour. The two libraries are parameters of the model.
use c_mesh_api.Prelude.{
  ℕ, Bool, List, Option, ◌≡◌, [], false, none, true, ◌==◌, if◌then◌else◌, ◌&&◌, ◌↔◌, ◌∷◌, All,
  arith, some, ◌||◌, ◌≢◌,
}

-- `packet_key_t`
pub record PacketKey : Type 0 where
  pub src_add : ℕ
  pub packet_id : ℕ

-- Keys are compared byte by byte.
unfoldable pub key_eq : PacketKey → PacketKey → Bool
key_eq j k = j.src_add == k.src_add && j.packet_id == k.packet_id

pub key_eq_iff : (j k : PacketKey) → (key_eq j k ≡ true) ↔ (j ≡ k)
unfolding key_eq
key_eq_iff j k = ground arith

pub key_eq_comm : (j k : PacketKey) → key_eq j k ≡ key_eq k j
unfolding key_eq
key_eq_comm j k = ground arith

abbrev pub has_key : PacketKey → List PacketKey → Bool
has_key k [] = false
has_key k (j ∷ js) = key_eq j k || has_key k js

-- A singly linked list with elements `E`.
pub record UtList (E : Type 0) : Type 1 where
  pub Head : Type 0
  pub null : Head
  -- `LL_PREPEND`
  pub prepend : E → Head → Head
  -- the elements in the order of `LL_FOREACH`
  pub elements : Head → List E
  -- `LL_SEARCH_SCALAR` on the field `f`
  pub search_scalar : (E → ℕ) → ℕ → Head → Option E
  pub elements-null : elements null ≡ []
  pub elements-prepend : (e : E) (h : Head) → elements (prepend e h) ≡ e ∷ elements h
  pub search_finds_none :
      (f : E → ℕ) (v : ℕ) (h : Head) → All (λ e. f e ≢ v) (elements h) → search_scalar f v h ≡ none
  pub search_finds_some :
      (f : E → ℕ) (v : ℕ) (h : Head) → search_scalar f v h ≡ none → All (λ e. f e ≢ v) (elements h)

-- A hash of items `V` under packet keys.
pub record UtHash (V : Type 0) : Type 1 where
  pub Table : Type 0
  -- the null head pointer
  pub empty : Table
  -- `HASH_FIND`
  pub find : PacketKey → Table → Option V
  -- `HASH_ADD`, of a key that is not there
  pub add : PacketKey → V → Table → Table
  -- a write to an item of the hash, through the pointer to it
  pub replace : PacketKey → V → Table → Table
  -- `HASH_DEL`
  pub del : PacketKey → Table → Table
  -- `HASH_COUNT`
  pub count : Table → ℕ
  -- the keys of the items in the order of `HASH_ITER`
  pub keys : Table → List PacketKey
  pub find-empty : (k : PacketKey) → find k empty ≡ none
  pub find-add :
      (k j : PacketKey) (v : V) (t : Table)
      → find k t ≡ none
      → find j (add k v t) ≡ (if key_eq k j then some v else find j t)
  pub find-replace :
      (k j : PacketKey) (u v : V) (t : Table)
      → find k t ≡ some u
      → find j (replace k v t) ≡ (if key_eq k j then some v else find j t)
  pub find-del :
      (k j : PacketKey) (t : Table) → find j (del k t) ≡ (if key_eq k j then none else find j t)
  pub count_zero : (k : PacketKey) (t : Table) → count t ≡ 0 → find k t ≡ none
  pub find_in_keys :
      (k : PacketKey) (v : V) (t : Table) → find k t ≡ some v → has_key k (keys t) ≡ true

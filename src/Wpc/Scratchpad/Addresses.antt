-- ===== src/Wpc/Scratchpad/Addresses.antt =====
-- The blocks of a scratchpad in lib/wpc/wpc.c: their sizes and addresses, and the bytes in them.
use c_mesh_api.Util.Laws.{decode-encode_le}
use c_mesh_api.Wpc.Scratchpad.Blocks.{within}
use c_mesh_api.Wpc.Scratchpad.{encoded32, block_size_of}
use c_mesh_api.Prelude.{
  ℕ, true, false, Bytes, ◌+◌, ◌<◌, ◌^◌, ◌≤◌, if◌then◌else◌, length, ◌%◌, ◌≡◌, arith, ◌-◌, ap, drop,
  ◌∙◌, ltb, get_or, Bool-cases, inr, inl, refl, get_or-drop, overlay, leb, get_or-overlay_before,
  get_or-overlay_after, get_or-overlay_in, ap₂,
}

encoded32_lem : (v : ℕ) → v < 2 ^ 32 → encoded32 v ≡ v
encoded32_lem v h = (decode-encode_le 0 v (omega arith) h).1

-- What is stored once a block and the rest behind it are stored.
pub stored_parts :
    (start loaded n len a byte other : ℕ)
    → loaded + n ≤ len
    → (if within (start + (loaded + n)) (len - (loaded + n)) a
        then byte
        else if within (start + loaded) n a
        then byte
        else other)
      ≡ (if within (start + loaded) (len - loaded) a then byte else other)
stored_parts start loaded n len a byte other h = ground arith

read_parts :
    (loaded n len i byte other : ℕ)
    → loaded + n ≤ len
    → (if within (loaded + n) (len - (loaded + n)) i
        then byte
        else if within loaded n i
        then byte
        else other)
      ≡ (if within loaded (len - loaded) i then byte else other)
read_parts loaded n len i byte other h = ground arith

pub downloaded_byte :
    (loaded n len i byte byte' other other' result : ℕ)
    → result ≡ (if within (loaded + n) (len - (loaded + n)) i then byte' else other')
    → byte' ≡ byte
    → other' ≡ (if within loaded n i then byte else other)
    → loaded + n ≤ len
    → result ≡ (if within loaded (len - loaded) i then byte else other)
downloaded_byte loaded n len i byte byte' other other' result e k o h =
    e
    ∙ ap₂ (λ x y. if within (loaded + n) (len - (loaded + n)) i then x else y) k o
    ∙ read_parts loaded n len i byte other h

-- A byte of a block is one of the caller's array.
pub dropped_byte :
    (start loaded n a : ℕ) (bytes : Bytes) (other : ℕ)
    → (if within (start + loaded) n a
        then get_or (drop loaded bytes) (a - (start + loaded)) 0
        else other)
      ≡ (if within (start + loaded) n a then get_or bytes (a - start) 0 else other)
dropped_byte start loaded n a bytes other = elim (Bool-cases (within (start + loaded) n a)) [
  | inr q ↦ rw q refl
  | inl q ↦
      let index : loaded + (a - (start + loaded)) ≡ a - start = ground arith in
      rw q (get_or-drop loaded (a - (start + loaded)) bytes 0 ∙ ap (λ i. get_or bytes i 0) index)
]

-- The caller's array after a block is copied into it.
pub overlaid_byte :
    (start loaded n i : ℕ) (bytes block : Bytes) (memory : ℕ → ℕ)
    → length block ≡ n
    → ((j : ℕ) → j < n → get_or block j 0 ≡ memory (start + loaded + j))
    → loaded + n ≤ length bytes
    → get_or (overlay loaded block bytes) i 0
      ≡ (if within loaded n i then memory (start + i) else get_or bytes i 0)
overlaid_byte start loaded n i bytes block memory size at fits = elim (Bool-cases (leb loaded i)) [
  | inr q ↦
      let outside : within loaded n i ≡ false = ground arith in
      rw outside (get_or-overlay_before loaded i block bytes 0 (ground arith))
  | inl q ↦ elim (Bool-cases (ltb i (loaded + n))) [
    | inr r ↦
        let outside : within loaded n i ≡ false = ground arith in
        rw outside (get_or-overlay_after loaded i block bytes 0 (ground arith))
    | inl r ↦
        let inside : within loaded n i ≡ true = ground arith in
        let index : i ≡ loaded + (i - loaded) = ground arith in
        let same : start + loaded + (i - loaded) ≡ start + i = ground arith in
        rw inside (
          get_or-overlay_in loaded i (i - loaded) block bytes 0 index (ground arith) (ground arith)
          ∙ (at (i - loaded) (ground arith) ∙ ap memory same))
  ]
]

pub block_size_of_bounds :
    (m len loaded : ℕ)
    → 0 < m
    → loaded < len
    → (0 < block_size_of m (len - loaded))
      × (block_size_of m (len - loaded) ≤ m)
      × (loaded + block_size_of m (len - loaded) ≤ len)
block_size_of_bounds m len loaded big h = ground arith

pub address_lem :
    (start len loaded : ℕ)
    → start + len ≤ 2 ^ 32
    → loaded < len
    → encoded32 ((start + loaded) % 2 ^ 32) ≡ start + loaded
address_lem start len loaded end h =
    let inside : (start + loaded) % 2 ^ 32 ≡ start + loaded = omega arith in
    ap encoded32 inside ∙ encoded32_lem (start + loaded) (omega arith)

-- ===== src/Wpc/Scratchpad/Node.antt =====
-- A node that stores the blocks of a scratchpad, and gives them back if its stack is stopped.
use c_mesh_api.Request.Frame.{overlay-append}
use c_mesh_api.Request.{Requests, get32}
use c_mesh_api.Wpc.Scratchpad.Running.{RefusesReads}
use c_mesh_api.Wpc.Scratchpad.Blocks.{ReadsBlocks, TellsBlockMax, WritesBlocks, within}
use c_mesh_api.WpcInternal.{Answer, answered}
use c_mesh_api.Prelude.{
  ℕ, Bytes, ok, true, false, Outcome, [], ◌∷◌, pos, zero, suc, Bool, if◌then◌else◌, length, overlay,
  ℤ, ◌+◌, ◌<◌, get_or, ◌≡◌, Bool-cases, ap, arith, inl, ◌-◌, ◌==◌, get_or-overlay_in,
  length-replicate, refl, replicate, sym, ◌∙◌, get_or-replicate, inr, length-overlay,
}

abbrev pub Memory : Type 0
Memory = ℕ → ℕ

abbrev pub bytes_from : Memory → ℕ → ℕ → Bytes
bytes_from s addr zero = []
bytes_from s addr (suc n) = s addr ∷ bytes_from s (addr + 1) n

length-bytes_from : (s : Memory) (addr n : ℕ) → length (bytes_from s addr n) ≡ n
length-bytes_from s addr zero = refl
length-bytes_from s addr (suc n) = ap suc (length-bytes_from s (addr + 1) n)

get_or-bytes_from :
    (s : Memory) (addr n j : ℕ) → j < n → get_or (bytes_from s addr n) j 0 ≡ s (addr + j)
get_or-bytes_from s addr zero j h = absurd (omega arith)
get_or-bytes_from s addr (suc n) zero h = ap s (omega arith)
get_or-bytes_from s addr (suc n) (suc j) h =
    get_or-bytes_from s (addr + 1) n j (omega arith) ∙ ap s (omega arith)

abbrev pub written : Bytes → Memory → Memory
written request s a =
    if within (get32 request 3) (get_or request 7 0) a
    then get_or request (8 + (a - get32 request 3)) 0
    else s a

abbrev pub block_reply : Bytes → Memory → Bytes → Bytes
block_reply request s confirm =
    overlay 0 (0 ∷ 0 ∷ 0 ∷ 0 ∷ bytes_from s (get32 request 3) (get_or request 7 0)) confirm

abbrev pub block_send : Bool → Bytes → Bytes → ℕ → Memory → Outcome (Answer × Memory)
block_send stopped request confirm timeout_ms s =
    if get_or request 0 0 == 0x18
    then ok (answered (pos 0) (replicate (length confirm) 0), written request s)
    else if get_or request 0 0 == 0x28
    then (if stopped
        then ok (answered (pos 0) (block_reply request s confirm), s)
        else ok (answered (pos 0) (overlay 0 (0 ∷ 0 ∷ 0 ∷ 1 ∷ []) confirm), s))
    else ok (answered (pos 0) (overlay 0 (0 ∷ 0 ∷ 0 ∷ 0 ∷ 0 ∷ 0 ∷ 1 ∷ 16 ∷ []) confirm), s)

abbrev pub result_of : Outcome (Answer × Memory) → ℤ
result_of (ok (answered res confirm, s)) = res
result_of _ = pos 1

abbrev pub reply_of : Outcome (Answer × Memory) → Bytes
reply_of (ok (answered res confirm, s)) = confirm
reply_of _ = []

pub block_send-answer :
    (stopped : Bool) (request confirm : Bytes) (timeout_ms : ℕ) (s : Memory)
    → (result_of (block_send stopped request confirm timeout_ms s) ≡ pos 0)
      × (length (reply_of (block_send stopped request confirm timeout_ms s)) ≡ length confirm)
block_send-answer stopped request confirm timeout_ms s =
    elim (Bool-cases (get_or request 0 0 == 0x18)) [
      | inl q ↦ rw q (refl, length-replicate (length confirm) 0)
      | inr q ↦ elim (Bool-cases (get_or request 0 0 == 0x28)) [
        | inr r ↦ rw (q, r) (refl, length-overlay 0 (0 ∷ 0 ∷ 0 ∷ 0 ∷ 0 ∷ 0 ∷ 1 ∷ 16 ∷ []) confirm)
        | inl r ↦ elim (Bool-cases stopped) [
          | inl t ↦
              rw (q, r, t)
                (
                  refl,
                  length-overlay 0
                      (0 ∷ 0 ∷ 0 ∷ 0 ∷ bytes_from s (get32 request 3) (get_or request 7 0)) confirm,
                )
          | inr t ↦ rw (q, r, t) (refl, length-overlay 0 (0 ∷ 0 ∷ 0 ∷ 1 ∷ []) confirm)
        ]
      ]
    ]

abbrev pub block_node : Bool → Requests Memory
block_node stopped = record {
  send_request_timeout = block_send stopped;
  get_mtu = λ s. 102;
  set_mtu = λ mtu s. s;
  lock = λ s. s;
  unlock = λ s. s;
  answer = λ request confirm timeout_ms s s' res confirm' e.
      let (a, b) = block_send-answer stopped request confirm timeout_ms s in
      (inl (sym (ap result_of e) ∙ a), ap length (sym (ap reply_of e)) ∙ b);
}

pub block_node-WritesBlocks : (stopped : Bool) → WritesBlocks (block_node stopped) (λ s. s)
block_node-WritesBlocks stopped request confirm s h =
    let q : (get_or request 0 0 == 0x18) ≡ true = ground arith in
    (
      replicate (length confirm) 0,
      written request s,
      rw q refl,
      (let z = get_or-replicate {A = ℕ} (length confirm) 3 0 in omega arith),
      λ a. refl,
    )

pub block_node-ReadsBlocks : ReadsBlocks (block_node true) (λ s. s)
block_node-ReadsBlocks request confirm s h fits =
    let q : (get_or request 0 0 == 0x18) ≡ false = ground arith in
    let r : (get_or request 0 0 == 0x28) ≡ true = ground arith in
    let n : ℕ = get_or request 7 0 in
    let bytes : Bytes = bytes_from s (get32 request 3) n in
    let len = length-bytes_from s (get32 request 3) n in
    (
      block_reply request s confirm,
      s,
      rw (q, r) refl,
      get_or-overlay_in 0 3 3 (0 ∷ 0 ∷ 0 ∷ 0 ∷ bytes) confirm 0 refl (omega arith) (omega arith),
      λ j l.
          get_or-overlay_in 0 (4 + j) (4 + j) (0 ∷ 0 ∷ 0 ∷ 0 ∷ bytes) confirm 0 (omega arith)
            (omega arith) (omega arith)
          ∙ (let behind : 4 + j ≡ suc (suc (suc (suc j))) = omega arith in
              ap (λ i. get_or (0 ∷ 0 ∷ 0 ∷ 0 ∷ bytes) i 0) behind
              ∙ get_or-bytes_from s (get32 request 3) n j l),
      λ a. refl,
    )

pub block_node-TellsBlockMax :
    (stopped : Bool) (memory : Memory → ℕ → ℕ) → TellsBlockMax (block_node stopped) memory 16
block_node-TellsBlockMax stopped memory request confirm s h i fits =
    let q : (get_or request 0 0 == 0x18) ≡ false = ground arith in
    let r : (get_or request 0 0 == 0x28) ≡ false = ground arith in
    let e = overlay-append (0 ∷ 0 ∷ 0 ∷ 0 ∷ 0 ∷ 0 ∷ 1 ∷ 16 ∷ []) confirm (omega arith) in
    (
      overlay 0 (0 ∷ 0 ∷ 0 ∷ 0 ∷ 0 ∷ 0 ∷ 1 ∷ 16 ∷ []) confirm,
      s,
      rw (q, r) refl,
      rw e refl,
      rw e refl,
      rw e refl,
      λ a. refl,
    )

pub block_node-RefusesReads : RefusesReads (block_node false)
block_node-RefusesReads request confirm s h fits =
    let q : (get_or request 0 0 == 0x18) ≡ false = ground arith in
    let r : (get_or request 0 0 == 0x28) ≡ true = ground arith in
    let e = overlay-append (0 ∷ 0 ∷ 0 ∷ 1 ∷ []) confirm (omega arith) in
    (overlay 0 (0 ∷ 0 ∷ 0 ∷ 1 ∷ []) confirm, s, rw (q, r) refl, rw e refl)

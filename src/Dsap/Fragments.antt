-- ===== src/Dsap/Fragments.antt =====
-- What the loop over the fragments in lib/wpc/dsap.c sends to a node that accepts every request.
use c_mesh_api.Dsap.Fragment.{frame_size, fragment_sent, fill_tx_frag_request-fragment}
use c_mesh_api.Dsap.Chunks.{Chunks, IsChunk}
use c_mesh_api.Dsap.Transmit.{
  Message, fragment_loop, sent, tx_confirm_result, max_apdu_dsap_size, max_full_packet_size,
  tx_options_of, fill_tx_frag_request,
}
use c_mesh_api.WpcInternal.{timeout_confirm_ms, answered}
use c_mesh_api.Request.{Requests, Frames, wpc_int_send_request}
use c_mesh_api.Prelude.{
  ℕ, Bytes, suc, List, ◌+◌, zero, ◌≡◌, ok, Bool, pos, ◌==◌, ◌++◌, ◌-◌, if◌then◌else◌, ◌∷◌, [], ◌*◌,
  ◌<◌, ◌≤◌, length, ◌^◌, ◌%◌, arith, drop, length-drop, ◌∙◌, sym, true, false, refl, ap,
  append_assoc, subst,
}

-- The bytes of `left` fragments of `k` bytes and of the last one.
abbrev pub bytes_left : ℕ → ℕ → ℕ → ℕ
bytes_left k last_size zero = last_size
bytes_left k last_size (suc left) = k + bytes_left k last_size left

pub bytes_left_eq : (k last_size left : ℕ) → bytes_left k last_size left ≡ k * left + last_size
bytes_left_eq k last_size zero = omega arith
bytes_left_eq k last_size (suc left) = omega (arith, bytes_left_eq k last_size left)

module _ {S : Type 0} (requests : Requests S) (log : S → List Bytes) where
  -- The node confirms each request with result 0. `log` gives the requests in the order of their
  -- sending.
  abbrev pub Accepts : Type 0
  Accepts =
      (request confirm : Bytes) (s : S)
      → (reply : Bytes) × (s' : S) × (requests.send_request_timeout request confirm
            timeout_confirm_ms s
          ≡ ok (answered (pos 0) reply, s'))
        × (tx_confirm_result reply ≡ 0)
        × (log s' ≡ log s ++ (request ∷ []))

  module _ {C : Type 0} (accepts : Accepts) (m : Message C) (src k last_size id n : ℕ) where
    -- All fragments from the one with the index `i` on have been sent.
    abbrev pub Sent : ℕ → ℕ → Frames → S → Type 0
    Sent left i frames s =
        (frames_sent : List Bytes) × (s' : S) × (confirm : Bytes) × (fragment_loop requests m k n
            last_size id left i frames s
          ≡ ok (sent confirm, s'))
        × (tx_confirm_result confirm ≡ 0)
        × (log s' ≡ log s ++ frames_sent)
        × Chunks m.buffer src id (i * k) frames_sent

    -- A fragment that is accepted is followed by the others.
    fragment_loop-accepted :
        (left i size : ℕ) (last : Bool) (frames : Frames) (s s' : S) (frame reply : Bytes)
        → i * k % 2 ^ 16 ≡ i * k
        → (i == n - 1) ≡ last
        → (if last then last_size else k) ≡ size
        → fill_tx_frag_request m
            (tx_options_of m)
            (drop (i * k) m.buffer)
            size
            id
            (i * k)
            last
            frames.request
          ≡ ok frame
        → requests.send_request_timeout frame frames.confirm timeout_confirm_ms s
          ≡ ok (answered (pos 0) reply, s')
        → tx_confirm_result reply ≡ 0
        → fragment_loop requests m k n last_size id (suc left) i frames s
          ≡ fragment_loop requests m k n last_size id left
              (i + 1)
              (record { request = frame; confirm = reply })
              s'
    unfolding fragment_loop wpc_int_send_request
    fragment_loop-accepted left i size last frames s s' frame reply off el es filled e z =
        rw (off, el, es, filled) (rw e (ground arith))

    -- One round of the loop, and the rest of it.
    fragment_loop-round :
        (left i size : ℕ) (last : Bool) (frames : Frames) (s : S)
        → (i == n - 1) ≡ last
        → (if last then last_size else k) ≡ size
        → 0 < size
        → size ≤ max_apdu_dsap_size
        → i * k + size ≤ length m.buffer
        → (i * k + size == length m.buffer) ≡ last
        → length m.buffer ≤ max_full_packet_size
        → id < 2 ^ 12
        → frame_size ≤ length frames.request
        → (frame : Bytes) × (reply : Bytes) × (s' : S) × (length frame ≡ length frames.request)
          × (tx_confirm_result reply ≡ 0)
          × (log s' ≡ log s ++ (frame ∷ []))
          × IsChunk m.buffer src id (i * k) frame
          × ((fragment_sent src frame).size ≡ size)
          × (fragment_loop requests m k n last_size id (suc left) i frames s
              ≡ fragment_loop requests m k n last_size id left
                  (i + 1)
                  (record { request = frame; confirm = reply })
                  s')
    fragment_loop-round left i size last frames s el es pos' small fits end short idb room =
        let off : i * k % 2 ^ 16 ≡ i * k = omega arith in
        let (frame, filled, len, fid, fsize, foff, flast, fbytes, ftake) =
          fill_tx_frag_request-fragment m src (tx_options_of m) (drop (i * k) m.buffer) size id
            (i * k) last frames.request (omega (arith, length-drop (i * k) m.buffer)) small idb
            (omega arith) room in
        let (reply, s', e, z, l) = accepts frame frames.confirm s in
        (
          frame,
          reply,
          s',
          len,
          z,
          l,
          (
            fid,
            foff,
            omega arith,
            omega arith,
            omega arith,
            rw (fsize, foff) ftake,
            rw (fsize, foff) (flast ∙ sym end),
          ),
          fsize,
          fragment_loop-accepted left i size last frames s s' frame reply off el es filled e z,
        )

    fragment_loop-end :
        (i : ℕ) (frames : Frames) (s : S)
        → fragment_loop requests m k n last_size id zero i frames s ≡ ok (sent frames.confirm, s)
    unfolding fragment_loop
    fragment_loop-end i frames s = refl

    bytes_left-pos : (left : ℕ) → 0 < last_size → 0 < bytes_left k last_size left
    bytes_left-pos zero p = p
    bytes_left-pos (suc left) p = omega (arith, bytes_left-pos left p)

    -- A round, and then the rest.
    Sent-suc :
        (left i : ℕ) (frames frames' : Frames) (s s' : S) (frame : Bytes)
        → log s' ≡ log s ++ (frame ∷ [])
        → IsChunk m.buffer src id (i * k) frame
        → i * k + (fragment_sent src frame).size ≡ (i + 1) * k
        → fragment_loop requests m k n last_size id (suc left) i frames s
          ≡ fragment_loop requests m k n last_size id left (i + 1) frames' s'
        → Sent left (i + 1) frames' s'
        → Sent (suc left) i frames s
    Sent-suc left i frames frames' s s' frame lg chunk step next
          (rest, s'', confirm, e, z, lg', chunks) =
        (
          frame ∷ rest,
          s'',
          confirm,
          next ∙ e,
          z,
          lg' ∙ ap (λ x. x ++ rest) lg ∙ append_assoc (log s) (frame ∷ []) rest,
          (chunk, subst (λ x. Chunks m.buffer src id x rest) (sym step) chunks),
        )

    -- The last fragment with the index `i`, or `left` fragments and the last one.
    pub fragment_loop-Chunks :
        (left i : ℕ) (frames : Frames) (s : S)
        → i + suc left ≡ n
        → 0 < last_size
        → last_size ≤ k
        → k ≤ max_apdu_dsap_size
        → i * k + bytes_left k last_size left ≡ length m.buffer
        → length m.buffer ≤ max_full_packet_size
        → id < 2 ^ 12
        → frame_size ≤ length frames.request
        → Sent (suc left) i frames s
    fragment_loop-Chunks zero i frames s e p l a t b c d =
        let (frame, reply, s', len, z, lg, chunk, size, next) =
          fragment_loop-round zero i last_size true frames s (ground arith) refl p (omega arith)
            (omega arith) (ground arith) b c d in
        (
          frame ∷ [],
          s',
          reply,
          next ∙ fragment_loop-end (i + 1) (record { request = frame; confirm = reply }) s',
          z,
          lg,
          (chunk, rw size t),
        )
    fragment_loop-Chunks (suc left) i frames s e p l a t b c d =
        let more : 0 < bytes_left k last_size left = bytes_left-pos left p in
        let (frame, reply, s', len, z, lg, chunk, size, next) =
          fragment_loop-round (suc left) i k false frames s (ground arith) refl (omega arith) a
            (omega arith) (ground arith) b c d in
        Sent-suc (suc left) i frames (record { request = frame; confirm = reply }) s s' frame lg
          chunk (ap (◌+◌ (i * k)) size ∙ omega arith) next
          (fragment_loop-Chunks left (i + 1) (record { request = frame; confirm = reply }) s'
            (omega arith) p l a (omega arith) b c (omega arith))

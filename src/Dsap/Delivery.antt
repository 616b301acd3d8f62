-- ===== src/Dsap/Delivery.antt =====
-- A packet from one dsap.c to another: from the call that sends it to the callback that gets it.
use c_mesh_api.Dsap.Fragments.{Accepts}
use c_mesh_api.Dsap.Transmit.{
  Message, Sender, max_apdu_dsap_size, max_full_packet_size, dsap_data_tx_request,
}
use c_mesh_api.Request.{Requests, Frames}
use c_mesh_api.Dsap.RoundTrip.{snoc_view, dsap_data_tx_request-Chunks}
use c_mesh_api.Dsap.Fragment.{fragment_sent, frame_size}
use c_mesh_api.Dsap.Chunks.{Chunks, fragments_sent, Chunks-Arrive, rx_size-Chunks, covered-Chunks}
use c_mesh_api.Reassembly.Message.{reassembly_complete, add_all}
use c_mesh_api.Dsap.Handle.{handle_all, handle_all-full}
use c_mesh_api.Reassembly.Write.{covered}
use c_mesh_api.Reassembly.Arrive.{Arrive, kept_all, Arrive-append}
use c_mesh_api.Dsap.Receive.{GcClock, Receiver, fragment_of, data_received}
use c_mesh_api.Reassembly.{
  InternalFragment, FullPacket, Fragment, rx_size, reassembly_get_full_message,
}
use c_mesh_api.Reassembly.Containers.{UtList, UtHash, PacketKey}
use c_mesh_api.Prelude.{
  ℕ, Bytes, List, map, ◌≡◌, ◌∷◌, ap, [], refl, some, none, ◌++◌, length, ◌<◌, true, ◌≤◌, ok,
  overlay, returned, ok-injective, ◌∙◌, arith, subst, sym, map-append, ap₂, ◌%◌, ◌^◌, pos,
}

map-map :
    {A B E : Type 0} (g : B → E) (f : A → B) (xs : List A)
    → map g (map f xs) ≡ map (λ x. g (f x)) xs
map-map g f [] = refl
map-map g f (x ∷ xs) = ap (◌∷◌ (g (f x))) (map-map g f xs)

fragments_carried :
    (src : ℕ) (carry : Bytes → Bytes)
    → ((f : Bytes) → fragment_of (carry f) ≡ fragment_sent src f)
    → (fs : List Bytes) → map fragment_of (map carry fs) ≡ fragments_sent src fs
fragments_carried src carry law [] = refl
fragments_carried src carry law (f ∷ fs) = ap₂ ◌∷◌ (law f) (fragments_carried src carry law fs)

module _ {C D : Type 0} (ll : UtList InternalFragment) (hh : UtHash (FullPacket ll.Head))
    (now : Fragment → ℕ) (clock : GcClock) (timestamp_ms : Bytes → ℕ) where
  -- The fragments of one message make no call of the callback but the last, which gets the message.
  handle_all-delivered :
      (m : Bytes) (key : PacketKey) (fs : List Bytes) (end : Bytes) (t : Receiver C D hh.Table)
      (cb : D)
      → t.m_data_cb ≡ some cb
      → t.reassembly.fragment_max_duration_s ≡ 0
      → hh.find key t.reassembly.packets ≡ none
      → Arrive m key [] (map fragment_of fs ++ (fragment_of end ∷ []))
      → rx_size (kept_all (map fragment_of fs ++ (fragment_of end ∷ [])) []) ≡ length m
      → ((i : ℕ)
          → i < length m
          → covered i (kept_all (map fragment_of fs ++ (fragment_of end ∷ [])) []) ≡ true)
      → length m ≤ length t.reassembly_buffer
      → 0 < length m
      → (t' : Receiver C D hh.Table) × (handle_all ll hh now clock timestamp_ms (fs ++ (end ∷ [])) t
          ≡ ok (
            map (λ _. none) fs
                ++ (some (
                      data_received cb
                        (overlay 0 m t.reassembly_buffer)
                        (length m)
                        end
                        (timestamp_ms end))
                    ∷ []),
            t',
          ))
  handle_all-delivered m key fs end t cb h d new arrive sum cover room p =
      let (s', e, _) =
        reassembly_complete ll hh m key now (map fragment_of fs) (fragment_of end) t.reassembly
          t.reassembly_buffer new arrive sum cover room in
      let ((reports, s1), e1, e2) =
        returned (add_all ll hh now (map fragment_of fs ++ (fragment_of end ∷ [])) t.reassembly) _
          e in
      let (q, e3, e4) =
        returned
          (reassembly_get_full_message ll hh key t.reassembly_buffer (length t.reassembly_buffer)
            s1)
          _ e2 in
      let same =
        ok-injective (reports, q.0, q.1, q.2, q.3)
          (
            map (λ _. (true, 0)) (map fragment_of fs) ++ ((true, length m) ∷ []),
            true,
            overlay 0 m t.reassembly_buffer,
            length m,
            s',
          )
          e4 in
      let (_, rest) = Arrive-append m key [] (map fragment_of fs) (fragment_of end) arrive in
      handle_all-full ll hh now clock timestamp_ms fs end t s1 s' (length m)
        (overlay 0 m t.reassembly_buffer) cb
        (e1
          ∙ ap (λ x. ok (x, s1))
              (ap (λ x. x.0) same
                ∙ ap (λ x. x ++ ((true, length m) ∷ [])) (map-map (λ _. (true, 0)) fragment_of fs)))
        d p
        (ap
            (λ k.
              reassembly_get_full_message ll hh k t.reassembly_buffer (length t.reassembly_buffer)
                s1)
            rest.0.0
          ∙ e3
          ∙ ap (λ x. ok (x.1, x.2, x.3, x.4)) same)
        h

  -- The same with the frames that cut the message, carried through the network.
  handle_all-Chunks :
      (m : Bytes) (src id : ℕ) (carry : Bytes → Bytes) (frames : List Bytes)
      (t : Receiver C D hh.Table) (cb : D)
      → Chunks m src id 0 frames
      → ((f : Bytes) → fragment_of (carry f) ≡ fragment_sent src f)
      → t.m_data_cb ≡ some cb
      → t.reassembly.fragment_max_duration_s ≡ 0
      → hh.find (record { src_add = src; packet_id = id }) t.reassembly.packets ≡ none
      → length m ≤ length t.reassembly_buffer
      → 0 < length m
      → (front : List Bytes) × (end : Bytes) × (t' : Receiver C D hh.Table) × (frames
          ≡ front ++ (end ∷ []))
        × (handle_all ll hh now clock timestamp_ms (map carry frames) t
            ≡ ok (
              map (λ _. none) front
                  ++ (some (
                        data_received cb
                          (overlay 0 m t.reassembly_buffer)
                          (length m)
                          (carry end)
                          (timestamp_ms (carry end)))
                      ∷ []),
              t',
            ))
  unfolding rx_size
  handle_all-Chunks m src id carry [] t cb c law h d new room p = absurd (omega arith)
  handle_all-Chunks m src id carry (f ∷ fs) t cb c law h d new room p =
      let (front, end, e) = snoc_view f fs in
      let carried : map fragment_of (map carry front) ++ (fragment_of (carry end) ∷ [])
          ≡ fragments_sent src (f ∷ fs) =
        ap₂ (λ a b. a ++ (b ∷ [])) (fragments_carried src carry law front) (law end)
        ∙ sym (map-append (fragment_sent src) front (end ∷ []))
        ∙ ap (map (fragment_sent src)) (sym e) in
      let (t', r) =
        handle_all-delivered m (record { src_add = src; packet_id = id }) (map carry front)
          (carry end) t cb h d new
          (subst (Arrive m (record { src_add = src; packet_id = id }) []) (sym carried)
            (Chunks-Arrive m src id 0 (f ∷ fs) [] c tt))
          (ap (λ x. rx_size (kept_all x [])) carried
            ∙ (omega (arith, rx_size-Chunks m src id 0 (f ∷ fs) [] c)))
          (λ i l.
            ap (λ x. covered i (kept_all x [])) carried
            ∙ covered-Chunks m src id 0 i (f ∷ fs) [] c (omega arith) l)
          room p in
      (
        front,
        end,
        t',
        e,
        ap (λ x. handle_all ll hh now clock timestamp_ms x t)
              (ap (map carry) e ∙ map-append carry front (end ∷ []))
            ∙ r
            ∙ ap
                (λ y. ok (
                  y
                      ++ (some (
                            data_received cb (overlay 0 m t.reassembly_buffer) (length m)
                              (carry end) (timestamp_ms (carry end)))
                          ∷ []),
                  t',
                ))
                (map-map (λ _. none) carry front),
      )

-- Suppose that the sending node accepts every request and has a transmission unit of 1 to 180 bytes,
-- that the network carries each frame to the other node as an indication with the same packet id,
-- offset, size, last flag and bytes and with the sender's address, in order, that the receiver has
-- a callback, no packet with that key, no maximal duration of fragments and enough memory. Then
-- `dsap_data_tx_request` of a message of at most 1500 bytes that does not fit into one unit returns
-- 0, and the handler of fragments calls the callback once, at the last fragment, with the message
-- at the start of its buffer and with its length.
pub dsap_data_tx_request-delivered :
    {C C' D S : Type 0} (requests : Requests S) (log : S → List Bytes)
    (ll : UtList InternalFragment) (hh : UtHash (FullPacket ll.Head)) (m : Message C)
    (frames : Frames) (t : Sender C S) (src : ℕ) (carry : Bytes → Bytes) (now : Fragment → ℕ)
    (clock : GcClock) (timestamp_ms : Bytes → ℕ) (r : Receiver C' D hh.Table) (cb : D)
    → Accepts requests log
    → 0 < requests.get_mtu t.below
    → requests.get_mtu t.below ≤ max_apdu_dsap_size
    → requests.get_mtu t.below < m.len
    → m.len ≤ max_full_packet_size
    → length m.buffer ≡ m.len
    → frame_size ≤ length frames.request
    → ((f : Bytes) → fragment_of (carry f) ≡ fragment_sent src f)
    → r.m_data_cb ≡ some cb
    → r.reassembly.fragment_max_duration_s ≡ 0
    → hh.find (record { src_add = src; packet_id = t.packet_id % 2 ^ 12 }) r.reassembly.packets
      ≡ none
    → m.len ≤ length r.reassembly_buffer
    → (front : List Bytes) × (end : Bytes) × (t' : Sender C S) × (r' : Receiver C' D hh.Table)
      × (dsap_data_tx_request requests m frames t ≡ ok (some (pos 0), t'))
      × (log t'.below ≡ log t.below ++ (front ++ (end ∷ [])))
      × (handle_all ll hh now clock timestamp_ms (map carry (front ++ (end ∷ []))) r
          ≡ ok (
            map (λ _. none) front
                ++ (some (
                      data_received cb
                        (overlay 0 m.buffer r.reassembly_buffer)
                        (length m.buffer)
                        (carry end)
                        (timestamp_ms (carry end)))
                    ∷ []),
            r',
          ))
dsap_data_tx_request-delivered requests log ll hh m frames t src carry now clock timestamp_ms r cb
      accepts p a b c e q law h d new room =
    let (fs, t', sent', lg, chunks) =
      dsap_data_tx_request-Chunks requests log m frames t src accepts p a b c e q in
    let (front, end, r', same, done) =
      handle_all-Chunks ll hh now clock timestamp_ms m.buffer src (t.packet_id % 2 ^ 12) carry fs r
        cb chunks law h d new (omega arith) (omega arith) in
    (
      front,
      end,
      t',
      r',
      sent',
      lg ∙ ap (λ x. log t.below ++ x) same,
      ap (λ x. handle_all ll hh now clock timestamp_ms (map carry x) r) (sym same) ∙ done,
    )

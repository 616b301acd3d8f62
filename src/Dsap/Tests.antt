-- ===== src/Dsap/Tests.antt =====
-- The theorems on dsap.c at a concrete packet, with a node that accepts every request.
use c_mesh_api.Dsap.Limits.{
  dsap_data_tx_request_bad_unit, dsap_data_rx_frag_indication_handler_too_long,
}
use c_mesh_api.Dsap.Delivery.{dsap_data_tx_request-delivered}
use c_mesh_api.Dsap.Handle.{handle_all}
use c_mesh_api.Dsap.Fragment.{fragment_sent}
use c_mesh_api.Dsap.Receive.{
  GcClock, Receiver, fragment_of, data_received, dsap_data_rx_frag_indication_handler,
}
use c_mesh_api.Reassembly.Assoc.{list, table}
use c_mesh_api.Reassembly.Message.{granted}
use c_mesh_api.Reassembly.Containers.{UtHash, UtList}
use c_mesh_api.Dsap.Outcome.{dsap_data_tx_request-TableKept}
use c_mesh_api.Reassembly.{FullPacket, InternalFragment, initial}
use c_mesh_api.Dsap.Callbacks.{empty_table, set_indication_cb}
use c_mesh_api.WpcInternal.{Answer, answered}
use c_mesh_api.Dsap.Tracker.{
  table_run, track, tracker_run, no_callback, table_run_refines, Op, indicate,
}
use c_mesh_api.Dsap.Transmit.{Message, Sender, dsap_data_tx_request}
use c_mesh_api.Dsap.Fragments.{Accepts}
use c_mesh_api.Request.{Frames, Requests}
use c_mesh_api.Prelude.{
  ℕ, Bytes, List, Outcome, replicate, inl, length, ◌∷◌, ◌≡◌, [], ok, sym, ℤ, ◌++◌, ◌⊎◌, ap, pos,
  some, false, refl, ◌∙◌, length-replicate, overlay, arith, get_or-replicate, get_or, drop, map,
  none, fault,
}

abbrev zeros : ℕ → Bytes
zeros n = replicate n 0

-- The state is the list of the requests.
abbrev node_send : Bytes → Bytes → ℕ → List Bytes → Outcome (Answer × List Bytes)
node_send request confirm timeout_ms s =
    ok (answered (pos 0) (zeros (length confirm)), s ++ (request ∷ []))

abbrev res_of : Outcome (Answer × List Bytes) → ℤ
res_of (ok (answered res confirm, s)) = res
res_of _ = pos 1

abbrev confirm_of : Outcome (Answer × List Bytes) → Bytes
confirm_of (ok (answered res confirm, s)) = confirm
confirm_of _ = []

abbrev node : Requests (List Bytes)
node = record {
  send_request_timeout = node_send;
  get_mtu = λ s. 3;
  set_mtu = λ mtu s. s;
  lock = λ s. s;
  unlock = λ s. s;
  answer = λ request confirm timeout_ms s s' res confirm' e. (
    inl (sym (ap res_of e)),
    ap length (sym (ap confirm_of e)) ∙ length-replicate (length confirm) 0,
  );
}

node-Accepts : Accepts node (λ s. s)
node-Accepts request confirm s =
    (zeros (length confirm), s ++ (request ∷ []), refl, get_or-replicate (length confirm) 5 0, refl)

abbrev packet : Message ℕ
packet = record {
  buffer = 11 ∷ 12 ∷ 13 ∷ 14 ∷ 15 ∷ 16 ∷ 17 ∷ [];
  len = 7;
  pdu_id = 9;
  dest_add = 0x01020304;
  qos = 0;
  src_ep = 1;
  dest_ep = 2;
  on_data_sent_cb = some 77;
  buffering_delay = 0;
  is_unack_csma_ca = false;
  hop_limit = 0;
}

abbrev ll : UtList InternalFragment
ll = list

abbrev hh : UtHash (FullPacket (List InternalFragment))
hh = table

abbrev locals : Frames
locals = record { request = zeros 202; confirm = zeros 8 }

abbrev idle : Sender ℕ (List Bytes)
idle = record { packet_id = 5; indication_sent_cb_table = empty_table; below = [] }

-- The network hands a frame with the fields of the request to the other node; the sender is 7.
abbrev carry : Bytes → Bytes
carry f =
    (0x04 ∷ 1 ∷ 0 ∷ 0 ∷ [])
    ++ (7 ∷ 0 ∷ 0 ∷ 0 ∷ [])
    ++ (get_or f 5 0 ∷ 0 ∷ 0 ∷ 0 ∷ 0 ∷ [])
    ++ (get_or f 10 0 ∷ 0 ∷ 128 ∷ 0 ∷ 0 ∷ 0 ∷ [])
    ++ (get_or f 17 0 ∷ get_or f 18 0 ∷ get_or f 19 0 ∷ get_or f 20 0 ∷ get_or f 21 0 ∷ drop 22 f)

carry-fragment_of : (f : Bytes) → fragment_of (carry f) ≡ fragment_sent 7 f
unfolding fragment_of
carry-fragment_of f = refl

abbrev listener : Receiver ℕ ℕ hh.Table
listener = record {
  m_data_cb = some 99;
  reassembly_buffer = zeros 10;
  sent_cb_table = empty_table;
  reassembly = initial ll hh;
}

abbrev clock : GcClock
clock = record { test = 0; stamp = 0; packet = λ k. 0 }

dsap_data_tx_request-delivered_example :
    (front : List Bytes) × (end : Bytes) × (t' : Sender ℕ (List Bytes)) × (r' : Receiver ℕ ℕ
      hh.Table)
    × (dsap_data_tx_request node packet locals idle ≡ ok (some (pos 0), t'))
    × (t'.below ≡ [] ++ (front ++ (end ∷ [])))
    × (handle_all ll hh (λ f. 0) clock (λ f. 0) (map carry (front ++ (end ∷ []))) listener
        ≡ ok (
          map (λ _. none) front
              ++ (some (data_received 99 (overlay 0 packet.buffer (zeros 10)) 7 (carry end) 0)
                  ∷ []),
          r',
        ))
dsap_data_tx_request-delivered_example =
    dsap_data_tx_request-delivered node (λ s. s) ll hh packet locals idle 7 carry (λ f. 0) clock
      (λ f. 0) listener 99 node-Accepts (omega arith) (omega arith) (omega arith) (omega arith) refl
      (omega arith) carry-fragment_of refl refl refl (omega arith)

-- Two callbacks, and their indications.
abbrev ops : List (Op ℕ)
ops = track 70 1 ∷ track 71 2 ∷ indicate 1 ∷ indicate 1 ∷ indicate 2 ∷ []

table_run_refines_example : table_run ops empty_table ≡ tracker_run ops no_callback
table_run_refines_example = table_run_refines ops (refl, (refl, tt))

-- A packet above 1500 bytes.
abbrev long_packet : Message ℕ
long_packet = record packet { len = 1501 }

dsap_data_tx_request-TableKept_example :
    (idle.indication_sent_cb_table ≡ idle.indication_sent_cb_table)
    ⊎ ((cb : ℕ) × (some (pos 6) ≡ some (pos 0))
        × (long_packet.on_data_sent_cb ≡ some cb)
        × (idle.indication_sent_cb_table
            ≡ (set_indication_cb cb long_packet.pdu_id idle.indication_sent_cb_table).1))
unfolding dsap_data_tx_request
dsap_data_tx_request-TableKept_example =
    dsap_data_tx_request-TableKept node long_packet locals idle (some (pos 6), idle) refl

-- A frame of 26 bytes whose fragment is to have 3 bytes from index 24 on.
abbrev short_frame : Bytes
short_frame = zeros 23 ++ (3 ∷ 1 ∷ 2 ∷ [])

dsap_data_rx_frag_indication_handler_too_long_example :
    dsap_data_rx_frag_indication_handler ll hh granted 0 clock short_frame 0 listener ≡ fault
dsap_data_rx_frag_indication_handler_too_long_example =
    dsap_data_rx_frag_indication_handler_too_long ll hh 0 clock short_frame 0 listener refl
      (omega arith) (omega arith)

-- A node with a transmission unit of 0.
abbrev broken : Requests (List Bytes)
broken = record node { get_mtu = λ s. 0 }

dsap_data_tx_request_bad_unit_example : dsap_data_tx_request broken packet locals idle ≡ fault
dsap_data_tx_request_bad_unit_example =
    dsap_data_tx_request_bad_unit broken packet locals idle (omega arith) (inl (refl, omega arith))

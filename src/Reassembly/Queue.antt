-- ===== src/Reassembly/Queue.antt =====
-- The flag for an empty queue, and fragments that are refused.
use c_mesh_api.Reassembly.{
  InternalFragment, UtHash, FullPacket, Allocations, State, Fragment, initial,
  reassembly_is_queue_empty, reassembly_set_max_fragment_duration, PacketKey,
  reassembly_add_fragment, reassembly_get_full_message, reassembly_garbage_collect,
  reassemble_full_packet,
}
use c_mesh_api.Reassembly.Containers.{UtList, UtHash, PacketKey}
use c_mesh_api.Prelude.{
  ℕ, Bool, ◌≡◌, Bytes, true, none, ok, false, ◌⊎◌, arith, ◌==◌, inl, subst, sym, inr,
}

module _ (ll : UtList InternalFragment) (hh : UtHash (FullPacket ll.Head)) where
  -- The calls that change the module's state.
  pub data Call : Type 0 where
    set_duration : ℕ → Call
    add_fragment : Allocations → ℕ → Fragment → Call
    get_message : PacketKey → Bytes → ℕ → Call
    garbage_collect : ℕ → ℕ → (PacketKey → ℕ) → Call

  -- The state after a call that returns.
  pub data Step : State hh.Table → Call → State hh.Table → Type 0 where
    set_duration_step :
        {s : State hh.Table} (d : ℕ)
        → Step s (set_duration d) (reassembly_set_max_fragment_duration ll hh d s)
    add_fragment_step :
        {s s' : State hh.Table} {added : Bool} {n : ℕ} (mem : Allocations) (now : ℕ)
        (frag : Fragment)
        → reassembly_add_fragment ll hh mem now frag s ≡ ok (added, n, s')
        → Step s (add_fragment mem now frag) s'
    get_message_step :
        {s s' : State hh.Table} {found : Bool} {out : Bytes} {n : ℕ} (key : PacketKey)
        (buffer : Bytes) (size : ℕ)
        → reassembly_get_full_message ll hh key buffer size s ≡ ok (found, out, n, s')
        → Step s (get_message key buffer size) s'
    garbage_collect_step :
        {s : State hh.Table} (now now' : ℕ) (now_at : PacketKey → ℕ)
        → Step s
            (garbage_collect now now' now_at)
            (reassembly_garbage_collect ll hh now now' now_at s)

  -- The states that the module can be in.
  pub data IsReachable : State hh.Table → Type 0 where
    at_start : IsReachable (initial ll hh)
    after : {s s' : State hh.Table} (c : Call) → IsReachable s → Step s c s' → IsReachable s'

  -- The flag is set only when there is no packet.
  abbrev IsFlagRight : State hh.Table → Type 0
  IsFlagRight s =
      reassembly_is_queue_empty ll hh s ≡ true → (k : PacketKey) → hh.find k s.packets ≡ none

  IsFlagRight-reassembly_add_fragment :
      (mem : Allocations) (now : ℕ) (frag : Fragment) (s : State hh.Table) {a : Bool} {n : ℕ}
      {s' : State hh.Table}
      → reassembly_add_fragment ll hh mem now frag s ≡ ok (a, n, s')
      → s'.is_queue_empty ≡ false
  unfolding reassembly_add_fragment
  IsFlagRight-reassembly_add_fragment mem now frag s h = ground arith

  IsFlagRight-get :
      (key : PacketKey) (buffer : Bytes) (size : ℕ) (s : State hh.Table) {a : Bool} {b : Bytes}
      {n : ℕ} {s' : State hh.Table}
      → reassembly_get_full_message ll hh key buffer size s ≡ ok (a, b, n, s')
      → (s' ≡ s) ⊎ (s'.is_queue_empty ≡ (hh.count s'.packets == 0))
  unfolding reassembly_get_full_message reassemble_full_packet
  IsFlagRight-get key buffer size s h = ground arith

  IsFlagRight-collect :
      (now now' : ℕ) (now_at : PacketKey → ℕ) (s : State hh.Table)
      → let s' = reassembly_garbage_collect ll hh now now' now_at s in
        (s' ≡ s) ⊎ (s'.is_queue_empty ≡ (hh.count s'.packets == 0))
  unfolding reassembly_garbage_collect
  IsFlagRight-collect now now' now_at s = ground arith

  no_packet :
      (s s' : State hh.Table)
      → IsFlagRight s
      → (s' ≡ s) ⊎ (s'.is_queue_empty ≡ (hh.count s'.packets == 0))
      → IsFlagRight s'
  unfolding reassembly_is_queue_empty
  no_packet s s' p (inl e) = subst IsFlagRight (sym e) p
  no_packet s s' p (inr e) = λ h k. hh.count_zero k s'.packets (ground arith)

  Step-IsFlagRight :
      {s s' : State hh.Table} {c : Call} → Step s c s' → IsFlagRight s → IsFlagRight s'
  unfolding reassembly_is_queue_empty reassembly_set_max_fragment_duration
  Step-IsFlagRight (set_duration_step d) p = λ h k. p h k
  Step-IsFlagRight {s} {s'} (add_fragment_step mem now frag e) p = λ h k.
      let f : s'.is_queue_empty ≡ false = IsFlagRight-reassembly_add_fragment mem now frag s e in
      absurd (cc)
  Step-IsFlagRight {s} {s'} (get_message_step key buffer size e) p =
      no_packet s s' p (IsFlagRight-get key buffer size s e)
  Step-IsFlagRight {s} (garbage_collect_step now now' now_at) p =
      no_packet s (reassembly_garbage_collect ll hh now now' now_at s) p
        (IsFlagRight-collect now now' now_at s)

  -- In every state that the module can reach from program start by any calls, with any
  -- allocations failing, `reassembly_is_queue_empty` returns true only if no packet is there.
  pub reassembly_is_queue_empty_right :
      (s : State hh.Table)
      → IsReachable s
      → reassembly_is_queue_empty ll hh s ≡ true
      → (k : PacketKey) → hh.find k s.packets ≡ none
  reassembly_is_queue_empty_right s at_start = λ h k. hh.find-empty k
  reassembly_is_queue_empty_right s (after c r t) =
      Step-IsFlagRight t (reassembly_is_queue_empty_right _ r)

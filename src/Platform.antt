-- ===== src/Platform.antt =====
-- lib/platform/linux/platform.c: the queue of indications between the polling thread, which writes,
-- and the dispatching thread, which reads. `A` is the type of a frame with its time stamp. What a
-- thread does under the lock of the queue is one step. The polling thread computes the room in the
-- queue without the lock: each of its reads of the flag or of the index sees a state of its own.
mod Tests
pub mod Room
pub mod Fifo
use c_mesh_api.Util.{min_of}
use c_mesh_api.Prelude.{
  ℕ, none, some, true, false, Bool, List, Option, if◌then◌else◌, ◌*◌, ◌+◌, ltb, not, set, ◌%◌, ◌&&◌,
  ◌-◌, ◌==◌, ◌^◌,
}

abbrev pub max_number_indication : ℕ
max_number_indication = 30

abbrev pub max_number_indication_queue : ℕ
max_number_indication_queue = max_number_indication * 2

-- `max_num_indication`, while the thread is not about to stop.
abbrev pub max_num_indication : ℕ → ℕ
max_num_indication room = min_of max_number_indication room

pub record Queue (A : Type 0) : Type 0 where
  pub m_indications_queue : List A
  pub m_ind_queue_write : ℕ
  pub m_ind_queue_read : ℕ
  pub m_queue_empty : Bool

-- The difference of two values of type `unsigned int`.
abbrev pub sub32 : ℕ → ℕ → ℕ
sub32 a b = (a + 2 ^ 32 - b) % 2 ^ 32

module _ {A : Type 0} where
  abbrev pub is_full : Queue A → Bool
  is_full q = not q.m_queue_empty && (q.m_ind_queue_write == q.m_ind_queue_read)

  -- `onIndicationReceivedLocked`: whether there was room, and the queue.
  unfoldable pub on_indication_received : A → Queue A → Bool × Queue A
  on_indication_received frame q = if is_full q then (false, q) else (
    true,
    record q {
      m_indications_queue = set q.m_indications_queue q.m_ind_queue_write frame;
      m_ind_queue_write = (q.m_ind_queue_write + 1) % max_number_indication_queue;
      m_queue_empty = false;
    },
  )

  -- The end of a round of `dispatch_indication`, after the oldest indication was handled.
  unfoldable pub dispatch_done : Queue A → Queue A
  dispatch_done q =
      let read = (q.m_ind_queue_read + 1) % max_number_indication_queue in
      record q {
        m_ind_queue_read = read;
        m_queue_empty = if read == q.m_ind_queue_write then true else q.m_queue_empty;
      }

  -- A round of `dispatch_indication` with the queue as it finds it: without an indication there is
  -- nothing to do.
  unfoldable pub dispatch_round : Queue A → Queue A
  dispatch_round q = if q.m_queue_empty then q else dispatch_done q

  -- `free_buffer_room`; `none` if the queue is full. The states are those in which the thread reads
  -- the flag and the index for the first test, the flag for the second, the index for the
  -- comparison, and the index once more for the subtraction.
  unfoldable pub free_buffer_room : Queue A → Queue A → Queue A → Queue A → Queue A → Option ℕ
  free_buffer_room q1 q2 q3 q4 q5 =
      if not q1.m_queue_empty && (q2.m_ind_queue_write == q2.m_ind_queue_read)
      then none
      else if q3.m_queue_empty
      then some max_number_indication_queue
      else if ltb q4.m_ind_queue_read q4.m_ind_queue_write
      then some (sub32 max_number_indication_queue (sub32 q5.m_ind_queue_write q5.m_ind_queue_read))
      else some (sub32 q5.m_ind_queue_read q5.m_ind_queue_write)

  -- The queue at program start, with any contents.
  abbrev pub empty_queue : List A → Queue A
  empty_queue slots = record {
    m_indications_queue = slots;
    m_ind_queue_write = 0;
    m_ind_queue_read = 0;
    m_queue_empty = true;
  }

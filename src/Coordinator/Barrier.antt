-- ===== src/Coordinator/Barrier.antt =====
-- tools/deterministic_coordinator/src/barrier.rs: `QuantumBarrier`. Each method runs under the
-- mutex from its first to its last line, so a method is one function on the barrier; the atomic
-- counter is read and written only there and in `set_quantum`.
pub mod Invariant
pub mod Release
pub mod Rounds
use qenode.Base.{
  ℕ, zero, suc, ◌+◌, ◌%◌, ◌^◌, ◌≡◌, Bool, true, false, Option, none, some, List, [], ◌∷◌, ◌++◌, map,
  ltb, leb, ◌==◌, if◌then◌else◌, length, get_or, set, take, replicate, count_true,
}
use qenode.Base.Sort.{sort}
use qenode.Coordinator.Message.{CoordMessage, message_ord}

pub data BarrierError : Type 0 where
  timeout : BarrierError
  duplicate_done : BarrierError
  node_index_out_of_bounds : ℕ → BarrierError
  quantum_mismatch : (expected got : ℕ) → BarrierError

pub data Result {ℓ} (A : Type ℓ) : Type ℓ where
  ok : A → Result A
  err : BarrierError → Result A

pub record BarrierState : Type 0 where
  pub done_count : ℕ
  pub message_buffer : List CoordMessage
  pub done_nodes : List Bool
  pub next_quantum_buffer : List CoordMessage
  pub next_quantum_done_nodes : List Bool

pub record QuantumBarrier : Type 0 where
  pub n_nodes : ℕ
  pub max_messages_per_node : ℕ
  pub current_quantum : ℕ  -- AtomicU64
  pub state : BarrierState
  pub open state use *

-- `u64` addition of one; the counter wraps.
abbrev pub next_u64 : ℕ → ℕ
next_u64 q = (q + 1) % 2 ^ 64

unfoldable pub new : ℕ → ℕ → QuantumBarrier
new n_nodes max_messages_per_node = record {
  n_nodes = n_nodes;
  max_messages_per_node = max_messages_per_node;
  current_quantum = 0;
  state = record {
    done_count = 0;
    message_buffer = [];
    done_nodes = replicate n_nodes false;
    next_quantum_buffer = [];
    next_quantum_done_nodes = replicate n_nodes false;
  };
}

unfoldable pub set_quantum : QuantumBarrier → ℕ → QuantumBarrier
set_quantum b quantum = record b { current_quantum = quantum }

-- `if messages.len() > max { messages.truncate(max) }`
abbrev pub truncate {ℓ} : {A : Type ℓ} → ℕ → List A → List A
truncate limit xs = if ltb limit (length xs) then take limit xs else xs

-- Admission control: sort, then cut to the limit.
unfoldable pub admit : QuantumBarrier → List CoordMessage → List CoordMessage
admit b messages = truncate b.max_messages_per_node (sort messages)

-- The node's messages enter the buffer of the running quantum.
unfoldable pub accept : QuantumBarrier → ℕ → List CoordMessage → QuantumBarrier
accept b node_id messages = record b {
  state = record (b.state) {
    done_nodes = set b.done_nodes node_id true;
    message_buffer = b.message_buffer ++ admit b messages;
    done_count = b.done_count + 1;
  };
}

-- Promotion: the lookahead becomes the running quantum.
unfoldable pub promote : QuantumBarrier → QuantumBarrier
promote b = record b {
  current_quantum = next_u64 b.current_quantum;
  state = record {
    done_count = count_true b.next_quantum_done_nodes;
    message_buffer = b.next_quantum_buffer;
    done_nodes = b.next_quantum_done_nodes;
    next_quantum_buffer = [];
    next_quantum_done_nodes = replicate b.n_nodes false;
  };
}

unfoldable pub submit_next :
    QuantumBarrier → ℕ → List CoordMessage → QuantumBarrier × Result (Option (List CoordMessage))
submit_next b node_id messages =
    if get_or b.next_quantum_done_nodes node_id false then (b, err duplicate_done) else (
      record b {
        state = record (b.state) {
          next_quantum_done_nodes = set b.next_quantum_done_nodes node_id true;
          next_quantum_buffer = b.next_quantum_buffer ++ admit b messages;
        };
      },
      ok none,
    )

unfoldable pub submit_current :
    QuantumBarrier → ℕ → List CoordMessage → QuantumBarrier × Result (Option (List CoordMessage))
submit_current b node_id messages =
    let accepted = accept b node_id messages in
    if get_or b.done_nodes node_id false
    then (b, err duplicate_done)
    else if accepted.done_count == b.n_nodes
    then (promote accepted, ok (some (sort accepted.message_buffer)))
    else (accepted, ok none)

-- `expected_quantum` is compared with the counter and the comparison has no effect.
unfoldable pub submit_done :
    QuantumBarrier
    → (node_id quantum expected_quantum : ℕ) → List CoordMessage
    → QuantumBarrier × Result (Option (List CoordMessage))
submit_done b node_id quantum expected_quantum messages =
    if ltb quantum b.current_quantum
    then (b, ok none)
    else if leb b.n_nodes node_id
    then (b, err (node_index_out_of_bounds node_id))
    else if ltb (next_u64 b.current_quantum) quantum
    then (b, err (quantum_mismatch b.current_quantum quantum))
    else if quantum == next_u64 b.current_quantum
    then submit_next b node_id messages
    else submit_current b node_id messages

unfoldable pub reset : QuantumBarrier → QuantumBarrier
reset b = record b {
  current_quantum = 0;
  state = record {
    done_count = 0;
    message_buffer = [];
    done_nodes = map (λ _. false) b.done_nodes;
    next_quantum_buffer = [];
    next_quantum_done_nodes = map (λ _. false) b.next_quantum_done_nodes;
  };
}

-- How `Condvar::wait_timeout` ends: by the timeout, or by a wake-up, with the state that the lock
-- guards at that moment.
pub data Wait : Type 0 where
  timed_out : Wait
  woken : BarrierState → Wait

unfoldable pub wait_for_all : QuantumBarrier → Wait → Result (List CoordMessage)
wait_for_all b wait =
    if b.done_count == b.n_nodes
    then ok (sort b.message_buffer)
    else elim wait [ timed_out ↦ err timeout | woken state ↦ ok (sort state.message_buffer) ]

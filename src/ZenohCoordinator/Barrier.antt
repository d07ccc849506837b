-- ===== src/ZenohCoordinator/Barrier.antt =====
-- tools/zenoh_coordinator/src/barrier.rs: `QuantumBarrier`. Each method holds the mutex from its
-- first to its last line, so a method is one function on the barrier.
pub mod Progress
use qenode.Base.{
  ℕ, zero, suc, ◌+◌, ◌%◌, ◌^◌, Bool, true, false, ◌||◌, Option, none, some, List, [], ◌∷◌, ◌++◌,
  ltb, ◌==◌, if◌then◌else◌, length, take,
}
use qenode.Base.Bytes.{Text}
use qenode.Base.Maps.{contains, lookup, insert}
use qenode.Base.Order.{nat_ord}
use qenode.Base.Sort.{sort}
use qenode.ZenohCoordinator.Message.{CoordMessage, message_ord, text_ord}

pub data BarrierError : Type 0 where
  timeout duplicate_done : BarrierError
  quantum_mismatch : (expected got : ℕ) → BarrierError

pub data Result {ℓ} (A : Type ℓ) : Type ℓ where
  ok : A → Result A
  err : BarrierError → Result A

-- The set of the nodes that are done, and their messages.
pub record QuantumData : Type 0 where
  pub done_nodes : List Text
  pub messages : List CoordMessage

pub record QuantumBarrier : Type 0 where
  pub n_nodes : ℕ
  pub max_messages_per_node : ℕ
  pub current_quantum : ℕ
  pub quanta : List (ℕ × QuantumData)

-- `u64` addition of one; the counter wraps.
abbrev pub next_u64 : ℕ → ℕ
next_u64 q = (q + 1) % 2 ^ 64

unfoldable pub new : ℕ → ℕ → QuantumBarrier
new n_nodes max_messages_per_node = record {
  n_nodes = n_nodes;
  max_messages_per_node = max_messages_per_node;
  current_quantum = 1;
  quanta = [];
}

unfoldable pub reset : QuantumBarrier → QuantumBarrier
reset b = record b { quanta = [] }

-- `entry(quantum).or_default()`
abbrev pub or_default : Option QuantumData → QuantumData
or_default none = record { done_nodes = []; messages = [] }
or_default (some d) = d

-- `messages.sort()` and the cut to the limit.
unfoldable pub admit : QuantumBarrier → List CoordMessage → List CoordMessage
admit b messages =
    let sorted = sort messages in
    if ltb b.max_messages_per_node (length sorted)
    then take b.max_messages_per_node sorted
    else sorted

-- `quanta.remove(&quantum)`
unfoldable pub remove_quantum : ℕ → List (ℕ × QuantumData) → List (ℕ × QuantumData)
remove_quantum q [] = []
remove_quantum q ((k, d) ∷ quanta) =
    let rest = remove_quantum q quanta in if k == q then rest else (k, d) ∷ rest

-- Whether every node is done with a quantum that is in the table.
unfoldable pub is_complete : ℕ → Option QuantumData → Bool
is_complete n_nodes none = false
is_complete n_nodes (some d) = length d.done_nodes == n_nodes

abbrev messages_of : Option QuantumData → List CoordMessage
messages_of none = []
messages_of (some d) = d.messages

-- The loop: each round removes the current quantum, if it is complete, appends its sorted messages
-- and goes to the next quantum. The first argument bounds the rounds.
unfoldable pub advance : ℕ → QuantumBarrier → List CoordMessage → QuantumBarrier × List CoordMessage
unfolding is_complete remove_quantum
advance zero b all_sorted_msgs = (b, all_sorted_msgs)
advance (suc rounds) b all_sorted_msgs =
    let found = lookup b.current_quantum b.quanta in
    let rest =
      advance rounds
        (record b {
          current_quantum = next_u64 b.current_quantum;
          quanta = remove_quantum b.current_quantum b.quanta;
        })
        (all_sorted_msgs ++ sort (messages_of found)) in
    if is_complete b.n_nodes found then rest else (b, all_sorted_msgs)

-- A node's messages and its mark enter the table.
unfoldable pub record_done :
    QuantumBarrier → Text → (quantum : ℕ) → List CoordMessage → QuantumBarrier
unfolding admit
record_done b node_id quantum messages =
    let q_data = or_default (lookup quantum b.quanta) in
    record b {
      quanta =
          insert quantum
            (record {
              done_nodes = node_id ∷ q_data.done_nodes;
              messages = q_data.messages ++ admit b messages;
            })
            b.quanta;
    }

-- The loop after a report; each round takes a quantum out of the table.
unfoldable pub release : QuantumBarrier → QuantumBarrier × Result (Option (List CoordMessage))
unfolding advance
release b =
    let released = advance (length b.quanta) b [] in
    (
      released.0,
      if is_complete b.n_nodes (lookup b.current_quantum b.quanta)
          then ok (some released.1)
          else ok none,
    )

unfoldable pub submit_done :
    QuantumBarrier
    → Text
    → (quantum expected_quantum : ℕ) → List CoordMessage
    → QuantumBarrier × Result (Option (List CoordMessage))
unfolding record_done release
submit_done b node_id quantum expected_quantum messages =
    if ltb quantum b.current_quantum
    then (b, ok none)
    else if contains (or_default (lookup quantum b.quanta)).done_nodes node_id
    then (b, err duplicate_done)
    else release (record_done b node_id quantum messages)

-- `wait_for_all`: whether the wait timed out is the condition variable's answer. It reads nothing of
-- the state, and the batch that it returns is empty.
unfoldable pub wait_for_all : (timed_out : Bool) → Result (List CoordMessage)
wait_for_all timed_out = if timed_out then err timeout else ok []

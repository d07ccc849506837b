-- ===== src/ZenohCoordinator/Barrier/Progress.antt =====
-- How the loop of `submit_done` ends, and what calls leave behind.
use qenode.Base.{ℕ, Bool, List, [], ◌∷◌}
use qenode.Base.Bytes.{Text}
use qenode.Base.Maps.{lookup}
use qenode.Base.Order.{nat_ord}
use qenode.ZenohCoordinator.Message.{CoordMessage, message_ord, text_ord}
use qenode.ZenohCoordinator.Barrier.{QuantumBarrier, reset, is_complete, submit_done}

-- Whether the running quantum is complete.
abbrev pub ready : QuantumBarrier → Bool
ready b = is_complete b.n_nodes (lookup b.current_quantum b.quanta)

-- The calls that change a barrier, in the order in which they take the lock.
pub data Call : Type 0 where
  submits : Text → (quantum expected_quantum : ℕ) → List CoordMessage → Call
  resets : Call

unfoldable pub apply : QuantumBarrier → Call → QuantumBarrier
unfolding submit_done
apply b (submits node quantum expected ms) = (submit_done b node quantum expected ms).0
apply b resets = reset b

unfoldable pub run : QuantumBarrier → List Call → QuantumBarrier
unfolding apply
run b [] = b
run b (c ∷ cs) = run (apply b c) cs

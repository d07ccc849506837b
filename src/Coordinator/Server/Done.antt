-- ===== src/Coordinator/Server/Done.antt =====
-- tools/deterministic_coordinator/src/main.rs: samples on the DONE topic.
use qenode.Base.{
  ℕ, zero, suc, ◌-◌, ◌^◌, ◌||◌, Option, none, some, List, [], ◌∷◌, ◌++◌, ltb, leb, ◌==◌,
  if◌then◌else◌, length, drop,
}
use qenode.Base.Bytes.{Text, le_bytes, read_le}
use qenode.Base.Decimal.{parse_unsigned, to_string}
use qenode.Base.Float.{Float}
use qenode.Base.Maps.{add, lookup, insert}
use qenode.Base.Order.{nat_ord}
use qenode.Base.Sort.{sort}
use qenode.Coordinator.Protocol.{protocol_ord}
use qenode.Coordinator.Message.{CoordMessage, message_ord}
use qenode.Coordinator.Barrier.{Result, ok, err, next_u64, submit_done}
use qenode.Coordinator.Codec.{parse_protocol, decode_batch}
use qenode.Coordinator.Topics.{split, clock_start}
use qenode.Coordinator.Delivery.{Put}
use qenode.Coordinator.Server.Unpack.{DoneMessage, Flatbuffers, State, word}
use qenode.Coordinator.Server.Legacy.{or_empty, remove_batch, deliver}

abbrev or_no_bytes : Option (List ℕ) → List ℕ
or_no_bytes none = []
or_no_bytes (some bytes) = bytes

unfoldable pub done_messages : List DoneMessage → List CoordMessage
done_messages [] = []
done_messages (m ∷ ms) =
    record {
      src_node_id = m.src_node_id;
      dst_node_id = m.dst_node_id;
      delivery_vtime_ns = m.delivery_vtime_ns;
      sequence_number = m.sequence_number;
      protocol = parse_protocol m.protocol;
      payload = or_no_bytes m.payload;
      base_topic = none;
    }
    ∷ done_messages ms

abbrev or_no_messages : Option (List DoneMessage) → List DoneMessage
or_no_messages none = []
or_no_messages (some ms) = ms

-- `u64::MAX`
abbrev pub u64_max : ℕ
u64_max = 2 ^ 64 - 1

-- The raw form of a DONE: quantum, virtual time limit and a batch, as far as there are bytes.
unfoldable pub legacy_done : List ℕ → ℕ × ℕ × List CoordMessage
legacy_done payload =
    if ltb (length payload) 8
    then (u64_max, u64_max, [])
    else if leb 16 (length payload)
    then (
      word (read_le 8 payload),
      word (read_le 8 (drop 8 payload)),
      if ltb 16 (length payload) then decode_batch (drop 16 payload) else [],
    )
    else (
      word (read_le 8 payload),
      u64_max,
      if ltb 8 (length payload) then decode_batch (drop 8 payload) else [],
    )

-- Quantum, virtual time limit and messages of a DONE.
unfoldable pub parse_done : Flatbuffers → List ℕ → ℕ × ℕ × List CoordMessage
unfolding done_messages legacy_done
parse_done fb payload =
    if length payload == 8 || length payload == 16
    then legacy_done payload
    else elim (fb.coord_done_req payload) [
      | none ↦ legacy_done payload
      | some req ↦ (req.quantum, req.vtime_limit, done_messages (or_no_messages req.messages))
    ]

-- `msgs.into_iter().partition(|m| m.delivery_vtime_ns <= vtime_limit)`
unfoldable pub partition : ℕ → List CoordMessage → List CoordMessage × List CoordMessage
partition vtime_limit [] = ([], [])
partition vtime_limit (m ∷ ms) =
    let rest = partition vtime_limit ms in
    if leb m.delivery_vtime_ns vtime_limit then (m ∷ rest.0, rest.1) else (rest.0, m ∷ rest.1)

abbrev pub hold_back :
    ℕ → List CoordMessage → List (ℕ × List CoordMessage) → List (ℕ × List CoordMessage)
hold_back node_id [] batches = batches
hold_back node_id (m ∷ ms) batches = insert node_id (m ∷ ms) batches

-- The START of a quantum, to the nodes from `i` on.
unfoldable pub start_puts : (quantum i count : ℕ) → List Put
start_puts quantum i zero = []
start_puts quantum i (suc count) =
    record { topic = clock_start (to_string i); payload = le_bytes 8 quantum }
    ∷ start_puts quantum (suc i) count

-- `parts[2]`, if there are four parts.
unfoldable pub done_node : List Text → Option ℕ
done_node (p ∷ q ∷ r ∷ t ∷ rest) = parse_unsigned (2 ^ 32) r
done_node _ = none

module _ (f : Float) (fb : Flatbuffers) where
  -- The loop over the messages of a completed quantum.
  unfoldable pub deliver_all : State f → List CoordMessage → State f × List Put
  deliver_all s [] = (s, [])
  deliver_all s (msg ∷ msgs) =
      let sent = deliver f fb s msg in
      let rest = deliver_all sent.0 msgs in (rest.0, sent.1 ++ rest.1)

  -- What follows the barrier's answer.
  unfoldable pub after_barrier : State f → Result (Option (List CoordMessage)) → State f × List Put
  unfolding deliver_all start_puts
  after_barrier s (err e) = (s, [])
  after_barrier s (ok none) = (s, [])
  after_barrier s (ok (some msgs)) =
      let sent = deliver_all s (sort msgs) in
      let quantum = next_u64 s.current_quantum in
      (record (sent.0) { current_quantum = quantum }, sent.1 ++ start_puts quantum 0 s.nodes)

  -- A DONE of a node: what it may send by its limit goes to the barrier, the rest stays.
  unfoldable pub done :
      State f → (node_id quantum vtime_limit : ℕ) → List CoordMessage → State f × List Put
  unfolding partition remove_batch after_barrier
  done s node_id quantum vtime_limit batched =
      let parts = partition vtime_limit (or_empty (lookup node_id s.node_batches)) in
      let answer = submit_done s.barrier node_id quantum s.current_quantum (parts.0 ++ batched) in
      after_barrier
        (record s {
          seen_nodes = add node_id s.seen_nodes;
          node_batches = hold_back node_id parts.1 (remove_batch node_id s.node_batches);
          barrier = answer.0;
        })
        answer.1

  -- A sample on the DONE topic.
  unfoldable pub on_done : State f → (topic : Text) → (payload : List ℕ) → State f × List Put
  unfolding parse_done done done_node
  on_done s topic payload = elim (done_node (split topic)) [
    | none ↦ (s, [])
    | some node_id ↦ let req = parse_done fb payload in done s node_id req.0 req.1 req.2
  ]

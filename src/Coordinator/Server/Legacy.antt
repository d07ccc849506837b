-- ===== src/Coordinator/Server/Legacy.antt =====
-- tools/deterministic_coordinator/src/main.rs: samples on the legacy topics and on the network control
-- topic.
use qenode.Base.{
  ℕ, ◌+◌, ◌-◌, ◌^◌, Option, none, some, List, [], ◌∷◌, ◌++◌, ltb, ◌==◌, if◌then◌else◌,
}
use qenode.Base.Bytes.{Text}
use qenode.Base.Float.{Float}
use qenode.Base.Maps.{add, lookup, insert}
use qenode.Base.Order.{nat_ord}
use qenode.Coordinator.Protocol.{Protocol, protocol_ord}
use qenode.Coordinator.Message.{CoordMessage, message_ord}
use qenode.Coordinator.Topology.{Control, update_from_json}
use qenode.Coordinator.Topics.{parse_legacy_topic}
use qenode.Coordinator.Delivery.{Put, broadcast, deliver_message}
use qenode.Coordinator.Server.Unpack.{
  Flatbuffers, State, Unpacked, unpack_legacy, malformed, missing, frame,
}

-- `u64::saturating_add`
abbrev pub saturating_add : ℕ → ℕ → ℕ
saturating_add a b = if ltb (a + b) (2 ^ 64) then a + b else 2 ^ 64 - 1

abbrev pub or_empty : Option (List CoordMessage) → List CoordMessage
or_empty none = []
or_empty (some ms) = ms

-- `node_batches.entry(node_id).or_insert_with(Vec::new).push(msg)`
unfoldable pub push_batch :
    ℕ → CoordMessage → List (ℕ × List CoordMessage) → List (ℕ × List CoordMessage)
push_batch node_id msg batches =
    insert node_id (or_empty (lookup node_id batches) ++ (msg ∷ [])) batches

-- `node_batches.remove(&node_id)`
unfoldable pub remove_batch : ℕ → List (ℕ × List CoordMessage) → List (ℕ × List CoordMessage)
remove_batch node_id [] = []
remove_batch node_id ((j, ms) ∷ batches) =
    let rest = remove_batch node_id batches in if j == node_id then rest else (j, ms) ∷ rest

module _ (f : Float) (fb : Flatbuffers) where
  unfoldable pub deliver : State f → CoordMessage → State f × List Put
  unfolding deliver_message
  deliver s msg =
      let sent = deliver_message f fb.finish_header s.topo s.seen_nodes s.pcap_log msg in
      (record s { pcap_log = sent.0 }, sent.1)

  -- What was unpacked is sent at once, or waits for the node's DONE.
  unfoldable pub accept_legacy :
      State f → Protocol → (node_id : ℕ) → (base : Text) → Unpacked → State f × List Put
  unfolding push_batch deliver
  accept_legacy s proto node_id base malformed = (s, [])
  accept_legacy s proto node_id base missing = (s, [])
  accept_legacy s proto node_id base (frame vtime seq bytes) =
      let msg : CoordMessage = record {
        src_node_id = node_id;
        dst_node_id = broadcast;
        delivery_vtime_ns = saturating_add vtime s.delay_ns;
        sequence_number = seq;
        protocol = proto;
        payload = bytes;
        base_topic = some base;
      } in
      if s.no_pdes
      then deliver s msg
      else (record s { node_batches = push_batch node_id msg s.node_batches }, [])

  -- A sample on one of the legacy topics.
  unfoldable pub on_legacy : State f → (topic : Text) → (payload : List ℕ) → State f × List Put
  unfolding unpack_legacy accept_legacy
  on_legacy s topic payload = elim (parse_legacy_topic topic) [
    | none ↦ (s, [])
    | some (proto, node_id, base) ↦
        accept_legacy (record s { seen_nodes = add node_id s.seen_nodes }) proto node_id base
          (unpack_legacy fb proto payload)
  ]

  -- A sample on the network control topic; an update that fails changes nothing.
  unfoldable pub on_control : State f → Control f → State f
  on_control s control = elim (update_from_json f s.topo control) [
    | none ↦ s
    | some topo ↦ record s { topo = topo }
  ]

-- ===== src/Coordinator/Delivery.antt =====
-- tools/deterministic_coordinator/src/main.rs: `deliver_message`, to whom a message goes and what
-- is put on which topic. A put that fails is ignored by the code and is not modelled.
pub mod Received
pub mod Targets
use qenode.Base.{
  ℕ, ◌-◌, ◌^◌, Bool, true, false, not, ◌&&◌, Option, none, some, List, [], ◌∷◌, ◌++◌, ◌==◌,
  if◌then◌else◌,
}
use qenode.Base.Bytes.{Text, ascii}
use qenode.Base.Decimal.{to_string}
use qenode.Base.Float.{Float}
use qenode.Base.Maps.{same, contains}
use qenode.Base.Order.{nat_ord}
use qenode.Api.{encode_frame, encode_rf802154_frame}
use qenode.Coordinator.Protocol.{Protocol, protocol_ord, is_wireless}
use qenode.Coordinator.Message.{CoordMessage}
use qenode.Coordinator.Codec.{encode_message}
use qenode.Coordinator.Log.{write_message}
use qenode.Coordinator.Topics.{
  path, coord_rx, eth_rx, uart_rx, can_rx, lin_rx, spi_base, rf_ieee802154_rx, rf_hci_rx,
}
use qenode.Coordinator.Topology.{WireLink, TopologyGraph, rf_neighbors, is_link_allowed}

-- `u32::MAX` as a destination.
abbrev pub broadcast : ℕ
broadcast = 2 ^ 32 - 1

-- One `session.put`.
pub record Put : Type 0 where
  pub topic : Text
  pub payload : List ℕ

-- The nodes of a link, less the sender.
unfoldable pub others : ℕ → List ℕ → List ℕ
others src [] = []
others src (node ∷ nodes) = let rest = others src nodes in if node == src then rest else node ∷ rest

-- The loop over the wire links.
unfoldable pub wire_targets : ℕ → Protocol → List WireLink → List ℕ
unfolding others
wire_targets src protocol [] = []
wire_targets src protocol (link ∷ links) =
    let rest = wire_targets src protocol links in
    if same link.protocol protocol && contains link.nodes src
    then others src link.nodes ++ rest
    else rest

module _ (f : Float) where
  -- The loop over the nodes that the coordinator has seen.
  unfoldable pub seen_targets : TopologyGraph f → ℕ → Protocol → List ℕ → List ℕ
  seen_targets t src protocol [] = []
  seen_targets t src protocol (nid ∷ seen) =
      let rest = seen_targets t src protocol seen in
      if not (nid == src) && is_link_allowed f t src nid protocol then nid ∷ rest else rest

  unfoldable pub target_nodes : TopologyGraph f → (seen_nodes : List ℕ) → CoordMessage → List ℕ
  unfolding wire_targets seen_targets
  target_nodes t seen_nodes msg =
      if msg.dst_node_id == broadcast
      then (if not t.is_explicit
          then seen_targets t msg.src_node_id msg.protocol seen_nodes
          else if is_wireless msg.protocol
          then rf_neighbors f t msg.src_node_id
          else wire_targets msg.src_node_id msg.protocol t.wire_links)
      else if is_link_allowed f t msg.src_node_id msg.dst_node_id msg.protocol
      then msg.dst_node_id ∷ []
      else []

unfoldable pub default_rx_topic : Protocol → Text → Text
default_rx_topic Protocol.ethernet node = eth_rx node
default_rx_topic Protocol.uart node = uart_rx node
default_rx_topic Protocol.can_fd node = can_rx node
default_rx_topic Protocol.lin node = lin_rx node
default_rx_topic Protocol.spi node = spi_base (ascii "default") node ++ ascii "/rx"
default_rx_topic Protocol.rf802154 node = rf_ieee802154_rx node
default_rx_topic Protocol.rf_hci node = rf_hci_rx node
default_rx_topic _ node = path (ascii "sim/unknown") node (ascii "/rx")

unfoldable pub legacy_rx_topic : CoordMessage → ℕ → Text
unfolding default_rx_topic
legacy_rx_topic msg target = elim (msg.base_topic) [
  | none ↦ default_rx_topic msg.protocol (to_string target)
  | some base ↦ path base (to_string target) (ascii "/rx")
]

-- The header of an IEEE 802.15.4 frame, as the FlatBuffers library writes it.
abbrev pub FinishHeader : Type 0
FinishHeader = (vtime sequence size rssi lqi : ℕ) → List ℕ

-- The RSSI of -80 is the byte 176.
unfoldable pub legacy_payload : FinishHeader → CoordMessage → List ℕ
legacy_payload finish_header msg = elim (msg.protocol) [
  | Protocol.rf802154 ↦
      encode_rf802154_frame finish_header msg.delivery_vtime_ns msg.sequence_number msg.payload 176
        255
  | Protocol.lin ↦ msg.payload
  | Protocol.can_fd ↦ msg.payload
  | Protocol.flex_ray ↦ msg.payload
  | _ ↦ encode_frame msg.delivery_vtime_ns msg.sequence_number msg.payload
]

-- The message as the target gets it.
abbrev pub addressed : CoordMessage → ℕ → CoordMessage
addressed msg target = record msg { dst_node_id = target }

unfoldable pub puts_for : FinishHeader → CoordMessage → ℕ → List Put
unfolding legacy_rx_topic legacy_payload
puts_for finish_header msg target =
    record { topic = coord_rx (to_string target); payload = encode_message (addressed msg target) }
    ∷ record { topic = legacy_rx_topic msg target; payload = legacy_payload finish_header msg }
    ∷ []

abbrev pub log_message : Option (List ℕ) → CoordMessage → Option (List ℕ)
log_message none msg = none
log_message (some log) msg = some (write_message log msg)

-- The loop over the targets: the log and the puts.
unfoldable pub deliver_to :
    FinishHeader → CoordMessage → Option (List ℕ) → (targets : List ℕ) → Option (List ℕ) × List Put
unfolding puts_for
deliver_to finish_header msg log [] = (log, [])
deliver_to finish_header msg log (target ∷ targets) =
    let rest = deliver_to finish_header msg (log_message log (addressed msg target)) targets in
    (rest.0, puts_for finish_header msg target ++ rest.1)

unfoldable pub deliver_message :
    (f : Float)
    → FinishHeader
    → TopologyGraph f
    → (seen_nodes : List ℕ) → Option (List ℕ)
    → CoordMessage
    → Option (List ℕ) × List Put
unfolding deliver_to target_nodes
deliver_message f finish_header t seen_nodes log msg =
    deliver_to finish_header msg log (target_nodes f t seen_nodes msg)

-- ===== src/Coordinator/Message.antt =====
-- tools/deterministic_coordinator/src/barrier.rs: `CoordMessage` and its total order.
use qenode.Base.{ℕ, ◌≡◌, Option, List, arith, compare, Ordering}
use qenode.Base.Bytes.{Text}
use qenode.Base.Order.{
  Ord, nat_ord, list_ord, option_ord, pair_ord, by_key, then_with, list_cmp, option_cmp,
}
use qenode.Coordinator.Protocol.{Protocol, protocol_ord}

pub record CoordMessage : Type 0 where
  pub src_node_id : ℕ
  pub dst_node_id : ℕ
  pub delivery_vtime_ns : ℕ
  pub sequence_number : ℕ
  pub protocol : Protocol
  pub payload : List ℕ
  pub base_topic : Option Text

-- `impl Ord for CoordMessage`: virtual time, source, destination, sequence number, protocol, base
-- topic, payload.
abbrev pub message_cmp : CoordMessage → CoordMessage → Ordering
message_cmp a b =
    then_with
      (then_with
        (then_with
          (then_with
            (then_with
              (then_with (compare a.delivery_vtime_ns b.delivery_vtime_ns)
                (compare a.src_node_id b.src_node_id))
              (compare a.dst_node_id b.dst_node_id))
            (compare a.sequence_number b.sequence_number))
          (protocol_ord.cmp a.protocol b.protocol))
        (option_cmp (list_ord nat_ord) a.base_topic b.base_topic))
      (list_cmp nat_ord a.payload b.payload)

abbrev MessageKey : Type 0
MessageKey = (((((ℕ × ℕ) × ℕ) × ℕ) × Protocol) × Option Text) × List ℕ

abbrev key_ord : Ord MessageKey
key_ord =
    pair_ord
      (pair_ord
        (pair_ord (pair_ord (pair_ord (pair_ord nat_ord nat_ord) nat_ord) nat_ord) protocol_ord)
        (option_ord (list_ord nat_ord)))
      (list_ord nat_ord)

abbrev message_key : CoordMessage → MessageKey
message_key m = (
  (
    ((((m.delivery_vtime_ns, m.src_node_id), m.dst_node_id), m.sequence_number), m.protocol),
    m.base_topic,
  ),
  m.payload,
)

pub message_key_injective : (a b : CoordMessage) → message_key a ≡ message_key b → a ≡ b
message_key_injective a b h = ground arith

abbrev keyed_ord : Ord CoordMessage
keyed_ord = by_key key_ord message_key message_key_injective

instance abbrev pub message_ord : Ord CoordMessage
message_ord = record {
  cmp = message_cmp;
  cmp_eq = keyed_ord.cmp_eq;
  cmp_reverse = keyed_ord.cmp_reverse;
  cmp_trans = keyed_ord.cmp_trans;
}

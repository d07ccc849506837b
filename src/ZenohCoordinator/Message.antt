-- ===== src/ZenohCoordinator/Message.antt =====
-- tools/zenoh_coordinator/src/{topology,barrier}.rs: `Protocol`, `CoordMessage` and its total order.
use qenode.Base.{ℕ, ◌≡◌, List, arith, compare, Ordering}
use qenode.Base.Bytes.{Text}
use qenode.Base.Order.{Ord, nat_ord, list_ord, pair_ord, by_key, then_with, list_cmp}

pub data Protocol : Type 0 where
  ethernet uart spi can_fd flex_ray lin rf802154 rf_hci : Protocol

-- The discriminant, which `derive(PartialOrd, Ord)` compares.
abbrev pub index : Protocol → ℕ
index Protocol.ethernet = 0
index Protocol.uart = 1
index Protocol.spi = 2
index Protocol.can_fd = 3
index Protocol.flex_ray = 4
index Protocol.lin = 5
index Protocol.rf802154 = 6
index Protocol.rf_hci = 7

pub index_injective : (p q : Protocol) → index p ≡ index q → p ≡ q
index_injective p q h = ground arith

instance abbrev pub protocol_ord : Ord Protocol
protocol_ord = by_key nat_ord index index_injective

instance abbrev pub text_ord : Ord Text
text_ord = list_ord nat_ord

pub record CoordMessage : Type 0 where
  pub src_node_id : Text
  pub dst_node_id : Text
  pub base_topic : Text
  pub delivery_vtime_ns : ℕ
  pub sequence_number : ℕ
  pub protocol : Protocol
  pub payload : List ℕ

-- `impl Ord for CoordMessage`: virtual time, source, destination, sequence number, base topic,
-- protocol, payload.
abbrev pub message_cmp : CoordMessage → CoordMessage → Ordering
message_cmp a b =
    then_with
      (then_with
        (then_with
          (then_with
            (then_with
              (then_with (compare a.delivery_vtime_ns b.delivery_vtime_ns)
                (list_cmp nat_ord a.src_node_id b.src_node_id))
              (list_cmp nat_ord a.dst_node_id b.dst_node_id))
            (compare a.sequence_number b.sequence_number))
          (list_cmp nat_ord a.base_topic b.base_topic))
        (protocol_ord.cmp a.protocol b.protocol))
      (list_cmp nat_ord a.payload b.payload)

abbrev MessageKey : Type 0
MessageKey = (((((ℕ × Text) × Text) × ℕ) × Text) × Protocol) × List ℕ

abbrev key_ord : Ord MessageKey
key_ord =
    pair_ord
      (pair_ord
        (pair_ord (pair_ord (pair_ord (pair_ord nat_ord text_ord) text_ord) nat_ord) text_ord)
        protocol_ord)
      (list_ord nat_ord)

abbrev message_key : CoordMessage → MessageKey
message_key m = (
  (
    ((((m.delivery_vtime_ns, m.src_node_id), m.dst_node_id), m.sequence_number), m.base_topic),
    m.protocol,
  ),
  m.payload,
)

pub message_key_injective : (a b : CoordMessage) → message_key a ≡ message_key b → a ≡ b
message_key_injective a b h = ground arith

abbrev keyed_ord : Ord CoordMessage
keyed_ord = by_key key_ord message_key message_key_injective

instance abbrev pub message_ord : Ord CoordMessage
message_ord = record {
  cmp = message_cmp;
  cmp_eq = keyed_ord.cmp_eq;
  cmp_reverse = keyed_ord.cmp_reverse;
  cmp_trans = keyed_ord.cmp_trans;
}

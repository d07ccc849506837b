-- ===== src/Coordinator/Codec.antt =====
-- tools/deterministic_coordinator/src/main.rs: the binary form of messages between the nodes and
-- the coordinator. A `Cursor` is the bytes that it has not read; a read past the end fails and
-- leaves the cursor at the end.
pub mod RoundTrip
use qenode.Base.{
  ℕ, zero, suc, ◌%◌, ◌^◌, ◌≡◌, Option, none, some, List, [], ◌∷◌, ◌++◌, ◌==◌, if◌then◌else◌, length,
}
use qenode.Base.Do.{◌>>=◌}
use qenode.Base.Bytes.{le_bytes, read_le, read_bytes}
use qenode.Coordinator.Protocol.{Protocol}
use qenode.Coordinator.Message.{CoordMessage}

unfoldable pub parse_protocol : ℕ → Protocol
parse_protocol p =
    if p == 0
    then Protocol.ethernet
    else if p == 1
    then Protocol.uart
    else if p == 2
    then Protocol.spi
    else if p == 3
    then Protocol.can_fd
    else if p == 4
    then Protocol.flex_ray
    else if p == 5
    then Protocol.lin
    else if p == 6
    then Protocol.rf802154
    else if p == 7
    then Protocol.rf_hci
    else Protocol.ethernet

unfoldable pub serialize_protocol : Protocol → ℕ
serialize_protocol Protocol.ethernet = 0
serialize_protocol Protocol.uart = 1
serialize_protocol Protocol.spi = 2
serialize_protocol Protocol.can_fd = 3
serialize_protocol Protocol.flex_ray = 4
serialize_protocol Protocol.lin = 5
serialize_protocol Protocol.rf802154 = 6
serialize_protocol Protocol.rf_hci = 7
serialize_protocol Protocol.control = 8

-- The body of the loop of `decode_batch`: the message, if all of it could be read, and the rest.
unfoldable pub decode_message : List ℕ → Option (CoordMessage × List ℕ)
unfolding parse_protocol
decode_message bs = do
  (src, bs1) ← read_le 4 bs
  (dst, bs2) ← read_le 4 bs1
  (vtime, bs3) ← read_le 8 bs2
  (seq, bs4) ← read_le 8 bs3
  (proto, bs5) ← read_le 1 bs4
  (len, bs6) ← read_le 4 bs5
  (payload, rest) ← read_bytes len bs6
  some (
    record {
      src_node_id = src;
      dst_node_id = dst;
      delivery_vtime_ns = vtime;
      sequence_number = seq;
      protocol = parse_protocol proto;
      payload = payload;
      base_topic = none;
    },
    rest,
  )

-- The rounds of the loop. After a failed read the cursor is at the end, so no later round reads.
unfoldable pub decode_messages : ℕ → List ℕ → List CoordMessage
unfolding decode_message
decode_messages zero bs = []
decode_messages (suc n) bs = elim (decode_message bs) [
  | none ↦ decode_messages n []
  | some (m, rest) ↦ m ∷ decode_messages n rest
]

unfoldable pub decode_batch : List ℕ → List CoordMessage
unfolding decode_messages
decode_batch payload = elim (read_le 4 payload) [
  | none ↦ []
  | some (num_msgs, rest) ↦ decode_messages num_msgs rest
]

-- `payload.len() as u32` wraps.
unfoldable pub encode_message : CoordMessage → List ℕ
unfolding serialize_protocol
encode_message msg =
    le_bytes 4 msg.src_node_id
    ++ (le_bytes 4 msg.dst_node_id
        ++ (le_bytes 8 msg.delivery_vtime_ns
            ++ (le_bytes 8 msg.sequence_number
                ++ (le_bytes 1 (serialize_protocol msg.protocol)
                    ++ (le_bytes 4 (length msg.payload % 2 ^ 32) ++ msg.payload)))))

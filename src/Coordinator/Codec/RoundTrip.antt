-- ===== src/Coordinator/Codec/RoundTrip.antt =====
-- What `decode_batch` reads from the messages that `encode_message` writes.
use mathlib.Core.List.{append_assoc, append-nil}
use native.Mathlib.Nat.{mod-eq_of_lt, zero-add, add-zero, suc-add}
use qenode.Base.{
  ℕ, zero, suc, ◌^◌, ◌<◌, ◌≡◌, refl, ◌∙◌, ◌+◌, ◌≢◌, none, some, List, [], ◌∷◌, ◌++◌, arith, length,
}
use qenode.Base.Bytes.{le_bytes, read_le, read_le-le_bytes, read_bytes-append}
use qenode.Coordinator.Protocol.{Protocol}
use qenode.Coordinator.Message.{CoordMessage}
use qenode.Coordinator.Codec.{
  parse_protocol, serialize_protocol, decode_message, decode_messages, decode_batch, encode_message,
}

-- The fields fit the words that carry them, and the payload's length fits 32 bits.
pub record Fits (m : CoordMessage) : Type 0 where
  pub src : m.src_node_id < 2 ^ 32
  pub dst : m.dst_node_id < 2 ^ 32
  pub vtime : m.delivery_vtime_ns < 2 ^ 64
  pub seq : m.sequence_number < 2 ^ 64
  pub len : length m.payload < 2 ^ 32

-- What is left of a message on the wire: no base topic, and the protocol that the byte stands for.
abbrev pub received : CoordMessage → CoordMessage
received m = record m {
  protocol = parse_protocol (serialize_protocol m.protocol);
  base_topic = none;
}

-- Every protocol survives the byte, except that `Control` arrives as `Ethernet`.
parse_protocol-serialize_protocol :
    (p : Protocol)
    → (p ≢ Protocol.control → parse_protocol (serialize_protocol p) ≡ p)
      × (p ≡ Protocol.control → parse_protocol (serialize_protocol p) ≡ Protocol.ethernet)
unfolding parse_protocol serialize_protocol
parse_protocol-serialize_protocol p = ground arith

serialize_protocol-lt : (p : Protocol) → serialize_protocol p < 256 ^ 1
unfolding serialize_protocol
serialize_protocol-lt p = ground arith

pub decode_message-encode_message :
    (m : CoordMessage) (rest : List ℕ)
    → Fits m
    → decode_message (encode_message m ++ rest) ≡ some (received m, rest)
unfolding decode_message encode_message
decode_message-encode_message m rest f = simp (
  append_assoc,
  read_le-le_bytes,
  f.src,
  f.dst,
  f.vtime,
  f.seq,
  serialize_protocol-lt m.protocol,
  mod-eq_of_lt f.len,
  f.len,
  read_bytes-append,
)

-- The messages of a batch, one after the other.
abbrev pub encode_messages : List CoordMessage → List ℕ
encode_messages [] = []
encode_messages (m ∷ ms) = encode_message m ++ encode_messages ms

abbrev pub AllFit : List CoordMessage → Type 0
AllFit [] = Unit
AllFit (m ∷ ms) = Fits m × AllFit ms

abbrev pub all_received : List CoordMessage → List CoordMessage
all_received [] = []
all_received (m ∷ ms) = received m ∷ all_received ms

decode_messages-append :
    (ms : List CoordMessage) (more : ℕ) (rest : List ℕ)
    → AllFit ms
    → decode_messages (length ms + more) (encode_messages ms ++ rest)
      ≡ all_received ms ++ decode_messages more rest
unfolding decode_messages
decode_messages-append [] more rest f = rw (zero-add more)
decode_messages-append (m ∷ ms) more rest f =
    rw (suc-add (length ms) more, append_assoc (encode_message m) (encode_messages ms) rest)
      (rw (decode_message-encode_message m (encode_messages ms ++ rest) f.0, decode_messages)
        (rw (decode_messages-append ms more rest f.1)))

decode_messages_broken :
    (n : ℕ) (tail : List ℕ) → decode_message tail ≡ none → decode_messages n tail ≡ []
unfolding decode_messages
decode_messages_broken zero tail e = refl
decode_messages_broken (suc n) tail e =
    rw (e, decode_messages) (decode_messages_broken n [] (unfold decode_message read_le in refl))

-- A batch of messages that fit their words, behind its count, is decoded to the same messages in
-- the same order, whatever bytes follow; a message loses its base topic, and a `Control` message
-- becomes an `Ethernet` one.
pub decode_batch-encode_messages :
    (ms : List CoordMessage) (rest : List ℕ)
    → length ms < 2 ^ 32
    → AllFit ms
    → decode_batch (le_bytes 4 (length ms) ++ (encode_messages ms ++ rest)) ≡ all_received ms
unfolding decode_batch decode_messages
decode_batch-encode_messages ms rest h f =
    rw (read_le-le_bytes 4 (length ms) (encode_messages ms ++ rest) h, decode_batch)
      (rw (← add-zero (length ms))
        (decode_messages-append ms 0 rest f ∙ append-nil (all_received ms)))

-- A batch that is cut off keeps its whole messages: if the count promises more messages than are
-- there, and what follows them is no whole message, then exactly the whole ones are returned.
pub decode_batch_cut_off :
    (ms : List CoordMessage) (missing : ℕ) (tail : List ℕ)
    → length ms + missing < 2 ^ 32
    → AllFit ms
    → decode_message tail ≡ none
    → decode_batch (le_bytes 4 (length ms + missing) ++ (encode_messages ms ++ tail))
      ≡ all_received ms
unfolding decode_batch
decode_batch_cut_off ms missing tail h f e =
    rw (read_le-le_bytes 4 (length ms + missing) (encode_messages ms ++ tail) h, decode_batch)
      (decode_messages-append ms missing tail f
        ∙ rw (decode_messages_broken missing tail e) (append-nil (all_received ms)))

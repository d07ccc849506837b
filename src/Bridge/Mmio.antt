-- ===== src/Bridge/Mmio.antt =====
-- hw/rust/backbone/mmio-socket-bridge/src/lib.rs: the receive loop of the bridge and its requests, and
-- the server's side of the handshake (hw/rust/common/virtmcu-api/src/lib.rs). The socket is what it
-- receives and which of its calls fail.
use qenode.Base.{
  ℕ, zero, suc, Bool, not, ◌&&◌, ◌||◌, Option, none, some, List, [], ◌∷◌, ◌++◌, ltb, ◌==◌,
  if◌then◌else◌, length,
}
use qenode.Base.Bytes.{read_bytes}
use qenode.Api.Structs.{
  size_of_handshake, new_handshake, handshake_magic, handshake_version, unpack_slice_of,
  size_of_sysc_msg, sysc_msg_type, sysc_msg_irq_num, sysc_msg_data, new_mmio_req,
}
use qenode.Bridge.Cosim.{Arrival}

abbrev pub virtmcu_proto_magic : ℕ
virtmcu_proto_magic = 0x564D4355

abbrev pub virtmcu_proto_version : ℕ
virtmcu_proto_version = 1

abbrev pub mmio_req_read : ℕ
mmio_req_read = 0

abbrev pub mmio_req_write : ℕ
mmio_req_write = 1

abbrev pub sysc_msg_resp : ℕ
sysc_msg_resp = 0

abbrev pub sysc_msg_irq_set : ℕ
sysc_msg_irq_set = 1

abbrev pub sysc_msg_irq_clear : ℕ
sysc_msg_irq_clear = 2

-- `complete_server_handshake` on what the client has sent: the reply, or the error
pub data HandshakeResult : Type 0 where
  io : HandshakeResult
  bad_magic : (got : ℕ) → HandshakeResult
  bad_version : (got : ℕ) → HandshakeResult
  accepted : (reply : List ℕ) → HandshakeResult

unfoldable pub check_client : (client : List ℕ) → HandshakeResult
check_client client =
    if not (handshake_magic client == virtmcu_proto_magic)
    then HandshakeResult.bad_magic (handshake_magic client)
    else if not (handshake_version client == virtmcu_proto_version)
    then HandshakeResult.bad_version (handshake_version client)
    else HandshakeResult.accepted (new_handshake virtmcu_proto_magic virtmcu_proto_version)

unfoldable pub complete_server_handshake : List ℕ → HandshakeResult
unfolding check_client
complete_server_handshake received = elim (unpack_slice_of size_of_handshake received) [
  | none ↦ HandshakeResult.io
  | some client ↦ check_client client
]

-- What the receive loop does: to the state of the bridge, or to an interrupt line
pub data Effect : Type 0 where
  arrives : Arrival (List ℕ) → Effect
  sets_irq : (irq_num : ℕ) (level : Bool) → Effect

-- One message
unfoldable pub on_message : (msg : List ℕ) → List Effect
on_message msg =
    if sysc_msg_type msg == sysc_msg_resp
    then Effect.arrives (Arrival.response msg) ∷ []
    else if (sysc_msg_type msg == sysc_msg_irq_set || sysc_msg_type msg == sysc_msg_irq_clear)
        && ltb (sysc_msg_irq_num msg) 32
    then Effect.sets_irq (sysc_msg_irq_num msg) (sysc_msg_type msg == sysc_msg_irq_set) ∷ []
    else []

-- The blocking read loop, on fuel: a read that fails ends it.
unfoldable pub read_loop : (fuel : ℕ) (received : List ℕ) → List Effect
unfolding on_message
read_loop zero received = Effect.arrives Arrival.disconnected ∷ []
read_loop (suc fuel) received = elim (read_bytes size_of_sysc_msg received) [
  | none ↦ Effect.arrives Arrival.disconnected ∷ []
  | some (msg, rest) ↦ on_message msg ++ read_loop fuel rest
]

-- One connection that was made
pub record Connection : Type 0 where
  pub write_ok : Bool
  pub clone_ok : Bool
  pub received : List ℕ  -- until the peer closes it

unfoldable pub is_peer : (hs_in : List ℕ) → Bool
is_peer hs_in =
    handshake_magic hs_in == virtmcu_proto_magic
    && (handshake_version hs_in == virtmcu_proto_version)

-- `run_rx_loop` on one connection; every message is of 16 bytes, so the bytes are rounds enough.
unfoldable pub serve : Connection → List Effect
unfolding is_peer read_loop
serve c =
    if c.write_ok
    then elim (read_bytes size_of_handshake c.received) [
      | none ↦ []
      | some (hs_in, rest) ↦
          if is_peer hs_in && c.clone_ok
          then Effect.arrives Arrival.connected ∷ read_loop (suc (length rest)) rest
          else []
    ]
    else []

-- `run_rx_loop`: the attempts to connect, as long as the bridge runs; one that fails ends the loop
-- where no reconnection is configured.
unfoldable pub run_rx_loop : (reconnect_ms : ℕ) (attempts : List (Option Connection)) → List Effect
unfolding serve
run_rx_loop reconnect_ms [] = []
run_rx_loop reconnect_ms (none ∷ attempts) =
    let rest = run_rx_loop reconnect_ms attempts in if reconnect_ms == 0 then [] else rest
run_rx_loop reconnect_ms (some c ∷ attempts) = serve c ++ run_rx_loop reconnect_ms attempts

-- `u8::try_from(size).unwrap_or(u8::MAX)`
unfoldable pub size_byte : (size : ℕ) → ℕ
size_byte size = if ltb size 256 then size else 255

-- The requests of `bridge_read` and `bridge_write`
unfoldable pub read_request : (vtime_ns addr size : ℕ) → List ℕ
unfolding size_byte
read_request vtime_ns addr size = new_mmio_req mmio_req_read (size_byte size) 0 0 vtime_ns addr 0

unfoldable pub write_request : (vtime_ns addr val size : ℕ) → List ℕ
unfolding size_byte
write_request vtime_ns addr val size =
    new_mmio_req mmio_req_write (size_byte size) 0 0 vtime_ns addr val

-- What `bridge_read` returns for the answer of `send_and_wait`
unfoldable pub read_value : Option (List ℕ) → ℕ
read_value none = 0
read_value (some resp) = sysc_msg_data resp

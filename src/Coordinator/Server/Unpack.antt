-- ===== src/Coordinator/Server/Unpack.antt =====
-- tools/deterministic_coordinator/src/main.rs: what the loop reads from the payload of a legacy
-- frame.
use qenode.Base.{
  ℕ, ◌+◌, Bool, true, false, ◌&&◌, Option, none, some, List, ltb, leb, if◌then◌else◌, length, take,
  drop,
}
use qenode.Base.Bytes.{read_le}
use qenode.Base.Float.{Float}
use qenode.Base.Order.{nat_ord}
use qenode.Api.{zenoh_frame_header_size, unpack_slice, header_vtime, header_sequence, header_size}
use qenode.Coordinator.Protocol.{Protocol, protocol_ord}
use qenode.Coordinator.Message.{CoordMessage, message_ord}
use qenode.Coordinator.Barrier.{QuantumBarrier}
use qenode.Coordinator.Topology.{TopologyGraph}
use qenode.Coordinator.Delivery.{FinishHeader}

-- A message inside a `CoordDoneReq`; the protocol is a byte.
pub record DoneMessage : Type 0 where
  pub src_node_id : ℕ
  pub dst_node_id : ℕ
  pub delivery_vtime_ns : ℕ
  pub sequence_number : ℕ
  pub protocol : ℕ
  pub payload : Option (List ℕ)

pub record CoordDoneReq : Type 0 where
  pub quantum : ℕ
  pub vtime_limit : ℕ
  pub messages : Option (List DoneMessage)

-- What the FlatBuffers library reads from and writes to bytes.
pub record Flatbuffers : Type 0 where
  pub finish_header : FinishHeader
  -- Virtual time and sequence number of an `Rf802154Header`.
  pub rf802154_header : List ℕ → Option (ℕ × ℕ)
  -- Virtual time of a `LinFrame`.
  pub lin_frame : List ℕ → Option ℕ
  pub coord_done_req : List ℕ → Option CoordDoneReq

pub record State (f : Float) : Type 0 where
  pub topo : TopologyGraph f
  pub barrier : QuantumBarrier
  pub pcap_log : Option (List ℕ)
  pub node_batches : List (ℕ × List CoordMessage)
  pub seen_nodes : List ℕ
  pub current_quantum : ℕ
  -- The arguments of the command line.
  pub nodes : ℕ
  pub no_pdes : Bool
  pub delay_ns : ℕ

-- What a legacy payload carries; a malformed frame is skipped.
pub data Unpacked : Type 0 where
  malformed missing : Unpacked
  frame : (vtime seq : ℕ) → List ℕ → Unpacked

abbrev pub word : Option (ℕ × List ℕ) → ℕ
word none = 0
word (some (v, rest)) = v

-- LIN, CAN FD and FlexRay frames have no header of the transport.
abbrev pub is_raw : Protocol → Bool
is_raw Protocol.lin = true
is_raw Protocol.can_fd = true
is_raw Protocol.flex_ray = true
is_raw _ = false

abbrev or_zero : Option ℕ → ℕ
or_zero none = 0
or_zero (some n) = n

abbrev is_lin : Protocol → Bool
is_lin Protocol.lin = true
is_lin _ = false

abbrev is_rf802154 : Protocol → Bool
is_rf802154 Protocol.rf802154 = true
is_rf802154 _ = false

-- The IEEE 802.15.4 header behind its size.
unfoldable pub unpack_rf802154 : Flatbuffers → List ℕ → Option Unpacked
unpack_rf802154 fb payload =
    let sz = word (read_le 4 payload) in
    if leb 4 (length payload) && (ltb 0 sz && (leb sz 1024 && leb (4 + sz) (length payload)))
    then elim (fb.rf802154_header (take sz (drop 4 payload))) [
      | none ↦ none
      | some (vtime, seq) ↦ some (frame vtime seq (drop (4 + sz) payload))
    ]
    else none

-- The `ZenohFrameHeader` and as many bytes as it announces.
unfoldable pub unpack_header : List ℕ → Unpacked
unpack_header payload = elim (unpack_slice payload) [
  | none ↦ missing
  | some header ↦
      if leb (zenoh_frame_header_size + header_size header) (length payload)
      then frame (header_vtime header) (header_sequence header)
          (take (header_size header) (drop zenoh_frame_header_size payload))
      else malformed
]

unfoldable pub unpack_fallback : Flatbuffers → Protocol → List ℕ → Unpacked
unfolding unpack_header
unpack_fallback fb proto payload =
    if is_raw proto
    then frame (if is_lin proto then or_zero (fb.lin_frame payload) else 0) 0 payload
    else unpack_header payload

unfoldable pub unpack_legacy : Flatbuffers → Protocol → List ℕ → Unpacked
unfolding unpack_rf802154 unpack_fallback
unpack_legacy fb proto payload =
    if is_rf802154 proto
    then elim (unpack_rf802154 fb payload) [
      | none ↦ unpack_fallback fb proto payload
      | some unpacked ↦ unpacked
    ]
    else unpack_fallback fb proto payload

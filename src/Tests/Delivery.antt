-- ===== src/Tests/Delivery.antt =====
-- Runs of the frames, the topics, the delivery and the loop of the coordinator
-- (tools/deterministic_coordinator, hw/rust/common/virtmcu-api).
use qenode.Base.{true, ℕ, ◌≡◌, refl, ◌≢◌, false, none, some, List, [], ◌∷◌, ◌++◌, arith}
use qenode.Base.Bytes.{Text, ascii}
use qenode.Base.Decimal.{to_string}
use qenode.Base.Maps.{contains, lookup}
use qenode.Base.Order.{nat_ord}
use qenode.Api.{header_vtime, header_sequence, header_size, encode_frame, decode_frame}
use qenode.Api.RoundTrip.{decode_frame-encode_frame}
use qenode.Coordinator.Protocol.{Protocol, is_wireless}
use qenode.Coordinator.Message.{CoordMessage}
use qenode.Coordinator.Barrier.{submit_done}
use qenode.Coordinator.Topology.{
  is_link_allowed, rf_neighbors, near, in_range, distance, has_wireless, malformed,
}
use qenode.Coordinator.Topics.{
  eth_tx, eth_rx, uart_tx, uart_rx, sim_uart_tx, sim_uart_rx, uart_port_tx, uart_port_rx, path,
  can_tx, can_rx, lin_tx, lin_rx, rf_ieee802154_tx, rf_ieee802154_rx, rf_hci_tx, rf_hci_rx,
  parse_legacy_topic,
}
use qenode.Coordinator.Topics.Misread.{parse_legacy_topic-uart_port_tx}
use qenode.Coordinator.Topics.Parse.{Answers, parse_legacy_topic-tx}
use qenode.Coordinator.Delivery.{deliver_message, broadcast, target_nodes}
use qenode.Coordinator.Delivery.Received.{HasPut, Carries, deliver_message-HasPut}
use qenode.Coordinator.Delivery.Targets.{receives, contains-target_nodes}
use qenode.Coordinator.Server.Unpack.{State, Flatbuffers}
use qenode.Coordinator.Server.Done.{done}
use qenode.Coordinator.Server.Legacy.{or_empty}
use qenode.Coordinator.Server.InStep.{InStep, Sample, legacy, control, done_sample, run, run-InStep}
use qenode.Coordinator.Server.Batches.{within, beyond, done_holds_back}
use qenode.Tests.Topology.{hundredths, office, office-DistinctKeys}

decode_frame-encode_frame_example :
    (h : List ℕ) × (decode_frame (encode_frame 1_000_000 3 (0x55 ∷ 0xAA ∷ []))
      ≡ some (h, 0x55 ∷ 0xAA ∷ []))
    × (header_vtime h ≡ 1_000_000)
    × (header_sequence h ≡ 3)
    × (header_size h ≡ 2)
decode_frame-encode_frame_example =
    decode_frame-encode_frame 1_000_000 3 (0x55 ∷ 0xAA ∷ []) (omega arith) (omega arith)
      (omega arith)

parse_legacy_topic-tx_example :
    Answers Protocol.ethernet (ascii "sim/eth/frame") eth_tx eth_rx 7
    × Answers Protocol.uart (ascii "virtmcu/uart") uart_tx uart_rx 7
    × Answers Protocol.uart (ascii "sim/uart") sim_uart_tx sim_uart_rx 7
    × Answers Protocol.can_fd (ascii "sim/can") can_tx can_rx 7
    × Answers Protocol.lin (ascii "sim/lin") lin_tx lin_rx 7
    × Answers Protocol.rf802154 (ascii "sim/rf/ieee802154") rf_ieee802154_tx rf_ieee802154_rx 7
    × Answers Protocol.rf_hci (ascii "sim/rf/hci") rf_hci_tx rf_hci_rx 7
parse_legacy_topic-tx_example = parse_legacy_topic-tx 7 (omega arith)

parse_legacy_topic-uart_port_tx_example :
    (parse_legacy_topic (uart_port_tx (to_string 0) (to_string 3))
      ≡ some (Protocol.uart, 3, ascii "virtmcu/uart/" ++ to_string 0))
    × ((m : Text)
        → path (ascii "virtmcu/uart/" ++ to_string 0) m (ascii "/rx")
          ≡ uart_port_rx (to_string 0) m)
parse_legacy_topic-uart_port_tx_example = parse_legacy_topic-uart_port_tx 0 3 (omega arith)

abbrev beacon : CoordMessage
beacon = record {
  src_node_id = 0;
  dst_node_id = broadcast;
  delivery_vtime_ns = 500;
  sequence_number = 1;
  protocol = Protocol.rf802154;
  payload = 1 ∷ 2 ∷ [];
  base_topic = none;
}

contains-target_nodes_example :
    contains (target_nodes hundredths office (0 ∷ 1 ∷ 2 ∷ []) beacon) 1
    ≡ receives hundredths office (0 ∷ 1 ∷ 2 ∷ []) beacon 1
contains-target_nodes_example =
    contains-target_nodes hundredths office (0 ∷ 1 ∷ 2 ∷ []) beacon 1 office-DistinctKeys

-- A library that reads nothing and writes an empty header.
abbrev no_flatbuffers : Flatbuffers
no_flatbuffers = record {
  finish_header = λ vtime seq size rssi lqi. [];
  rf802154_header = λ bytes. none;
  lin_frame = λ bytes. none;
  coord_done_req = λ bytes. none;
}

abbrev late : CoordMessage
late = record beacon { delivery_vtime_ns = 5000 }

abbrev started : State hundredths
started = record {
  topo = office;
  barrier = record {
    n_nodes = 2;
    max_messages_per_node = 16;
    current_quantum = 1;
    state = record {
      done_count = 0;
      message_buffer = [];
      done_nodes = false ∷ false ∷ [];
      next_quantum_buffer = [];
      next_quantum_done_nodes = false ∷ false ∷ [];
    };
  };
  pcap_log = none;
  node_batches = (0, beacon ∷ late ∷ []) ∷ [];
  seen_nodes = 0 ∷ 1 ∷ [];
  current_quantum = 1;
  nodes = 2;
  no_pdes = false;
  delay_ns = 1_000_000;
}

started-InStep : InStep started
started-InStep = record {
  quantum = refl;
  barrier_valid = record {
    marks = refl;
    next_marks = refl;
    counted = refl;
    bounded = omega arith;
    next_bounded = omega arith;
  };
}

abbrev samples : List (Sample hundredths)
samples =
    legacy (ascii "sim/can/0/tx") (1 ∷ 2 ∷ [])
    ∷ control malformed
    ∷ done_sample (ascii "sim/coord/0/done") (1 ∷ 0 ∷ 0 ∷ 0 ∷ 0 ∷ 0 ∷ 0 ∷ 0 ∷ [])
    ∷ done_sample (ascii "sim/coord/1/done") (1 ∷ 0 ∷ 0 ∷ 0 ∷ 0 ∷ 0 ∷ 0 ∷ 0 ∷ [])
    ∷ []

run-InStep_example : InStep (run hundredths no_flatbuffers started samples)
run-InStep_example = run-InStep hundredths no_flatbuffers started samples started-InStep

done_holds_back_example :
    ((done hundredths no_flatbuffers started 0 1 1000 []).0.barrier
      ≡ (submit_done started.barrier 0 1 started.current_quantum
          (within 1000 (or_empty (lookup 0 started.node_batches)) ++ [])).0)
    × (or_empty (lookup 0 (done hundredths no_flatbuffers started 0 1 1000 []).0.node_batches)
        ≡ beyond 1000 (or_empty (lookup 0 started.node_batches)))
    × ((k : ℕ)
        → 0 ≢ k
        → or_empty (lookup k (done hundredths no_flatbuffers started 0 1 1000 []).0.node_batches)
          ≡ or_empty (lookup k started.node_batches))
done_holds_back_example = done_holds_back hundredths no_flatbuffers started 0 1 1000 []

beacon-receives : receives hundredths office (0 ∷ 1 ∷ 2 ∷ []) beacon 1 ≡ true
unfolding is_link_allowed contains is_wireless rf_neighbors lookup near in_range distance
    has_wireless
beacon-receives = refl

deliver_message-HasPut_example :
    HasPut
      (Carries beacon 1)
      (deliver_message hundredths no_flatbuffers.finish_header office
        (0 ∷ 1 ∷ 2 ∷ [])
        none
        beacon).1
deliver_message-HasPut_example =
    deliver_message-HasPut hundredths no_flatbuffers.finish_header office (0 ∷ 1 ∷ 2 ∷ []) none
      beacon 1 office-DistinctKeys
      (record {
        src = omega arith;
        dst = omega arith;
        vtime = omega arith;
        seq = omega arith;
        len = omega arith;
      })
      beacon-receives

-- ===== src/Tests/Zenoh.antt =====
-- Runs of the older coordinator (tools/zenoh_coordinator).
use qenode.Base.{◌≡◌, true, not, ◌&&◌, none, List, [], ◌∷◌}
use qenode.Base.Bytes.{ascii}
use qenode.Base.Maps.{same, contains}
use qenode.ZenohCoordinator.Message.{Protocol, text_ord}
use qenode.ZenohCoordinator.Barrier.Progress.{Call, submits}
use qenode.ZenohCoordinator.Topology.{TopologyGraph, get_wire_peers, is_link_allowed}
use qenode.ZenohCoordinator.Topology.Peers.{contains-get_wire_peers}
use qenode.Tests.Topology.{hundredths}

-- Both nodes report the next quantum before the second of them reports the running one.
abbrev ahead : List Call
ahead =
    submits (ascii "a") 1 1 []
    ∷ submits (ascii "a") 2 1 []
    ∷ submits (ascii "b") 2 1 []
    ∷ submits (ascii "b") 1 1 []
    ∷ []

abbrev bench : TopologyGraph hundredths
bench = record {
  global_seed = none;
  wire_links =
      record { protocol = Protocol.uart; nodes = ascii "a" ∷ ascii "b" ∷ []; baud = none } ∷ [];
  wireless_medium = none;
  node_positions = [];
  max_wireless_range_m = 0;
  is_explicit = true;
  max_messages_per_node_per_quantum = 1024;
}

contains-get_wire_peers_example :
    contains (get_wire_peers hundredths bench (ascii "a") Protocol.uart) (ascii "b") ≡ (
      bench.is_explicit
      && (not (same (ascii "b") (ascii "a"))
          && is_link_allowed hundredths bench (ascii "a") (ascii "b") Protocol.uart))
contains-get_wire_peers_example =
    contains-get_wire_peers hundredths bench (ascii "a") (ascii "b") Protocol.uart

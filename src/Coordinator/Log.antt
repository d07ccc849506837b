-- ===== src/Coordinator/Log.antt =====
-- tools/deterministic_coordinator/src/message_log.rs: the PCAP log. A log is the bytes that its
-- writer has been given; a write that the file system refuses returns early, and is not modelled.
pub mod ReadBack
use qenode.Base.{ℕ, ◌+◌, ◌/◌, ◌%◌, ◌^◌, List, ◌++◌, length}
use qenode.Base.Bytes.{le_bytes}
use qenode.Coordinator.Protocol.{Protocol}
use qenode.Coordinator.Message.{CoordMessage}

-- The global header of `create`: magic number, version 2.4, time zone, accuracy, snapshot length
-- and link type.
unfoldable pub create : List ℕ
create =
    le_bytes 4 0xa1b2c3d4
    ++ (le_bytes 2 2
        ++ (le_bytes 2 4
            ++ (le_bytes 4 0 ++ (le_bytes 4 0 ++ (le_bytes 4 65535 ++ le_bytes 4 147)))))

unfoldable pub pcap_protocol_id : Protocol → ℕ
pcap_protocol_id Protocol.ethernet = 1
pcap_protocol_id Protocol.uart = 2
pcap_protocol_id Protocol.rf802154 = 3
pcap_protocol_id Protocol.can_fd = 4
pcap_protocol_id Protocol.flex_ray = 5
pcap_protocol_id _ = 255

-- `as u32`
abbrev pub as_u32 : ℕ → ℕ
as_u32 n = n % 2 ^ 32

-- The record that both writers append: the time stamp, the length twice, the addresses, the
-- protocol number and the frame.
abbrev pub packet : (src dst vtime proto : ℕ) → List ℕ → List ℕ
packet src dst vtime proto payload =
    le_bytes 4 (as_u32 (vtime / 1_000_000_000))
    ++ (le_bytes 4 (as_u32 (vtime % 1_000_000_000 / 1000))
        ++ (le_bytes 4 (as_u32 (length payload + 10))
            ++ (le_bytes 4 (as_u32 (length payload + 10))
                ++ (le_bytes 4 src ++ (le_bytes 4 dst ++ (le_bytes 2 proto ++ payload))))))

unfoldable pub write_message : List ℕ → CoordMessage → List ℕ
write_message log msg =
    log
    ++ packet msg.src_node_id msg.dst_node_id msg.delivery_vtime_ns (pcap_protocol_id msg.protocol)
        msg.payload

unfoldable pub write_topology_violation :
    List ℕ → (src_node_id dst_node_id delivery_vtime_ns : ℕ) → Protocol → List ℕ → List ℕ
write_topology_violation log src_node_id dst_node_id delivery_vtime_ns protocol payload =
    log ++ packet src_node_id dst_node_id delivery_vtime_ns 255 payload

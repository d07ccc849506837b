-- ===== src/Coordinator/Topics.antt =====
-- tools/deterministic_coordinator/src/topics.rs and `parse_legacy_topic` of main.rs: the names of
-- the topics on which nodes send and receive.
pub mod Misread
pub mod Parse
use qenode.Base.{
  ℕ, suc, zero, ◌-◌, ◌+◌, ◌^◌, ◌≡◌, Bool, true, false, ◌&&◌, ◌||◌, Option, none, some, List, [],
  ◌∷◌, ◌++◌, ◌==◌, ltb, if◌then◌else◌, length, take,
}
use qenode.Base.Bytes.{Text, ascii, starts_with}
use qenode.Base.Decimal.{parse_unsigned}
use qenode.Base.Do.{◌>>=◌}
use qenode.Coordinator.Protocol.{Protocol}

-- `format!("{}/{}{}", base, node, ending)`
abbrev pub path : Text → Text → Text → Text
path base node ending = base ++ (b'/' ∷ (node ++ ending))

unfoldable pub coord_rx : Text → Text
coord_rx node_id = path (ascii "sim/coord") node_id (ascii "/rx")

unfoldable pub clock_start : Text → Text
clock_start node_id = path (ascii "sim/clock/start") node_id []

unfoldable pub eth_rx : Text → Text
eth_rx node_id = path (ascii "sim/eth/frame") node_id (ascii "/rx")

unfoldable pub eth_tx : Text → Text
eth_tx node_id = path (ascii "sim/eth/frame") node_id (ascii "/tx")

unfoldable pub uart_rx : Text → Text
uart_rx node_id = path (ascii "virtmcu/uart") node_id (ascii "/rx")

unfoldable pub uart_tx : Text → Text
uart_tx node_id = path (ascii "virtmcu/uart") node_id (ascii "/tx")

unfoldable pub sim_uart_tx : Text → Text
sim_uart_tx node_id = path (ascii "sim/uart") node_id (ascii "/tx")

unfoldable pub sim_uart_rx : Text → Text
sim_uart_rx node_id = path (ascii "sim/uart") node_id (ascii "/rx")

unfoldable pub uart_port_tx : Text → Text → Text
uart_port_tx node_id port_id = path (ascii "virtmcu/uart") node_id (b'/' ∷ (port_id ++ ascii "/tx"))

unfoldable pub uart_port_rx : Text → Text → Text
uart_port_rx node_id port_id = path (ascii "virtmcu/uart") node_id (b'/' ∷ (port_id ++ ascii "/rx"))

unfoldable pub can_rx : Text → Text
can_rx node_id = path (ascii "sim/can") node_id (ascii "/rx")

unfoldable pub can_tx : Text → Text
can_tx node_id = path (ascii "sim/can") node_id (ascii "/tx")

unfoldable pub lin_rx : Text → Text
lin_rx node_id = path (ascii "sim/lin") node_id (ascii "/rx")

unfoldable pub lin_tx : Text → Text
lin_tx node_id = path (ascii "sim/lin") node_id (ascii "/tx")

unfoldable pub spi_base : Text → Text → Text
spi_base bus node_id = ascii "sim/spi" ++ (b'/' ∷ (bus ++ (b'/' ∷ node_id)))

unfoldable pub rf_ieee802154_rx : Text → Text
rf_ieee802154_rx node_id = path (ascii "sim/rf/ieee802154") node_id (ascii "/rx")

unfoldable pub rf_ieee802154_tx : Text → Text
rf_ieee802154_tx node_id = path (ascii "sim/rf/ieee802154") node_id (ascii "/tx")

unfoldable pub rf_hci_rx : Text → Text
rf_hci_rx node_id = path (ascii "sim/rf/hci") node_id (ascii "/rx")

unfoldable pub rf_hci_tx : Text → Text
rf_hci_tx node_id = path (ascii "sim/rf/hci") node_id (ascii "/tx")

unfoldable pub chardev_tx : Text → Text
chardev_tx node_id = path (ascii "sim/chardev") node_id (ascii "/tx")

unfoldable pub netdev_tx : Text → Text
netdev_tx node_id = path (ascii "sim/netdev") node_id (ascii "/tx")

unfoldable pub clock_advance : Text → Text
clock_advance node_id = path (ascii "sim/clock/advance") node_id []

unfoldable pub clock_vtime : Text → Text
clock_vtime node_id = path (ascii "sim/clock/vtime") node_id []

unfoldable pub clock_liveliness : Text → Text
clock_liveliness node_id = path (ascii "sim/clock/liveliness") node_id []

unfoldable pub clock_heartbeat : Text → Text
clock_heartbeat node_id = path (ascii "sim/clock/heartbeat") node_id []

unfoldable pub clock_unique_prefix : Text → Text
clock_unique_prefix unique_id = path (ascii "sim/clock") unique_id []

unfoldable pub coord_done : Text → Text
coord_done node_id = path (ascii "sim/coord") node_id (ascii "/done")

unfoldable pub coord_tx : Text → Text
coord_tx node_id = path (ascii "sim/coord") node_id (ascii "/tx")

unfoldable pub test_probe : Text → Text
test_probe suffix = path (ascii "sim/test/probe") suffix []

unfoldable pub uart_unique_prefix : Text → Text
uart_unique_prefix unique_id = path (ascii "virtmcu/uart") unique_id []

unfoldable pub lin_unique_prefix : Text → Text
lin_unique_prefix unique_id = path (ascii "sim/lin") unique_id []

unfoldable pub flexray_unique_prefix : Text → Text
flexray_unique_prefix unique_id = path (ascii "sim/flexray") unique_id []

unfoldable pub telemetry_trace : Text → Text
telemetry_trace node_id = path (ascii "sim/telemetry/trace") node_id []

unfoldable pub chardev_rx : Text → Text
chardev_rx node_id = path (ascii "sim/chardev") node_id (ascii "/rx")

unfoldable pub netdev_rx : Text → Text
netdev_rx node_id = path (ascii "sim/netdev") node_id (ascii "/rx")

unfoldable pub plugin_liveliness : Text → Text → Text
plugin_liveliness plugin node_id = path (ascii "sim") plugin (ascii "/liveliness/" ++ node_id)

-- `str::contains`
unfoldable pub occurs : Text → Text → Bool
unfolding starts_with
occurs needle [] = starts_with needle []
occurs needle (d ∷ ds) = starts_with needle (d ∷ ds) || occurs needle ds

-- A character in front of the parts of a split text.
abbrev pub onto : ℕ → List Text → List Text
onto c [] = (c ∷ []) ∷ []
onto c (part ∷ parts) = (c ∷ part) ∷ parts

-- `topic.split('/')`
unfoldable pub split : Text → List Text
split [] = [] ∷ []
split (c ∷ cs) = let parts = split cs in if c == b'/' then [] ∷ parts else onto c parts

-- `parts.join("/")`
unfoldable pub join : List Text → Text
join [] = []
join (p ∷ []) = p
join (p ∷ q ∷ ps) = p ++ (b'/' ∷ join (q ∷ ps))

-- `parts.iter().rev().nth(1)`
unfoldable pub second_last : List Text → Option Text
second_last [] = none
second_last (p ∷ []) = none
second_last (p ∷ q ∷ []) = some p
second_last (p ∷ q ∷ r ∷ ps) = second_last (q ∷ r ∷ ps)

-- The part that all the protocols share: the node and the base.
unfoldable pub node_and_base : Protocol → List Text → Option (Protocol × ℕ × Text)
unfolding second_last join
node_and_base protocol parts = do
  nid_str ← second_last parts
  nid ← parse_unsigned (2 ^ 32) nid_str
  some (protocol, nid, join (take (length parts - 2) parts))

unfoldable pub topic_protocol : Text → Option Protocol
unfolding occurs
topic_protocol topic =
    if occurs (ascii "eth") topic
    then some Protocol.ethernet
    else if occurs (ascii "uart") topic
    then some Protocol.uart
    else if occurs (ascii "can") topic
    then some Protocol.can_fd
    else if occurs (ascii "lin") topic
    then some Protocol.lin
    else if occurs (ascii "spi") topic
    then some Protocol.spi
    else if occurs (ascii "rf/hci") topic
    then some Protocol.rf_hci
    else if occurs (ascii "rf") topic
    then some Protocol.rf802154
    else if occurs (ascii "systemc") topic
    then some Protocol.ethernet
    else none

unfoldable pub parse_legacy_topic : Text → Option (Protocol × ℕ × Text)
unfolding split node_and_base topic_protocol
parse_legacy_topic topic =
    let parts = split topic in
    if ltb (length parts) 3
    then none
    else topic_protocol topic >>= λ protocol. node_and_base protocol parts

-- ===== src/Coordinator/Topology/World.antt =====
-- tools/deterministic_coordinator/src/topology.rs: `from_yaml`, from the parsed world (the types of
-- generated/topology.rs, less what it does not read) to the graph. Reading the file and parsing
-- YAML are outside: their result is the argument.
pub mod Declared
use qenode.Base.{
  ℕ, suc, ◌-◌, ◌^◌, ◌%◌, ◌≡◌, Bool, true, false, not, ◌&&◌, ◌||◌, Option, none, some, List, [], ◌∷◌,
  ◌==◌, ◌+◌, leb, if◌then◌else◌,
}
use qenode.Base.Bytes.{Text, ascii}
use qenode.Base.Decimal.{parse_unsigned}
use qenode.Base.Float.{Float}
use qenode.Base.Maps.{same, contains, add, insert}
use qenode.Base.Order.{nat_ord, list_ord}
use qenode.Coordinator.Protocol.{Protocol}
use qenode.Coordinator.Topology.{
  Transport, WireLink, Position, WirelessNode, WirelessMedium, TopologyGraph, default,
}

-- `gen::NodeId`; the integer is a `u64`.
pub data NodeId : Type 0 where
  integer : ℕ → NodeId
  string : Text → NodeId

pub record WorldLink : Type 0 where
  pub type_ : Text
  pub nodes : List NodeId
  pub baud : Option ℕ

pub record WorldRadioNode (f : Float) : Type 0 where
  pub name : NodeId
  pub initial_position : Position f

pub record WorldRadio (f : Float) : Type 0 where
  pub medium : Text
  pub nodes : List (WorldRadioNode f)
  pub max_range_m : f.F

pub record WorldTopology (f : Float) : Type 0 where
  pub nodes : List NodeId
  pub links : List WorldLink
  pub wireless : Option (WorldRadio f)
  pub max_messages_per_node_per_quantum : Option ℕ
  pub global_seed : Option Text
  pub transport : Option Transport

pub record World (f : Float) : Type 0 where
  pub peripherals : List NodeId
  pub topology : Option (WorldTopology f)

pub data TopologyError : Type 0 where
  io_error yaml_error split_brain_error : TopologyError
  unknown_node : ℕ → TopologyError

pub data Result {ℓ} (A : Type ℓ) : Type ℓ where
  ok : A → Result A
  err : TopologyError → Result A

infixl 5 ◌>>=◌
abbrev pub ◌>>=◌ {ℓ κ} : {A : Type ℓ} {B : Type κ} → Result A → (A → Result B) → Result B
ok a >>= g = g a
err e >>= g = err e

-- `u32::MAX`, which stands for a name that is no node number.
abbrev pub no_node : ℕ
no_node = 2 ^ 32 - 1

abbrev or_no_node : Option ℕ → ℕ
or_no_node none = no_node
or_no_node (some n) = n

unfoldable pub node_id_to_u32 : NodeId → ℕ
node_id_to_u32 (integer i) = i % 2 ^ 32
node_id_to_u32 (string s) = or_no_node (parse_unsigned (2 ^ 32) s)

-- ASCII letters to lower case. (No letter outside ASCII becomes a protocol's name.)
abbrev pub to_lowercase : Text → Text
to_lowercase [] = []
to_lowercase (c ∷ cs) = (if leb b'A' c && leb c b'Z' then c + 32 else c) ∷ to_lowercase cs

abbrev text_eq : Text → Text → Bool
text_eq s t = same ⦃o = list_ord nat_ord⦄ s t

-- `impl From<gen::Protocol> for Protocol`
unfoldable pub protocol_from : Text → Protocol
protocol_from type_ =
    let name = to_lowercase type_ in
    if text_eq name (ascii "ethernet") || text_eq name (ascii "eth")
    then Protocol.ethernet
    else if text_eq name (ascii "uart")
    then Protocol.uart
    else if text_eq name (ascii "spi")
    then Protocol.spi
    else if text_eq name (ascii "canfd")
    then Protocol.can_fd
    else if text_eq name (ascii "flexray")
    then Protocol.flex_ray
    else if text_eq name (ascii "lin")
    then Protocol.lin
    else if text_eq name (ascii "rf802154")
    then Protocol.rf802154
    else if text_eq name (ascii "rfhci")
    then Protocol.rf_hci
    else Protocol.control

unfoldable pub is_numeric : NodeId → Bool
is_numeric (integer i) = true
is_numeric (string s) = elim (parse_unsigned (2 ^ 32) s) [ none ↦ false | some n ↦ true ]

unfoldable pub any_numeric : List NodeId → Bool
unfolding is_numeric
any_numeric [] = false
any_numeric (p ∷ ps) = is_numeric p || any_numeric ps

-- The numbers of `topology.nodes`; names that are no number are passed over.
unfoldable pub declared_nodes : List NodeId → List ℕ → List ℕ
declared_nodes [] valid = valid
declared_nodes (name ∷ names) valid =
    let id = node_id_to_u32 name in
    declared_nodes names (if id == no_node then valid else add id valid)

-- The numbers of the peripherals, if all are numbers.
unfoldable pub fallback_nodes : List NodeId → Option (List ℕ)
fallback_nodes [] = some []
fallback_nodes (name ∷ names) =
    let id = node_id_to_u32 name in
    if id == no_node
    then none
    else elim (fallback_nodes names) [ none ↦ none | some ids ↦ some (id ∷ ids) ]

abbrev add_all : List ℕ → List ℕ → List ℕ
add_all [] valid = valid
add_all (id ∷ ids) valid = add_all ids (add id valid)

abbrev or_empty : Option (List ℕ) → List ℕ
or_empty none = []
or_empty (some ids) = add_all ids []

unfoldable pub valid_nodes : List NodeId → List NodeId → List ℕ
unfolding declared_nodes fallback_nodes
valid_nodes topology_nodes peripherals = elim (declared_nodes topology_nodes []) [
  | [] ↦ or_empty (fallback_nodes peripherals)
  | id ∷ ids ↦ id ∷ ids
]

unfoldable pub link_nodes : List ℕ → List NodeId → Result (List ℕ)
link_nodes valid [] = ok []
link_nodes valid (name ∷ names) =
    let id = node_id_to_u32 name in
    let rest = link_nodes valid names in
    if contains valid id then rest >>= (λ ids. ok (id ∷ ids)) else err (unknown_node id)

unfoldable pub wire_links_from : List ℕ → List WorldLink → Result (List WireLink)
unfolding link_nodes
wire_links_from valid [] = ok []
wire_links_from valid (link ∷ links) = link_nodes valid link.nodes >>= λ ids.
    wire_links_from valid links >>= λ rest.
    ok (record { protocol = protocol_from link.type_; nodes = ids; baud = link.baud } ∷ rest)

abbrev or_default : Option ℕ → ℕ → ℕ
or_default none d = d
or_default (some n) d = n

abbrev parse_seed : Option Text → ℕ
parse_seed none = 0
parse_seed (some s) = or_default (parse_unsigned (2 ^ 64) s) 0

abbrev transport_or_default : Option Transport → Transport
transport_or_default none = Transport.zenoh
transport_or_default (some t) = t

abbrev pub is_empty : List NodeId → Bool
is_empty [] = true
is_empty (n ∷ ns) = false

module _ (f : Float) where
  -- The loop over the radio nodes: the positions and the nodes of the medium.
  unfoldable pub radio_nodes_from :
      List ℕ
      → List (WorldRadioNode f)
      → List (ℕ × Position f)
      → Result (List (ℕ × Position f) × List (WirelessNode f))
  radio_nodes_from valid [] positions = ok (positions, [])
  radio_nodes_from valid (n ∷ ns) positions =
      let id = node_id_to_u32 n.name in
      let skipped = radio_nodes_from valid ns positions in
      let taken = radio_nodes_from valid ns (insert id n.initial_position positions) >>= (λ found.
        ok (found.0, record { id = id; initial_position = n.initial_position } ∷ found.1)) in
      if id == no_node then skipped else if contains valid id then taken else err (unknown_node id)

  -- The radio medium: positions, medium and range.
  unfoldable pub radio_from :
      List ℕ
      → Option (WorldRadio f)
      → Result (List (ℕ × Position f) × Option (WirelessMedium f) × f.F)
  radio_from valid none = ok ([], none, f.decimal 0 0)
  radio_from valid (some wl) = radio_nodes_from valid wl.nodes [] >>= λ found. ok (
    found.0,
    some (record { medium = wl.medium; nodes = found.1; max_range_m = wl.max_range_m }),
    wl.max_range_m,
  )

  unfoldable pub graph_from : List ℕ → WorldTopology f → Result (TopologyGraph f)
  graph_from valid topo = wire_links_from valid topo.links >>= λ wire_links.
      radio_from valid topo.wireless >>= λ radio. ok (record {
        max_messages_per_node_per_quantum = or_default topo.max_messages_per_node_per_quantum 1024;
        global_seed = parse_seed topo.global_seed;
        transport = transport_or_default topo.transport;
        wire_links = wire_links;
        wireless_medium = radio.1;
        node_positions = radio.0;
        max_wireless_range_m = radio.2;
        is_explicit = true;
        drop_list = [];
      })

  unfoldable pub from_world : World f → Result (TopologyGraph f)
  from_world world = elim (world.topology) [
    | none ↦ ok (default f)
    | some topo ↦
        if not (is_empty topo.nodes) && any_numeric world.peripherals
        then err split_brain_error
        else graph_from (valid_nodes topo.nodes world.peripherals) topo
  ]

  -- `from_yaml`: the errors of reading and of parsing come first.
  unfoldable pub from_yaml : Result (World f) → Result (TopologyGraph f)
  from_yaml parsed = parsed >>= from_world

-- ===== src/ZenohCoordinator/Topology.antt =====
-- tools/zenoh_coordinator/src/topology.rs: `TopologyGraph`, built from a parsed world; reading the
-- file and parsing YAML are outside. Hash maps and sets are association lists.
pub mod Peers
use qenode.Base.{
  ℕ, Bool, true, false, not, ◌&&◌, ◌||◌, Option, none, some, List, [], ◌∷◌, if◌then◌else◌,
}
use qenode.Base.Bytes.{Text}
use qenode.Base.Float.{Float}
use qenode.Base.Maps.{same, contains, add, lookup, insert}
use qenode.ZenohCoordinator.Message.{Protocol, protocol_ord, text_ord}

pub record WireLink : Type 0 where
  pub protocol : Protocol
  pub nodes : List Text
  pub baud : Option ℕ

abbrev pub Position : Float → Type 0
Position f = f.F × f.F × f.F

pub record WirelessNode (f : Float) : Type 0 where
  pub id : Text
  pub initial_position : Position f

pub record WirelessMedium (f : Float) : Type 0 where
  pub medium : Text
  pub nodes : List (WirelessNode f)
  pub max_range_m : f.F

pub record TopologyConfig (f : Float) : Type 0 where
  pub global_seed : Option ℕ
  pub links : List WireLink
  pub wireless : Option (WirelessMedium f)

pub record TopologyGraph (f : Float) : Type 0 where
  pub global_seed : Option ℕ
  pub wire_links : List WireLink
  pub wireless_medium : Option (WirelessMedium f)
  pub node_positions : List (Text × Position f)
  pub max_wireless_range_m : f.F
  pub is_explicit : Bool
  pub max_messages_per_node_per_quantum : ℕ

-- `peers.insert` of the nodes of a link, less the node itself.
unfoldable pub add_peers : Text → List Text → List Text → List Text
add_peers node_id [] peers = peers
add_peers node_id (node ∷ nodes) peers =
    add_peers node_id nodes (if same node node_id then peers else add node peers)

-- The loop of `get_wire_peers`.
unfoldable pub wire_peers : List WireLink → Text → Protocol → List Text → List Text
unfolding add_peers
wire_peers [] node_id protocol peers = peers
wire_peers (link ∷ links) node_id protocol peers = wire_peers links node_id protocol (
    if same link.protocol protocol && contains link.nodes node_id
    then add_peers node_id link.nodes peers
    else peers)

-- The loop of `is_link_allowed`.
unfoldable pub on_wire : List WireLink → (src dst : Text) → Protocol → Bool
on_wire [] src dst protocol = false
on_wire (link ∷ links) src dst protocol =
    (same link.protocol protocol && (contains link.nodes src && contains link.nodes dst))
    || on_wire links src dst protocol

module _ (f : Float) where
  unfoldable pub default : TopologyGraph f
  default = record {
    global_seed = none;
    wire_links = [];
    wireless_medium = none;
    node_positions = [];
    max_wireless_range_m = f.decimal 0 0;
    is_explicit = false;
    max_messages_per_node_per_quantum = 1024;
  }

  unfoldable pub radio_positions :
      List (WirelessNode f) → List (Text × Position f) → List (Text × Position f)
  radio_positions [] positions = positions
  radio_positions (n ∷ ns) positions = radio_positions ns (insert n.id n.initial_position positions)

  -- `from_yaml`, from what `serde_yaml` makes of the file.
  unfoldable pub from_world : Option (TopologyConfig f) → TopologyGraph f
  unfolding default radio_positions
  from_world none = default
  from_world (some topo) = record {
    global_seed = topo.global_seed;
    wire_links = topo.links;
    wireless_medium = topo.wireless;
    node_positions = elim (topo.wireless) [ none ↦ [] | some wl ↦ radio_positions wl.nodes [] ];
    max_wireless_range_m = elim (topo.wireless) [ none ↦ f.decimal 0 0 | some wl ↦ wl.max_range_m ];
    is_explicit = true;
    max_messages_per_node_per_quantum = 1024;
  }

  unfoldable pub has_wireless : TopologyGraph f → Bool
  has_wireless t = elim (t.wireless_medium) [ none ↦ false | some medium ↦ true ]

  unfoldable pub is_link_allowed : TopologyGraph f → (src dst : Text) → Protocol → Bool
  unfolding on_wire
  is_link_allowed t src dst protocol =
      if not t.is_explicit then true else on_wire t.wire_links src dst protocol

  unfoldable pub get_wire_peers : TopologyGraph f → Text → Protocol → List Text
  unfolding wire_peers
  get_wire_peers t node_id protocol =
      if not t.is_explicit then [] else wire_peers t.wire_links node_id protocol []

  unfoldable pub update_positions : TopologyGraph f → List (Text × Position f) → TopologyGraph f
  update_positions t [] = t
  update_positions t ((id, pos) ∷ updates) =
      update_positions (record t { node_positions = insert id pos t.node_positions }) updates

  -- `dist <= self.max_wireless_range_m + 1e-6`
  unfoldable pub in_range : f.F → Position f → Position f → Bool
  in_range range a b =
      let dx = f.sub a.0 b.0 in
      let dy = f.sub a.1 b.1 in
      let dz = f.sub a.2 b.2 in
      f.le (f.sqrt (f.add (f.add (f.mul dx dx) (f.mul dy dy)) (f.mul dz dz)))
        (f.add range (f.decimal 1 6))

  -- The loop of `rf_neighbors`.
  unfoldable pub near : f.F → Text → Position f → List (Text × Position f) → List Text → List Text
  unfolding in_range
  near range node_id my_pos [] neighbors = neighbors
  near range node_id my_pos ((other_id, other_pos) ∷ rest) neighbors =
      near range node_id my_pos rest (
        if same other_id node_id
        then neighbors
        else if in_range range my_pos other_pos
        then add other_id neighbors
        else neighbors)

  unfoldable pub rf_neighbors : TopologyGraph f → Text → List Text
  unfolding has_wireless near
  rf_neighbors t node_id =
      if has_wireless t
      then elim (lookup node_id t.node_positions) [
        | none ↦ []
        | some my_pos ↦ near t.max_wireless_range_m node_id my_pos t.node_positions []
      ]
      else []

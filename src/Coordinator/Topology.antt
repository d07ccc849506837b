-- ===== src/Coordinator/Topology.antt =====
-- tools/deterministic_coordinator/src/topology.rs: `TopologyGraph`, who may talk to whom. Positions
-- are over the abstract `f64`; hash maps and sets are association lists.
pub mod Links
pub mod World
use qenode.Base.{
  ℕ, Bool, true, false, not, ◌&&◌, ◌||◌, Option, none, some, List, [], ◌∷◌, ◌^◌, ◌==◌,
  if◌then◌else◌,
}
use qenode.Base.Bytes.{Text}
use qenode.Base.Decimal.{parse_unsigned}
use qenode.Base.Do.{◌>>=◌}
use qenode.Base.Float.{Float}
use qenode.Base.Maps.{same, contains, add, remove, lookup, insert}
use qenode.Base.Order.{Ord, nat_ord, pair_ord}
use qenode.Coordinator.Protocol.{Protocol, protocol_ord, is_wireless}

instance abbrev pub link_ord : Ord (ℕ × ℕ)
link_ord = pair_ord nat_ord nat_ord

pub data Transport : Type 0 where
  zenoh unix : Transport

pub record WireLink : Type 0 where
  pub protocol : Protocol
  pub nodes : List ℕ
  pub baud : Option ℕ

abbrev pub Position : Float → Type 0
Position f = f.F × f.F × f.F

pub record WirelessNode (f : Float) : Type 0 where
  pub id : ℕ
  pub initial_position : Position f

pub record WirelessMedium (f : Float) : Type 0 where
  pub medium : Text
  pub nodes : List (WirelessNode f)
  pub max_range_m : f.F

pub record TopologyGraph (f : Float) : Type 0 where
  pub max_messages_per_node_per_quantum : ℕ
  pub global_seed : ℕ
  pub transport : Transport
  pub wire_links : List WireLink
  pub wireless_medium : Option (WirelessMedium f)
  pub node_positions : List (ℕ × Position f)
  pub max_wireless_range_m : f.F
  pub is_explicit : Bool
  pub drop_list : List (ℕ × ℕ)

module _ (f : Float) where
  -- `TopologyGraph::default()`
  unfoldable pub default : TopologyGraph f
  default = record {
    max_messages_per_node_per_quantum = 1024;
    global_seed = 0;
    transport = Transport.zenoh;
    wire_links = [];
    wireless_medium = none;
    node_positions = [];
    max_wireless_range_m = f.decimal 0 0;
    is_explicit = false;
    drop_list = [];
  }

  unfoldable pub distance : Position f → Position f → f.F
  distance a b =
      let dx = f.sub a.0 b.0 in
      let dy = f.sub a.1 b.1 in
      let dz = f.sub a.2 b.2 in f.sqrt (f.add (f.add (f.mul dx dx) (f.mul dy dy)) (f.mul dz dz))

  -- `dist <= self.max_wireless_range_m + 1e-6`
  unfoldable pub in_range : f.F → Position f → Position f → Bool
  unfolding distance
  in_range range a b = f.le (distance a b) (f.add range (f.decimal 1 6))

  -- The loop of `rf_neighbors` over the known positions.
  unfoldable pub near : f.F → ℕ → Position f → List (ℕ × Position f) → List ℕ
  near range node_id my_pos [] = []
  near range node_id my_pos ((other_id, other_pos) ∷ rest) =
      let others = near range node_id my_pos rest in
      if other_id == node_id
      then others
      else if in_range range my_pos other_pos
      then other_id ∷ others
      else others

  unfoldable pub has_wireless : TopologyGraph f → Bool
  has_wireless t = elim (t.wireless_medium) [ none ↦ false | some medium ↦ true ]

  unfoldable pub rf_neighbors : TopologyGraph f → ℕ → List ℕ
  unfolding has_wireless
  rf_neighbors t node_id =
      if has_wireless t
      then elim (lookup node_id t.node_positions) [
        | none ↦ []
        | some my_pos ↦ near t.max_wireless_range_m node_id my_pos t.node_positions
      ]
      else []

  -- `update_positions`
  unfoldable pub insert_all : List (ℕ × Position f) → List (ℕ × Position f) → List (ℕ × Position f)
  insert_all positions [] = positions
  insert_all positions ((id, pos) ∷ updates) = insert_all (insert id pos positions) updates

  unfoldable pub update_positions : TopologyGraph f → List (ℕ × Position f) → TopologyGraph f
  update_positions t updates = record t { node_positions = insert_all t.node_positions updates }

-- The loop of `is_link_allowed` over the wire links.
unfoldable pub on_wire : List WireLink → (src dst : ℕ) → Protocol → Bool
on_wire [] src dst protocol = false
on_wire (link ∷ links) src dst protocol =
    (same link.protocol protocol && (contains link.nodes src && contains link.nodes dst))
    || on_wire links src dst protocol

module _ (f : Float) where
  unfoldable pub is_link_allowed : TopologyGraph f → (src dst : ℕ) → Protocol → Bool
  is_link_allowed t src dst protocol =
      if contains t.drop_list (src, dst) || contains t.drop_list (dst, src)
      then false
      else if not t.is_explicit
      then true
      else if is_wireless protocol
      then contains (rf_neighbors f t src) dst
      else on_wire t.wire_links src dst protocol

  -- What `serde_json` finds in a control message: the text is no JSON, or the three fields, each
  -- with its expected type or not there.
  pub data Control : Type 0 where
    malformed : Control
    fields : (from to : Option Text) → (drop_probability : Option f.F) → Control

  -- Both numbers are parsed before anything changes.
  unfoldable pub drop_link : TopologyGraph f → Text → Text → f.F → Option (TopologyGraph f)
  drop_link t from to drop_prob = parse_unsigned (2 ^ 32) from >>= λ from_node.
      parse_unsigned (2 ^ 32) to >>= λ to_node. some (
        if f.le (f.decimal 99 2) drop_prob
        then record t { drop_list = add (from_node, to_node) t.drop_list }
        else if f.le drop_prob (f.decimal 1 2)
        then record t {
          drop_list = remove (to_node, from_node) (remove (from_node, to_node) t.drop_list);
        }
        else t)

  -- `update_from_json`; `none` is an error, which leaves the graph as it was.
  unfoldable pub update_from_json : TopologyGraph f → Control → Option (TopologyGraph f)
  unfolding drop_link
  update_from_json t malformed = none
  update_from_json t (fields (some from) (some to) (some drop_prob)) = drop_link t from to drop_prob
  update_from_json t _ = some t

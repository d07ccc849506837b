-- ===== src/Coordinator/Topology/World/Declared.antt =====
-- What `from_yaml` guarantees of a graph that it returns, and what its errors mean.
use qenode.Base.{
  ℕ, ◌≡◌, refl, map, Bool, true, false, not, ◌&&◌, Option, none, some, List, [], ◌∷◌, ◌==◌,
  Bool-cases, inl, inr,
}
use qenode.Base.Float.{Float}
use qenode.Base.Maps.{contains, insert, DistinctKeys, insert-DistinctKeys}
use qenode.Base.Order.{nat_ord}
use qenode.Coordinator.Topology.{WireLink, Position, WirelessNode, WirelessMedium, TopologyGraph}
use qenode.Coordinator.Topology.World.{
  NodeId, WorldLink, WorldRadioNode, WorldRadio, WorldTopology, TopologyError, io_error, yaml_error,
  split_brain_error, unknown_node, Result, ok, err, ◌>>=◌, no_node, node_id_to_u32, any_numeric,
  valid_nodes, link_nodes, protocol_from, wire_links_from, radio_nodes_from, radio_from, graph_from,
  from_world, is_empty,
}

-- What holds of a result: `P` of a value, `Q` of an error.
abbrev pub Post {ℓ} : {A : Type ℓ} → (A → Type 0) → (TopologyError → Type 0) → Result A → Type 0
Post P Q (ok a) = P a
Post P Q (err e) = Q e

Post->>= {ℓ κ} :
    {A : Type ℓ} {B : Type κ} (P : A → Type 0) (R : B → Type 0) (Q : TopologyError → Type 0)
    (m : Result A) (g : A → Result B)
    → Post P Q m
    → ((a : A) → P a → Post R Q (g a))
    → Post R Q (m >>= g)
Post->>= P R Q (ok a) g h k = k a h
Post->>= P R Q (err e) g h k = h

-- The only error that building the graph can report is a node that is not declared.
abbrev pub IsUndeclared : List ℕ → TopologyError → Type 0
IsUndeclared valid (unknown_node n) = contains valid n ≡ false
IsUndeclared valid _ = ⊥

abbrev pub AllDeclared : List ℕ → List ℕ → Type 0
AllDeclared valid [] = Unit
AllDeclared valid (n ∷ ns) = (contains valid n ≡ true) × AllDeclared valid ns

abbrev pub LinksDeclared : List ℕ → List WireLink → Type 0
LinksDeclared valid [] = Unit
LinksDeclared valid (l ∷ ls) = AllDeclared valid l.nodes × LinksDeclared valid ls

-- A link of the world as a link of the graph.
abbrev pub link_from : WorldLink → WireLink
link_from link = record {
  protocol = protocol_from link.type_;
  nodes = map node_id_to_u32 link.nodes;
  baud = link.baud;
}

abbrev NamesPost : List ℕ → List NodeId → List ℕ → Type 0
NamesPost valid names ids = AllDeclared valid ids × (ids ≡ map node_id_to_u32 names)

link_nodes-NamesPost :
    (valid : List ℕ) (names : List NodeId)
    → Post (NamesPost valid names) (IsUndeclared valid) (link_nodes valid names)
unfolding link_nodes
link_nodes-NamesPost valid [] = (tt, refl)
link_nodes-NamesPost valid (name ∷ names) =
    let rest =
      Post->>= (NamesPost valid names) (NamesPost valid (name ∷ names)) (IsUndeclared valid)
        (link_nodes valid names) (λ ids. ok (node_id_to_u32 name ∷ ids))
        (link_nodes-NamesPost valid names) in
    elim (Bool-cases (contains valid (node_id_to_u32 name))) [
      | inl h ↦ rw h (rest (λ ids d. ((h, d.0), rw d.1)))
      | inr h ↦ rw h h
    ]

abbrev LinksPost : List ℕ → List WorldLink → List WireLink → Type 0
LinksPost valid links wired = LinksDeclared valid wired × (wired ≡ map link_from links)

wire_links_from-LinksPost :
    (valid : List ℕ) (links : List WorldLink)
    → Post (LinksPost valid links) (IsUndeclared valid) (wire_links_from valid links)
unfolding wire_links_from
wire_links_from-LinksPost valid [] = (tt, refl)
wire_links_from-LinksPost valid (link ∷ links) =
    let ih = wire_links_from-LinksPost valid links in
    Post->>= (NamesPost valid link.nodes) (LinksPost valid (link ∷ links)) (IsUndeclared valid)
      (link_nodes valid link.nodes) _ (link_nodes-NamesPost valid link.nodes)
      (λ ids d.
        Post->>= (LinksPost valid links) (LinksPost valid (link ∷ links)) (IsUndeclared valid)
          (wire_links_from valid links) _ ih (λ rest e. ((d.0, e.0), rw (d.1, e.1))))

module _ (f : Float) where
  abbrev pub RadioDeclared : List ℕ → List (WirelessNode f) → Type 0
  RadioDeclared valid [] = Unit
  RadioDeclared valid (n ∷ ns) = (contains valid n.id ≡ true) × RadioDeclared valid ns

  -- Radio nodes are declared, and no node has two positions.
  abbrev RadioPost : List ℕ → List (ℕ × Position f) × List (WirelessNode f) → Type 0
  RadioPost valid (positions, nodes) = DistinctKeys positions × RadioDeclared valid nodes

  radio_nodes_from-RadioPost :
      (valid : List ℕ) (ns : List (WorldRadioNode f)) (positions : List (ℕ × Position f))
      → DistinctKeys positions
      → Post (RadioPost valid) (IsUndeclared valid) (radio_nodes_from f valid ns positions)
  unfolding radio_nodes_from
  radio_nodes_from-RadioPost valid [] positions d = (d, tt)
  radio_nodes_from-RadioPost valid (n ∷ ns) positions d =
      let id = node_id_to_u32 n.name in
      let positions' = insert id n.initial_position positions in
      let skipped = radio_nodes_from-RadioPost valid ns positions d in
      let found =
        radio_nodes_from-RadioPost valid ns positions'
          (insert-DistinctKeys id n.initial_position positions d) in
      elim (Bool-cases (id == no_node)) [
        | inl h ↦ rw h skipped
        | inr h ↦ elim (Bool-cases (contains valid id)) [
          | inl k ↦
              rw (h, k)
                (Post->>= (RadioPost valid) (RadioPost valid) (IsUndeclared valid)
                  (radio_nodes_from f valid ns positions') _ found (λ r q. (q.0, (k, q.1))))
          | inr k ↦ rw (h, k) k
        ]
      ]

  abbrev pub MediumDeclared : List ℕ → Option (WirelessMedium f) → Type 0
  MediumDeclared valid none = Unit
  MediumDeclared valid (some m) = RadioDeclared valid m.nodes

  abbrev FromRadio : List ℕ → List (ℕ × Position f) × Option (WirelessMedium f) × f.F → Type 0
  FromRadio valid (positions, medium, range) = DistinctKeys positions × MediumDeclared valid medium

  radio_from-FromRadio :
      (valid : List ℕ) (radio : Option (WorldRadio f))
      → Post (FromRadio valid) (IsUndeclared valid) (radio_from f valid radio)
  unfolding radio_from
  radio_from-FromRadio valid none = (tt, tt)
  radio_from-FromRadio valid (some wl) =
      Post->>= (RadioPost valid) (FromRadio valid) (IsUndeclared valid)
        (radio_nodes_from f valid wl.nodes []) _ (radio_nodes_from-RadioPost valid wl.nodes [] tt)
        (λ r q. q)

  -- A graph that is built from declared nodes only, explicit, with one position a node and the
  -- links of the world.
  abbrev pub IsDeclared : List ℕ → WorldTopology f → TopologyGraph f → Type 0
  IsDeclared valid topo g =
      LinksDeclared valid g.wire_links
      × (g.wire_links ≡ map link_from topo.links)
      × MediumDeclared valid g.wireless_medium
      × DistinctKeys g.node_positions
      × (g.is_explicit ≡ true)
      × (g.drop_list ≡ [])

  graph_from-IsDeclared :
      (valid : List ℕ) (topo : WorldTopology f)
      → Post (IsDeclared valid topo) (IsUndeclared valid) (graph_from f valid topo)
  unfolding graph_from
  graph_from-IsDeclared valid topo =
      Post->>= (LinksPost valid topo.links) (IsDeclared valid topo) (IsUndeclared valid)
        (wire_links_from valid topo.links) _ (wire_links_from-LinksPost valid topo.links)
        (λ links d.
          Post->>= (FromRadio valid) (IsDeclared valid topo) (IsUndeclared valid)
            (radio_from f valid topo.wireless) _ (radio_from-FromRadio valid topo.wireless)
            (λ radio e. (d.0, d.1, e.1, e.0, refl, refl)))

  -- Nodes are declared in two places.
  abbrev pub is_split : List NodeId → WorldTopology f → Bool
  is_split peripherals topo = not (is_empty topo.nodes) && any_numeric peripherals

  abbrev pub Sound : List NodeId → WorldTopology f → Result (TopologyGraph f) → Type 0
  Sound peripherals topo (ok g) =
      (is_split peripherals topo ≡ false) × IsDeclared (valid_nodes topo.nodes peripherals) topo g
  Sound peripherals topo (err split_brain_error) = is_split peripherals topo ≡ true
  Sound peripherals topo (err (unknown_node n)) =
      (is_split peripherals topo ≡ false)
      × (contains (valid_nodes topo.nodes peripherals) n ≡ false)
  Sound peripherals topo (err _) = ⊥

  Post-Sound :
      (peripherals : List NodeId) (topo : WorldTopology f) (r : Result (TopologyGraph f))
      → is_split peripherals topo ≡ false
      → Post
          (IsDeclared (valid_nodes topo.nodes peripherals) topo)
          (IsUndeclared (valid_nodes topo.nodes peripherals))
          r
      → Sound peripherals topo r
  Post-Sound peripherals topo (ok g) h p = (h, p)
  Post-Sound peripherals topo (err (unknown_node n)) h p = (h, p)
  Post-Sound peripherals topo (err split_brain_error) h p = absurd p
  Post-Sound peripherals topo (err io_error) h p = p
  Post-Sound peripherals topo (err yaml_error) h p = p

  -- Whatever world with a topology is read: the split-brain error is reported exactly if the
  -- topology lists nodes while some peripheral is numeric. Else either the graph has the links of
  -- the world, in order and with each name as its number, every node of a link and of the radio
  -- medium is declared, no node has two positions, the graph is explicit and no link is dropped; or
  -- the error is an unknown node, and that node is not declared.
  pub from_world-Sound :
      (peripherals : List NodeId) (topo : WorldTopology f)
      → Sound peripherals topo
          (from_world f (record { peripherals = peripherals; topology = some topo }))
  unfolding from_world
  from_world-Sound peripherals topo =
      let valid = valid_nodes topo.nodes peripherals in
      elim (Bool-cases (is_split peripherals topo)) [
        | inl h ↦ rw h h
        | inr h ↦ rw h (
            Post-Sound peripherals topo (graph_from f valid topo) h
              (graph_from-IsDeclared valid topo))
      ]

-- ===== src/ZenohCoordinator/Topology/Peers.antt =====
-- The wire peers of a node, compared with the links that are allowed.
use qenode.Base.{
  ◌≡◌, refl, sym, ◌∙◌, ap, Bool, true, false, not, ◌&&◌, ◌||◌, List, [], ◌∷◌, arith, if◌then◌else◌,
}
use qenode.Base.Bytes.{Text}
use qenode.Base.Float.{Float}
use qenode.Base.Maps.{same, same_iff, contains, add, contains-add}
use qenode.ZenohCoordinator.Message.{Protocol, protocol_ord, text_ord}
use qenode.ZenohCoordinator.Topology.{
  WireLink, TopologyGraph, add_peers, wire_peers, on_wire, is_link_allowed, get_wire_peers,
}

same-swap : (x n node : Text) → same x n ≡ true → same n node ≡ same x node
same-swap x n node h = ap (λ (k : Text). same k node) (sym ((same_iff x n).0 h))

-- The tests of one step of the loop, with `x` the node at hand.
peers_step :
    (x_is_node n_is_node x_is_n among later : Bool)
    → (x_is_n ≡ true → n_is_node ≡ x_is_node)
    → ((if x_is_node then among else x_is_n || among) || (not n_is_node && later))
      ≡ (among || (not n_is_node && (x_is_n || later)))
peers_step x_is_node n_is_node x_is_n among later h = ground arith

contains-choice :
    (b : Bool) (x : Text) (peers : List Text) (n : Text)
    → contains (if b then peers else add x peers) n
      ≡ (if b then contains peers n else same x n || contains peers n)
contains-choice true x peers n = refl
contains-choice false x peers n = contains-add x n peers

contains-add_peers :
    (node : Text) (nodes peers : List Text) (n : Text)
    → contains (add_peers node nodes peers) n
      ≡ (contains peers n || (not (same n node) && contains nodes n))
unfolding add_peers
contains-add_peers node [] peers n = unfold contains in ground arith
contains-add_peers node (x ∷ nodes) peers n =
    contains-add_peers node nodes (if same x node then peers else add x peers) n
    ∙ ap (λ b. b || (not (same n node) && contains nodes n))
        (contains-choice (same x node) x peers n)
    ∙ peers_step (same x node) (same n node) (same x n) (contains peers n) (contains nodes n)
        (same-swap x n node)
    ∙ unfold contains in refl

contains-wire_peers :
    (links : List WireLink) (node : Text) (protocol : Protocol) (peers : List Text) (n : Text)
    → contains (wire_peers links node protocol peers) n
      ≡ (contains peers n || (not (same n node) && on_wire links node n protocol))
unfolding wire_peers on_wire
contains-wire_peers [] node protocol peers n = ground arith
contains-wire_peers (link ∷ links) node protocol peers n =
    let hit = same link.protocol protocol && contains link.nodes node in
    contains-wire_peers links node protocol (if hit then add_peers node link.nodes peers else peers)
      n
    ∙ ground (arith, contains-add_peers node link.nodes peers n)

module _ (f : Float) (t : TopologyGraph f) where
  -- A node is a wire peer of another exactly if the topology is explicit, they are not the same, and
  -- the link from that one to it is allowed.
  pub contains-get_wire_peers :
      (node n : Text) (protocol : Protocol)
      → contains (get_wire_peers f t node protocol) n
        ≡ (t.is_explicit && (not (same n node) && is_link_allowed f t node n protocol))
  unfolding get_wire_peers is_link_allowed contains
  contains-get_wire_peers node n protocol =
      ground (arith, contains-wire_peers t.wire_links node protocol [] n)

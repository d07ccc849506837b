-- ===== src/Coordinator/Topology/Links.antt =====
-- Laws of `TopologyGraph`: links have no direction, and a dropped link can be restored.
use qenode.Base.{
  ℕ, ◌≡◌, refl, sym, ap, ◌∙◌, Bool, true, false, not, ◌&&◌, ◌||◌, Option, none, some, List, [], ◌∷◌,
  ◌^◌, ◌==◌, arith,
}
use qenode.Base.Bytes.{Text}
use qenode.Base.Decimal.{parse_unsigned}
use qenode.Base.Float.{Float, SquaresAgree}
use qenode.Base.Maps.{
  same_refl, same_iff, contains, add, remove, lookup, DistinctKeys, contains-add, contains-remove,
}
use qenode.Base.Order.{nat_ord}
use qenode.Coordinator.Protocol.{Protocol, protocol_ord}
use qenode.Coordinator.Topology.{
  link_ord, Position, WireLink, TopologyGraph, distance, in_range, near, has_wireless, rf_neighbors,
  on_wire, is_link_allowed, fields, update_from_json,
}

module _ (f : Float) where
  -- Whether a position, if it is known, is in range of `my_pos`.
  abbrev pub known_in_range : f.F → Position f → Option (Position f) → Bool
  known_in_range range my_pos none = false
  known_in_range range my_pos (some pos) = in_range f range my_pos pos

  pub contains-near :
      (range : f.F) (node : ℕ) (my_pos : Position f) (m : List (ℕ × Position f)) (other : ℕ)
      → DistinctKeys m
      → contains (near f range node my_pos m) other
        ≡ (not (other == node) && known_in_range range my_pos (lookup other m))
  unfolding contains near lookup
  contains-near range node my_pos [] other d = ground arith
  contains-near range node my_pos ((id, pos) ∷ m) other d =
      ground (arith, contains-near range node my_pos m other d.1)

  distance_symm : SquaresAgree f → (a b : Position f) → distance f a b ≡ distance f b a
  unfolding distance
  distance_symm squares a b = rw (distance, squares a.0 b.0, squares a.1 b.1, squares a.2 b.2)

  in_range_symm :
      SquaresAgree f
      → (range : f.F) (a b : Position f) → in_range f range a b ≡ in_range f range b a
  unfolding in_range
  in_range_symm squares range a b = rw (in_range, distance_symm squares a b)

  -- Whether two nodes at these positions, where they are known, are neighbours.
  abbrev pub linked : f.F → (node other : ℕ) → Option (Position f) → Option (Position f) → Bool
  linked range node other none to = false
  linked range node other (some my_pos) to = not (other == node) && known_in_range range my_pos to

  contains-rf_neighbors :
      (t : TopologyGraph f) (node other : ℕ) (at_node : Option (Position f))
      → DistinctKeys t.node_positions
      → lookup node t.node_positions ≡ at_node
      → contains (rf_neighbors f t node) other ≡ (
          has_wireless f t
          && linked t.max_wireless_range_m node other at_node (lookup other t.node_positions))
  unfolding rf_neighbors contains
  contains-rf_neighbors t node other none d e = ground arith
  contains-rf_neighbors t node other (some my_pos) d e =
      ground (arith, contains-near t.max_wireless_range_m node my_pos t.node_positions other d)

  linked_symm :
      SquaresAgree f
      → (range : f.F) (node other : ℕ) (x y : Option (Position f))
      → linked range node other x y ≡ linked range other node y x
  linked_symm squares range node other none none = refl
  linked_symm squares range node other none (some b) = ground arith
  linked_symm squares range node other (some a) none = ground arith
  linked_symm squares range node other (some a) (some b) =
      ground (arith, in_range_symm squares range a b)

  rf_neighbors_symm :
      SquaresAgree f
      → (t : TopologyGraph f) (a b : ℕ) → DistinctKeys t.node_positions
      → contains (rf_neighbors f t a) b ≡ contains (rf_neighbors f t b) a
  rf_neighbors_symm squares t a b d =
      contains-rf_neighbors t a b (lookup a t.node_positions) d refl
      ∙ ap (◌&&◌ (has_wireless f t)) (
          linked_symm squares t.max_wireless_range_m a b (lookup a t.node_positions)
            (lookup b t.node_positions))
      ∙ sym (contains-rf_neighbors t b a (lookup b t.node_positions) d refl)

on_wire_symm :
    (links : List WireLink) (a b : ℕ) (p : Protocol) → on_wire links a b p ≡ on_wire links b a p
unfolding on_wire
on_wire_symm [] a b p = refl
on_wire_symm (link ∷ links) a b p = ground (arith, on_wire_symm links a b p)

module _ (f : Float) where
  -- Links have no direction: whatever the protocol, the topology and the links that were dropped,
  -- a node may send to another exactly if that one may send to it. (For radio links by the distance
  -- of the positions, whose squares do not depend on the direction.)
  pub is_link_allowed_symm :
      SquaresAgree f
      → (t : TopologyGraph f) (a b : ℕ) (p : Protocol) → DistinctKeys t.node_positions
      → is_link_allowed f t a b p ≡ is_link_allowed f t b a p
  unfolding is_link_allowed
  is_link_allowed_symm squares t a b p d =
      ground (arith, rf_neighbors_symm f squares t a b d, on_wire_symm t.wire_links a b p)

  -- A graph with another list of dropped links.
  abbrev pub with_drops : TopologyGraph f → List (ℕ × ℕ) → TopologyGraph f
  with_drops t drops = record t { drop_list = drops }

  is_link_allowed-dropped :
      (t : TopologyGraph f) (a b : ℕ) (p : Protocol)
      → (contains t.drop_list (a, b) || contains t.drop_list (b, a)) ≡ true
      → is_link_allowed f t a b p ≡ false
  unfolding is_link_allowed
  is_link_allowed-dropped t a b p h = ground arith

  is_link_allowed-with_drops :
      (t : TopologyGraph f) (drops : List (ℕ × ℕ))
      → ((x : ℕ × ℕ) → contains drops x ≡ contains t.drop_list x)
      → (a b : ℕ) (p : Protocol)
      → is_link_allowed f (with_drops t drops) a b p ≡ is_link_allowed f t a b p
  unfolding is_link_allowed rf_neighbors has_wireless
  is_link_allowed-with_drops t drops h a b p = ground (arith, h (a, b), h (b, a))

added-contains : (a b : ℕ) (drops : List (ℕ × ℕ)) → contains (add (a, b) drops) (a, b) ≡ true
added-contains a b drops = contains-add (a, b) (a, b) drops ∙ rw (same_refl {K = ℕ × ℕ} (a, b))

-- Adding a link and removing it in both directions gives back a list without it.
contains-remove-add :
    (a b : ℕ) (drops : List (ℕ × ℕ)) (x : ℕ × ℕ)
    → contains drops (a, b) ≡ false
    → contains drops (b, a) ≡ false
    → contains (remove (b, a) (remove (a, b) (add (a, b) drops))) x ≡ contains drops x
contains-remove-add a b drops x h k = ground (
  arith,
  contains-remove (b, a) x (remove (a, b) (add (a, b) drops)),
  contains-remove (a, b) x (add (a, b) drops),
  contains-add (a, b) x drops,
  same_iff (a, b) x,
  same_iff (b, a) x,
)

module _ (f : Float) (t : TopologyGraph f) (from to : Text) (high low : f.F) (a b : ℕ) where
  -- The two control messages of the network control topic, one after the other, for two nodes whose
  -- link is not on the list of dropped links in either direction: a drop probability of 0.99 at
  -- least cuts the link in both directions, for every protocol; one of 0.01 at most and below 0.99
  -- afterwards restores, for every pair of nodes, what was allowed before.
  pub drop_and_restore :
      parse_unsigned (2 ^ 32) from ≡ some a
      → parse_unsigned (2 ^ 32) to ≡ some b
      → f.le (f.decimal 99 2) high ≡ true
      → f.le (f.decimal 99 2) low ≡ false
      → f.le low (f.decimal 1 2) ≡ true
      → contains t.drop_list (a, b) ≡ false
      → contains t.drop_list (b, a) ≡ false
      → (cut whole : TopologyGraph f) × (update_from_json f t
            (fields (some from) (some to) (some high))
          ≡ some cut)
        × ((p : Protocol)
            → (is_link_allowed f cut a b p ≡ false) × (is_link_allowed f cut b a p ≡ false))
        × (update_from_json f cut (fields (some from) (some to) (some low)) ≡ some whole)
        × ((x y : ℕ) (p : Protocol) → is_link_allowed f whole x y p ≡ is_link_allowed f t x y p)
  unfolding update_from_json
  drop_and_restore ha hb hh hl hl' absent absent' =
      let drops = add (a, b) t.drop_list in
      let restored = remove (b, a) (remove (a, b) drops) in
      (
        with_drops f t drops,
        with_drops f t restored,
        ground arith,
        λ p. (
          is_link_allowed-dropped f (with_drops f t drops) a b p
              (rw (added-contains a b t.drop_list)),
          is_link_allowed-dropped f (with_drops f t drops) b a p
              (ground (arith, added-contains a b t.drop_list)),
        ),
        ground arith,
        is_link_allowed-with_drops f t restored
            (λ x. contains-remove-add a b t.drop_list x absent absent'),
      )

-- ===== src/Coordinator/Delivery/Targets.antt =====
-- Who receives a message, compared with the links that the topology allows.
use qenode.Base.{
  ℕ, ◌≡◌, sym, subst, refl, ap, ◌∙◌, Bool, true, false, not, ◌&&◌, ◌||◌, List, [], ◌∷◌, ◌++◌, ◌==◌,
  if◌then◌else◌, arith, ==_iff, Bool-cases, Option-cases, inl, inr,
}
use qenode.Base.Float.{Float}
use qenode.Base.Maps.{same, same_iff, same_refl, contains, lookup, DistinctKeys}
use qenode.Base.Order.{nat_ord}
use qenode.Coordinator.Protocol.{Protocol, protocol_ord, is_wireless}
use qenode.Coordinator.Message.{CoordMessage}
use qenode.Coordinator.Topology.{
  WireLink, TopologyGraph, rf_neighbors, is_link_allowed, on_wire, has_wireless,
}
use qenode.Coordinator.Topology.Links.{contains-near}
use qenode.Coordinator.Delivery.{broadcast, others, wire_targets, seen_targets, target_nodes}

contains-append :
    (xs ys : List ℕ) (n : ℕ) → contains (xs ++ ys) n ≡ (contains xs n || contains ys n)
unfolding contains
contains-append [] ys n = refl
contains-append (x ∷ xs) ys n = ground (arith, contains-append xs ys n)

contains-choice :
    (b : Bool) (xs ys : List ℕ) (c d : Bool) (n : ℕ)
    → (b ≡ true → contains ys n ≡ c)
    → (b ≡ false → contains xs n ≡ d)
    → contains (if not b then xs else ys) n ≡ (if b then c else d)
contains-choice true xs ys c d n h k = h refl
contains-choice false xs ys c d n h k = k refl

contains-others :
    (src : ℕ) (nodes : List ℕ) (n : ℕ)
    → contains (others src nodes) n ≡ (not (n == src) && contains nodes n)
unfolding contains others
contains-others src [] n = ground arith
contains-others src (x ∷ nodes) n = ground (arith, contains-others src nodes n)

contains-wire_targets :
    (src : ℕ) (protocol : Protocol) (links : List WireLink) (n : ℕ)
    → contains (wire_targets src protocol links) n
      ≡ (not (n == src) && on_wire links src n protocol)
unfolding wire_targets on_wire
contains-wire_targets src protocol [] n = unfold contains in ground arith
contains-wire_targets src protocol (link ∷ links) n = ground (
  arith,
  contains-wire_targets src protocol links n,
  contains-others src link.nodes n,
  contains-append (others src link.nodes) (wire_targets src protocol links) n,
)

module _ (f : Float) (t : TopologyGraph f) where
  seen_targets_head :
      (src : ℕ) (protocol : Protocol) (x : ℕ) (seen : List ℕ)
      → contains (seen_targets f t src protocol seen) x
        ≡ (contains seen x && (not (x == src) && is_link_allowed f t src x protocol))
      → contains (seen_targets f t src protocol (x ∷ seen)) x
        ≡ (contains (x ∷ seen) x && (not (x == src) && is_link_allowed f t src x protocol))
  unfolding seen_targets contains
  seen_targets_head src protocol x seen ih = rw (same_refl x) (ground (arith, ih, same_refl x))

  contains-seen_targets :
      (src : ℕ) (protocol : Protocol) (seen : List ℕ) (n : ℕ)
      → contains (seen_targets f t src protocol seen) n
        ≡ (contains seen n && (not (n == src) && is_link_allowed f t src n protocol))
  unfolding seen_targets contains
  contains-seen_targets src protocol [] n = refl
  contains-seen_targets src protocol (x ∷ seen) n =
      let ih = contains-seen_targets src protocol seen n in
      elim (Bool-cases (same x n)) [
        | inl e ↦
            subst
              (λ k.
                contains (seen_targets f t src protocol (x ∷ seen)) k
                ≡ (contains (x ∷ seen) k && (not (k == src) && is_link_allowed f t src k protocol)))
              ((same_iff x n).0 e)
              (seen_targets_head src protocol x seen (contains-seen_targets src protocol seen x))
        | inr e ↦ rw e (ground (arith, ih))
      ]

  -- A node is no neighbour of its own.
  rf_neighbors_self :
      (n : ℕ) → DistinctKeys t.node_positions → contains (rf_neighbors f t n) n ≡ false
  unfolding rf_neighbors has_wireless
  rf_neighbors_self n d = elim (Option-cases (lookup n t.node_positions)) [
    | inl e ↦ rw e (unfold contains in ground arith)
    | inr h ↦
        let k = contains-near f t.max_wireless_range_m n h.0 t.node_positions n d in
        rw h.1 (unfold contains in ground (arith, k))
  ]

  -- The links without those that were dropped.
  abbrev pub undropped : TopologyGraph f
  undropped = record t { drop_list = [] }

  explicit-allowed :
      (src n : ℕ) (protocol : Protocol)
      → t.is_explicit ≡ true
      → is_link_allowed f undropped src n protocol ≡ (
          if is_wireless protocol
          then contains (rf_neighbors f t src) n
          else on_wire t.wire_links src n protocol)
  unfolding is_link_allowed contains rf_neighbors has_wireless
  explicit-allowed src n protocol h = rw h

  -- Whether a node is to get a message: one for a single node goes to that node over an allowed
  -- link; one for all nodes goes, if the topology is explicit, to each other node that a link
  -- reaches, dropped or not, and else to each other node seen over an allowed link.
  abbrev pub receives : (seen : List ℕ) → CoordMessage → ℕ → Bool
  receives seen msg n =
      if msg.dst_node_id == broadcast
      then (if t.is_explicit
          then not (n == msg.src_node_id)
            && is_link_allowed f undropped msg.src_node_id n msg.protocol
          else contains seen n
            && (not (n == msg.src_node_id) && is_link_allowed f t msg.src_node_id n msg.protocol))
      else same msg.dst_node_id n
        && is_link_allowed f t msg.src_node_id msg.dst_node_id msg.protocol

  explicit_targets :
      (src n : ℕ) (protocol : Protocol)
      → DistinctKeys t.node_positions
      → contains
          (if is_wireless protocol
            then rf_neighbors f t src
            else wire_targets src protocol t.wire_links)
          n
        ≡ (not (n == src)
            && (if is_wireless protocol
                then contains (rf_neighbors f t src) n
                else on_wire t.wire_links src n protocol))
  explicit_targets src n protocol d = elim (Bool-cases (is_wireless protocol)) [
    | inl w ↦ rw w (elim (Bool-cases (n == src)) [
      | inl e ↦ rw e (
          subst (λ k. contains (rf_neighbors f t src) k ≡ false) (sym ((==_iff n src).0 e))
            (rf_neighbors_self src d))
      | inr e ↦ rw e
    ])
    | inr w ↦ rw w (contains-wire_targets src protocol t.wire_links n)
  ]

  -- A message is delivered to a node exactly if the node is to get it, as `receives` says: for one
  -- node over an allowed link; for all nodes to each other node that a link of an explicit topology
  -- reaches, even if that link was dropped, and without an explicit topology to each other node that
  -- was seen, unless the link was dropped.
  pub contains-target_nodes :
      (seen : List ℕ) (msg : CoordMessage) (n : ℕ)
      → DistinctKeys t.node_positions
      → contains (target_nodes f t seen msg) n ≡ receives seen msg n
  unfolding target_nodes
  contains-target_nodes seen msg n d =
      let unicast : contains
            (if is_link_allowed f t msg.src_node_id msg.dst_node_id msg.protocol
              then msg.dst_node_id ∷ []
              else [])
            n
          ≡ (same msg.dst_node_id n
              && is_link_allowed f t msg.src_node_id msg.dst_node_id msg.protocol) =
        unfold contains in ground arith in
      elim (Bool-cases (msg.dst_node_id == broadcast)) [
        | inr u ↦ rw u unicast
        | inl u ↦ rw u (
            contains-choice t.is_explicit _ _ _ _ n
              (λ x.
                explicit_targets msg.src_node_id n msg.protocol d
                ∙ ap (λ e. not (n == msg.src_node_id) && e)
                    (sym (explicit-allowed msg.src_node_id n msg.protocol x)))
              (λ x. contains-seen_targets msg.src_node_id msg.protocol seen n))
      ]

-- ===== src/Coordinator/Delivery/Received.antt =====
-- What a node that is to get a message finds on its topic.
use mathlib.Core.List.{append-nil}
use qenode.Base.{
  ℕ, ◌≡◌, refl, sym, ◌∙◌, subst, true, Option, some, List, [], ◌∷◌, ◌⊎◌, inl, inr, Bool-cases,
  arith,
}
use qenode.Base.Decimal.{to_string}
use qenode.Base.Float.{Float}
use qenode.Base.Maps.{same, same_iff, contains, DistinctKeys}
use qenode.Base.Order.{nat_ord}
use qenode.Coordinator.Message.{CoordMessage}
use qenode.Coordinator.Codec.{encode_message, decode_message}
use qenode.Coordinator.Codec.RoundTrip.{Fits, received, decode_message-encode_message}
use qenode.Coordinator.Topics.{coord_rx}
use qenode.Coordinator.Topology.{TopologyGraph}
use qenode.Coordinator.Delivery.{
  Put, FinishHeader, addressed, log_message, puts_for, deliver_to, target_nodes, deliver_message,
}
use qenode.Coordinator.Delivery.Targets.{receives, contains-target_nodes}

-- Some put has the property.
abbrev pub HasPut : (Put → Type 0) → List Put → Type 0
HasPut P [] = ⊥
HasPut P (p ∷ ps) = P p ⊎ HasPut P ps

-- A put on the node's topic that decodes to the message, addressed to the node.
abbrev pub Carries : CoordMessage → ℕ → Put → Type 0
Carries msg n p =
    (p.topic ≡ coord_rx (to_string n))
    × (decode_message p.payload ≡ some (received (addressed msg n), []))

decode-encoded :
    (m : CoordMessage) → Fits m → decode_message (encode_message m) ≡ some (received m, [])
decode-encoded m f =
    subst (λ bytes. decode_message bytes ≡ some (received m, [])) (append-nil (encode_message m))
      (decode_message-encode_message m [] f)

deliver_to-HasPut :
    (finish_header : FinishHeader) (msg : CoordMessage) (n : ℕ) (targets : List ℕ)
    (log : Option (List ℕ))
    → Fits (addressed msg n)
    → contains targets n ≡ true
    → HasPut (Carries msg n) (deliver_to finish_header msg log targets).1
unfolding deliver_to puts_for contains
deliver_to-HasPut finish_header msg n [] log f h = absurd (ground arith)
deliver_to-HasPut finish_header msg n (x ∷ targets) log f h =
    let later =
      deliver_to-HasPut finish_header msg n targets (log_message log (addressed msg x)) f in
    elim (Bool-cases (same x n)) [
      | inl e ↦
          let same_node : n ≡ x = sym ((same_iff x n).0 e) in
          inl (
            subst
              (λ k.
                (coord_rx (to_string k) ≡ coord_rx (to_string n))
                × (decode_message (encode_message (addressed msg k))
                    ≡ some (received (addressed msg n), [])))
              same_node (refl, decode-encoded (addressed msg n) f))
      | inr e ↦ inr (inr (later (ground arith)))
    ]

-- Whoever is to get a message, as `receives` says, and whatever is logged: among the puts of the
-- delivery one is on that node's topic and decodes to the message with that node as destination
-- (less its base topic, and with the protocol that its byte stands for), provided that the message's
-- fields fit the words that carry them.
pub deliver_message-HasPut :
    (f : Float) (finish_header : FinishHeader) (t : TopologyGraph f) (seen : List ℕ)
    (log : Option (List ℕ)) (msg : CoordMessage) (n : ℕ)
    → DistinctKeys t.node_positions
    → Fits (addressed msg n)
    → receives f t seen msg n ≡ true
    → HasPut (Carries msg n) (deliver_message f finish_header t seen log msg).1
unfolding deliver_message
deliver_message-HasPut f finish_header t seen log msg n d fits h =
    deliver_to-HasPut finish_header msg n (target_nodes f t seen msg) log fits
      (contains-target_nodes f t seen msg n d ∙ h)

-- ===== src/Tests/Topology.antt =====
-- Runs of the topology (tools/deterministic_coordinator/src/topology.rs), with hundredths in place
-- of `f64`.
use qenode.Base.{
  ℕ, zero, suc, ◌+◌, ◌*◌, ◌-◌, ◌^◌, ◌/◌, ◌≡◌, refl, true, false, none, some, [], ◌∷◌, leb, arith,
}
use qenode.Base.Bytes.{ascii}
use qenode.Base.Decimal.{parse_unsigned}
use qenode.Base.Float.{Float, SquaresAgree}
use qenode.Base.Order.{nat_ord}
use qenode.Base.Maps.{contains, lookup, DistinctKeys}
use qenode.Coordinator.Protocol.{Protocol, is_wireless}
use qenode.Coordinator.Topology.{
  Transport, TopologyGraph, fields, update_from_json, is_link_allowed, rf_neighbors, has_wireless,
  near, in_range, distance,
}
use qenode.Coordinator.Topology.Links.{is_link_allowed_symm, drop_and_restore}
use qenode.Coordinator.Topology.World.{integer, string, WorldTopology, from_world}
use qenode.Coordinator.Topology.World.Declared.{Sound, from_world-Sound}

abbrev pub newton : (steps n r : ℕ) → ℕ
newton zero n r = r
newton (suc steps) n r = newton steps n ((r + n / r) / 2)

abbrev pub hundredths : Float
hundredths = record {
  F = ℕ;
  add = λ a b. a + b;
  sub = λ a b. (a - b) + (b - a);
  mul = λ a b. a * b;
  sqrt = λ n. newton 16 n (n / 2);
  le = leb;
  decimal = λ m k. (m * 100) / 10 ^ k;
}

hundredths-SquaresAgree : SquaresAgree hundredths
hundredths-SquaresAgree a b = let e : (a - b) + (b - a) ≡ (b - a) + (a - b) = omega arith in rw e

abbrev pub office : TopologyGraph hundredths
office = record {
  max_messages_per_node_per_quantum = 16;
  global_seed = 7;
  transport = Transport.zenoh;
  wire_links = record { protocol = Protocol.uart; nodes = 0 ∷ 1 ∷ []; baud = none } ∷ [];
  wireless_medium = some (record { medium = ascii "ieee802154"; nodes = []; max_range_m = 1000 });
  node_positions = (0, (0, 0, 0)) ∷ (1, (500, 0, 0)) ∷ (2, (1100, 0, 0)) ∷ [];
  max_wireless_range_m = 1000;
  is_explicit = true;
  drop_list = [];
}

pub office-DistinctKeys : DistinctKeys office.node_positions
unfolding lookup
office-DistinctKeys = (refl, (refl, (refl, tt)))

radio_in_range : is_link_allowed hundredths office 1 2 Protocol.rf802154 ≡ true
unfolding is_link_allowed contains is_wireless rf_neighbors lookup near in_range distance
    has_wireless
radio_in_range = refl

radio_out_of_range : is_link_allowed hundredths office 0 2 Protocol.rf802154 ≡ false
unfolding is_link_allowed contains is_wireless rf_neighbors lookup near in_range distance
    has_wireless
radio_out_of_range = refl

is_link_allowed_symm_example :
    is_link_allowed hundredths office 0 1 Protocol.uart
    ≡ is_link_allowed hundredths office 1 0 Protocol.uart
is_link_allowed_symm_example =
    is_link_allowed_symm hundredths hundredths-SquaresAgree office 0 1 Protocol.uart
      office-DistinctKeys

drop_and_restore_example :
    (cut whole : TopologyGraph hundredths) × (update_from_json hundredths office
        (fields (some (ascii "0")) (some (ascii "1")) (some 100))
      ≡ some cut)
    × ((p : Protocol)
        → (is_link_allowed hundredths cut 0 1 p ≡ false)
          × (is_link_allowed hundredths cut 1 0 p ≡ false))
    × (update_from_json hundredths cut (fields (some (ascii "0")) (some (ascii "1")) (some 0))
        ≡ some whole)
    × ((x y : ℕ) (p : Protocol)
        → is_link_allowed hundredths whole x y p ≡ is_link_allowed hundredths office x y p)
unfolding parse_unsigned contains
drop_and_restore_example =
    drop_and_restore hundredths office (ascii "0") (ascii "1") 100 0 0 1 refl refl refl refl refl
      refl refl

abbrev pub lab : WorldTopology hundredths
lab = record {
  nodes = integer 0 ∷ string (ascii "1") ∷ [];
  links =
      record { type_ = ascii "UART"; nodes = integer 0 ∷ string (ascii "1") ∷ []; baud = none }
      ∷ [];
  wireless = some (record {
    medium = ascii "ieee802154";
    nodes = record { name = string (ascii "1"); initial_position = (100, 0, 0) } ∷ [];
    max_range_m = 1000;
  });
  max_messages_per_node_per_quantum = none;
  global_seed = some (ascii "42");
  transport = none;
}

from_world-Sound_example : Sound hundredths (string (ascii "uart0") ∷ []) lab (
    from_world hundredths
      (record { peripherals = string (ascii "uart0") ∷ []; topology = some lab }))
from_world-Sound_example = from_world-Sound hundredths (string (ascii "uart0") ∷ []) lab

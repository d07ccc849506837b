-- ===== src/Coordinator/Protocol.antt =====
-- tools/deterministic_coordinator/src/topology.rs: the link protocols, in declaration order, which
-- is the order that `derive(PartialOrd, Ord)` gives them.
use qenode.Base.{ℕ, ◌≡◌, Bool, true, false, arith}
use qenode.Base.Order.{Ord, nat_ord, by_key}

pub data Protocol : Type 0 where
  ethernet uart spi can_fd flex_ray lin rf802154 rf_hci control : Protocol

unfoldable pub is_wireless : Protocol → Bool
is_wireless Protocol.rf802154 = true
is_wireless Protocol.rf_hci = true
is_wireless _ = false

-- The discriminant.
abbrev pub index : Protocol → ℕ
index Protocol.ethernet = 0
index Protocol.uart = 1
index Protocol.spi = 2
index Protocol.can_fd = 3
index Protocol.flex_ray = 4
index Protocol.lin = 5
index Protocol.rf802154 = 6
index Protocol.rf_hci = 7
index Protocol.control = 8

pub index_injective : (p q : Protocol) → index p ≡ index q → p ≡ q
index_injective p q h = ground arith

instance abbrev pub protocol_ord : Ord Protocol
protocol_ord = by_key nat_ord index index_injective

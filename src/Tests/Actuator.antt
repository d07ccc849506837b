-- ===== src/Tests/Actuator.antt =====
-- A run of the registers of the actuator (hw/rust/observability/actuator/src/lib.rs).
use mathlib.Core.Option
use qenode.Base.{
  ℕ, zero, suc, ◌^◌, ◌<◌, ◌≡◌, ◌≢◌, refl, true, none, some, List, [], arith, length, get_or,
  replicate,
}
use qenode.Base.Bytes.{ascii}
use qenode.Actuator.{Actuator, is_data, index_of, actuator_read, actuator_write}
use qenode.Actuator.Registers.{AllWhole, actuator_read-actuator_write}

abbrev zeros : List ℕ
zeros = replicate 8 0

abbrev idle : Actuator
idle = record {
  node_id = 1;
  topic_prefix = ascii "firmware/control";
  actuator_id = 4660;
  data_size = 0;
  data_ = replicate 8 zeros;
  is_realized = true;
  running = true;
  queue = [];
}

zeros_whole : (n i : ℕ) → i < n → length (get_or (replicate n zeros) i []) ≡ 8
zeros_whole zero i h = absurd (omega arith)
zeros_whole (suc n) zero h = refl
zeros_whole (suc n) (suc i) h = zeros_whole n i (omega arith)

idle-AllWhole : AllWhole idle.data_
idle-AllWhole = (refl, zeros_whole 8)

actuator_read-actuator_write_example :
    Option.map (λ after. actuator_read after 20 4) (actuator_write 0 idle 20 3735928559 4)
      ≡ some 3735928559
    × ((other n : ℕ)
        → (is_data other ≡ true → index_of 20 ≢ index_of other)
        → Option.map (λ after. actuator_read after other n) (actuator_write 0 idle 20 3735928559 4)
          ≡ some (actuator_read idle other n))
actuator_read-actuator_write_example =
    actuator_read-actuator_write 0 idle 20 3735928559 4 idle-AllWhole refl (omega arith)
      (omega arith)

write_too_wide : actuator_write 0 idle 0 (2 ^ 32) 8 ≡ none
unfolding actuator_write
write_too_wide = refl

-- ===== src/Actuator.antt =====
-- hw/rust/observability/actuator/src/lib.rs: the registers of the actuator and what it publishes. A
-- call of a handler is one step; an `f64` is its eight bytes, the least significant first.
pub mod Registers
use qenode.Base.{
  ℕ, ◌+◌, ◌-◌, ◌*◌, ◌/◌, ◌%◌, ◌^◌, Bool, true, false, ◌&&◌, Option, none, some, List, [], ◌∷◌, ◌++◌,
  ◌==◌, ltb, leb, if◌then◌else◌, length, get_or, set, take, drop,
}
use qenode.Base.Bytes.{Text, le_bytes}
use qenode.Base.Decimal.{to_string}
use qenode.Api.{encode_frame}

pub record Actuator : Type 0 where
  pub node_id : ℕ
  pub topic_prefix : Text
  pub actuator_id : ℕ  -- u32
  pub data_size : ℕ  -- u32
  pub data_ : List (List ℕ)  -- eight
  pub is_realized : Bool  -- `rust_state` is not null
  pub running : Bool
  pub queue : List (Text × List ℕ)  -- `tx_sender`, of 1024 packets at most

abbrev reg_actuator_id : ℕ
reg_actuator_id = 0

abbrev reg_data_size : ℕ
reg_data_size = 4

abbrev reg_go : ℕ
reg_go = 8

abbrev pub reg_data_start : ℕ
reg_data_start = 16

-- `from_le_bytes`
abbrev pub from_le_bytes : List ℕ → ℕ
from_le_bytes [] = 0
from_le_bytes (b ∷ bs) = b + 256 * from_le_bytes bs

abbrev pub is_data : ℕ → Bool
is_data addr = leb reg_data_start addr && ltb addr (reg_data_start + 8 * 8)

abbrev pub index_of : ℕ → ℕ
index_of addr = (addr - reg_data_start) / 8

abbrev pub offset_of : ℕ → ℕ
offset_of addr = (addr - reg_data_start) % 8

-- The value of `size` bytes of a register
abbrev pub part : List ℕ → (offset size : ℕ) → ℕ
part bytes offset size =
    if leb (offset + size) 8 then from_le_bytes (take size (drop offset bytes)) else 0

unfoldable pub actuator_read : Actuator → (addr size : ℕ) → ℕ
actuator_read s addr size =
    if addr == reg_actuator_id
    then s.actuator_id
    else if addr == reg_data_size
    then s.data_size
    else if is_data addr
    then part (get_or s.data_ (index_of addr) []) (offset_of addr) size
    else 0

-- The doubles, one after the other
abbrev pub doubles : List (List ℕ) → List ℕ
doubles [] = []
doubles (bytes ∷ rest) = bytes ++ doubles rest

-- A full queue drops the packet.
unfoldable pub actuator_publish : (vtime_ns : ℕ) → Actuator → Actuator
actuator_publish vtime_ns s =
    if s.running && ltb (length s.queue) 1024
    then record s {
      queue =
          s.queue
          ++ ((
            s.topic_prefix ++ (b'/' ∷ (to_string s.node_id ++ (b'/' ∷ to_string s.actuator_id))),
            encode_frame vtime_ns 0 (doubles (take s.data_size s.data_)),
          )
              ∷ []);
    }
    else s

-- The bytes of a register after a write into a part of it
abbrev pub patch : List ℕ → (offset size val : ℕ) → List ℕ
patch bytes offset size val =
    if leb (offset + size) 8
    then take offset bytes ++ (take size (le_bytes 8 val) ++ drop (offset + size) bytes)
    else bytes

-- A value that does not fit `u32` panics: none.
unfoldable pub actuator_write : (vtime_ns : ℕ) → Actuator → (addr val size : ℕ) → Option Actuator
unfolding actuator_publish
actuator_write vtime_ns s addr val size =
    if addr == reg_actuator_id
    then (if ltb val (2 ^ 32) then some (record s { actuator_id = val }) else none)
    else if addr == reg_data_size
    then (if ltb val (2 ^ 32)
        then some (record s { data_size = if ltb 8 val then 8 else val })
        else none)
    else if addr == reg_go
    then some (if val == 1 && s.is_realized then actuator_publish vtime_ns s else s)
    else if is_data addr
    then some (record s {
      data_ =
          set s.data_ (index_of addr)
            (patch (get_or s.data_ (index_of addr) []) (offset_of addr) size val);
    })
    else some s

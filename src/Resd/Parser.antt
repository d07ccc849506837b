-- ===== src/Resd/Parser.antt =====
-- tools/cyber_bridge/src/resd_parser.rs: `ResdParser::parse`. A file is its bytes and the position; a
-- read beyond the end and a seek before the start are errors. Subtractions and sums on u64 wrap, as
-- in a build without overflow checks.
use qenode.Base.{
  ℕ, ◌+◌, ◌-◌, ◌%◌, ◌^◌, Option, none, some, List, [], ◌∷◌, ◌++◌, ltb, leb, ◌==◌, if◌then◌else◌,
  drop,
}
use qenode.Base.Bytes.{ascii, read_le, read_bytes}
use qenode.Base.Decimal.{to_string}
use qenode.Base.Do.{◌>>=◌}
use qenode.Base.Maps.{lookup}
use qenode.Base.Order.{Ord, nat_ord, pair_ord}
use qenode.Resd.Sensor.{ResdSampleType, as_u16, ResdSensor, temperature, acceleration, angular_rate}

pub record File : Type 0 where
  pub bytes : List ℕ
  pub pos : ℕ

abbrev pub left : File → List ℕ
left file = drop file.pos file.bytes

-- `read_exact`
unfoldable pub read_exact : ℕ → File → Option (List ℕ × File)
read_exact n file = do
  (d, rest) ← read_bytes n (left file)
  some (d, record file { pos = file.pos + n })

-- `read_u16`, `read_u64` and `read_i32`, an i32 as its 32 bits
unfoldable pub read_word : ℕ → File → Option (ℕ × File)
read_word n file = do
  (v, rest) ← read_le n (left file)
  some (v, record file { pos = file.pos + n })

-- `seek(SeekFrom::Current(x as i64))`
unfoldable pub seek : ℕ → File → Option File
seek x file =
    if ltb x (2 ^ 63)
    then if ltb (file.pos + x) (2 ^ 63) then some (record file { pos = file.pos + x }) else none
    else if leb (2 ^ 64 - x) file.pos
    then some (record file { pos = file.pos - (2 ^ 64 - x) })
    else none

-- `a - b` on u64
abbrev pub wrapping_sub : ℕ → ℕ → ℕ
wrapping_sub a b = (a + 2 ^ 64 - b) % 2 ^ 64

-- The sensors by sample type, as its u16, and channel
instance abbrev pub key_ord : Ord (ℕ × ℕ)
key_ord = pair_ord nat_ord nat_ord

abbrev pub Sensors : Type 0
Sensors = List ((ℕ × ℕ) × ResdSensor)

-- How a parse ends; the loop over the blocks may come back to a block for ever.
pub data Outcome : Type 0 where
  finished : Outcome
  failed : Outcome
  out_of_fuel : Outcome

unfoldable pub new_sensor : ResdSampleType → (channel_id : ℕ) → ResdSensor
new_sensor sample_type channel_id = record {
  name = ascii "resd_" ++ to_string (as_u16 sample_type) ++ ascii "_" ++ to_string channel_id;
  type_ = sample_type;
  samples = [];
}

abbrev or_else : ResdSensor → Option ResdSensor → ResdSensor
or_else s none = s
or_else s (some t) = t

-- `entry((sample_type, channel_id)).or_insert_with(...)`
unfoldable pub sensor_of : ResdSampleType → (channel_id : ℕ) → Sensors → ResdSensor
unfolding new_sensor
sensor_of sample_type channel_id sensors =
    or_else (new_sensor sample_type channel_id) (lookup (as_u16 sample_type, channel_id) sensors)

unfoldable pub read_vector : File → Option (Option (List ℕ) × File)
read_vector file = do
  (x, f1) ← read_word 4 file
  (y, f2) ← read_word 4 f1
  (z, f3) ← read_word 4 f2
  some (some (x ∷ y ∷ z ∷ []), f3)

-- The values of one sample; none inside where the type is not supported
unfoldable pub read_data : ResdSampleType → File → Option (Option (List ℕ) × File)
unfolding read_vector
read_data temperature file = do (x, f1) ← read_word 4 file; some (some (x ∷ []), f1)
read_data acceleration file = read_vector file
read_data angular_rate file = read_vector file
read_data _ file = some (none, file)

-- What the block's kind says of time: the start, the period and the size of the subheader
pub record Times : Type 0 where
  pub start_time : ℕ
  pub period : ℕ
  pub subheader_size : ℕ

abbrev pub arbitrary_timestamp : ℕ
arbitrary_timestamp = 1

abbrev pub constant_timestamp : ℕ
constant_timestamp = 2

unfoldable pub arbitrary_times : File → Option (Option Times × File)
arbitrary_times file = do
  (start, f1) ← read_word 8 file
  some (some (record { start_time = start; period = 0; subheader_size = 8 }), f1)

unfoldable pub constant_times : File → Option (Option Times × File)
constant_times file = do
  (start, f1) ← read_word 8 file
  (period, f2) ← read_word 8 f1
  some (some (record { start_time = start; period = period; subheader_size = 16 }), f2)

-- None inside for a kind that is not known
unfoldable pub read_times : (block_type : ℕ) → File → Option (Option Times × File)
unfolding arbitrary_times constant_times
read_times block_type file =
    if block_type == arbitrary_timestamp
    then arbitrary_times file
    else if block_type == constant_timestamp
    then constant_times file
    else some (none, file)

-- The timestamp of a sample, and the bytes that it takes in the file
unfoldable pub stored_timestamp : File → Option ((ℕ × ℕ) × File)
stored_timestamp file = do (ts, f1) ← read_word 8 file; some ((ts, 8), f1)

unfoldable pub read_timestamp : (block_type current_time : ℕ) → File → Option ((ℕ × ℕ) × File)
unfolding stored_timestamp
read_timestamp block_type current_time file =
    if block_type == arbitrary_timestamp
    then stored_timestamp file
    else some ((current_time, 0), file)

-- The bytes of a sample's values, for the types that are read
unfoldable pub values_size : ResdSampleType → ℕ
values_size temperature = 4
values_size _ = 12

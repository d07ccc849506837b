-- ===== src/Resd/Blocks.antt =====
-- tools/cyber_bridge/src/resd_parser.rs: the two loops of `ResdParser::parse`, over the blocks and
-- over the samples of a block.
use qenode.Base.{
  ℕ, zero, suc, ◌+◌, ◌%◌, ◌^◌, Bool, true, false, Option, none, some, List, [], ◌∷◌, ◌++◌, ltb,
  ◌==◌, if◌then◌else◌, length,
}
use qenode.Base.Bytes.{ascii}
use qenode.Base.Do.{◌>>=◌}
use qenode.Base.Maps.{insert, same}
use qenode.Base.Order.{list_ord, nat_ord}
use qenode.Resd.Sensor.{ResdSampleType, from_u16, as_u16, ResdSample, last_timestamp}
use qenode.Resd.Parser.{
  File, read_exact, read_word, seek, wrapping_sub, key_ord, Sensors, Outcome, finished, sensor_of,
  read_data, Times, read_times, read_timestamp, constant_timestamp, values_size,
}

-- One turn of the loop over the samples: an error, the end of the loop, or a sample.
pub data Turn : Type 0 where
  fails : Turn
  ends : File → Turn
  reads : ResdSample → (bytes_read : ℕ) → File → Turn

-- A type that is not supported skips the rest of the block. What has been read is no more than the
-- file has, so it does not wrap.
unfoldable pub after_data :
    (samples_size bytes_read timestamp : ℕ) (sample_type : ResdSampleType)
    → Option (List ℕ)
    → File
    → Turn
after_data samples_size bytes_read timestamp sample_type none file =
    elim (seek (wrapping_sub samples_size bytes_read) file) [
      | none ↦ Turn.fails
      | some f ↦ Turn.ends f
    ]
after_data samples_size bytes_read timestamp sample_type (some d) file =
    Turn.reads (record { timestamp_ns = timestamp; data_ = d })
      (bytes_read + values_size sample_type) file

unfoldable pub turn :
    (block_type : ℕ) (sample_type : ResdSampleType) (samples_size bytes_read current_time : ℕ)
    → File
    → Turn
unfolding after_data
turn block_type sample_type samples_size bytes_read current_time file =
    elim (read_timestamp block_type current_time file) [
      | none ↦ Turn.fails
      | some ((ts, n), f1) ↦ elim (read_data sample_type f1) [
        | none ↦ Turn.fails
        | some (d, f2) ↦ after_data samples_size (bytes_read + n) ts sample_type d f2
      ]
    ]

-- How the loop over the samples ends
pub data Ending : Type 0 where
  broken : Ending
  done : File → Ending
  starved : Ending

-- `current_time += period` for a constant period
unfoldable pub next_time : (block_type period current_time : ℕ) → ℕ
next_time block_type period current_time =
    if block_type == constant_timestamp then (current_time + period) % 2 ^ 64 else current_time

-- The loop over the samples, with those that the sensor has
unfoldable pub samples_loop :
    (fuel block_type : ℕ) (sample_type : ResdSampleType)
    (period samples_size bytes_read current_time : ℕ)
    → File
    → List ResdSample
    → Ending × List ResdSample
unfolding turn next_time
samples_loop zero block_type sample_type period samples_size bytes_read current_time file samples =
    (Ending.starved, samples)
samples_loop (suc fuel) block_type sample_type period samples_size bytes_read current_time file
      samples =
    elim (ltb bytes_read samples_size) [
      | true ↦ elim (turn block_type sample_type samples_size bytes_read current_time file) [
        | fails ↦ (Ending.broken, samples)
        | ends f ↦ (Ending.done f, samples)
        | reads sample n f ↦
            samples_loop fuel block_type sample_type period samples_size n
              (next_time block_type period current_time) f (samples ++ (sample ∷ []))
      ]
      | false ↦ (Ending.done file, samples)
    ]

-- One turn of the loop over the blocks
pub data Step : Type 0 where
  fails : Sensors → Step
  goes : File → Sensors → Step

unfoldable pub skip : (data_size : ℕ) → File → Sensors → Step
skip data_size file sensors = elim (seek data_size file) [
  | none ↦ Step.fails sensors
  | some f ↦ Step.goes f sensors
]

abbrev step_of : Ending → Sensors → Step
step_of broken sensors = Step.fails sensors
step_of (done f) sensors = Step.goes f sensors
step_of starved sensors = Step.fails sensors

-- The samples of a block; every turn of the loop reads a byte at least, or ends it.
unfoldable pub read_samples :
    (block_type : ℕ) (sample_type : ResdSampleType) (channel_id : ℕ)
    → Times
    → (samples_size : ℕ) → File
    → Sensors
    → Step
unfolding samples_loop
read_samples block_type sample_type channel_id times samples_size file sensors =
    let sensor = sensor_of sample_type channel_id sensors in
    let result =
      samples_loop (suc (length file.bytes)) block_type sample_type times.period samples_size 0
        times.start_time file sensor.samples in
    step_of result.0
      (insert (as_u16 sample_type, channel_id) (record sensor { samples = result.1 }) sensors)

unfoldable pub after_metadata :
    (block_type : ℕ) (sample_type : ResdSampleType) (channel_id data_size : ℕ)
    → Times
    → (metadata_size : ℕ) → File
    → Sensors
    → Step
unfolding read_samples
after_metadata block_type sample_type channel_id data_size times metadata_size file sensors =
    elim (seek metadata_size file) [
      | none ↦ Step.fails sensors
      | some f ↦
          read_samples block_type sample_type channel_id times
            (wrapping_sub (wrapping_sub (wrapping_sub data_size times.subheader_size) 8)
              metadata_size)
            f sensors
    ]

unfoldable pub after_times :
    (block_type : ℕ) (sample_type : ResdSampleType) (channel_id data_size : ℕ)
    → Option Times
    → File
    → Sensors
    → Step
unfolding skip after_metadata
after_times block_type sample_type channel_id data_size none file sensors =
    skip data_size file sensors
after_times block_type sample_type channel_id data_size (some times) file sensors =
    elim (read_word 8 file) [
      | none ↦ Step.fails sensors
      | some (metadata_size, f) ↦
          after_metadata block_type sample_type channel_id data_size times metadata_size f sensors
    ]

unfoldable pub after_head :
    (block_type : ℕ) → Option ResdSampleType → (channel_id data_size : ℕ) → File → Sensors → Step
unfolding after_times skip
after_head block_type none channel_id data_size file sensors = skip data_size file sensors
after_head block_type (some sample_type) channel_id data_size file sensors =
    elim (read_times block_type file) [
      | none ↦ Step.fails sensors
      | some (times, f) ↦ after_times block_type sample_type channel_id data_size times f sensors
    ]

-- Sample type, channel and data size
unfoldable pub read_head : File → Option ((ℕ × ℕ × ℕ) × File)
read_head file = do
  (sample_type_val, f1) ← read_word 2 file
  (channel_id, f2) ← read_word 2 f1
  (data_size, f3) ← read_word 8 f2
  some ((sample_type_val, channel_id, data_size), f3)

unfoldable pub parse_block : (block_type : ℕ) → File → Sensors → Step
unfolding after_head
parse_block block_type file sensors = elim (read_head file) [
  | none ↦ Step.fails sensors
  | some ((sample_type_val, channel_id, data_size), f) ↦
      after_head block_type (from_u16 sample_type_val) channel_id data_size f sensors
]

unfoldable pub blocks_loop : (fuel : ℕ) → File → Sensors → Outcome × Sensors
unfolding parse_block
blocks_loop zero file sensors = (Outcome.out_of_fuel, sensors)
blocks_loop (suc fuel) file sensors = elim (read_word 1 file) [
  | none ↦ (Outcome.finished, sensors)
  | some (block_type, f) ↦ elim (parse_block block_type f sensors) [
    | fails s ↦ (Outcome.failed, s)
    | goes g s ↦ blocks_loop fuel g s
  ]
]

-- Magic, version and padding
unfoldable pub read_magic : File → Option File
read_magic file = do
  (magic, f1) ← read_exact 4 file
  f2 ← (if same ⦃o = list_ord nat_ord⦄ magic (ascii "RESD") then some f1 else none)
  (version, f3) ← read_exact 1 f2
  (padding, f4) ← read_exact 3 f3
  some f4

-- `parse` of a file with these bytes
unfoldable pub parse : (fuel : ℕ) (bytes : List ℕ) → Sensors → Outcome × Sensors
unfolding blocks_loop
parse fuel bytes sensors = elim (read_magic (record { bytes = bytes; pos = 0 })) [
  | none ↦ (Outcome.failed, sensors)
  | some f ↦ blocks_loop fuel f sensors
]

-- `init`, which tells whether the parse went well
unfoldable pub init : Outcome → Bool
init finished = true
init _ = false

unfoldable pub get_last_timestamp : Sensors → ℕ
get_last_timestamp [] = 0
get_last_timestamp ((key, sensor) ∷ sensors) =
    let rest = get_last_timestamp sensors in
    if ltb rest (last_timestamp sensor) then last_timestamp sensor else rest

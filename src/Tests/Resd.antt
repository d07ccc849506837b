-- ===== src/Tests/Resd.antt =====
-- Runs of the RESD parser (tools/cyber_bridge).
use qenode.Base.{ℕ, ◌≡◌, refl, false, [], ◌∷◌, ◌++◌, arith}
use qenode.Base.Bytes.{ascii, le_bytes}
use qenode.Resd.Sensor.{ResdSampleType, from_u16, ResdSample, ResdSensor, Casts, get_reading}
use qenode.Resd.Parser.{File, Outcome}
use qenode.Resd.Blocks.{samples_loop, parse}
use qenode.Resd.Bracket.{due, described, get_reading-described}
use qenode.Resd.Ending.{is_starved, samples_loop-ends}
use qenode.Resd.Cycle.{file_head, looping, parse-cycle}
use qenode.Resd.RoundTrip.{Kind, Block, HasValues}
use qenode.Resd.RoundTrip.Encode.{IsBlock}
use qenode.Resd.RoundTrip.Whole.{encode_blocks, add_blocks, parse-encode_blocks}
use qenode.Tests.Topology.{hundredths}

abbrev casts : Casts hundredths
casts = record { div = λ a b. a; of_u64 = λ n. n; of_i32 = λ n. n }

abbrev sample : (timestamp value : ℕ) → ResdSample
sample timestamp value = record { timestamp_ns = timestamp; data_ = value ∷ [] }

abbrev thermometer : ResdSensor
thermometer = record {
  name = ascii "resd_1_0";
  type_ = ResdSampleType.temperature;
  samples = sample 1000 20 ∷ sample 2000 30 ∷ sample 3000 40 ∷ [];
}

get_reading-described_example :
    get_reading hundredths casts thermometer 2500
    ≡ described hundredths casts 2500
        (due 2500 (sample 1000 20) (sample 2000 30 ∷ sample 3000 40 ∷ []))
get_reading-described_example =
    get_reading-described hundredths casts thermometer (sample 1000 20)
      (sample 2000 30 ∷ sample 3000 40 ∷ []) 2500 refl

abbrev short_file : File
short_file = record { bytes = 1 ∷ 2 ∷ 3 ∷ 4 ∷ 5 ∷ []; pos = 0 }

-- The block claims to have far more samples than the file.
samples_loop-ends_example :
    is_starved (samples_loop 6 2 ResdSampleType.temperature 10 4000 0 100 short_file []).0 ≡ false
samples_loop-ends_example =
    samples_loop-ends 6 2 ResdSampleType.temperature 10 4000 0 100 short_file [] (omega arith)

parse-cycle_example :
    parse 100 (file_head 1 ++ looping 1 0 7 (9 ∷ [])) [] ≡ (Outcome.out_of_fuel, [])
unfolding from_u16
parse-cycle_example =
    parse-cycle 100 1 1 0 7 [] (9 ∷ []) refl (omega arith) (omega arith) (omega arith)

abbrev temperatures : Block
temperatures = record {
  kind = Kind.constant;
  sample_type = ResdSampleType.temperature;
  channel_id = 0;
  start_time = 1000;
  period = 500;
  metadata = 7 ∷ 7 ∷ [];
  samples = sample 1000 20 ∷ sample 1500 30 ∷ [];
}

abbrev moves : Block
moves = record {
  kind = Kind.arbitrary;
  sample_type = ResdSampleType.acceleration;
  channel_id = 3;
  start_time = 0;
  period = 0;
  metadata = [];
  samples = record { timestamp_ns = 1234; data_ = 1 ∷ 2 ∷ 3 ∷ [] } ∷ [];
}

temperatures-IsBlock : IsBlock temperatures
temperatures-IsBlock = record {
  channel_fits = omega arith;
  start_fits = omega arith;
  period_fits = omega arith;
  timed = (refl, (refl, tt));
  valued = (HasValues.one (omega arith), (HasValues.one (omega arith), tt));
}

moves-IsBlock : IsBlock moves
moves-IsBlock = record {
  channel_fits = omega arith;
  start_fits = omega arith;
  period_fits = omega arith;
  timed = (omega arith, tt);
  valued = (HasValues.position (omega arith) (omega arith) (omega arith), tt);
}

parse-encode_blocks_example :
    parse 3 (file_head 1 ++ encode_blocks (temperatures ∷ moves ∷ [])) []
    ≡ (Outcome.finished, add_blocks (temperatures ∷ moves ∷ []) [])
unfolding le_bytes
parse-encode_blocks_example =
    parse-encode_blocks 3 1 (temperatures ∷ moves ∷ []) (temperatures-IsBlock, (moves-IsBlock, tt))
      (omega arith) (omega arith)

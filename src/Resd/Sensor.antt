-- ===== src/Resd/Sensor.antt =====
-- tools/cyber_bridge/src/resd_parser.rs: a sensor's samples and its reading at a virtual time. The
-- abstract `f64` is that of the library, with division and the casts from u64 and i32.
use qenode.Base.{
  ℕ, zero, suc, ◌+◌, Bool, true, ◌==◌, Option, none, some, List, [], ◌∷◌, ltb, if◌then◌else◌, map,
  length,
}
use qenode.Base.Bytes.{Text}
use qenode.Base.Float.{Float}

pub data ResdSampleType : Type 0 where
  temperature : ResdSampleType
  acceleration : ResdSampleType
  angular_rate : ResdSampleType
  voltage : ResdSampleType
  ecg : ResdSampleType
  humidity : ResdSampleType
  pressure : ResdSampleType
  magnetic_flux_density : ResdSampleType
  binary_data : ResdSampleType

unfoldable pub from_u16 : ℕ → Option ResdSampleType
from_u16 val =
    if val == 1
    then some ResdSampleType.temperature
    else if val == 2
    then some ResdSampleType.acceleration
    else if val == 3
    then some ResdSampleType.angular_rate
    else if val == 4
    then some ResdSampleType.voltage
    else if val == 5
    then some ResdSampleType.ecg
    else if val == 6
    then some ResdSampleType.humidity
    else if val == 7
    then some ResdSampleType.pressure
    else if val == 8
    then some ResdSampleType.magnetic_flux_density
    else if val == 9
    then some ResdSampleType.binary_data
    else none

-- `as u16`
unfoldable pub as_u16 : ResdSampleType → ℕ
as_u16 temperature = 1
as_u16 acceleration = 2
as_u16 angular_rate = 3
as_u16 voltage = 4
as_u16 ecg = 5
as_u16 humidity = 6
as_u16 pressure = 7
as_u16 magnetic_flux_density = 8
as_u16 binary_data = 9

-- A value is an i32, as its 32 bits.
pub record ResdSample : Type 0 where
  pub timestamp_ns : ℕ  -- u64
  pub data_ : List ℕ

pub record ResdSensor : Type 0 where
  pub name : Text
  pub type_ : ResdSampleType
  pub samples : List ResdSample

-- `samples.last().map_or(0, |s| s.timestamp_ns)`
unfoldable pub last_timestamp_of : List ResdSample → ℕ
last_timestamp_of [] = 0
last_timestamp_of (s ∷ []) = s.timestamp_ns
last_timestamp_of (s ∷ t ∷ ss) = last_timestamp_of (t ∷ ss)

unfoldable pub last_timestamp : ResdSensor → ℕ
unfolding last_timestamp_of
last_timestamp sensor = last_timestamp_of sensor.samples

-- Indexing; the loop and the reading stay within the samples.
abbrev pub sample_at : List ResdSample → ℕ → Option ResdSample
sample_at [] n = none
sample_at (s ∷ ss) zero = some s
sample_at (s ∷ ss) (suc n) = sample_at ss n

abbrev pub stays : (vtime_ns : ℕ) → Option ResdSample → Bool
stays vtime_ns none = true
stays vtime_ns (some next) = ltb vtime_ns next.timestamp_ns

-- The loop on `idx`, on fuel
unfoldable pub find_index : (fuel : ℕ) (samples : List ResdSample) (vtime_ns idx : ℕ) → ℕ
find_index zero samples vtime_ns idx = idx
find_index (suc fuel) samples vtime_ns idx =
    let rest = find_index fuel samples vtime_ns (idx + 1) in
    if stays vtime_ns (sample_at samples (idx + 1)) then idx else rest

-- The operations of `f64` that the reading adds
pub record Casts (f : Float) : Type 0 where
  pub div : f.F → f.F → f.F
  pub of_u64 : ℕ → f.F
  pub of_i32 : ℕ → f.F

module _ (f : Float) (c : Casts f) where
  -- `zip` and `map`: as many values as the shorter list has
  abbrev pub blend : (factor : f.F) → (v0s v1s : List ℕ) → List f.F
  blend factor [] v1s = []
  blend factor (v0 ∷ v0s) [] = []
  blend factor (v0 ∷ v0s) (v1 ∷ v1s) =
      f.add (c.of_i32 v0) (f.mul factor (f.sub (c.of_i32 v1) (c.of_i32 v0))) ∷ blend factor v0s v1s

  abbrev pub hold : ResdSample → List f.F
  hold s = map c.of_i32 s.data_

  abbrev pub interpolate : (vtime_ns : ℕ) (s0 s1 : ResdSample) → List f.F
  interpolate vtime_ns s0 s1 =
      let t0 = c.of_u64 s0.timestamp_ns in
      let t1 = c.of_u64 s1.timestamp_ns in
      blend (c.div (f.sub (c.of_u64 vtime_ns) t0) (f.sub t1 t0)) s0.data_ s1.data_

  -- The reading between `samples[idx]` and `samples[idx + 1]`, which may not be there
  unfoldable pub read_between : (vtime_ns : ℕ) → (s0 s1 : Option ResdSample) → List f.F
  read_between vtime_ns none s1 = []
  read_between vtime_ns (some s0) none = hold s0
  read_between vtime_ns (some s0) (some s1) =
      if ltb vtime_ns s0.timestamp_ns then hold s0 else interpolate vtime_ns s0 s1

  unfoldable pub reading_of : List ResdSample → (vtime_ns : ℕ) → List f.F
  unfolding find_index read_between
  reading_of [] vtime_ns = f.decimal 0 0 ∷ []
  reading_of (s ∷ ss) vtime_ns =
      let samples = s ∷ ss in
      let idx = find_index (length samples) samples vtime_ns 0 in
      read_between vtime_ns (sample_at samples idx) (sample_at samples (idx + 1))

  unfoldable pub get_reading : ResdSensor → (vtime_ns : ℕ) → List f.F
  unfolding reading_of
  get_reading sensor vtime_ns = reading_of sensor.samples vtime_ns

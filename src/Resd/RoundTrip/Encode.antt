-- ===== src/Resd/RoundTrip/Encode.antt =====
-- How a block stands in a file.
use mathlib.Core.List.{append_assoc}
use qenode.Base.{
  ℕ, ◌+◌, ◌^◌, ◌≤◌, ◌<◌, ◌≡◌, refl, ◌∙◌, ap, some, List, [], ◌∷◌, ◌++◌, arith, length,
  length-append, subst,
}
use qenode.Base.Bytes.{le_bytes, length-le_bytes}
use qenode.Base.Maps.{insert}
use qenode.Resd.Sensor.{
  ResdSampleType, temperature, acceleration, angular_rate, from_u16, as_u16, ResdSample, voltage,
  ecg, humidity, pressure, magnetic_flux_density, binary_data,
}
use qenode.Resd.Parser.{
  File, left, wrapping_sub, key_ord, Sensors, sensor_of, Times, read_times, arbitrary_times,
  constant_times,
}
use qenode.Resd.Reads.{moved, read_word-left, left-read_word}
use qenode.Resd.RoundTrip.{
  Kind, arbitrary, constant, code, Block, HasTimes, AllValues, encode_samples, words, stamp,
  length-words, values_size-pos,
}

-- An arbitrary block has no period.
abbrev pub period_of : Kind → (period : ℕ) → ℕ
period_of arbitrary period = 0
period_of constant period = period

abbrev pub subheader_of : Kind → ℕ
subheader_of arbitrary = 8
subheader_of constant = 16

abbrev pub times_of : Kind → (start period : ℕ) → Times
times_of kind start period = record {
  start_time = start;
  period = period_of kind period;
  subheader_size = subheader_of kind;
}

abbrev pub encode_times : Kind → (start period : ℕ) → List ℕ
encode_times arbitrary start period = le_bytes 8 start
encode_times constant start period = le_bytes 8 start ++ le_bytes 8 period

abbrev pub payload_size : Block → ℕ
payload_size b =
    (times_of b.kind b.start_time b.period).subheader_size
    + (8 + (length b.metadata + length (encode_samples b.kind b.samples)))

-- What follows the head of a block
abbrev pub encode_payload : Block → List ℕ
encode_payload b =
    encode_times b.kind b.start_time b.period
    ++ (le_bytes 8 (length b.metadata) ++ (b.metadata ++ encode_samples b.kind b.samples))

abbrev pub encode_block : Block → List ℕ
encode_block b =
    le_bytes 1 (code b.kind)
    ++ (le_bytes 2 (as_u16 b.sample_type)
        ++ (le_bytes 2 b.channel_id ++ (le_bytes 8 (payload_size b) ++ encode_payload b)))

-- The fields fit, and the samples are what kind and type say.
pub record IsBlock (b : Block) : Type 0 where
  pub channel_fits : b.channel_id < 2 ^ 16
  pub start_fits : b.start_time < 2 ^ 64
  pub period_fits : b.period < 2 ^ 64
  pub timed : HasTimes b.kind (times_of b.kind b.start_time b.period).period b.start_time b.samples
  pub valued : AllValues b.sample_type b.samples

-- The sensor of the block's type and channel gets its samples.
abbrev pub add_block : Block → Sensors → Sensors
add_block b sensors =
    let sensor = sensor_of b.sample_type b.channel_id sensors in
    insert (as_u16 b.sample_type, b.channel_id)
      (record sensor { samples = sensor.samples ++ b.samples }) sensors

pub from_u16-as_u16 : (type : ResdSampleType) → from_u16 (as_u16 type) ≡ some type
unfolding from_u16 as_u16
from_u16-as_u16 temperature = refl
from_u16-as_u16 acceleration = refl
from_u16-as_u16 angular_rate = refl
from_u16-as_u16 voltage = refl
from_u16-as_u16 ecg = refl
from_u16-as_u16 humidity = refl
from_u16-as_u16 pressure = refl
from_u16-as_u16 magnetic_flux_density = refl
from_u16-as_u16 binary_data = refl

pub as_u16-small : (type : ResdSampleType) → as_u16 type < 2 ^ 16
unfolding as_u16
as_u16-small temperature = omega arith
as_u16-small acceleration = omega arith
as_u16-small angular_rate = omega arith
as_u16-small voltage = omega arith
as_u16-small ecg = omega arith
as_u16-small humidity = omega arith
as_u16-small pressure = omega arith
as_u16-small magnetic_flux_density = omega arith
as_u16-small binary_data = omega arith

pub length-encode_samples :
    (kind : Kind) (type : ResdSampleType) (ss : List ResdSample)
    → AllValues type ss
    → length ss ≤ length (encode_samples kind ss)
length-encode_samples kind type [] h = omega arith
length-encode_samples kind type (s ∷ ss) h =
    let stamped =
      length-append (stamp kind s.timestamp_ns) (words s.data_ ++ encode_samples kind ss) in
    let valued = length-append (words s.data_) (encode_samples kind ss) in
    omega (
      arith,
      stamped,
      valued,
      length-words h.0,
      values_size-pos h.0,
      length-encode_samples kind type ss h.1,
    )

pub wrapping_sub-add : (a b : ℕ) → a + b < 2 ^ 64 → wrapping_sub (a + b) a ≡ b
wrapping_sub-add a b h = omega (arith, h)

pub read_times-left :
    (kind : Kind) (start period : ℕ) (f : File) (ys : List ℕ)
    → start < 2 ^ 64
    → period < 2 ^ 64
    → left f ≡ encode_times kind start period ++ ys
    → let t = times_of kind start period in
      (read_times (code kind) f ≡ some (some t, moved t.subheader_size f))
      × (left (moved t.subheader_size f) ≡ ys)
unfolding read_times arbitrary_times constant_times
read_times-left arbitrary start period f ys hs hp e =
    (rw (read_word-left 8 start f ys e (omega (arith, hs))) refl, left-read_word 8 start f ys e)
read_times-left constant start period f ys hs hp e =
    let e0 = e ∙ append_assoc (le_bytes 8 start) (le_bytes 8 period) ys in
    let e1 = left-read_word 8 start f _ e0 in
    let there : moved 8 (moved 8 f) ≡ moved 16 f = ap (λ p. record f { pos = p }) (omega arith) in
    (
      rw
          (
            read_word-left 8 start f _ e0 (omega (arith, hs)),
            read_word-left 8 period (moved 8 f) ys e1 (omega (arith, hp)),
          )
          (ap (λ g. some (some (times_of constant start period), g)) there),
      subst (λ g. left g ≡ ys) there (left-read_word 8 period (moved 8 f) ys e1),
    )

pub append_assoc3 :
    (a b c d ys : List ℕ) → (a ++ (b ++ (c ++ d))) ++ ys ≡ a ++ (b ++ (c ++ (d ++ ys)))
append_assoc3 a b c d ys = simp (append_assoc) refl

pub append_assoc4 :
    (a b c d e ys : List ℕ)
    → (a ++ (b ++ (c ++ (d ++ e)))) ++ ys ≡ a ++ (b ++ (c ++ (d ++ (e ++ ys))))
append_assoc4 a b c d e ys = simp (append_assoc) refl

pub length-encode_times :
    (kind : Kind) (start period : ℕ) → length (encode_times kind start period) ≡ subheader_of kind
length-encode_times arbitrary start period = length-le_bytes 8 start
length-encode_times constant start period = simp (length-append, length-le_bytes) refl

pub length-encode_block : (b : Block) → length (encode_block b) ≡ 13 + payload_size b
length-encode_block b =
    simp (length-append, length-le_bytes, length-encode_times b.kind b.start_time b.period)
      (omega arith)

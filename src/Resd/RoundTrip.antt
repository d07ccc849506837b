-- ===== src/Resd/RoundTrip.antt =====
-- A file of well-formed blocks, and the sensors that the parser finds in it.
pub mod Encode
pub mod Whole
use mathlib.Core.List.{append_assoc, append-nil}
use native.Mathlib.Nat.{mod-eq_of_lt}
use qenode.Base.{
  ℕ, zero, suc, ◌+◌, ◌-◌, ◌%◌, ◌^◌, ◌≤◌, ◌<◌, ◌≡◌, refl, sym, ◌∙◌, ap, Bool, true, false, Option,
  none, some, List, [], ◌∷◌, ◌++◌, arith, ltb, lt→ltb, length, length-append, drop, subst,
}
use qenode.Base.Bytes.{le_bytes, length-le_bytes}
use qenode.Base.Do.{◌>>=◌}
use qenode.Base.Maps.{insert}
use qenode.Resd.Sensor.{
  ResdSampleType, temperature, acceleration, angular_rate, from_u16, as_u16, ResdSample, ResdSensor,
}
use qenode.Resd.Parser.{
  File, left, read_word, seek, wrapping_sub, key_ord, Sensors, Outcome, sensor_of, read_data,
  read_vector, Times, read_times, arbitrary_times, constant_times, read_timestamp, stored_timestamp,
  values_size,
}
use qenode.Resd.Blocks.{
  Turn, Step, Ending, after_data, turn, next_time, samples_loop, read_samples, after_metadata,
  after_times, after_head, parse_block, blocks_loop, parse,
}
use qenode.Resd.Reads.{moved, left-moved, read_word-left, left-read_word, seek-moved}
use qenode.Resd.Cycle.{file_head, read_head-left, read_magic-left}

-- The kinds of block
pub data Kind : Type 0 where
  arbitrary : Kind
  constant : Kind

abbrev pub code : Kind → ℕ
code arbitrary = 1
code constant = 2

pub record Block : Type 0 where
  pub kind : Kind
  pub sample_type : ResdSampleType
  pub channel_id : ℕ
  pub start_time : ℕ
  pub period : ℕ  -- of a constant block
  pub metadata : List ℕ
  pub samples : List ResdSample

-- The values that a sample of a type has: one temperature, or three coordinates
pub data HasValues : ResdSampleType → List ℕ → Type 0 where
  one : {x : ℕ} → x < 2 ^ 32 → HasValues temperature (x ∷ [])
  position :
      {x y z : ℕ} → x < 2 ^ 32 → y < 2 ^ 32 → z < 2 ^ 32 → HasValues acceleration (x ∷ y ∷ z ∷ [])
  turning :
      {x y z : ℕ} → x < 2 ^ 32 → y < 2 ^ 32 → z < 2 ^ 32 → HasValues angular_rate (x ∷ y ∷ z ∷ [])

-- The times of the samples: free in the one kind, given by start and period in the other
abbrev pub IsTime : Kind → (time timestamp : ℕ) → Type 0
IsTime arbitrary time timestamp = timestamp < 2 ^ 64
IsTime constant time timestamp = timestamp ≡ time

abbrev pub tick : Kind → (period time : ℕ) → ℕ
tick arbitrary period time = time
tick constant period time = (time + period) % 2 ^ 64

abbrev pub HasTimes : Kind → (period time : ℕ) → List ResdSample → Type 0
HasTimes kind period time [] = Unit
HasTimes kind period time (s ∷ ss) =
    IsTime kind time s.timestamp_ns × HasTimes kind period (tick kind period time) ss

abbrev pub AllValues : ResdSampleType → List ResdSample → Type 0
AllValues type [] = Unit
AllValues type (s ∷ ss) = HasValues type s.data_ × AllValues type ss

abbrev pub words : List ℕ → List ℕ
words [] = []
words (v ∷ vs) = le_bytes 4 v ++ words vs

abbrev pub stamp : Kind → (timestamp : ℕ) → List ℕ
stamp arbitrary timestamp = le_bytes 8 timestamp
stamp constant timestamp = []

abbrev pub encode_samples : Kind → List ResdSample → List ℕ
encode_samples kind [] = []
encode_samples kind (s ∷ ss) =
    stamp kind s.timestamp_ns ++ (words s.data_ ++ encode_samples kind ss)

read_vector-words :
    (x y z : ℕ) (f : File) (ys : List ℕ)
    → x < 2 ^ 32
    → y < 2 ^ 32
    → z < 2 ^ 32
    → left f ≡ words (x ∷ y ∷ z ∷ []) ++ ys
    → (read_vector f ≡ some (some (x ∷ y ∷ z ∷ []), moved 12 f)) × (left (moved 12 f) ≡ ys)
unfolding read_vector le_bytes
read_vector-words x y z f ys hx hy hz e =
    let e0 : left f ≡ le_bytes 4 x ++ (le_bytes 4 y ++ (le_bytes 4 z ++ ys)) = e in
    let e1 = left-read_word 4 x f _ e0 in
    let e2 = left-read_word 4 y (moved 4 f) _ e1 in
    let e3 = left-read_word 4 z (moved 4 (moved 4 f)) _ e2 in
    let there : moved 4 (moved 4 (moved 4 f)) ≡ moved 12 f =
      ap (λ p. record f { pos = p }) (omega arith) in
    (
      rw
          (
            read_word-left 4 x f _ e0 (omega (arith, hx)),
            read_word-left 4 y (moved 4 f) _ e1 (omega (arith, hy)),
            read_word-left 4 z (moved 4 (moved 4 f)) _ e2 (omega (arith, hz)),
          )
          (ap (λ g. some (some (x ∷ y ∷ z ∷ []), g)) there),
      subst (λ g. left g ≡ ys) there e3,
    )

-- The values of a sample are read.
read_data-words :
    {type : ResdSampleType} {vs : List ℕ} (f : File) (ys : List ℕ)
    → HasValues type vs
    → left f ≡ words vs ++ ys
    → (read_data type f ≡ some (some vs, moved (values_size type) f))
      × (left (moved (values_size type) f) ≡ ys)
unfolding read_data values_size le_bytes
read_data-words f ys (one {x} h) e =
    let e0 : left f ≡ le_bytes 4 x ++ ys = e in
    (rw (read_word-left 4 x f ys e0 (omega (arith, h))) refl, left-read_word 4 x f ys e0)
read_data-words f ys (position {x} {y} {z} hx hy hz) e = read_vector-words x y z f ys hx hy hz e
read_data-words f ys (turning {x} {y} {z} hx hy hz) e = read_vector-words x y z f ys hx hy hz e

abbrev stamp_size : Kind → ℕ
stamp_size arbitrary = 8
stamp_size constant = 0

length-stamp : (kind : Kind) (ts : ℕ) → length (stamp kind ts) ≡ stamp_size kind
length-stamp arbitrary ts = length-le_bytes 8 ts
length-stamp constant ts = refl

pub moved-zero : (f : File) → f ≡ moved 0 f
moved-zero f = ap (λ p. record f { pos = p }) (omega arith)

read_timestamp-stamp :
    (kind : Kind) (time ts : ℕ) (f : File) (ys : List ℕ)
    → IsTime kind time ts
    → left f ≡ stamp kind ts ++ ys
    → (read_timestamp (code kind) time f ≡ some ((ts, stamp_size kind), moved (stamp_size kind) f))
      × (left (moved (stamp_size kind) f) ≡ ys)
unfolding read_timestamp stored_timestamp
read_timestamp-stamp arbitrary time ts f ys h e =
    (rw (read_word-left 8 ts f ys e (omega (arith, h))) refl, left-read_word 8 ts f ys e)
read_timestamp-stamp constant time ts f ys h e =
    (rw h (ap (λ g. some ((time, 0), g)) (moved-zero f)), subst (λ g. left g ≡ ys) (moved-zero f) e)

-- One sample is read.
turn-sample :
    (kind : Kind) {type : ResdSampleType} (size n time : ℕ) (s : ResdSample) (f : File)
    (ys : List ℕ)
    → IsTime kind time s.timestamp_ns
    → HasValues type s.data_
    → left f ≡ stamp kind s.timestamp_ns ++ (words s.data_ ++ ys)
    → (turn (code kind) type size n time f
        ≡ Turn.reads s
            (n + stamp_size kind + values_size type)
            (moved (values_size type) (moved (stamp_size kind) f)))
      × (left (moved (values_size type) (moved (stamp_size kind) f)) ≡ ys)
unfolding turn after_data
turn-sample kind {type} size n time s f ys ht hv e =
    let first = read_timestamp-stamp kind time s.timestamp_ns f _ ht e in
    let second = read_data-words (moved (stamp_size kind) f) ys hv first.1 in
    (rw (first.0, turn, second.0, after_data) refl, second.1)

pub length-words :
    {type : ResdSampleType} {vs : List ℕ} → HasValues type vs → length (words vs) ≡ values_size type
unfolding values_size le_bytes
length-words (one h) = refl
length-words (position hx hy hz) = refl
length-words (turning hx hy hz) = refl

next_time-tick :
    (kind : Kind) (period time : ℕ) → next_time (code kind) period time ≡ tick kind period time
unfolding next_time
next_time-tick arbitrary period time = refl
next_time-tick constant period time = refl

pub values_size-pos :
    {type : ResdSampleType} {vs : List ℕ} → HasValues type vs → 0 < values_size type
unfolding values_size
values_size-pos (one h) = omega arith
values_size-pos (position hx hy hz) = omega arith
values_size-pos (turning hx hy hz) = omega arith

-- The samples of a block are read, one after the other.
pub samples_loop-encode_samples :
    (fuel : ℕ) (kind : Kind) (type : ResdSampleType) (period size n time : ℕ) (f : File)
    (acc ss : List ResdSample) (ys : List ℕ)
    → HasTimes kind period time ss
    → AllValues type ss
    → left f ≡ encode_samples kind ss ++ ys
    → n + length (encode_samples kind ss) ≡ size
    → length ss < fuel
    → samples_loop fuel (code kind) type period size n time f acc
      ≡ (Ending.done (moved (length (encode_samples kind ss)) f), acc ++ ss)
unfolding samples_loop
samples_loop-encode_samples zero kind type period size n time f acc ss ys ht hv e h room =
    absurd (omega arith)
samples_loop-encode_samples (suc fuel) kind type period size n time f acc [] ys ht hv e h room =
    let over : ltb n size ≡ false = ground (arith, h) in
    rw (over, samples_loop, append-nil acc) (ap (λ g. (Ending.done g, acc)) (moved-zero f))
samples_loop-encode_samples (suc fuel) kind type period size n time f acc (s ∷ ss) ys ht hv e h
      room =
    let rest = encode_samples kind ss in
    let whole : length (encode_samples kind (s ∷ ss))
        ≡ stamp_size kind + (values_size type + length rest) =
      length-append (stamp kind s.timestamp_ns) (words s.data_ ++ rest)
      ∙ rw (length-append (words s.data_) rest, length-stamp kind s.timestamp_ns, length-words hv.0)
          refl in
    let under : ltb n size ≡ true = lt→ltb n size (omega (arith, h, whole, values_size-pos hv.0)) in
    let e' : left f ≡ stamp kind s.timestamp_ns ++ (words s.data_ ++ (rest ++ ys)) =
      e
      ∙ append_assoc (stamp kind s.timestamp_ns) (words s.data_ ++ rest) ys
      ∙ ap (λ l. stamp kind s.timestamp_ns ++ l) (append_assoc (words s.data_) rest ys) in
    let one_ = turn-sample kind size n time s f (rest ++ ys) ht.0 hv.0 e' in
    let g = moved (values_size type) (moved (stamp_size kind) f) in
    let time' = tick kind period time in
    let next =
      samples_loop-encode_samples fuel kind type period size
        (n + stamp_size kind + values_size type) time' g (acc ++ (s ∷ [])) ss ys ht.1 hv.1 one_.1
        (omega (arith, h, whole)) (omega (arith, room)) in
    let there : g.pos + length rest ≡ f.pos + length (encode_samples kind (s ∷ ss)) =
      omega (arith, whole) in
    rw (under, samples_loop, one_.0, next_time-tick kind period time, next)
      (ap (λ (l : List ResdSample). (Ending.done (moved (length rest) g), l))
          (append_assoc acc (s ∷ []) ss)
        ∙ ap (λ p. (Ending.done (record f { pos = p }), acc ++ s ∷ ss)) there)

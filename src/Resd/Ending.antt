-- ===== src/Resd/Ending.antt =====
-- Which loops of the parser end.
use mathlib.Core.Option
use qenode.Base.{
  ℕ, zero, suc, ◌+◌, ◌-◌, ◌≤◌, ◌<◌, ◌≡◌, refl, ◌∙◌, ap, Bool, true, false, Option, none, some, List,
  [], ◌∷◌, ◌++◌, arith, ltb, ◌==◌, length, drop, Bool-cases, inl, inr, subst,
}
use qenode.Base.Bytes.{read_le}
use qenode.Base.Do.{◌>>=◌}
use qenode.Resd.Sensor.{
  ResdSampleType, temperature, acceleration, angular_rate, voltage, ecg, humidity, pressure,
  magnetic_flux_density, binary_data, ResdSample,
}
use qenode.Resd.Parser.{
  File, left, read_word, seek, wrapping_sub, read_data, read_vector, read_timestamp,
  stored_timestamp, arbitrary_timestamp,
}
use qenode.Resd.Blocks.{
  Turn, fails, ends, reads, after_data, turn, Ending, next_time, samples_loop, starved,
}

-- What holds of a result, if there is one
abbrev All : {A : Type 0} → (A → Type 0) → Option A → Type 0
All P none = Unit
All P (some x) = P x

All-bind :
    {A B : Type 0} (Q : A → Type 0) (P : B → Type 0) (o : Option A) (g : A → Option B)
    → All Q o
    → ((x : A) → Q x → All P (g x))
    → All P (o >>= g)
All-bind Q P none g h k = tt
All-bind Q P (some x) g h k = k x h

-- `g` is `f`, further on by `n` bytes at least, and still within its bytes.
record IsPast (n : ℕ) (f g : File) : Type 0 where
  same : g.bytes ≡ f.bytes
  further : f.pos + n ≤ g.pos
  within : g.pos ≤ length g.bytes

pub length-drop {ℓ} : {A : Type ℓ} (n : ℕ) (xs : List A) → length (drop n xs) ≡ length xs - n
length-drop zero xs = omega arith
length-drop (suc n) [] = omega arith
length-drop (suc n) (x ∷ xs) = omega (arith, length-drop n xs)

All-map :
    {A B : Type 0} (Q : A → Type 0) (P : B → Type 0) (o : Option A) (g : A → B)
    → All Q o
    → ((x : A) → Q x → P (g x))
    → All P (Option.map g o)
All-map Q P none g h k = tt
All-map Q P (some x) g h k = k x h

read_le-length : (n : ℕ) (bs : List ℕ) → All (λ r. length r.1 + n ≡ length bs) (read_le n bs)
unfolding read_le
read_le-length zero bs = omega arith
read_le-length (suc n) [] = tt
read_le-length (suc n) (b ∷ bs) =
    All-map (λ r. length r.1 + n ≡ length bs) (λ r. length r.1 + suc n ≡ length (b ∷ bs))
      (read_le n bs) _ (read_le-length n bs) (λ r h. omega (arith, h))

read_word-IsPast : (n : ℕ) (f : File) → 0 < n → All (λ r. IsPast n f r.1) (read_word n f)
unfolding read_word
read_word-IsPast n f pos =
    All-bind (λ r. length r.1 + n ≡ length (left f)) (λ r. IsPast n f r.1) (read_le n (left f)) _
      (read_le-length n (left f))
      (λ r h.
        let room = length-drop f.pos f.bytes in
        record { same = refl; further = omega arith; within = omega (arith, h, room, pos) })

IsPast-trans : (n m : ℕ) (f g h : File) → IsPast n f g → IsPast m g h → IsPast (n + m) f h
IsPast-trans n m f g h p q = record {
  same = q.same ∙ p.same;
  further = omega (arith, p.further, q.further);
  within = q.within;
}

-- Values are read, and then the file is further on; or the type is not supported.
abbrev DataPast : File → Option (List ℕ) × File → Type 0
DataPast f (none, g) = g ≡ f
DataPast f (some d, g) = IsPast 4 f g

vector-past : (f : File) → All (DataPast f) (read_vector f)
unfolding read_vector
vector-past f =
    All-bind (λ r. IsPast 4 f r.1) (DataPast f) (read_word 4 f) _
      (read_word-IsPast 4 f (omega arith))
      (λ r h.
        All-bind (λ r'. IsPast 4 r.1 r'.1) (DataPast f) (read_word 4 r.1) _
          (read_word-IsPast 4 r.1 (omega arith))
          (λ r' h'.
            All-bind (λ r''. IsPast 4 r'.1 r''.1) (DataPast f) (read_word 4 r'.1) _
              (read_word-IsPast 4 r'.1 (omega arith))
              (λ r'' h''. record {
                same = h''.same ∙ h'.same ∙ h.same;
                further = omega (arith, h.further, h'.further, h''.further);
                within = h''.within;
              })))

read_data-past :
    (sample_type : ResdSampleType) (f : File) → All (DataPast f) (read_data sample_type f)
unfolding read_data
read_data-past temperature f =
    All-bind (λ r. IsPast 4 f r.1) (DataPast f) (read_word 4 f) _
      (read_word-IsPast 4 f (omega arith)) (λ r h. h)
read_data-past acceleration f = vector-past f
read_data-past angular_rate f = vector-past f
read_data-past voltage f = refl
read_data-past ecg f = refl
read_data-past humidity f = refl
read_data-past pressure f = refl
read_data-past magnetic_flux_density f = refl
read_data-past binary_data f = refl

All-at : {A : Type 0} (P : A → Type 0) (o : Option A) (x : A) → All P o → o ≡ some x → P x
All-at P o x h e = subst (All P) e h

abbrev Ahead : File → File → Type 0
Ahead f g = (g.bytes ≡ f.bytes) × (f.pos ≤ g.pos)

read_timestamp-Ahead :
    (block_type current_time : ℕ) (f : File)
    → All (λ r. Ahead f r.1) (read_timestamp block_type current_time f)
unfolding read_timestamp stored_timestamp
read_timestamp-Ahead block_type current_time f =
    let stored : All (λ r. Ahead f r.1) (stored_timestamp f) =
      All-bind (λ r. IsPast 8 f r.1) (λ r. Ahead f r.1) (read_word 8 f) _
        (read_word-IsPast 8 f (omega arith)) (λ r h. (h.same, omega (arith, h.further))) in
    elim (Bool-cases (block_type == arbitrary_timestamp)) [
      | inl e ↦ rw e stored
      | inr e ↦ rw e (refl, omega arith)
    ]

abbrev TurnPast : File → Turn → Type 0
TurnPast f fails = Unit
TurnPast f (ends g) = Unit
TurnPast f (reads sample n g) = IsPast 4 f g

ends-TurnPast :
    (o : Option File) (f : File) → TurnPast f (elim o [ none ↦ Turn.fails | some g ↦ Turn.ends g ])
ends-TurnPast none f = tt
ends-TurnPast (some g) f = tt

after_data-past :
    (samples_size bytes_read timestamp : ℕ) (sample_type : ResdSampleType) (f g : File)
    (r : Option (List ℕ) × File)
    → Ahead f g
    → DataPast g r
    → TurnPast f (after_data samples_size bytes_read timestamp sample_type r.0 r.1)
unfolding after_data
after_data-past size n ts type f g (none, h) a d = ends-TurnPast (seek (wrapping_sub size n) h) f
after_data-past size n ts type f g (some vs, h) a d = record {
  same = d.same ∙ a.0;
  further = omega (arith, d.further, a.1);
  within = d.within;
}

data-past :
    (size n ts : ℕ) (type : ResdSampleType) (f g : File) (o : Option (Option (List ℕ) × File))
    → Ahead f g
    → All (DataPast g) o
    → TurnPast f (elim o [ none ↦ Turn.fails | some (d, f2) ↦ after_data size n ts type d f2 ])
data-past size n ts type f g none a h = tt
data-past size n ts type f g (some r) a h = after_data-past size n ts type f g r a h

timestamp-past :
    (size n : ℕ) (type : ResdSampleType) (f : File) (o : Option ((ℕ × ℕ) × File))
    → All (λ r. Ahead f r.1) o
    → TurnPast f (elim o [
      | none ↦ Turn.fails
      | some ((ts, k), f1) ↦ elim (read_data type f1) [
        | none ↦ Turn.fails
        | some (d, f2) ↦ after_data size (n + k) ts type d f2
      ]
    ])
timestamp-past size n type f none h = tt
timestamp-past size n type f (some ((ts, k), g)) h =
    data-past size (n + k) ts type f g (read_data type g) h (read_data-past type g)

turn-past :
    (block_type : ℕ) (type : ResdSampleType) (size n time : ℕ) (f : File)
    → TurnPast f (turn block_type type size n time f)
unfolding turn
turn-past block_type type size n time f =
    timestamp-past size n type f (read_timestamp block_type time f)
      (read_timestamp-Ahead block_type time f)

abbrev pub is_starved : Ending → Bool
is_starved starved = true
is_starved _ = false

-- A round of the loop, with what follows a sample
abbrev round :
    Bool
    → Turn
    → File
    → List ResdSample
    → (ResdSample → ℕ → File → Ending × List ResdSample)
    → Ending × List ResdSample
round b t f samples rest = elim b [
  | true ↦ elim t [
    | fails ↦ (Ending.broken, samples)
    | ends g ↦ (Ending.done g, samples)
    | reads sample n g ↦ rest sample n g
  ]
  | false ↦ (Ending.done f, samples)
]

round-ends :
    (b : Bool) (t : Turn) (f : File) (samples : List ResdSample)
    (rest : ResdSample → ℕ → File → Ending × List ResdSample)
    → TurnPast f t
    → ((sample : ResdSample) (n : ℕ) (g : File)
        → IsPast 4 f g
        → is_starved (rest sample n g).0 ≡ false)
    → is_starved (round b t f samples rest).0 ≡ false
round-ends false t f samples rest h k = refl
round-ends true fails f samples rest h k = refl
round-ends true (ends g) f samples rest h k = refl
round-ends true (reads sample n g) f samples rest h k = k sample n g h

-- The loop over the samples of a block ends by its own tests: the parser gives it one round more
-- than the file has bytes, and from any place in the file that is enough, whatever the sizes in the
-- block say.
pub samples_loop-ends :
    (fuel block_type : ℕ) (sample_type : ResdSampleType)
    (period samples_size bytes_read current_time : ℕ) (file : File) (samples : List ResdSample)
    → length file.bytes - file.pos < fuel
    → is_starved
        (samples_loop fuel block_type sample_type period samples_size bytes_read current_time file
          samples).0
      ≡ false
unfolding samples_loop
samples_loop-ends zero bt type period size n time f samples h = absurd (omega arith)
samples_loop-ends (suc fuel) bt type period size n time f samples h =
    round-ends (ltb n size) (turn bt type size n time f) f samples _
      (turn-past bt type size n time f)
      (λ sample k g p.
        samples_loop-ends fuel bt type period size k (next_time bt period time) g
          (samples ++ (sample ∷ [])) (omega (arith, h, p.further, p.within, ap length p.same)))

-- ===== src/Resd/Cycle.antt =====
-- A block that the parser never leaves.
use qenode.Base.{
  ℕ, zero, suc, ◌+◌, ◌-◌, ◌^◌, ◌<◌, ◌≡◌, refl, ap, none, some, List, [], ◌∷◌, ◌++◌, arith,
}
use qenode.Base.Bytes.{ascii, le_bytes, read_bytes}
use qenode.Resd.Sensor.{from_u16}
use qenode.Resd.Parser.{File, left, read_exact, Sensors, Outcome}
use qenode.Resd.Blocks.{
  Step, skip, after_head, read_head, parse_block, blocks_loop, read_magic, parse,
}
use qenode.Resd.Reads.{moved, read_word-left, left-read_word, seek-back}

-- Magic, version and padding
abbrev pub file_head : (version : ℕ) → List ℕ
file_head version = ascii "RESD" ++ (version ∷ 0 ∷ 0 ∷ 0 ∷ [])

-- A block whose size is -13, the bytes of its own head, and what follows
abbrev pub looping : (block_type sample_type_val channel_id : ℕ) → List ℕ → List ℕ
looping block_type sample_type_val channel_id rest =
    le_bytes 1 block_type
    ++ (le_bytes 2 sample_type_val ++ (le_bytes 2 channel_id ++ (le_bytes 8 (2 ^ 64 - 13) ++ rest)))

pub read_head-left :
    (sample_type_val channel_id size : ℕ) (f : File) (rest : List ℕ)
    → left f ≡ le_bytes 2 sample_type_val ++ (le_bytes 2 channel_id ++ (le_bytes 8 size ++ rest))
    → sample_type_val < 2 ^ 16
    → channel_id < 2 ^ 16
    → size < 2 ^ 64
    → (read_head f ≡ some ((sample_type_val, channel_id, size), moved 8 (moved 2 (moved 2 f))))
      × (left (moved 8 (moved 2 (moved 2 f))) ≡ rest)
unfolding read_head
read_head-left t ch size f rest e ht hc hs =
    let e1 = left-read_word 2 t f _ e in
    let e2 = left-read_word 2 ch (moved 2 f) _ e1 in
    let e3 = left-read_word 8 size (moved 2 (moved 2 f)) _ e2 in
    (
      rw
          (
            read_word-left 2 t f _ e (omega (arith, ht)),
            read_word-left 2 ch (moved 2 f) _ e1 (omega (arith, hc)),
            read_word-left 8 size (moved 2 (moved 2 f)) _ e2 (omega (arith, hs)),
          )
          refl,
      e3,
    )

parse_block-cycle :
    (bt t ch : ℕ) (f : File) (sensors : Sensors) (rest : List ℕ)
    → left f ≡ looping bt t ch rest
    → from_u16 t ≡ none
    → t < 2 ^ 16
    → ch < 2 ^ 16
    → parse_block bt (moved 1 f) sensors ≡ Step.goes f sensors
unfolding parse_block after_head skip
parse_block-cycle bt t ch f sensors rest e unknown ht hc =
    let head =
      read_head-left t ch (2 ^ 64 - 13) (moved 1 f) rest (left-read_word 1 bt f _ e) ht hc
        (omega arith) in
    let g = moved 8 (moved 2 (moved 2 (moved 1 f))) in
    let back = seek-back 13 g (omega arith) (omega arith) (omega arith) in
    let there : f.pos + 1 + 2 + 2 + 8 - 13 ≡ f.pos = omega arith in
    rw (head.0, parse_block, unknown, back, skip)
      (ap (λ p. Step.goes (record f { pos = p }) sensors) there)

blocks_loop-cycle :
    (fuel bt t ch : ℕ) (f : File) (sensors : Sensors) (rest : List ℕ)
    → left f ≡ looping bt t ch rest
    → from_u16 t ≡ none
    → bt < 2 ^ 8
    → t < 2 ^ 16
    → ch < 2 ^ 16
    → blocks_loop fuel f sensors ≡ (Outcome.out_of_fuel, sensors)
unfolding blocks_loop
blocks_loop-cycle zero bt t ch f sensors rest e unknown hb ht hc = refl
blocks_loop-cycle (suc fuel) bt t ch f sensors rest e unknown hb ht hc =
    rw
      (
        read_word-left 1 bt f _ e (omega (arith, hb)),
        blocks_loop,
        parse_block-cycle bt t ch f sensors rest e unknown ht hc,
      )
      (blocks_loop-cycle fuel bt t ch f sensors rest e unknown hb ht hc)

pub read_magic-left :
    (version : ℕ) (rest : List ℕ)
    → let f : File = record { bytes = file_head version ++ rest; pos = 0 } in
      (read_magic f ≡ some (moved 8 f)) × (left (moved 8 f) ≡ rest)
unfolding read_magic read_exact read_bytes
read_magic-left version rest = (refl, refl)

-- In a file of any version that begins with a block of an unknown sample type and of size 2^64 - 13,
-- the parser skips back to that block each time, whatever follows: it is out of fuel however much
-- it gets, and has found no sensor.
pub parse-cycle :
    (fuel version bt t ch : ℕ) (sensors : Sensors) (rest : List ℕ)
    → from_u16 t ≡ none
    → bt < 2 ^ 8
    → t < 2 ^ 16
    → ch < 2 ^ 16
    → parse fuel (file_head version ++ looping bt t ch rest) sensors
      ≡ (Outcome.out_of_fuel, sensors)
unfolding parse
parse-cycle fuel version bt t ch sensors rest unknown hb ht hc =
    let magic = read_magic-left version (looping bt t ch rest) in
    rw (magic.0, parse) (blocks_loop-cycle fuel bt t ch _ sensors rest magic.1 unknown hb ht hc)

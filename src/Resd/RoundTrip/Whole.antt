-- ===== src/Resd/RoundTrip/Whole.antt =====
-- Whole blocks and whole files.
use native.Mathlib.Nat.{zero-add}
use mathlib.Core.List.{append_assoc}
use qenode.Base.{
  ℕ, zero, suc, ◌+◌, ◌^◌, ◌<◌, ◌≡◌, refl, ◌∙◌, ap, none, some, List, [], ◌∷◌, ◌++◌, arith, length,
  length-append,
}
use qenode.Base.Bytes.{read_le, le_bytes}
use qenode.Resd.Sensor.{as_u16}
use qenode.Resd.Parser.{File, left, read_word, key_ord, Sensors, Outcome, sensor_of}
use qenode.Resd.Blocks.{
  Step, read_samples, after_metadata, after_times, after_head, parse_block, blocks_loop, parse,
}
use qenode.Resd.Reads.{moved, left-moved, read_word-left, left-read_word, seek-moved}
use qenode.Resd.Ending.{length-drop}
use qenode.Resd.Cycle.{file_head, read_head-left, read_magic-left}
use qenode.Resd.RoundTrip.{
  Kind, arbitrary, constant, code, Block, encode_samples, samples_loop-encode_samples,
}
use qenode.Resd.RoundTrip.Encode.{
  subheader_of, times_of, payload_size, encode_payload, encode_block, IsBlock, add_block,
  from_u16-as_u16, as_u16-small, length-encode_samples, wrapping_sub-add, read_times-left,
  append_assoc3, append_assoc4, length-encode_block,
}

-- The samples of a block, and then its sensor
read_samples-block :
    (b : Block) (f : File) (sensors : Sensors) (ys : List ℕ)
    → IsBlock b
    → left f ≡ encode_samples b.kind b.samples ++ ys
    → read_samples
        (code b.kind)
        b.sample_type
        b.channel_id
        (times_of b.kind b.start_time b.period)
        (length (encode_samples b.kind b.samples))
        f
        sensors
      ≡ Step.goes (moved (length (encode_samples b.kind b.samples)) f) (add_block b sensors)
unfolding read_samples
read_samples-block b f sensors ys ok e =
    let t = times_of b.kind b.start_time b.period in
    let sensor = sensor_of b.sample_type b.channel_id sensors in
    let n = length (encode_samples b.kind b.samples) in
    let many = length-encode_samples b.kind b.sample_type b.samples ok.valued in
    let whole = ap length e ∙ length-append (encode_samples b.kind b.samples) ys in
    let loop =
      samples_loop-encode_samples (suc (length f.bytes)) b.kind b.sample_type t.period n 0
        b.start_time f sensor.samples b.samples ys ok.timed ok.valued e (zero-add n)
        (omega (arith, many, whole, length-drop f.pos f.bytes)) in
    rw (loop, read_samples) refl

after_metadata-block :
    (b : Block) (f : File) (sensors : Sensors) (ys : List ℕ)
    → IsBlock b
    → payload_size b < 2 ^ 63
    → f.pos + length b.metadata < 2 ^ 63
    → left f ≡ b.metadata ++ (encode_samples b.kind b.samples ++ ys)
    → let g = moved (length (encode_samples b.kind b.samples)) (moved (length b.metadata) f) in
      (after_metadata
          (code b.kind)
          b.sample_type
          b.channel_id
          (payload_size b)
          (times_of b.kind b.start_time b.period)
          (length b.metadata)
          f
          sensors
        ≡ Step.goes g (add_block b sensors))
      × (left g ≡ ys)
unfolding after_metadata
after_metadata-block b f sensors ys ok small room e =
    let m = length b.metadata in
    let n = length (encode_samples b.kind b.samples) in
    let there = left-moved m f b.metadata (encode_samples b.kind b.samples ++ ys) e refl in
    let first = wrapping_sub-add (subheader_of b.kind) (8 + (m + n)) (omega (arith, small)) in
    let second = wrapping_sub-add 8 (m + n) (omega (arith, small)) in
    let third = wrapping_sub-add m n (omega (arith, small)) in
    (
      rw (seek-moved m f room, after_metadata, first, second, third)
          (read_samples-block b (moved m f) sensors ys ok there),
      left-moved n (moved m f) (encode_samples b.kind b.samples) ys there refl,
    )

-- The place after a block whose head ends at `f`
abbrev after : Block → File → File
after b f =
    moved (length (encode_samples b.kind b.samples))
      (moved (length b.metadata) (moved 8 (moved (subheader_of b.kind) f)))

after_head-block :
    (b : Block) (f : File) (sensors : Sensors) (ys : List ℕ)
    → IsBlock b
    → f.pos + payload_size b < 2 ^ 63
    → left f ≡ encode_payload b ++ ys
    → (after_head (code b.kind) (some b.sample_type) b.channel_id (payload_size b) f sensors
        ≡ Step.goes (after b f) (add_block b sensors))
      × (left (after b f) ≡ ys)
unfolding after_head after_times
after_head-block b f sensors ys ok room e =
    let m = length b.metadata in
    let sub = subheader_of b.kind in
    let e0 = e ∙ append_assoc3 _ (le_bytes 8 m) b.metadata (encode_samples b.kind b.samples) ys in
    let times = read_times-left b.kind b.start_time b.period f _ ok.start_fits ok.period_fits e0 in
    let size = read_word-left 8 m (moved sub f) _ times.1 (omega (arith, room)) in
    let e1 = left-read_word 8 m (moved sub f) _ times.1 in
    let rest =
      after_metadata-block b (moved 8 (moved sub f)) sensors ys ok (omega (arith, room))
        (omega (arith, room)) e1 in
    (rw (times.0, after_head, after_times, size) rest.0, rest.1)

parse_block-block :
    (b : Block) (f : File) (sensors : Sensors) (ys : List ℕ)
    → IsBlock b
    → f.pos + length (encode_block b) < 2 ^ 63
    → left f ≡ encode_block b ++ ys
    → let g = after b (moved 8 (moved 2 (moved 2 (moved 1 f)))) in
      (parse_block (code b.kind) (moved 1 f) sensors ≡ Step.goes g (add_block b sensors))
      × (left g ≡ ys)
unfolding parse_block
parse_block-block b f sensors ys ok room e =
    let whole = length-encode_block b in
    let assoc =
      append_assoc4 (le_bytes 1 (code b.kind)) (le_bytes 2 (as_u16 b.sample_type))
        (le_bytes 2 b.channel_id) (le_bytes 8 (payload_size b)) (encode_payload b) ys in
    let head = left-read_word 1 (code b.kind) f _ (e ∙ assoc) in
    let r =
      read_head-left (as_u16 b.sample_type) b.channel_id (payload_size b) (moved 1 f)
        (encode_payload b ++ ys) head (as_u16-small b.sample_type) ok.channel_fits
        (omega (arith, room, whole)) in
    let rest =
      after_head-block b (moved 8 (moved 2 (moved 2 (moved 1 f)))) sensors ys ok
        (omega (arith, room, whole)) r.1 in
    (rw (r.0, parse_block, from_u16-as_u16 b.sample_type) rest.0, rest.1)

abbrev pub encode_blocks : List Block → List ℕ
encode_blocks [] = []
encode_blocks (b ∷ bs) = encode_block b ++ encode_blocks bs

abbrev pub AllBlocks : List Block → Type 0
AllBlocks [] = Unit
AllBlocks (b ∷ bs) = IsBlock b × AllBlocks bs

abbrev pub add_blocks : List Block → Sensors → Sensors
add_blocks [] sensors = sensors
add_blocks (b ∷ bs) sensors = add_blocks bs (add_block b sensors)

code-small : (kind : Kind) → code kind < 256 ^ 1
code-small arbitrary = omega arith
code-small constant = omega arith

blocks_loop-encode_blocks :
    (fuel : ℕ) (bs : List Block) (f : File) (sensors : Sensors)
    → AllBlocks bs
    → f.pos + length (encode_blocks bs) < 2 ^ 63
    → left f ≡ encode_blocks bs
    → length bs < fuel
    → blocks_loop fuel f sensors ≡ (Outcome.finished, add_blocks bs sensors)
unfolding blocks_loop
blocks_loop-encode_blocks zero bs f sensors ok room e h = absurd (omega arith)
blocks_loop-encode_blocks (suc fuel) [] f sensors ok room e h =
    let stop : read_word 1 f ≡ none = unfold read_word read_le in rw e refl in
    rw (stop, blocks_loop) refl
blocks_loop-encode_blocks (suc fuel) (b ∷ bs) f sensors ok room e h =
    let split = length-append (encode_block b) (encode_blocks bs) in
    let whole = length-encode_block b in
    let one =
      parse_block-block b f sensors (encode_blocks bs) ok.0 (omega (arith, room, split)) e in
    let first =
      read_word-left 1 (code b.kind) f _
        (e ∙ append_assoc (le_bytes 1 (code b.kind)) _ (encode_blocks bs)) (code-small b.kind) in
    rw (first, blocks_loop, one.0)
      (blocks_loop-encode_blocks fuel bs (after b (moved 8 (moved 2 (moved 2 (moved 1 f)))))
        (add_block b sensors) ok.1 (omega (arith, room, split, whole)) one.1 (omega (arith, h)))

-- A file of fewer than 2^63 bytes is a head and blocks of either kind, whose fields fit, whose
-- samples have the values of a supported type and, in a block of constant period, the times of that
-- period. The parser finds each block's samples in the sensor of its type and channel, in the order
-- of the file, skips the metadata, and comes to the end of the file after one round for each block.
pub parse-encode_blocks :
    (fuel version : ℕ) (bs : List Block)
    → AllBlocks bs
    → 8 + length (encode_blocks bs) < 2 ^ 63
    → length bs < fuel
    → parse fuel (file_head version ++ encode_blocks bs) [] ≡ (Outcome.finished, add_blocks bs [])
unfolding parse
parse-encode_blocks fuel version bs ok room h =
    let magic = read_magic-left version (encode_blocks bs) in
    rw (magic.0, parse) (blocks_loop-encode_blocks fuel bs _ [] ok (omega (arith, room)) magic.1 h)

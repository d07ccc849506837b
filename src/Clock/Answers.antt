-- ===== src/Clock/Answers.antt =====
-- hw/rust/backbone/clock/src/lib.rs and tools/deterministic_coordinator/src/main.rs: the worker's
-- answers, and what the coordinator reads from them.
use mathlib.Core.List.{append-nil}
use qenode.Base.{
  ℕ, some, length-append, ap, ◌∙◌, sym, ◌^◌, ◌<◌, ◌≡◌, refl, sym, ◌∙◌, [], ◌++◌, arith, length,
  length-append, drop,
}
use qenode.Base.Bytes.{drop-append, le_bytes, length-le_bytes, read_le-le_bytes}
use qenode.Api.Structs.{
  unpack_slice_of, new_clock_advance_req, new_clock_ready_resp, clock_ready_resp_current_vtime_ns,
  clock_advance_req_delta_ns, clock_advance_req_absolute_vtime_ns, clock_advance_req_quantum_number,
}
use qenode.Api.Fields.{field-first, field-skip, field-last, unpack_slice_of-append}
use qenode.Clock.Worker.{
  read_advance, advance_payload, read_ready, reply_payload, ClockReadyResp, done_payload,
}
use qenode.Coordinator.Server.Done.{parse_done, legacy_done}
use qenode.Coordinator.Server.Unpack.{Flatbuffers}

parse_done-done_payload :
    (fb : Flatbuffers) (resp : ClockReadyResp)
    → resp.quantum_number < 2 ^ 64
    → resp.current_vtime_ns < 2 ^ 64
    → parse_done fb (done_payload resp) ≡ (resp.quantum_number, resp.current_vtime_ns, [])
unfolding parse_done legacy_done done_payload
parse_done-done_payload fb resp q v =
    let first =
      read_le-le_bytes 8 resp.quantum_number (le_bytes 8 resp.current_vtime_ns)
        (omega (arith, q)) in
    let second = read_le-le_bytes 8 resp.current_vtime_ns [] (omega (arith, v)) in
    let whole : length (done_payload resp) ≡ 16 = simp (length-append, length-le_bytes) in
    let tail : drop 8 (done_payload resp) ≡ le_bytes 8 resp.current_vtime_ns ++ [] =
      drop-append 8 (le_bytes 8 resp.quantum_number) (le_bytes 8 resp.current_vtime_ns)
        (length-le_bytes 8 resp.quantum_number)
      ∙ sym (append-nil (le_bytes 8 resp.current_vtime_ns)) in
    simp (first, whole, tail, second) refl

read_advance-advance_payload :
    (delta vtime : ℕ)
    → delta < 2 ^ 64
    → vtime < 2 ^ 64
    → read_advance (advance_payload delta vtime)
      ≡ some (record { delta_ns = delta; absolute_vtime_ns = vtime; quantum_number = 0 })
unfolding read_advance advance_payload new_clock_advance_req clock_advance_req_delta_ns
    clock_advance_req_absolute_vtime_ns clock_advance_req_quantum_number
read_advance-advance_payload delta vtime hd hv =
    let bytes = le_bytes 8 delta ++ (le_bytes 8 vtime ++ le_bytes 8 0) in
    let size : length bytes ≡ 24 = simp (length-append, length-le_bytes) refl in
    let unpack = unpack_slice_of-append 24 bytes [] size in
    let f0 = field-first 8 delta (le_bytes 8 vtime ++ le_bytes 8 0) (omega (arith, hd)) in
    let f1 =
      field-skip 8 0 8 delta (le_bytes 8 vtime ++ le_bytes 8 0)
      ∙ field-first 8 vtime (le_bytes 8 0) (omega (arith, hv)) in
    let f2 =
      field-skip 8 8 8 delta (le_bytes 8 vtime ++ le_bytes 8 0)
      ∙ field-skip 8 0 8 vtime (le_bytes 8 0)
      ∙ field-last 8 0 (omega arith) in
    let whole : unpack_slice_of 24 bytes ≡ some bytes =
      ap (unpack_slice_of 24) (sym (append-nil bytes)) ∙ unpack in
    rw (whole, f0, f1, f2) refl

read_ready-reply_payload :
    (resp : ClockReadyResp)
    → resp.current_vtime_ns < 2 ^ 64
    → read_ready (reply_payload resp) ≡ some resp.current_vtime_ns
unfolding read_ready reply_payload new_clock_ready_resp clock_ready_resp_current_vtime_ns
read_ready-reply_payload resp hv =
    let bytes = reply_payload resp in
    let size : length (reply_payload resp) ≡ 24 = simp (length-append, length-le_bytes) refl in
    let whole : unpack_slice_of 24 bytes ≡ some bytes =
      ap (unpack_slice_of 24) (sym (append-nil bytes)) ∙ unpack_slice_of-append 24 bytes [] size in
    rw (size, whole) (ap some (field-first 8 resp.current_vtime_ns _ (omega (arith, hv))))

-- What the clock and its partners write to one another is read back: the clock reads the replayer's
-- request as the delta and the time that it was made of, with quantum zero; the replayer reads the
-- node's virtual time from the clock's reply; and the coordinator reads the DONE as the quantum of
-- the reply, with that time as the limit for the node's messages, and with no messages. Numbers fit
-- into 64 bits.
pub clock_wire :
    (fb : Flatbuffers) (delta vtime : ℕ) (resp : ClockReadyResp)
    → delta < 2 ^ 64
    → vtime < 2 ^ 64
    → resp.quantum_number < 2 ^ 64
    → resp.current_vtime_ns < 2 ^ 64
    → (read_advance (advance_payload delta vtime)
        ≡ some (record { delta_ns = delta; absolute_vtime_ns = vtime; quantum_number = 0 }))
      × (read_ready (reply_payload resp) ≡ some resp.current_vtime_ns)
      × (parse_done fb (done_payload resp) ≡ (resp.quantum_number, resp.current_vtime_ns, []))
clock_wire fb delta vtime resp hd hv hq ht = (
  read_advance-advance_payload delta vtime hd hv,
  read_ready-reply_payload resp ht,
  parse_done-done_payload fb resp hq ht,
)

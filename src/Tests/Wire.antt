-- ===== src/Tests/Wire.antt =====
-- Runs of the wire format and of the PCAP log (tools/deterministic_coordinator).
use qenode.Base.{◌≡◌, refl, none, some, List, [], ◌∷◌, ◌++◌, arith, map}
use qenode.Base.Bytes.{le_bytes, read_le}
use qenode.Coordinator.Protocol.{Protocol}
use qenode.Coordinator.Message.{CoordMessage}
use qenode.Coordinator.Codec.{decode_message, decode_batch, encode_message}
use qenode.Coordinator.Codec.RoundTrip.{
  Fits, all_received, encode_messages, decode_batch-encode_messages, decode_batch_cut_off,
}
use qenode.Coordinator.Log.{create}
use qenode.Coordinator.Log.ReadBack.{
  Loggable, Entry, message, violation, write_entries, frame_of, read_file, log_header,
  read_frames-write_entries,
}

abbrev frame : Protocol → CoordMessage
frame p = record {
  src_node_id = 2;
  dst_node_id = 5;
  delivery_vtime_ns = 1_500_000_000;
  sequence_number = 3;
  protocol = p;
  payload = 0x11 ∷ 0x22 ∷ [];
  base_topic = none;
}

frame-Fits : (p : Protocol) → Fits (frame p)
frame-Fits p = record {
  src = omega arith;
  dst = omega arith;
  vtime = omega arith;
  seq = omega arith;
  len = omega arith;
}

abbrev two_frames : List CoordMessage
two_frames = frame Protocol.uart ∷ frame Protocol.control ∷ []

decode_batch-encode_messages_example :
    decode_batch (le_bytes 4 2 ++ (encode_messages two_frames ++ 7 ∷ [])) ≡ all_received two_frames
decode_batch-encode_messages_example =
    decode_batch-encode_messages two_frames (7 ∷ []) (omega arith)
      (frame-Fits Protocol.uart, (frame-Fits Protocol.control, tt))

-- Three messages are announced, two are there, and the third breaks off after five bytes.
broken_tail : decode_message (1 ∷ 2 ∷ 3 ∷ 4 ∷ 5 ∷ []) ≡ none
unfolding decode_message read_le
broken_tail = refl

decode_batch_cut_off_example :
    decode_batch (le_bytes 4 3 ++ (encode_messages two_frames ++ 1 ∷ 2 ∷ 3 ∷ 4 ∷ 5 ∷ []))
    ≡ all_received two_frames
decode_batch_cut_off_example =
    decode_batch_cut_off two_frames 1 (1 ∷ 2 ∷ 3 ∷ 4 ∷ 5 ∷ []) (omega arith)
      (frame-Fits Protocol.uart, (frame-Fits Protocol.control, tt)) broken_tail

encoded_frame :
    encode_message (frame Protocol.uart)
    ≡ 2 ∷ 0 ∷ 0 ∷ 0 ∷ 5 ∷ 0 ∷ 0 ∷ 0 ∷ 0x00 ∷ 0x2f ∷ 0x68 ∷ 0x59 ∷ 0 ∷ 0 ∷ 0 ∷ 0 ∷ 3 ∷ 0 ∷ 0 ∷ 0 ∷ 0
      ∷ 0 ∷ 0 ∷ 0 ∷ 1 ∷ 2 ∷ 0 ∷ 0 ∷ 0 ∷ 0x11 ∷ 0x22 ∷ []
unfolding encode_message le_bytes
encoded_frame = refl

abbrev log_entries : List Entry
log_entries = message (frame Protocol.uart) ∷ violation (frame Protocol.spi) ∷ []

frame-Loggable : (p : Protocol) → Loggable (frame p)
frame-Loggable p = record {
  src = omega arith;
  dst = omega arith;
  vtime = omega arith;
  len = omega arith;
}

read_frames-write_entries_example :
    read_file 2 (write_entries create log_entries) ≡ some (log_header, map frame_of log_entries)
read_frames-write_entries_example =
    read_frames-write_entries log_entries
      (frame-Loggable Protocol.uart, (frame-Loggable Protocol.spi, tt))

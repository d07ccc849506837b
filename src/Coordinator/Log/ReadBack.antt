-- ===== src/Coordinator/Log/ReadBack.antt =====
-- A reader of the PCAP format, written independently of the writer, and what it finds in a log.
use mathlib.Core.List.{append_assoc, append-nil}
use qenode.Base.{
  ℕ, zero, suc, ◌+◌, ◌-◌, ◌*◌, ◌/◌, ◌%◌, ◌^◌, ◌<◌, ◌≡◌, refl, ◌∙◌, sym, map, Option, none, some,
  true, List, [], ◌∷◌, ◌++◌, arith, length, ◌==◌, if◌then◌else◌,
}
use qenode.Base.Do.{◌>>=◌}
use qenode.Base.Bytes.{le_bytes, read_le, read_bytes, read_le-le_bytes, read_bytes-append}
use qenode.Coordinator.Protocol.{Protocol}
use qenode.Coordinator.Message.{CoordMessage}
use qenode.Coordinator.Log.{
  as_u32, packet, create, pcap_protocol_id, write_message, write_topology_violation,
}

-- What a PCAP file says of one frame.
pub record Frame : Type 0 where
  pub microseconds : ℕ
  pub src : ℕ
  pub dst : ℕ
  pub protocol_id : ℕ
  pub data_bytes : List ℕ

-- A record that is not cut short, and whose length covers the ten bytes of its virtual header.
pub read_frame : List ℕ → Option (Frame × List ℕ)
read_frame bs = do
  (sec, bs1) ← read_le 4 bs
  (usec, bs2) ← read_le 4 bs1
  (incl_len, bs3) ← read_le 4 bs2
  (orig_len, bs4) ← read_le 4 bs3
  (src, bs5) ← read_le 4 bs4
  (dst, bs6) ← read_le 4 bs5
  (proto, bs7) ← read_le 2 bs6
  (payload, rest) ← read_bytes (incl_len - 10) bs7
  if incl_len == orig_len
      then some (
        record {
          microseconds = sec * 1_000_000 + usec;
          src = src;
          dst = dst;
          protocol_id = proto;
          data_bytes = payload;
        },
        rest,
      )
      else none

pub read_frames : ℕ → List ℕ → Option (List Frame)
read_frames zero bs = some []
read_frames (suc n) bs = do (f, rest) ← read_frame bs; fs ← read_frames n rest; some (f ∷ fs)

-- What the global header of a PCAP file says.
pub record FileHeader : Type 0 where
  pub magic_number : ℕ
  pub version_major : ℕ
  pub version_minor : ℕ
  pub thiszone : ℕ
  pub sigfigs : ℕ
  pub snaplen : ℕ
  pub network : ℕ

pub read_header : List ℕ → Option (FileHeader × List ℕ)
read_header bs = do
  (magic, bs1) ← read_le 4 bs
  (major, bs2) ← read_le 2 bs1
  (minor, bs3) ← read_le 2 bs2
  (zone, bs4) ← read_le 4 bs3
  (accuracy, bs5) ← read_le 4 bs4
  (snaplen, bs6) ← read_le 4 bs5
  (network, rest) ← read_le 4 bs6
  some (
    record {
      magic_number = magic;
      version_major = major;
      version_minor = minor;
      thiszone = zone;
      sigfigs = accuracy;
      snaplen = snaplen;
      network = network;
    },
    rest,
  )

-- The header of the log: version 2.4 with times in microseconds of UTC, packets of up to 65535
-- bytes, and the link type of the first private use.
abbrev pub log_header : FileHeader
log_header = record {
  magic_number = 0xa1b2c3d4;
  version_major = 2;
  version_minor = 4;
  thiszone = 0;
  sigfigs = 0;
  snaplen = 65535;
  network = 147;
}

-- A file: its header and its first `n` frames
pub read_file : (n : ℕ) → List ℕ → Option (FileHeader × List Frame)
read_file n bs = do (h, rest) ← read_header bs; frames ← read_frames n rest; some (h, frames)

-- The node numbers are `u32`; the virtual time lies within the seconds that 32 bits count, and the
-- frame within the length that they do.
pub record Loggable (m : CoordMessage) : Type 0 where
  pub src : m.src_node_id < 2 ^ 32
  pub dst : m.dst_node_id < 2 ^ 32
  pub vtime : m.delivery_vtime_ns < 2 ^ 32 * 1_000_000_000
  pub len : length m.payload + 10 < 2 ^ 32

-- What the coordinator can log: a message that it delivers, or one that breaks the topology.
pub data Entry : Type 0 where
  message violation : CoordMessage → Entry

abbrev pub entry_message : Entry → CoordMessage
entry_message (message m) = m
entry_message (violation m) = m

pub write_entry : List ℕ → Entry → List ℕ
write_entry log (message m) = write_message log m
write_entry log (violation m) =
    write_topology_violation log m.src_node_id m.dst_node_id m.delivery_vtime_ns m.protocol
      m.payload

-- The log after a sequence of writes.
pub write_entries : List ℕ → List Entry → List ℕ
write_entries log [] = log
write_entries log (e ∷ es) = write_entries (write_entry log e) es

abbrev pub entry_protocol_id : Entry → ℕ
entry_protocol_id (message m) = pcap_protocol_id m.protocol
entry_protocol_id (violation m) = 255

-- The frame that stands for an entry: its virtual time in whole microseconds.
abbrev pub frame_of : Entry → Frame
frame_of e = record {
  microseconds = (entry_message e).delivery_vtime_ns / 1000;
  src = (entry_message e).src_node_id;
  dst = (entry_message e).dst_node_id;
  protocol_id = entry_protocol_id e;
  data_bytes = (entry_message e).payload;
}

pcap_protocol_id-lt : (p : Protocol) → pcap_protocol_id p < 256 ^ 2
unfolding pcap_protocol_id
pcap_protocol_id-lt p = ground arith

as_u32-lt : (n : ℕ) → as_u32 n < 256 ^ 4
as_u32-lt n = omega arith

payload_size : (n : ℕ) → n + 10 < 2 ^ 32 → as_u32 (n + 10) - 10 ≡ n
payload_size n h = omega arith

==_self : (n : ℕ) → (n == n) ≡ true
==_self n = ground arith

whole_microseconds :
    (vtime : ℕ)
    → vtime < 2 ^ 32 * 1_000_000_000
    → as_u32 (vtime / 1_000_000_000) * 1_000_000 + as_u32 (vtime % 1_000_000_000 / 1000)
      ≡ vtime / 1000
whole_microseconds vtime h = omega arith

module _ (src dst vtime proto : ℕ) (payload rest : List ℕ) where
  read_frame-packet :
      src < 2 ^ 32
      → dst < 2 ^ 32
      → proto < 256 ^ 2
      → vtime < 2 ^ 32 * 1_000_000_000
      → length payload + 10 < 2 ^ 32
      → read_frame (packet src dst vtime proto payload ++ rest)
        ≡ some (
          record {
            microseconds = vtime / 1000;
            src = src;
            dst = dst;
            protocol_id = proto;
            data_bytes = payload;
          },
          rest,
        )
  unfolding read_frame
  read_frame-packet hs hd hp hv hl =
      simp (append_assoc, read_le-le_bytes, as_u32-lt, hs, hd, hp)
        (rw (
          ==_self (as_u32 (length payload + 10)),
          payload_size (length payload) hl,
          read_bytes-append,
          whole_microseconds vtime hv,
        ))

abbrev entry_packet : Entry → List ℕ
entry_packet e =
    let m = entry_message e in
    packet m.src_node_id m.dst_node_id m.delivery_vtime_ns (entry_protocol_id e) m.payload

entry_protocol_id-lt : (e : Entry) → entry_protocol_id e < 256 ^ 2
entry_protocol_id-lt (message m) = pcap_protocol_id-lt m.protocol
entry_protocol_id-lt (violation m) = omega arith

read_frame-entry_packet :
    (e : Entry) (rest : List ℕ)
    → Loggable (entry_message e)
    → read_frame (entry_packet e ++ rest) ≡ some (frame_of e, rest)
read_frame-entry_packet e rest l =
    let m = entry_message e in
    read_frame-packet m.src_node_id m.dst_node_id m.delivery_vtime_ns (entry_protocol_id e)
      m.payload rest l.src l.dst (entry_protocol_id-lt e) l.vtime l.len

abbrev packets : List Entry → List ℕ
packets [] = []
packets (e ∷ es) = entry_packet e ++ packets es

write_entry-entry_packet : (log : List ℕ) (e : Entry) → write_entry log e ≡ log ++ entry_packet e
unfolding write_entry write_message write_topology_violation
write_entry-entry_packet log (message m) = refl
write_entry-entry_packet log (violation m) = refl

write_entries-packets : (log : List ℕ) (es : List Entry) → write_entries log es ≡ log ++ packets es
unfolding write_entries
write_entries-packets log [] = sym (append-nil log)
write_entries-packets log (e ∷ es) =
    write_entries-packets (write_entry log e) es
    ∙ rw (write_entry-entry_packet log e) (append_assoc log (entry_packet e) (packets es))

abbrev pub AllLoggable : List Entry → Type 0
AllLoggable [] = Unit
AllLoggable (e ∷ es) = Loggable (entry_message e) × AllLoggable es

read_frames-packets :
    (es : List Entry)
    → AllLoggable es
    → read_frames (length es) (packets es) ≡ some (map frame_of es)
unfolding read_frames
read_frames-packets [] l = refl
read_frames-packets (e ∷ es) l =
    rw (read_frame-entry_packet e (packets es) l.0) (rw (read_frames-packets es l.1))

read_header-create : (rest : List ℕ) → read_header (create ++ rest) ≡ some (log_header, rest)
unfolding read_header create read_le le_bytes
read_header-create rest = refl

-- Let each message have node numbers of 32 bits, a virtual time below 2^32 seconds, and a payload
-- that with ten bytes is shorter than 2^32. Then a log of such messages and of topology violations
-- reads back as a PCAP file: its header has the magic number, version 2.4, time zone and accuracy
-- zero, the snapshot length 65535 and the link type 147, and its frames are the entries in the order
-- in which they were written, none cut short, each with its time in whole microseconds, its
-- addresses, all of its payload, and the protocol number, which is 255 for a violation.
pub read_frames-write_entries :
    (es : List Entry)
    → AllLoggable es
    → read_file (length es) (write_entries create es) ≡ some (log_header, map frame_of es)
unfolding read_file
read_frames-write_entries es l =
    rw (write_entries-packets create es, read_header-create (packets es))
      (rw (read_frames-packets es l))

-- ===== src/Api.antt =====
-- hw/rust/common/virtmcu-api/src/lib.rs: the header of a data frame, `ZenohFrameHeader`, and the
-- frames that are built with it. The header's layout (u64 virtual time, u64 sequence number, u32
-- size, four bytes of padding) is that of the generated src/core_generated.rs.
pub mod RoundTrip
pub mod Structs
pub mod Fields
use qenode.Base.{ℕ, ◌%◌, ◌^◌, Option, none, some, List, [], ◌∷◌, ◌++◌, length, take, drop}
use qenode.Base.Bytes.{le_bytes, read_le, read_bytes}
use qenode.Base.Do.{◌>>=◌}

-- `size_of::<ZenohFrameHeader>()`
abbrev pub zenoh_frame_header_size : ℕ
zenoh_frame_header_size = 24

-- The struct is its 24 bytes.
abbrev pub ZenohFrameHeader : Type 0
ZenohFrameHeader = List ℕ

-- `ZenohFrameHeader::new`
unfoldable pub new_header : (delivery_vtime_ns sequence_number size : ℕ) → ZenohFrameHeader
new_header delivery_vtime_ns sequence_number size =
    le_bytes 8 delivery_vtime_ns
    ++ (le_bytes 8 sequence_number ++ (le_bytes 4 size ++ le_bytes 4 0))

abbrev word : Option (ℕ × List ℕ) → ℕ
word none = 0
word (some (v, rest)) = v

unfoldable pub header_vtime : ZenohFrameHeader → ℕ
header_vtime h = word (read_le 8 h)

unfoldable pub header_sequence : ZenohFrameHeader → ℕ
header_sequence h = word (read_le 8 (drop 8 h))

unfoldable pub header_size : ZenohFrameHeader → ℕ
header_size h = word (read_le 4 (drop 16 h))

-- `payload.len() as u32` wraps.
unfoldable pub encode_frame : (delivery_vtime_ns sequence_number : ℕ) → List ℕ → List ℕ
unfolding new_header
encode_frame delivery_vtime_ns sequence_number payload =
    new_header delivery_vtime_ns sequence_number (length payload % 2 ^ 32) ++ payload

-- `decode_frame`: the header and what follows it.
unfoldable pub decode_frame : List ℕ → Option (ZenohFrameHeader × List ℕ)
decode_frame bytes = read_bytes zenoh_frame_header_size bytes

-- `ZenohFrameHeader::unpack_slice`
unfoldable pub unpack_slice : List ℕ → Option ZenohFrameHeader
unpack_slice bytes = do (header, rest) ← read_bytes zenoh_frame_header_size bytes; some header

-- `encode_rf802154_frame`; the size-prefixed header that the FlatBuffers library finishes is a
-- parameter of virtual time, sequence number, size, RSSI and LQI (RSSI as a byte).
unfoldable pub encode_rf802154_frame :
    (finish_header : (vtime sequence size rssi lqi : ℕ) → List ℕ)
    → (vtime sequence : ℕ) → List ℕ
    → (rssi lqi : ℕ) → List ℕ
encode_rf802154_frame finish_header vtime sequence payload rssi lqi =
    finish_header vtime sequence (length payload % 2 ^ 32) rssi lqi ++ payload

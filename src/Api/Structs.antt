-- ===== src/Api/Structs.antt =====
-- hw/rust/common/virtmcu-api/src/lib.rs and the generated src/core_generated.rs: the other structs of
-- fixed size. Each is its bytes; `new_` is the struct's `new`, and the functions in its name are the
-- accessors, each a little-endian word at an offset.
use qenode.Base.{ℕ, Option, none, some, List, ◌++◌, drop}
use qenode.Base.Bytes.{le_bytes, read_le, read_bytes}
use qenode.Base.Do.{◌>>=◌}

abbrev word : Option (ℕ × List ℕ) → ℕ
word none = 0
word (some (v, rest)) = v

-- The word of `width` bytes at an offset
unfoldable pub field : (offset width : ℕ) → List ℕ → ℕ
field offset width bytes = word (read_le width (drop offset bytes))

-- `unpack_slice` of a struct of `size` bytes
unfoldable pub unpack_slice_of : (size : ℕ) → List ℕ → Option (List ℕ)
unpack_slice_of size bytes = do (struct, rest) ← read_bytes size bytes; some struct

-- `size_of::<VirtmcuHandshake>()`
abbrev pub size_of_handshake : ℕ
size_of_handshake = 8

unfoldable pub new_handshake : (magic version : ℕ) → List ℕ
new_handshake magic version = le_bytes 4 magic ++ (le_bytes 4 version)

unfoldable pub handshake_magic : List ℕ → ℕ
unfolding field
handshake_magic bytes = field 0 4 bytes

unfoldable pub handshake_version : List ℕ → ℕ
unfolding field
handshake_version bytes = field 4 4 bytes

-- `size_of::<MmioReq>()`
abbrev pub size_of_mmio_req : ℕ
size_of_mmio_req = 32

unfoldable pub new_mmio_req : (type_ size reserved1 reserved2 vtime_ns addr data_ : ℕ) → List ℕ
new_mmio_req type_ size reserved1 reserved2 vtime_ns addr data_ =
    le_bytes 1 type_
    ++ (le_bytes 1 size
        ++ (le_bytes 2 reserved1
            ++ (le_bytes 4 reserved2
                ++ (le_bytes 8 vtime_ns ++ (le_bytes 8 addr ++ (le_bytes 8 data_))))))

unfoldable pub mmio_req_type : List ℕ → ℕ
unfolding field
mmio_req_type bytes = field 0 1 bytes

unfoldable pub mmio_req_size : List ℕ → ℕ
unfolding field
mmio_req_size bytes = field 1 1 bytes

unfoldable pub mmio_req_reserved1 : List ℕ → ℕ
unfolding field
mmio_req_reserved1 bytes = field 2 2 bytes

unfoldable pub mmio_req_reserved2 : List ℕ → ℕ
unfolding field
mmio_req_reserved2 bytes = field 4 4 bytes

unfoldable pub mmio_req_vtime_ns : List ℕ → ℕ
unfolding field
mmio_req_vtime_ns bytes = field 8 8 bytes

unfoldable pub mmio_req_addr : List ℕ → ℕ
unfolding field
mmio_req_addr bytes = field 16 8 bytes

unfoldable pub mmio_req_data : List ℕ → ℕ
unfolding field
mmio_req_data bytes = field 24 8 bytes

-- `size_of::<SyscMsg>()`
abbrev pub size_of_sysc_msg : ℕ
size_of_sysc_msg = 16

unfoldable pub new_sysc_msg : (type_ irq_num data_ : ℕ) → List ℕ
new_sysc_msg type_ irq_num data_ = le_bytes 4 type_ ++ (le_bytes 4 irq_num ++ (le_bytes 8 data_))

unfoldable pub sysc_msg_type : List ℕ → ℕ
unfolding field
sysc_msg_type bytes = field 0 4 bytes

unfoldable pub sysc_msg_irq_num : List ℕ → ℕ
unfolding field
sysc_msg_irq_num bytes = field 4 4 bytes

unfoldable pub sysc_msg_data : List ℕ → ℕ
unfolding field
sysc_msg_data bytes = field 8 8 bytes

-- `size_of::<ClockAdvanceReq>()`
abbrev pub size_of_clock_advance_req : ℕ
size_of_clock_advance_req = 24

unfoldable pub new_clock_advance_req : (delta_ns absolute_vtime_ns quantum_number : ℕ) → List ℕ
new_clock_advance_req delta_ns absolute_vtime_ns quantum_number =
    le_bytes 8 delta_ns ++ (le_bytes 8 absolute_vtime_ns ++ (le_bytes 8 quantum_number))

unfoldable pub clock_advance_req_delta_ns : List ℕ → ℕ
unfolding field
clock_advance_req_delta_ns bytes = field 0 8 bytes

unfoldable pub clock_advance_req_absolute_vtime_ns : List ℕ → ℕ
unfolding field
clock_advance_req_absolute_vtime_ns bytes = field 8 8 bytes

unfoldable pub clock_advance_req_quantum_number : List ℕ → ℕ
unfolding field
clock_advance_req_quantum_number bytes = field 16 8 bytes

-- `size_of::<ClockReadyResp>()`
abbrev pub size_of_clock_ready_resp : ℕ
size_of_clock_ready_resp = 24

unfoldable pub new_clock_ready_resp :
    (current_vtime_ns n_frames error_code quantum_number : ℕ) → List ℕ
new_clock_ready_resp current_vtime_ns n_frames error_code quantum_number =
    le_bytes 8 current_vtime_ns
    ++ (le_bytes 4 n_frames ++ (le_bytes 4 error_code ++ (le_bytes 8 quantum_number)))

unfoldable pub clock_ready_resp_current_vtime_ns : List ℕ → ℕ
unfolding field
clock_ready_resp_current_vtime_ns bytes = field 0 8 bytes

unfoldable pub clock_ready_resp_n_frames : List ℕ → ℕ
unfolding field
clock_ready_resp_n_frames bytes = field 8 4 bytes

unfoldable pub clock_ready_resp_error_code : List ℕ → ℕ
unfolding field
clock_ready_resp_error_code bytes = field 12 4 bytes

unfoldable pub clock_ready_resp_quantum_number : List ℕ → ℕ
unfolding field
clock_ready_resp_quantum_number bytes = field 16 8 bytes

-- `size_of::<ZenohSPIHeader>()`
abbrev pub size_of_spi_header : ℕ
size_of_spi_header = 24

unfoldable pub new_spi_header :
    (delivery_vtime_ns sequence_number size cs cs_index padding : ℕ) → List ℕ
new_spi_header delivery_vtime_ns sequence_number size cs cs_index padding =
    le_bytes 8 delivery_vtime_ns
    ++ (le_bytes 8 sequence_number
        ++ (le_bytes 4 size ++ (le_bytes 1 cs ++ (le_bytes 1 cs_index ++ (le_bytes 2 padding)))))

unfoldable pub spi_header_delivery_vtime_ns : List ℕ → ℕ
unfolding field
spi_header_delivery_vtime_ns bytes = field 0 8 bytes

unfoldable pub spi_header_sequence_number : List ℕ → ℕ
unfolding field
spi_header_sequence_number bytes = field 8 8 bytes

unfoldable pub spi_header_size : List ℕ → ℕ
unfolding field
spi_header_size bytes = field 16 4 bytes

unfoldable pub spi_header_cs : List ℕ → ℕ
unfolding field
spi_header_cs bytes = field 20 1 bytes

unfoldable pub spi_header_cs_index : List ℕ → ℕ
unfolding field
spi_header_cs_index bytes = field 21 1 bytes

unfoldable pub spi_header_padding : List ℕ → ℕ
unfolding field
spi_header_padding bytes = field 22 2 bytes

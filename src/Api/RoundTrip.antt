-- ===== src/Api/RoundTrip.antt =====
-- What is read back from an encoded frame, and which data have no header.
use mathlib.Core.List.{append_assoc}
use native.Mathlib.Nat.{mod-eq_of_lt}
use qenode.Base.{ℕ, ◌%◌, subst, ◌^◌, ◌<◌, ◌≡◌, sym, some, List, ◌++◌, length, length-append}
use qenode.Base.Bytes.{
  drop-append, le_bytes, read_bytes, read_le-le_bytes, read_bytes-append, length-le_bytes,
}
use qenode.Api.{new_header, header_vtime, header_sequence, header_size, encode_frame, decode_frame}

length-new_header : (vtime seq size : ℕ) → length (new_header vtime seq size) ≡ 24
unfolding new_header
length-new_header vtime seq size = simp (length-append, length-le_bytes)

header_vtime-new_header :
    (vtime seq size : ℕ) → vtime < 2 ^ 64 → header_vtime (new_header vtime seq size) ≡ vtime
unfolding header_vtime new_header
header_vtime-new_header vtime seq size h = simp (read_le-le_bytes, h)

header_sequence-new_header :
    (vtime seq size : ℕ) → seq < 2 ^ 64 → header_sequence (new_header vtime seq size) ≡ seq
unfolding header_sequence new_header
header_sequence-new_header vtime seq size h =
    rw
      (drop-append 8 (le_bytes 8 vtime) (le_bytes 8 seq ++ (le_bytes 4 size ++ le_bytes 4 0))
        (length-le_bytes 8 vtime))
      (simp (read_le-le_bytes, h))

header_size-new_header :
    (vtime seq size : ℕ) → size < 2 ^ 32 → header_size (new_header vtime seq size) ≡ size
unfolding header_size new_header
header_size-new_header vtime seq size h =
    let e : length (le_bytes 8 vtime ++ le_bytes 8 seq) ≡ 16 =
      simp (length-append, length-le_bytes) in
    let assoc =
      append_assoc (le_bytes 8 vtime) (le_bytes 8 seq) (le_bytes 4 size ++ le_bytes 4 0) in
    rw (sym assoc) (
      rw (drop-append 16 (le_bytes 8 vtime ++ le_bytes 8 seq) (le_bytes 4 size ++ le_bytes 4 0) e)
        (simp (read_le-le_bytes, h)))

-- A frame of words that fit and of a payload shorter than 2^32 is decoded to a header with the
-- virtual time, the sequence number and the payload's length, followed by the payload.
pub decode_frame-encode_frame :
    (vtime seq : ℕ) (payload : List ℕ)
    → vtime < 2 ^ 64
    → seq < 2 ^ 64
    → length payload < 2 ^ 32
    → (h : List ℕ) × (decode_frame (encode_frame vtime seq payload) ≡ some (h, payload))
      × (header_vtime h ≡ vtime)
      × (header_sequence h ≡ seq)
      × (header_size h ≡ length payload)
unfolding encode_frame decode_frame
decode_frame-encode_frame vtime seq payload hv hs hl =
    let h = new_header vtime seq (length payload % 2 ^ 32) in
    (
      h,
      subst (λ n. read_bytes n (h ++ payload) ≡ some (h, payload))
          (length-new_header vtime seq (length payload % 2 ^ 32)) (read_bytes-append h payload),
      header_vtime-new_header vtime seq (length payload % 2 ^ 32) hv,
      header_sequence-new_header vtime seq (length payload % 2 ^ 32) hs,
      rw (mod-eq_of_lt hl) (header_size-new_header vtime seq (length payload) hl),
    )

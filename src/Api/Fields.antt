-- ===== src/Api/Fields.antt =====
-- The accessors of a struct give back what it was made of.
use mathlib.Core.List.{append-nil, append_assoc}
use qenode.Base.{
  ℕ, ◌+◌, ◌^◌, ◌<◌, ◌≡◌, refl, sym, ◌∙◌, ap, some, List, [], ◌++◌, arith, length, drop, subst,
  length-append,
}
use qenode.Base.Bytes.{
  le_bytes, read_bytes, length-le_bytes, read_le-le_bytes, read_bytes-append, drop-append, drop-add,
}
use qenode.Api.Structs.{
  field, unpack_slice_of, new_handshake, handshake_magic, handshake_version, new_sysc_msg,
  sysc_msg_type, sysc_msg_irq_num, sysc_msg_data,
}

-- A field after `pre`
pub field-le_bytes :
    (offset width v : ℕ) (pre rest : List ℕ)
    → length pre ≡ offset
    → v < 256 ^ width
    → field offset width (pre ++ (le_bytes width v ++ rest)) ≡ v
unfolding field
field-le_bytes offset width v pre rest h fit =
    rw (drop-append offset pre (le_bytes width v ++ rest) h, read_le-le_bytes width v rest fit) refl

pub unpack_slice_of-append :
    (size : ℕ) (struct rest : List ℕ)
    → length struct ≡ size
    → unpack_slice_of size (struct ++ rest) ≡ some struct
unfolding unpack_slice_of
unpack_slice_of-append size struct rest h =
    let read =
      subst (λ k. read_bytes k (struct ++ rest) ≡ some (struct, rest)) h
        (read_bytes-append struct rest) in
    rw read refl

pub length-new_sysc_msg : (t i d : ℕ) → length (new_sysc_msg t i d) ≡ 16
unfolding new_sysc_msg
length-new_sysc_msg t i d = simp (length-append, length-le_bytes) refl

pub sysc_msg-fields :
    (t i d : ℕ)
    → t < 2 ^ 32
    → i < 2 ^ 32
    → d < 2 ^ 64
    → (sysc_msg_type (new_sysc_msg t i d) ≡ t)
      × (sysc_msg_irq_num (new_sysc_msg t i d) ≡ i)
      × (sysc_msg_data (new_sysc_msg t i d) ≡ d)
unfolding new_sysc_msg sysc_msg_type sysc_msg_irq_num sysc_msg_data
sysc_msg-fields t i d ht hi hd = (
  field-le_bytes 0 4 t [] _ refl (omega (arith, ht)),
  field-le_bytes 4 4 i (le_bytes 4 t) _ (length-le_bytes 4 t) (omega (arith, hi)),
  ap (field 8 8) (
        sym (append_assoc (le_bytes 4 t) (le_bytes 4 i) (le_bytes 8 d))
        ∙ ap (λ l. (le_bytes 4 t ++ le_bytes 4 i) ++ l) (sym (append-nil (le_bytes 8 d))))
      ∙ field-le_bytes 8 8 d (le_bytes 4 t ++ le_bytes 4 i) []
          (simp (length-append, length-le_bytes) refl) (omega (arith, hd)),
)

pub length-new_handshake : (magic version : ℕ) → length (new_handshake magic version) ≡ 8
unfolding new_handshake
length-new_handshake magic version = simp (length-append, length-le_bytes) refl

pub handshake-fields :
    (magic version : ℕ)
    → magic < 2 ^ 32
    → version < 2 ^ 32
    → (handshake_magic (new_handshake magic version) ≡ magic)
      × (handshake_version (new_handshake magic version) ≡ version)
unfolding new_handshake handshake_magic handshake_version
handshake-fields magic version hm hv = (
  field-le_bytes 0 4 magic [] _ refl (omega (arith, hm)),
  ap (λ l. field 4 4 (le_bytes 4 magic ++ l)) (sym (append-nil (le_bytes 4 version)))
      ∙ field-le_bytes 4 4 version (le_bytes 4 magic) [] (length-le_bytes 4 magic)
          (omega (arith, hv)),
)

-- A field behind another one
pub field-skip :
    (k offset width v : ℕ) (rest : List ℕ)
    → field (k + offset) width (le_bytes k v ++ rest) ≡ field offset width rest
unfolding field
field-skip k offset width v rest =
    let behind =
      drop-add k offset (le_bytes k v ++ rest)
      ∙ ap (drop offset) (drop-append k (le_bytes k v) rest (length-le_bytes k v)) in
    rw behind refl

pub field-first :
    (width v : ℕ) (rest : List ℕ) → v < 256 ^ width → field 0 width (le_bytes width v ++ rest) ≡ v
field-first width v rest fit = field-le_bytes 0 width v [] rest refl fit

pub field-last : (width v : ℕ) → v < 256 ^ width → field 0 width (le_bytes width v) ≡ v
field-last width v fit =
    ap (field 0 width) (sym (append-nil (le_bytes width v))) ∙ field-first width v [] fit

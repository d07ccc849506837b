-- ===== src/Actuator/Registers.antt =====
-- hw/rust/observability/actuator/src/lib.rs: what is read after a write.
use mathlib.Core.Option
use native.Mathlib.Nat.{pow-suc, suc-add}
use qenode.Base.{
  ℕ, zero, suc, ◌+◌, ◌-◌, ◌/◌, ◌%◌, ◌^◌, ◌<◌, ◌≤◌, ◌≡◌, ◌≢◌, refl, ap, sym, ◌∙◌, true, false, ◌==◌,
  le→leb, subst, Bool-cases, inl, inr, some, List, [], ◌∷◌, ◌++◌, arith, length, get_or, set, take,
  drop, length-take, get_or-set_self, get_or-set_ne,
}
use qenode.Base.Bytes.{le_bytes, length-le_bytes, drop-append}
use qenode.Actuator.{
  Actuator, from_le_bytes, is_data, index_of, offset_of, part, patch, actuator_read, actuator_write,
}

from_le_bytes-le_bytes : (k v : ℕ) → v < 256 ^ k → from_le_bytes (le_bytes k v) ≡ v
unfolding le_bytes
from_le_bytes-le_bytes zero v h = omega arith
from_le_bytes-le_bytes (suc k) v h =
    rw (from_le_bytes-le_bytes k (v / 256) (omega (arith, pow-suc 256 k))) (omega arith)

take-le_bytes : (k j v : ℕ) → take k (le_bytes (k + j) v) ≡ le_bytes k v
unfolding le_bytes
take-le_bytes zero j v = refl
take-le_bytes (suc k) j v =
    rw (suc-add k j) (ap (λ bytes. v % 256 ∷ bytes) (take-le_bytes k j (v / 256)))

take-append : (n : ℕ) (xs ys : List ℕ) → length xs ≡ n → take n (xs ++ ys) ≡ xs
take-append zero [] ys h = refl
take-append zero (x ∷ xs) ys h = absurd (omega arith)
take-append (suc n) [] ys h = absurd (omega arith)
take-append (suc n) (x ∷ xs) ys h = ap (λ zs. x ∷ zs) (take-append n xs ys (omega arith))

part-patch :
    (bytes : List ℕ) (offset size val : ℕ)
    → length bytes ≡ 8
    → offset + size ≤ 8
    → val < 256 ^ size
    → part (patch bytes offset size val) offset size ≡ val
part-patch bytes offset size val l f h =
    let low : take size (le_bytes 8 val) ≡ le_bytes size val =
      ap (λ n. take size (le_bytes n val)) {x = 8} {y = size + (8 - size)} (omega arith)
      ∙ take-le_bytes size (8 - size) val in
    rw (le→leb (offset + size) 8 f, low)
      (rw (
        drop-append offset (take offset bytes) (le_bytes size val ++ drop (offset + size) bytes)
            (omega (arith, length-take offset bytes)),
        take-append size (le_bytes size val) (drop (offset + size) bytes)
            (length-le_bytes size val),
        from_le_bytes-le_bytes size val h,
      ))

-- Doubles that are whole
abbrev pub AllWhole : List (List ℕ) → Type 0
AllWhole doubles = (length doubles ≡ 8) × ((i : ℕ) → i < 8 → length (get_or doubles i []) ≡ 8)

record IsData (addr : ℕ) : Type 0 where
  not_id : (addr == 0) ≡ false
  not_size : (addr == 4) ≡ false
  not_go : (addr == 8) ≡ false
  below : index_of addr < 8

is_data-IsData : (addr : ℕ) → is_data addr ≡ true → IsData addr
is_data-IsData addr d = record {
  not_id = ground arith;
  not_size = ground arith;
  not_go = ground arith;
  below = ground arith;
}

actuator_read-data :
    (s : Actuator) (addr size : ℕ)
    → is_data addr ≡ true
    → actuator_read s addr size ≡ part (get_or s.data_ (index_of addr) []) (offset_of addr) size
unfolding actuator_read
actuator_read-data s addr size d = let i = is_data-IsData addr d in rw (i.not_id, i.not_size, d)

actuator_read_elsewhere :
    (s : Actuator) (doubles : List (List ℕ)) (addr size : ℕ)
    → is_data addr ≡ false
    → actuator_read (record s { data_ = doubles }) addr size ≡ actuator_read s addr size
unfolding actuator_read
actuator_read_elsewhere s doubles addr size d = rw d

-- The device after a write into a data register
abbrev written : Actuator → (addr val size : ℕ) → Actuator
written s addr val size = record s {
  data_ =
      set s.data_ (index_of addr)
        (patch (get_or s.data_ (index_of addr) []) (offset_of addr) size val);
}

actuator_write-data :
    (vtime_ns : ℕ) (s : Actuator) (addr val size : ℕ)
    → is_data addr ≡ true
    → actuator_write vtime_ns s addr val size ≡ some (written s addr val size)
unfolding actuator_write
actuator_write-data vtime_ns s addr val size d =
    let i = is_data-IsData addr d in rw (i.not_id, i.not_size, i.not_go, d)

same_register :
    (s : Actuator) (addr val size : ℕ)
    → AllWhole s.data_
    → is_data addr ≡ true
    → offset_of addr + size ≤ 8
    → val < 256 ^ size
    → actuator_read (written s addr val size) addr size ≡ val
same_register s addr val size w d f h =
    let i = is_data-IsData addr d in
    let bytes = get_or s.data_ (index_of addr) [] in
    actuator_read-data (written s addr val size) addr size d
    ∙ ap (λ register. part register (offset_of addr) size)
        (get_or-set_self s.data_ (index_of addr) (patch bytes (offset_of addr) size val) []
          (subst (λ n. index_of addr < n) (sym w.0) i.below))
    ∙ part-patch bytes (offset_of addr) size val (w.1 (index_of addr) i.below) f h

other_register :
    (s : Actuator) (addr val size other n : ℕ)
    → (is_data other ≡ true → index_of addr ≢ index_of other)
    → actuator_read (written s addr val size) other n ≡ actuator_read s other n
other_register s addr val size other n apart = elim (Bool-cases (is_data other)) [
  | inl d ↦
      actuator_read-data (written s addr val size) other n d
      ∙ ap (λ register. part register (offset_of other) n)
          (get_or-set_ne s.data_ (index_of addr) (index_of other)
            (patch (get_or s.data_ (index_of addr) []) (offset_of addr) size val) [] (apart d))
      ∙ sym (actuator_read-data s other n d)
  | inr d ↦ actuator_read_elsewhere s (written s addr val size).data_ other n d
]

-- Let the doubles be whole, and `size` bytes at the address lie in one data register. Then the write
-- of a value that these bytes hold does not panic, a read of the same bytes gives the value, and a
-- read at an address outside that register, of any size, gives what it gave before the write.
pub actuator_read-actuator_write :
    (vtime_ns : ℕ) (s : Actuator) (addr val size : ℕ)
    → AllWhole s.data_
    → is_data addr ≡ true
    → offset_of addr + size ≤ 8
    → val < 256 ^ size
    → Option.map (λ after. actuator_read after addr size) (actuator_write vtime_ns s addr val size)
        ≡ some val
      × ((other n : ℕ)
          → (is_data other ≡ true → index_of addr ≢ index_of other)
          → Option.map
              (λ after. actuator_read after other n)
              (actuator_write vtime_ns s addr val size)
            ≡ some (actuator_read s other n))
actuator_read-actuator_write vtime_ns s addr val size w d f h =
    let e = actuator_write-data vtime_ns s addr val size d in
    (
      rw e (ap some (same_register s addr val size w d f h)),
      λ other n apart. rw e (ap some (other_register s addr val size other n apart)),
    )

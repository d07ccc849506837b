-- ===== src/Lpuart/Transmit.antt =====
-- The order of the bytes on the wire: from the guest's writes to the published frames.
use mathlib.Core.List.{append_assoc, append-nil}
use native.Mathlib.Nat.{mod-eq_of_lt}
use qenode.Base.{
  ℕ, suc, ◌+◌, ◌%◌, ◌^◌, ◌≤◌, ◌<◌, ◌≡◌, refl, sym, ◌∙◌, ap, Bool, true, false, List, [], ◌∷◌, ◌++◌,
  none, arith, ltb, lt→ltb, if◌then◌else◌, length, length-append,
}
use qenode.Lpuart.Device.{
  LpuartState, LinMessageType, OrderedLinFrame, bit, ctrl_te, is_empty, update_irqs, send_lin_msg,
}
use qenode.Lpuart.Mmio.{lpuart_write, write_data}
use qenode.Lpuart.Timers.{after_send, send_front, lpuart_tx_timer_cb}

-- The guest writes bytes to DATA, one after the other.
abbrev pub write_all : (now : ℕ) → List ℕ → LpuartState → LpuartState
write_all now [] s = s
write_all now (byte ∷ bytes) s = write_all now bytes (lpuart_write now s 0x1C byte)

-- The transmit timer fires, at the given times.
abbrev pub fire_all : List ℕ → LpuartState → LpuartState
fire_all [] s = s
fire_all (now ∷ nows) s = fire_all nows (lpuart_tx_timer_cb now s)

-- A frame for each byte, at the time at which it goes out.
abbrev pub frames : (nows bytes : List ℕ) → List OrderedLinFrame
frames [] bytes = []
frames (now ∷ nows) [] = []
frames (now ∷ nows) (byte ∷ bytes) =
    record { vtime = now; msg_type = LinMessageType.data_; bytes = byte ∷ [] } ∷ frames nows bytes

abbrev pub AllBytes : List ℕ → Type 0
AllBytes [] = Unit
AllBytes (b ∷ bs) = (b < 256) × AllBytes bs

-- What the transmit side of the device amounts to.
record SameWire (s t : LpuartState) : Type 0 where
  published_same : t.published ≡ s.published
  fifo_same : t.tx_fifo ≡ s.tx_fifo
  ctrl_same : t.ctrl ≡ s.ctrl

if-SameWire :
    (b : Bool) (s t u : LpuartState) → SameWire s t → SameWire s u → SameWire s (if b then t else u)
if-SameWire true s t u h k = h
if-SameWire false s t u h k = k

after_send-SameWire : (now : ℕ) (s : LpuartState) → SameWire s (after_send now s)
unfolding after_send update_irqs
after_send-SameWire now s =
    if-SameWire (is_empty s.tx_fifo) s _ _
      (record { published_same = refl; fifo_same = refl; ctrl_same = refl })
      (record { published_same = refl; fifo_same = refl; ctrl_same = refl })

-- A firing with a byte at the front of the queue.
lpuart_tx_timer_cb_front :
    (now byte : ℕ) (rest : List ℕ) (s : LpuartState)
    → s.tx_fifo ≡ byte ∷ rest
    → ((lpuart_tx_timer_cb now s).tx_fifo ≡ rest)
      × ((lpuart_tx_timer_cb now s).published ≡ s.published ++ frames (now ∷ []) (byte ∷ []))
unfolding lpuart_tx_timer_cb send_front send_lin_msg
lpuart_tx_timer_cb_front now byte rest s e =
    let w = after_send-SameWire now (send_front now (record s { tx_timer = none }) (byte ∷ rest)) in
    rw e (w.fifo_same, w.published_same)

fire_all-frames :
    (nows bytes : List ℕ) (s : LpuartState)
    → length nows ≡ length bytes
    → s.tx_fifo ≡ bytes
    → ((fire_all nows s).published ≡ s.published ++ frames nows bytes)
      × ((fire_all nows s).tx_fifo ≡ [])
fire_all-frames [] [] s h e = (sym (append-nil s.published), e)
fire_all-frames [] (byte ∷ bytes) s h e = absurd (omega arith)
fire_all-frames (now ∷ nows) [] s h e = absurd (omega arith)
fire_all-frames (now ∷ nows) (byte ∷ bytes) s h e =
    let front = lpuart_tx_timer_cb_front now byte bytes s e in
    let rest = fire_all-frames nows bytes (lpuart_tx_timer_cb now s) (omega arith) front.0 in
    (
      rest.0
          ∙ ap (λ (l : List OrderedLinFrame). l ++ frames nows bytes) front.1
          ∙ append_assoc s.published (frames (now ∷ []) (byte ∷ [])) (frames nows bytes),
      rest.1,
    )

queued : LpuartState → ℕ → LpuartState
queued s byte = record s { tx_fifo = s.tx_fifo ++ (byte ∷ []) }

write_data-SameWire :
    (now byte : ℕ) (s : LpuartState)
    → length s.tx_fifo < 4096
    → byte < 256
    → SameWire (queued s byte) (write_data now s byte)
unfolding write_data update_irqs queued
write_data-SameWire now byte s room small =
    let fits : (if ltb (length s.tx_fifo) 4096 then s.tx_fifo ++ (byte % 2 ^ 8 ∷ []) else s.tx_fifo)
        ≡ s.tx_fifo ++ (byte ∷ []) =
      rw (lt→ltb (length s.tx_fifo) 4096 room, mod-eq_of_lt small) in
    if-SameWire (is_empty s.tx_fifo) (queued s byte) _ _
      (record { published_same = refl; fifo_same = fits; ctrl_same = refl })
      (record { published_same = refl; fifo_same = fits; ctrl_same = refl })

-- A write to DATA while the transmitter is on and the queue has room.
write-SameWire :
    (now byte : ℕ) (s : LpuartState)
    → bit ctrl_te s.ctrl ≡ true
    → length s.tx_fifo < 4096
    → byte < 256
    → SameWire (queued s byte) (lpuart_write now s 0x1C byte)
unfolding lpuart_write
write-SameWire now byte s te room small =
    let word : byte % 2 ^ 32 ≡ byte = omega (arith, small) in
    simp (te, word) (write_data-SameWire now byte s room small)

write_all_queued :
    (now : ℕ) (bytes : List ℕ) (s : LpuartState)
    → bit ctrl_te s.ctrl ≡ true
    → length s.tx_fifo + length bytes ≤ 4096
    → AllBytes bytes
    → ((write_all now bytes s).tx_fifo ≡ s.tx_fifo ++ bytes)
      × ((write_all now bytes s).published ≡ s.published)
unfolding queued
write_all_queued now [] s te room small = (sym (append-nil s.tx_fifo), refl)
write_all_queued now (byte ∷ bytes) s te room small =
    let w = write-SameWire now byte s te (omega (arith, room)) small.0 in
    let longer : length (lpuart_write now s 0x1C byte).tx_fifo ≡ suc (length s.tx_fifo) =
      rw w.fifo_same (omega (arith, length-append s.tx_fifo (byte ∷ []))) in
    let rest =
      write_all_queued now bytes (lpuart_write now s 0x1C byte) (rw w.ctrl_same te)
        (omega (arith, room, longer)) small.1 in
    (
      rest.0
          ∙ ap (λ (l : List ℕ). l ++ bytes) w.fifo_same
          ∙ append_assoc s.tx_fifo (byte ∷ []) bytes,
      rest.1 ∙ w.published_same,
    )

-- With the transmitter on and its queue empty, the guest writes up to 4096 bytes to DATA; then the
-- transmit timer fires once for each. The device publishes a data frame for each byte, in the order
-- in which they were written and at the time of its firing, and its queue is empty again.
pub transmit_in_order :
    (now : ℕ) (bytes nows : List ℕ) (s : LpuartState)
    → bit ctrl_te s.ctrl ≡ true
    → s.tx_fifo ≡ []
    → length bytes ≤ 4096
    → AllBytes bytes
    → length nows ≡ length bytes
    → ((fire_all nows (write_all now bytes s)).published ≡ s.published ++ frames nows bytes)
      × ((fire_all nows (write_all now bytes s)).tx_fifo ≡ [])
transmit_in_order now bytes nows s te idle room small h =
    let start : length s.tx_fifo + length bytes ≤ 4096 = rw idle (omega (arith, room)) in
    let written = write_all_queued now bytes s te start small in
    let fired =
      fire_all-frames nows bytes (write_all now bytes s) h
        (written.0 ∙ ap (λ (l : List ℕ). l ++ bytes) idle) in
    (fired.0 ∙ ap (λ (l : List OrderedLinFrame). l ++ frames nows bytes) written.1, fired.1)

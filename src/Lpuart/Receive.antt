-- ===== src/Lpuart/Receive.antt =====
-- The receiver's flag and the buffers' bounds, over the receiver and any sequence of events.
use qenode.Base.{
  ℕ, ◌≤◌, ◌≡◌, refl, sym, ◌∙◌, ap, true, false, not, none, List, [], ◌∷◌, ◌++◌, arith, ltb, leb,
  if◌then◌else◌, length, length-append, Bool-cases, inl, inr,
}
use qenode.Lpuart.Device.{
  LpuartState, LinMessageType, OrderedLinFrame, bit, set_bit, is_empty, stat_or, ctrl_re,
  baud_lbkde, stat_rdrf, stat_lbkdif, max_rx_fifo, init, reset, update_irqs,
}
use qenode.Lpuart.Timers.{
  drain, lpuart_tx_timer_cb, receive_bytes, flag_received, receive, receive_due, rearm,
  lpuart_rx_timer_cb, on_frame,
}
use qenode.Lpuart.Mmio.{lpuart_read, lpuart_write}
use qenode.Lpuart.Bits.{rdrf-set_or, rdrf-set_lbkdif, rdrf-set_rdrf}
use qenode.Lpuart.Flags.{
  IsConsistent, init-IsConsistent, reset-IsConsistent, Same-IsConsistent, if-IsConsistent,
  lpuart_read-IsConsistent, update_irqs-IsConsistent, lpuart_write-IsConsistent,
  lpuart_tx_timer_cb-IsConsistent,
}

-- While bytes are taken in, the flag may be down although a byte waits.
record IsReceiving (s : LpuartState) : Type 0 where
  rdrf : bit stat_rdrf s.stat ≡ true → is_empty s.rx_buffer ≡ false
  rx_room : length s.rx_buffer ≤ max_rx_fifo
  tx_room : length s.tx_fifo ≤ 4096

IsConsistent-IsReceiving : (s : LpuartState) → IsConsistent s → IsReceiving s
IsConsistent-IsReceiving s h = record {
  rdrf = λ e. ground (arith, h.rdrf);
  rx_room = h.rx_room;
  tx_room = h.tx_room;
}

received_nothing :
    (s : LpuartState)
    → is_empty s.rx_buffer ≡ true
    → IsReceiving s
    → bit stat_rdrf s.stat ≡ not (is_empty s.rx_buffer)
received_nothing s e h = elim (Bool-cases (bit stat_rdrf s.stat)) [
  | inl up ↦ let clash = sym e ∙ h.rdrf up in absurd (ground arith)
  | inr down ↦ down ∙ ap not (sym e)
]

is_empty-append : (bytes : List ℕ) (byte : ℕ) → is_empty (bytes ++ (byte ∷ [])) ≡ false
is_empty-append [] byte = refl
is_empty-append (b ∷ bytes) byte = refl

receive_byte-IsReceiving :
    (s : LpuartState) (byte : ℕ)
    → IsReceiving s
    → IsReceiving (
        if leb max_rx_fifo (length s.rx_buffer)
        then record s { stat = set_bit stat_or s.stat }
        else record s { rx_buffer = s.rx_buffer ++ (byte ∷ []) })
receive_byte-IsReceiving s byte h = elim (Bool-cases (leb max_rx_fifo (length s.rx_buffer))) [
  | inl full ↦ simp full (record {
    rdrf = λ e. h.rdrf (sym (rdrf-set_or s.stat) ∙ e);
    rx_room = h.rx_room;
    tx_room = h.tx_room;
  })
  | inr room ↦ simp room (record {
    rdrf = λ e. is_empty-append s.rx_buffer byte;
    rx_room = ground (arith, length-append s.rx_buffer (byte ∷ []));
    tx_room = h.tx_room;
  })
]

receive_bytes-IsReceiving :
    (bytes : List ℕ) (s : LpuartState) → IsReceiving s → IsReceiving (receive_bytes s bytes)
unfolding receive_bytes
receive_bytes-IsReceiving [] s h = h
receive_bytes-IsReceiving (byte ∷ bytes) s h =
    receive_bytes-IsReceiving bytes _ (receive_byte-IsReceiving s byte h)

flag_received-IsConsistent : (s : LpuartState) → IsReceiving s → IsConsistent (flag_received s)
flag_received-IsConsistent s h = elim (Bool-cases (is_empty s.rx_buffer)) [
  | inl e ↦
      let down : bit stat_rdrf s.stat ≡ not (is_empty s.rx_buffer) = received_nothing s e h in
      simp e (record { rdrf = down; rx_room = h.rx_room; tx_room = h.tx_room })
  | inr e ↦ simp e (record {
    rdrf = rdrf-set_rdrf s.stat ∙ ap not (sym e);
    rx_room = h.rx_room;
    tx_room = h.tx_room;
  })
]

receive-IsConsistent :
    (s : LpuartState) (kind : LinMessageType) (bytes : List ℕ)
    → IsConsistent s
    → IsConsistent (receive s kind bytes)
unfolding receive
receive-IsConsistent s LinMessageType.break bytes h =
    if-IsConsistent (bit baud_lbkde s.baud) (record s { stat = set_bit stat_lbkdif s.stat }) s
      (record { rdrf = rdrf-set_lbkdif s.stat ∙ h.rdrf; rx_room = h.rx_room; tx_room = h.tx_room })
      h
receive-IsConsistent s LinMessageType.data_ bytes h =
    if-IsConsistent (bit ctrl_re s.ctrl) (flag_received (receive_bytes s bytes)) s
      (flag_received-IsConsistent (receive_bytes s bytes)
        (receive_bytes-IsReceiving bytes s (IsConsistent-IsReceiving s h)))
      h
receive-IsConsistent s LinMessageType.sync bytes h = h

receive_due-IsConsistent :
    (heap : List OrderedLinFrame) (now : ℕ) (s : LpuartState)
    → IsConsistent s
    → IsConsistent (receive_due now s heap)
unfolding receive_due
receive_due-IsConsistent [] now s h =
    Same-IsConsistent s _ (record { stat_same = refl; rx_same = refl; tx_same = refl }) h
receive_due-IsConsistent (p ∷ heap) now s h =
    if-IsConsistent (leb p.vtime now) (receive_due now (receive s p.msg_type p.bytes) heap)
      (record s { local_heap = p ∷ heap })
      (receive_due-IsConsistent heap now (receive s p.msg_type p.bytes)
        (receive-IsConsistent s p.msg_type p.bytes h))
      (record { rdrf = h.rdrf; rx_room = h.rx_room; tx_room = h.tx_room })

rearm-IsConsistent :
    (s : LpuartState) (heap : List OrderedLinFrame) → IsConsistent s → IsConsistent (rearm s heap)
unfolding rearm
rearm-IsConsistent s [] h = record { rdrf = h.rdrf; rx_room = h.rx_room; tx_room = h.tx_room }
rearm-IsConsistent s (p ∷ heap) h = record {
  rdrf = h.rdrf;
  rx_room = h.rx_room;
  tx_room = h.tx_room;
}

lpuart_rx_timer_cb-IsConsistent :
    (now : ℕ) (s : LpuartState) → IsConsistent s → IsConsistent (lpuart_rx_timer_cb now s)
unfolding lpuart_rx_timer_cb
lpuart_rx_timer_cb-IsConsistent now s h =
    let ready = record s { rx_receiver = []; rx_timer = none } in
    let received = receive_due now ready (drain s.rx_receiver s.local_heap) in
    rearm-IsConsistent (update_irqs received) received.local_heap (
      update_irqs-IsConsistent received (
        receive_due-IsConsistent (drain s.rx_receiver s.local_heap) now ready
          (record { rdrf = h.rdrf; rx_room = h.rx_room; tx_room = h.tx_room })))

on_frame-IsConsistent :
    (s : LpuartState) (p : OrderedLinFrame) → IsConsistent s → IsConsistent (on_frame s p)
unfolding on_frame
on_frame-IsConsistent s p h =
    if-IsConsistent (ltb p.vtime s.earliest_vtime) _ _
      (record { rdrf = h.rdrf; rx_room = h.rx_room; tx_room = h.tx_room })
      (record { rdrf = h.rdrf; rx_room = h.rx_room; tx_room = h.tx_room })

-- One access by the guest, one timer, one frame from the bus, or a reset.
pub data Event : Type 0 where
  reads : (offset : ℕ) → Event
  writes : (now offset value : ℕ) → Event
  tx_fires rx_fires : (now : ℕ) → Event
  frame_arrives : OrderedLinFrame → Event
  resets : Event

unfoldable pub step : LpuartState → Event → LpuartState
step s (reads offset) = (lpuart_read s offset).1
step s (writes now offset value) = lpuart_write now s offset value
step s (tx_fires now) = lpuart_tx_timer_cb now s
step s (rx_fires now) = lpuart_rx_timer_cb now s
step s (frame_arrives p) = on_frame s p
step s resets = reset s

unfoldable pub run : LpuartState → List Event → LpuartState
unfolding step
run s [] = s
run s (e ∷ es) = run (step s e) es

step-IsConsistent : (s : LpuartState) (e : Event) → IsConsistent s → IsConsistent (step s e)
unfolding step
step-IsConsistent s (reads offset) h = lpuart_read-IsConsistent s offset h
step-IsConsistent s (writes now offset value) h = lpuart_write-IsConsistent now s offset value h
step-IsConsistent s (tx_fires now) h = lpuart_tx_timer_cb-IsConsistent now s h
step-IsConsistent s (rx_fires now) h = lpuart_rx_timer_cb-IsConsistent now s h
step-IsConsistent s (frame_arrives p) h = on_frame-IsConsistent s p h
step-IsConsistent s resets h = reset-IsConsistent s

run-IsConsistent : (s : LpuartState) (es : List Event) → IsConsistent s → IsConsistent (run s es)
unfolding run
run-IsConsistent s [] h = h
run-IsConsistent s (e ∷ es) h = run-IsConsistent (step s e) es (step-IsConsistent s e h)

-- Whatever sequence of accesses, timers, frames and resets follows the device's creation: RDRF is up
-- exactly while a received byte waits in the buffer, the receive buffer holds at most four bytes
-- and the transmit queue at most 4096.
pub run-init-IsConsistent : (es : List Event) → IsConsistent (run init es)
run-init-IsConsistent es = run-IsConsistent init es init-IsConsistent

-- ===== src/Lpuart/Flags.antt =====
-- The receiver's flag and the buffers' bounds, over the accesses of the guest and the transmitter.
use qenode.Base.{
  ℕ, ◌%◌, ◌^◌, ◌≤◌, ◌≡◌, refl, sym, subst, ◌∙◌, ap, Bool, true, false, not, ◌&&◌, List, [], ◌∷◌,
  ◌++◌, arith, ltb, ◌==◌, if◌then◌else◌, length, length-append,
}
use qenode.Lpuart.Device.{
  LpuartState, bit, set_bit, clear_bit, is_empty, ctrl_te, stat_rdrf, stat_tdre, stat_tc,
  max_rx_fifo, init, reset, update_irqs, send_lin_msg,
}
use qenode.Lpuart.Mmio.{
  read_front, read_data, lpuart_read, write_stat, write_ctrl, write_data, lpuart_write,
}
use qenode.Lpuart.Timers.{after_send, send_front, lpuart_tx_timer_cb}
use qenode.Lpuart.Bits.{
  rdrf-clear_rdrf, rdrf-set_tdre, rdrf-set_tc, rdrf-clear_tdre, rdrf-clear_tc, rdrf-write_stat,
}

-- RDRF is up exactly while a received byte waits, and no buffer is longer than its bound.
pub record IsConsistent (s : LpuartState) : Type 0 where
  pub rdrf : bit stat_rdrf s.stat ≡ not (is_empty s.rx_buffer)
  pub rx_room : length s.rx_buffer ≤ max_rx_fifo
  pub tx_room : length s.tx_fifo ≤ 4096

pub init-IsConsistent : IsConsistent init
unfolding init
init-IsConsistent = record { rdrf = refl; rx_room = omega arith; tx_room = omega arith }

pub reset-IsConsistent : (s : LpuartState) → IsConsistent (reset s)
unfolding reset
reset-IsConsistent s = record { rdrf = refl; rx_room = omega arith; tx_room = omega arith }

-- A state that differs in nothing the invariant reads.
pub record Same (s t : LpuartState) : Type 0 where
  pub stat_same : bit stat_rdrf t.stat ≡ bit stat_rdrf s.stat
  pub rx_same : t.rx_buffer ≡ s.rx_buffer
  pub tx_same : t.tx_fifo ≡ s.tx_fifo

pub Same-IsConsistent : (s t : LpuartState) → Same s t → IsConsistent s → IsConsistent t
Same-IsConsistent s t e h = record {
  rdrf = e.stat_same ∙ h.rdrf ∙ ap (λ b. not (is_empty b)) (sym e.rx_same);
  rx_room = subst (λ b. length b ≤ max_rx_fifo) (sym e.rx_same) h.rx_room;
  tx_room = subst (λ b. length b ≤ 4096) (sym e.tx_same) h.tx_room;
}

pub if-IsConsistent :
    (b : Bool) (s t : LpuartState)
    → IsConsistent s
    → IsConsistent t
    → IsConsistent (if b then s else t)
if-IsConsistent true s t h k = h
if-IsConsistent false s t h k = k

pub read_front-IsConsistent :
    (s : LpuartState) (bytes : List ℕ)
    → s.rx_buffer ≡ bytes
    → IsConsistent s
    → IsConsistent (read_front s bytes).1
unfolding read_front
read_front-IsConsistent s [] e h = h
read_front-IsConsistent s (byte ∷ []) e h = record {
  rdrf = rdrf-clear_rdrf s.stat;
  rx_room = omega arith;
  tx_room = h.tx_room;
}
read_front-IsConsistent s (byte ∷ next ∷ rest) e h = record {
  rdrf = h.rdrf ∙ ap (λ b. not (is_empty b)) e;
  rx_room =
      let room : length (byte ∷ next ∷ rest) ≤ max_rx_fifo =
        subst (λ b. length b ≤ max_rx_fifo) e h.rx_room in
      omega (arith, room);
  tx_room = h.tx_room;
}

pub lpuart_read-IsConsistent :
    (s : LpuartState) (offset : ℕ) → IsConsistent s → IsConsistent (lpuart_read s offset).1
unfolding lpuart_read read_data
lpuart_read-IsConsistent s offset h =
    let data_read = read_front-IsConsistent s s.rx_buffer refl h in ground (arith, h, data_read)

pub update_irqs-IsConsistent : (s : LpuartState) → IsConsistent s → IsConsistent (update_irqs s)
unfolding update_irqs
update_irqs-IsConsistent s h =
    Same-IsConsistent s _ (record { stat_same = refl; rx_same = refl; tx_same = refl }) h

pub write_ctrl-IsConsistent :
    (now : ℕ) (s : LpuartState) (val : ℕ) → IsConsistent s → IsConsistent (write_ctrl now s val)
unfolding write_ctrl send_lin_msg
write_ctrl-IsConsistent now s val h = update_irqs-IsConsistent _ (
    if-IsConsistent _ _ _
      (Same-IsConsistent s _ (record { stat_same = refl; rx_same = refl; tx_same = refl }) h)
      (Same-IsConsistent s _ (record { stat_same = refl; rx_same = refl; tx_same = refl }) h))

pub push_room :
    (tx_fifo : List ℕ) (byte : ℕ)
    → length tx_fifo ≤ 4096
    → length (if ltb (length tx_fifo) 4096 then tx_fifo ++ (byte ∷ []) else tx_fifo) ≤ 4096
push_room tx_fifo byte h = ground (arith, length-append tx_fifo (byte ∷ []))

pub write_data-IsConsistent :
    (now : ℕ) (s : LpuartState) (val : ℕ) → IsConsistent s → IsConsistent (write_data now s val)
unfolding write_data update_irqs
write_data-IsConsistent now s val h =
    let rdrf = rdrf-clear_tdre (clear_bit stat_tc s.stat) ∙ rdrf-clear_tc s.stat ∙ h.rdrf in
    let tx_room = push_room s.tx_fifo (val % 2 ^ 8) h.tx_room in
    if-IsConsistent (is_empty s.tx_fifo) _ _
      (record { rdrf = rdrf; rx_room = h.rx_room; tx_room = tx_room })
      (record { rdrf = rdrf; rx_room = h.rx_room; tx_room = tx_room })

pub lpuart_write-IsConsistent :
    (now : ℕ) (s : LpuartState) (offset value : ℕ)
    → IsConsistent s
    → IsConsistent (lpuart_write now s offset value)
unfolding lpuart_write
lpuart_write-IsConsistent now s offset value h =
    let val = value % 2 ^ 32 in
    let baud_written : IsConsistent (record s { baud = val }) = record {
      rdrf = h.rdrf;
      rx_room = h.rx_room;
      tx_room = h.tx_room;
    } in
    let match_written : IsConsistent (record s { match_ = val }) = record {
      rdrf = h.rdrf;
      rx_room = h.rx_room;
      tx_room = h.tx_room;
    } in
    let modir_written : IsConsistent (record s { modir = val }) = record {
      rdrf = h.rdrf;
      rx_room = h.rx_room;
      tx_room = h.tx_room;
    } in
    let fifo_written : IsConsistent (record s { fifo = val }) = record {
      rdrf = h.rdrf;
      rx_room = h.rx_room;
      tx_room = h.tx_room;
    } in
    let water_written : IsConsistent (record s { water = val }) = record {
      rdrf = h.rdrf;
      rx_room = h.rx_room;
      tx_room = h.tx_room;
    } in
    let stat_written : IsConsistent (record s { stat = write_stat val s.stat }) = record {
      rdrf = rdrf-write_stat val s.stat ∙ h.rdrf;
      rx_room = h.rx_room;
      tx_room = h.tx_room;
    } in
    let ctrl_written = write_ctrl-IsConsistent now s val h in
    let data_written = write_data-IsConsistent now s val h in
    if-IsConsistent (offset == 0x10) _ _ baud_written (
      if-IsConsistent (offset == 0x14) _ _ stat_written (
        if-IsConsistent (offset == 0x18) _ _ ctrl_written (
          if-IsConsistent ((offset == 0x1C) && bit ctrl_te s.ctrl) _ _ data_written (
            if-IsConsistent (offset == 0x20) _ _ match_written (
              if-IsConsistent (offset == 0x24) _ _ modir_written (
                if-IsConsistent (offset == 0x28) _ _ fifo_written
                  (if-IsConsistent (offset == 0x2C) _ _ water_written h)))))))

pub after_send-IsConsistent :
    (now : ℕ) (s : LpuartState) → IsConsistent s → IsConsistent (after_send now s)
unfolding after_send
after_send-IsConsistent now s h =
    if-IsConsistent (is_empty s.tx_fifo) _ _
      (update_irqs-IsConsistent (record s { stat = set_bit stat_tdre (set_bit stat_tc s.stat) })
        (record {
          rdrf = rdrf-set_tdre (set_bit stat_tc s.stat) ∙ rdrf-set_tc s.stat ∙ h.rdrf;
          rx_room = h.rx_room;
          tx_room = h.tx_room;
        }))
      (Same-IsConsistent s _ (record { stat_same = refl; rx_same = refl; tx_same = refl }) h)

pub send_front-IsConsistent :
    (now : ℕ) (s : LpuartState) (bytes : List ℕ)
    → length bytes ≤ 4096
    → IsConsistent s
    → IsConsistent (send_front now s bytes)
unfolding send_front send_lin_msg
send_front-IsConsistent now s [] room h = h
send_front-IsConsistent now s (byte ∷ rest) room h = record {
  rdrf = h.rdrf;
  rx_room = h.rx_room;
  tx_room = omega (arith, room);
}

pub lpuart_tx_timer_cb-IsConsistent :
    (now : ℕ) (s : LpuartState) → IsConsistent s → IsConsistent (lpuart_tx_timer_cb now s)
unfolding lpuart_tx_timer_cb
lpuart_tx_timer_cb-IsConsistent now s h = after_send-IsConsistent now _ (
    send_front-IsConsistent now _ s.tx_fifo h.tx_room
      (Same-IsConsistent s _ (record { stat_same = refl; rx_same = refl; tx_same = refl }) h))

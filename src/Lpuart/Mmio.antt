-- ===== src/Lpuart/Mmio.antt =====
-- hw/rust/mcu/s32k144-lpuart/src/lib.rs: `lpuart_read` and `lpuart_write`.
use qenode.Base.{
  ℕ, ◌+◌, ◌*◌, ◌/◌, ◌%◌, ◌^◌, not, ◌&&◌, some, List, [], ◌∷◌, ◌++◌, ltb, ◌==◌, if◌then◌else◌,
  length,
}
use qenode.Lpuart.Device.{
  bit, clear_bit, stat_lbkdif, stat_tdre, stat_tc, stat_rdrf, stat_idle, stat_or, stat_nf, stat_fe,
  stat_pf, ctrl_te, ctrl_sbk, LinMessageType, LpuartState, is_empty, update_irqs, send_lin_msg,
}

-- The products are those of `u32`.
unfoldable pub calculate_baud_delay_ns : ℕ → ℕ
calculate_baud_delay_ns baud_reg =
    let sbr = baud_reg % 2 ^ 13 in
    let osr = baud_reg / 2 ^ 24 % 2 ^ 5 + 1 in
    let baud_rate = 48_000_000 / (osr * sbr % 2 ^ 32) in
    if sbr == 0
    then 86800
    else if baud_rate == 0
    then 86800
    else 1_000_000_000 / baud_rate * 10 % 2 ^ 32

-- The byte at the front of the receive buffer; the flag falls with the last one.
unfoldable pub read_front : LpuartState → (rx_buffer : List ℕ) → ℕ × LpuartState
read_front s [] = (0, s)
read_front s (byte ∷ []) = (byte, record s { rx_buffer = []; stat = clear_bit stat_rdrf s.stat })
read_front s (byte ∷ next ∷ rest) = (byte, record s { rx_buffer = next ∷ rest })

unfoldable pub read_data : LpuartState → ℕ × LpuartState
unfolding read_front
read_data s = read_front s s.rx_buffer

unfoldable pub lpuart_read : LpuartState → (offset : ℕ) → ℕ × LpuartState
unfolding read_data
lpuart_read s offset =
    if offset == 0x00
    then (0x04010001, s)
    else if offset == 0x04
    then (0x00020202, s)
    else if offset == 0x10
    then (s.baud, s)
    else if offset == 0x14
    then (s.stat, s)
    else if offset == 0x18
    then (s.ctrl, s)
    else if offset == 0x1C
    then read_data s
    else if offset == 0x20
    then (s.match_, s)
    else if offset == 0x24
    then (s.modir, s)
    else if offset == 0x28
    then (s.fifo, s)
    else if offset == 0x2C
    then (s.water, s)
    else (0, s)

-- A flag of STAT that is cleared by writing one.
abbrev pub write_one_to_clear : (k val stat : ℕ) → ℕ
write_one_to_clear k val stat = if bit k val then clear_bit k stat else stat

unfoldable pub write_stat : ℕ → ℕ → ℕ
write_stat val stat = write_one_to_clear stat_lbkdif val (
    write_one_to_clear stat_or val (
      write_one_to_clear stat_nf val (
        write_one_to_clear stat_fe val
          (write_one_to_clear stat_pf val (write_one_to_clear stat_idle val stat)))))

unfoldable pub write_ctrl : (now : ℕ) → LpuartState → ℕ → LpuartState
unfolding send_lin_msg update_irqs
write_ctrl now s val =
    let written = record s { ctrl = val } in
    update_irqs (
      if bit ctrl_sbk val && not (bit ctrl_sbk s.ctrl)
      then send_lin_msg now written LinMessageType.break []
      else written)

-- A byte for the transmitter; the timer starts with the first one.
unfoldable pub write_data : (now : ℕ) → LpuartState → ℕ → LpuartState
unfolding update_irqs calculate_baud_delay_ns
write_data now s val =
    let written = update_irqs (record s {
      tx_fifo = if ltb (length s.tx_fifo) 4096 then s.tx_fifo ++ (val % 2 ^ 8 ∷ []) else s.tx_fifo;
      stat = clear_bit stat_tdre (clear_bit stat_tc s.stat);
    }) in
    if is_empty s.tx_fifo
    then record written { tx_timer = some (now + calculate_baud_delay_ns s.baud) }
    else written

unfoldable pub lpuart_write : (now : ℕ) → LpuartState → (offset value : ℕ) → LpuartState
unfolding write_stat write_ctrl write_data
lpuart_write now s offset value =
    let val = value % 2 ^ 32 in
    if offset == 0x10
    then record s { baud = val }
    else if offset == 0x14
    then record s { stat = write_stat val s.stat }
    else if offset == 0x18
    then write_ctrl now s val
    else if (offset == 0x1C) && bit ctrl_te s.ctrl
    then write_data now s val
    else if offset == 0x20
    then record s { match_ = val }
    else if offset == 0x24
    then record s { modir = val }
    else if offset == 0x28
    then record s { fifo = val }
    else if offset == 0x2C
    then record s { water = val }
    else s

-- ===== src/Lpuart/Timers.antt =====
-- hw/rust/mcu/s32k144-lpuart/src/lib.rs: the transmit timer, the receive timer and the callback of the
-- subscription.
use qenode.Base.{ℕ, ◌+◌, none, some, List, [], ◌∷◌, ◌++◌, ltb, leb, if◌then◌else◌, length}
use qenode.Lpuart.Device.{
  bit, set_bit, stat_lbkdif, stat_tdre, stat_tc, stat_rdrf, stat_or, ctrl_re, baud_lbkde,
  max_rx_fifo, u64_max, LinMessageType, OrderedLinFrame, LpuartState, is_empty, update_irqs,
  send_lin_msg,
}
use qenode.Lpuart.Mmio.{calculate_baud_delay_ns}

-- `lpuart_tx_timer_cb`: after the first byte has gone.
unfoldable pub after_send : (now : ℕ) → LpuartState → LpuartState
unfolding update_irqs calculate_baud_delay_ns
after_send now s =
    if is_empty s.tx_fifo
    then update_irqs (record s { stat = set_bit stat_tdre (set_bit stat_tc s.stat) })
    else record s { tx_timer = some (now + calculate_baud_delay_ns s.baud) }

-- The byte at the front of the transmit queue goes out.
unfoldable pub send_front : (now : ℕ) → LpuartState → (tx_fifo : List ℕ) → LpuartState
unfolding send_lin_msg
send_front now s [] = s
send_front now s (byte ∷ rest) =
    send_lin_msg now (record s { tx_fifo = rest }) LinMessageType.data_ (byte ∷ [])

unfoldable pub lpuart_tx_timer_cb : (now : ℕ) → LpuartState → LpuartState
unfolding send_front after_send
lpuart_tx_timer_cb now s = after_send now (send_front now (record s { tx_timer = none }) s.tx_fifo)

-- `heap.push`; frames of one virtual time stand in the order in which the heap would give them.
unfoldable pub push : OrderedLinFrame → List OrderedLinFrame → List OrderedLinFrame
push p [] = p ∷ []
push p (q ∷ heap) =
    let later = push p heap in if ltb p.vtime q.vtime then p ∷ q ∷ heap else q ∷ later

unfoldable pub drain : List OrderedLinFrame → List OrderedLinFrame → List OrderedLinFrame
unfolding push
drain [] heap = heap
drain (p ∷ received) heap = drain received (push p heap)

-- The bytes of a data frame; one that finds the buffer full is lost and sets the overrun flag.
unfoldable pub receive_bytes : LpuartState → List ℕ → LpuartState
receive_bytes s [] = s
receive_bytes s (byte ∷ bytes) =
    receive_bytes
      (if leb max_rx_fifo (length s.rx_buffer)
        then record s { stat = set_bit stat_or s.stat }
        else record s { rx_buffer = s.rx_buffer ++ (byte ∷ []) })
      bytes

abbrev pub flag_received : LpuartState → LpuartState
flag_received s = if is_empty s.rx_buffer then s else record s { stat = set_bit stat_rdrf s.stat }

unfoldable pub receive : LpuartState → LinMessageType → (bytes : List ℕ) → LpuartState
unfolding receive_bytes
receive s LinMessageType.break bytes =
    if bit baud_lbkde s.baud then record s { stat = set_bit stat_lbkdif s.stat } else s
receive s LinMessageType.data_ bytes =
    if bit ctrl_re s.ctrl then flag_received (receive_bytes s bytes) else s
receive s LinMessageType.sync bytes = s

-- The loop over the heap: the frames that are due, and the rest.
unfoldable pub receive_due : (now : ℕ) → LpuartState → List OrderedLinFrame → LpuartState
unfolding receive
receive_due now s [] = record s { local_heap = [] }
receive_due now s (p ∷ heap) =
    let rest = receive_due now (receive s p.msg_type p.bytes) heap in
    if leb p.vtime now then rest else record s { local_heap = p ∷ heap }

-- The timer is set for the earliest frame that is not due.
unfoldable pub rearm : LpuartState → (heap : List OrderedLinFrame) → LpuartState
rearm s [] = record s { earliest_vtime = u64_max }
rearm s (p ∷ heap) = record s { earliest_vtime = p.vtime; rx_timer = some p.vtime }

unfoldable pub lpuart_rx_timer_cb : (now : ℕ) → LpuartState → LpuartState
unfolding drain receive_due update_irqs rearm
lpuart_rx_timer_cb now s =
    let heap = drain s.rx_receiver s.local_heap in
    let received = receive_due now (record s { rx_receiver = []; rx_timer = none }) heap in
    rearm (update_irqs received) received.local_heap

-- The callback of the subscription, for a frame that could be parsed. Another thread that lowers
-- the earliest time in between makes the loop look again.
unfoldable pub on_frame : LpuartState → OrderedLinFrame → LpuartState
on_frame s p =
    let sent = record s { rx_receiver = s.rx_receiver ++ (p ∷ []) } in
    if ltb p.vtime s.earliest_vtime
    then record sent { earliest_vtime = p.vtime; rx_timer = some p.vtime }
    else sent

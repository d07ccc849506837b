-- ===== src/Tests/Lpuart.antt =====
-- Runs of the LPUART (hw/rust/mcu/s32k144-lpuart).
use qenode.Base.{refl, arith, none, ◌++◌, ◌≡◌, false, List, [], ◌∷◌}
use qenode.Lpuart.Device.{LpuartState, LinMessageType, init}
use qenode.Lpuart.Flags.{IsConsistent}
use qenode.Lpuart.Receive.{
  Event, reads, writes, tx_fires, rx_fires, frame_arrives, resets, run, run-init-IsConsistent,
}
use qenode.Lpuart.Transmit.{write_all, fire_all, frames, transmit_in_order}

-- Transmitter and receiver on, a byte each way, then a reset.
abbrev exchange : List Event
exchange =
    writes 0 0x18 0x000C0000
    ∷ writes 10 0x1C 0x41
    ∷ tx_fires 86810
    ∷ frame_arrives (record { vtime = 90000; msg_type = LinMessageType.data_; bytes = 0x42 ∷ [] })
    ∷ rx_fires 90000
    ∷ reads 0x1C
    ∷ resets
    ∷ []

run-init-IsConsistent_example : IsConsistent (run init exchange)
run-init-IsConsistent_example = run-init-IsConsistent exchange

abbrev transmitting : LpuartState
transmitting = record {
  baud = 0x0F000004;
  stat = 0x00C00000;
  ctrl = 0x00080000;
  match_ = 0;
  modir = 0;
  fifo = 0;
  water = 0;
  rx_buffer = [];
  tx_fifo = [];
  rx_receiver = [];
  local_heap = [];
  earliest_vtime = 0;
  irq = false;
  tx_timer = none;
  rx_timer = none;
  published = [];
}

transmit_in_order_example :
    ((fire_all (100 ∷ 200 ∷ []) (write_all 10 (0x41 ∷ 0x42 ∷ []) transmitting)).published
      ≡ transmitting.published ++ frames (100 ∷ 200 ∷ []) (0x41 ∷ 0x42 ∷ []))
    × ((fire_all (100 ∷ 200 ∷ []) (write_all 10 (0x41 ∷ 0x42 ∷ []) transmitting)).tx_fifo ≡ [])
transmit_in_order_example =
    transmit_in_order 10 (0x41 ∷ 0x42 ∷ []) (100 ∷ 200 ∷ []) transmitting refl refl (omega arith)
      (omega arith, (omega arith, tt)) refl

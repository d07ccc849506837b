-- ===== src/Lpuart/Reset.antt =====
-- The status after a reset, compared with the status of a new device.
use qenode.Base.{◌≡◌, refl, true, false}
use qenode.Lpuart.Device.{LpuartState, bit, stat_tdre, stat_tc, stat_lbkdif, is_empty, init, reset}

-- A new device is ready to transmit and reports no break. After a reset, whatever the device did
-- before, its transmit queue is empty and yet neither TDRE nor TC is up, and the break flag LBKDIF is.
reset_status :
    (s : LpuartState)
    → (is_empty (reset s).tx_fifo ≡ true)
      × (bit stat_tdre (reset s).stat ≡ false)
      × (bit stat_tc (reset s).stat ≡ false)
      × (bit stat_lbkdif (reset s).stat ≡ true)
      × (bit stat_tdre init.stat ≡ true)
      × (bit stat_tc init.stat ≡ true)
      × (bit stat_lbkdif init.stat ≡ false)
unfolding reset init
reset_status s = (refl, refl, refl, refl, refl, refl, refl)

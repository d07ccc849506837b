-- ===== src/Lpuart/Bits.antt =====
-- Which writes to STAT leave the flag of the receiver alone.
use qenode.Base.{ℕ, ◌≡◌, ◌∙◌, true, false, arith}
use qenode.Lpuart.Device.{
  bit, set_bit, clear_bit, stat_or, stat_rdrf, stat_tdre, stat_tc, stat_lbkdif, stat_nf, stat_fe,
  stat_pf, stat_idle,
}
use qenode.Lpuart.Mmio.{write_one_to_clear, write_stat}

pub rdrf-set_or : (v : ℕ) → bit stat_rdrf (set_bit stat_or v) ≡ bit stat_rdrf v
rdrf-set_or v = ground arith

pub rdrf-set_lbkdif : (v : ℕ) → bit stat_rdrf (set_bit stat_lbkdif v) ≡ bit stat_rdrf v
rdrf-set_lbkdif v = ground arith

pub rdrf-set_rdrf : (v : ℕ) → bit stat_rdrf (set_bit stat_rdrf v) ≡ true
rdrf-set_rdrf v = ground arith

pub rdrf-clear_rdrf : (v : ℕ) → bit stat_rdrf (clear_bit stat_rdrf v) ≡ false
rdrf-clear_rdrf v = ground arith

pub rdrf-set_tdre : (v : ℕ) → bit stat_rdrf (set_bit stat_tdre v) ≡ bit stat_rdrf v
rdrf-set_tdre v = ground arith

pub rdrf-set_tc : (v : ℕ) → bit stat_rdrf (set_bit stat_tc v) ≡ bit stat_rdrf v
rdrf-set_tc v = ground arith

pub rdrf-clear_tdre : (v : ℕ) → bit stat_rdrf (clear_bit stat_tdre v) ≡ bit stat_rdrf v
rdrf-clear_tdre v = ground arith

pub rdrf-clear_tc : (v : ℕ) → bit stat_rdrf (clear_bit stat_tc v) ≡ bit stat_rdrf v
rdrf-clear_tc v = ground arith

module _ (val v : ℕ) where
  pub rdrf-w1c_lbkdif : bit stat_rdrf (write_one_to_clear stat_lbkdif val v) ≡ bit stat_rdrf v
  rdrf-w1c_lbkdif = ground arith

  pub rdrf-w1c_or : bit stat_rdrf (write_one_to_clear stat_or val v) ≡ bit stat_rdrf v
  rdrf-w1c_or = ground arith

  pub rdrf-w1c_nf : bit stat_rdrf (write_one_to_clear stat_nf val v) ≡ bit stat_rdrf v
  rdrf-w1c_nf = ground arith

  pub rdrf-w1c_fe : bit stat_rdrf (write_one_to_clear stat_fe val v) ≡ bit stat_rdrf v
  rdrf-w1c_fe = ground arith

  pub rdrf-w1c_pf : bit stat_rdrf (write_one_to_clear stat_pf val v) ≡ bit stat_rdrf v
  rdrf-w1c_pf = ground arith

  pub rdrf-w1c_idle : bit stat_rdrf (write_one_to_clear stat_idle val v) ≡ bit stat_rdrf v
  rdrf-w1c_idle = ground arith

pub rdrf-write_stat : (val v : ℕ) → bit stat_rdrf (write_stat val v) ≡ bit stat_rdrf v
unfolding write_stat
rdrf-write_stat val v =
    rdrf-w1c_lbkdif val _
    ∙ rdrf-w1c_or val _
    ∙ rdrf-w1c_nf val _
    ∙ rdrf-w1c_fe val _
    ∙ rdrf-w1c_pf val _
    ∙ rdrf-w1c_idle val v

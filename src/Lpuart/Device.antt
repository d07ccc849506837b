-- ===== src/Lpuart/Device.antt =====
-- hw/rust/mcu/s32k144-lpuart/src/lib.rs: the state of the device, its creation, its reset and its
-- interrupt line.
use qenode.Base.{
  ℕ, ◌+◌, ◌-◌, ◌/◌, ◌%◌, ◌^◌, Bool, true, false, ◌&&◌, ◌||◌, Option, none, List, [], ◌∷◌, ◌++◌,
  ◌==◌, if◌then◌else◌,
}

-- `v & (1 << k) != 0`, `v |= 1 << k` and `v &= !(1 << k)`
abbrev pub bit : ℕ → ℕ → Bool
bit k v = v / 2 ^ k % 2 == 1

abbrev pub set_bit : ℕ → ℕ → ℕ
set_bit k v = if bit k v then v else v + 2 ^ k

abbrev pub clear_bit : ℕ → ℕ → ℕ
clear_bit k v = if bit k v then v - 2 ^ k else v

-- The bits of STAT, CTRL and BAUD that the device uses.
abbrev pub stat_lbkdif : ℕ
stat_lbkdif = 31

abbrev pub stat_tdre : ℕ
stat_tdre = 23

abbrev pub stat_tc : ℕ
stat_tc = 22

abbrev pub stat_rdrf : ℕ
stat_rdrf = 21

abbrev pub stat_idle : ℕ
stat_idle = 20

abbrev pub stat_or : ℕ
stat_or = 19

abbrev pub stat_nf : ℕ
stat_nf = 18

abbrev pub stat_fe : ℕ
stat_fe = 17

abbrev pub stat_pf : ℕ
stat_pf = 16

abbrev pub ctrl_tie : ℕ
ctrl_tie = 23

abbrev pub ctrl_tcie : ℕ
ctrl_tcie = 22

abbrev pub ctrl_rie : ℕ
ctrl_rie = 21

abbrev pub ctrl_ilie : ℕ
ctrl_ilie = 20

abbrev pub ctrl_te : ℕ
ctrl_te = 19

abbrev pub ctrl_re : ℕ
ctrl_re = 18

abbrev pub ctrl_sbk : ℕ
ctrl_sbk = 0

abbrev pub baud_lbkdie : ℕ
baud_lbkdie = 31

abbrev pub baud_lbkde : ℕ
baud_lbkde = 24

abbrev pub max_rx_fifo : ℕ
max_rx_fifo = 4

abbrev pub u64_max : ℕ
u64_max = 2 ^ 64 - 1

pub data LinMessageType : Type 0 where
  data_ break sync : LinMessageType

pub record OrderedLinFrame : Type 0 where
  pub vtime : ℕ
  pub msg_type : LinMessageType
  pub bytes : List ℕ

pub record LpuartState : Type 0 where
  pub baud : ℕ
  pub stat : ℕ
  pub ctrl : ℕ
  pub match_ : ℕ
  pub modir : ℕ
  pub fifo : ℕ
  pub water : ℕ
  pub rx_buffer : List ℕ
  pub tx_fifo : List ℕ
  -- Frames in the channel from the subscription, and in the heap, by ascending virtual time.
  pub rx_receiver : List OrderedLinFrame
  pub local_heap : List OrderedLinFrame
  pub earliest_vtime : ℕ
  -- The interrupt line, the deadlines of the timers, and the frames published so far.
  pub irq : Bool
  pub tx_timer : Option ℕ
  pub rx_timer : Option ℕ
  pub published : List OrderedLinFrame

abbrev pub is_empty : List ℕ → Bool
is_empty [] = true
is_empty (b ∷ bs) = false

-- `lpuart_init_internal`, when the transport could be created.
unfoldable pub init : LpuartState
init = record {
  baud = 0x0F000004;
  stat = 2 ^ stat_tdre + 2 ^ stat_tc;
  ctrl = 0;
  match_ = 0;
  modir = 0;
  fifo = 0;
  water = 0;
  rx_buffer = [];
  tx_fifo = [];
  rx_receiver = [];
  local_heap = [];
  earliest_vtime = u64_max;
  irq = false;
  tx_timer = none;
  rx_timer = none;
  published = [];
}

-- `lpuart_reset`
unfoldable pub reset : LpuartState → LpuartState
reset s = record s {
  baud = 0x0F000004;
  stat = 0xC0000000;
  ctrl = 0;
  match_ = 0;
  modir = 0;
  fifo = 0x00C00011;
  water = 0;
  rx_buffer = [];
  tx_fifo = [];
  rx_timer = none;
  tx_timer = none;
  earliest_vtime = u64_max;
}

-- Whether an enabled condition holds.
unfoldable pub pending : LpuartState → Bool
pending s =
    bit ctrl_tie s.ctrl && bit stat_tdre s.stat
    || (bit ctrl_tcie s.ctrl && bit stat_tc s.stat
        || (bit ctrl_rie s.ctrl && bit stat_rdrf s.stat
            || (bit ctrl_ilie s.ctrl && bit stat_idle s.stat
                || bit baud_lbkdie s.baud && bit stat_lbkdif s.stat)))

unfoldable pub update_irqs : LpuartState → LpuartState
unfolding pending
update_irqs s = record s { irq = pending s }

unfoldable pub send_lin_msg : (now : ℕ) → LpuartState → LinMessageType → List ℕ → LpuartState
send_lin_msg now s msg_type bytes = record s {
  published = s.published ++ (record { vtime = now; msg_type = msg_type; bytes = bytes } ∷ []);
}

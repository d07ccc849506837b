-- ===== src/Clock/Ledger.antt =====
-- hw/rust/backbone/clock/src/lib.rs: the accesses that leave alone what the replies of a coordinated
-- node depend on.
use qenode.Base.{ℕ, ◌≡◌, refl, Bool, Option, List, arith}
use qenode.Base.Bytes.{Text}
use qenode.Clock.Vcpu.{
  Vcpu, Readings, running, entering, spinning, blocked, parked, loading, resuming, announce, spin,
  block, wake, resume, enter_hook, begin_wait,
}
use qenode.Clock.Worker.{
  ClockAdvanceReq, ClockReadyResp, Worker, begin_round, miss, receive, look_ready, grant, look_done,
  finish_quantum, collect_stall,
}
use qenode.Clock.System.{
  System, on_hook, on_announce, on_poll, on_quit, on_wake, on_load, on_resume, on_begin, on_receive,
  on_look, on_overlook, on_grant, on_collect,
}
use qenode.Clock.Shutdown.{is_held}

-- What the replies depend on
abbrev pub Ledger : Type 0
Ledger = Bool × Bool × List ClockReadyResp × ℕ × List Text × Bool

abbrev pub ledger : System → Ledger
ledger s = (s.start_sub, s.backend.is_coordinated, s.replies, s.starts, s.dones, is_held s.worker)

-- The accesses of the vCPU leave it alone.
pub hook-ledger :
    (held_ : Bool) (now : ℕ) (v : Vcpu) (s : System) → ledger (on_hook held_ now v s) ≡ ledger s
unfolding enter_hook begin_wait
hook-ledger held_ now v s = ground arith

pub announce-ledger : (v : Vcpu) (s : System) → ledger (on_announce v s) ≡ ledger s
unfolding announce
announce-ledger v s = ground arith

pub poll-ledger : (y e : Bool) (v : Vcpu) (s : System) → ledger (on_poll y e v s) ≡ ledger s
unfolding spin block
poll-ledger y e running s = refl
poll-ledger y e (entering now) s = refl
poll-ledger y e (spinning now) s = refl
poll-ledger y e (blocked now) s = refl
poll-ledger y e (parked now) s = refl
poll-ledger y e (loading now) s = refl
poll-ledger y e (resuming now raw_delta) s = refl

pub quit-ledger : (v : Vcpu) (s : System) → ledger (on_quit v s) ≡ ledger s
quit-ledger v s = ground arith

pub wake-ledger : (expired : Bool) (v : Vcpu) (s : System) → ledger (on_wake expired v s) ≡ ledger s
unfolding wake
wake-ledger expired v s = ground arith

pub load-ledger : (v : Vcpu) (s : System) → ledger (on_load v s) ≡ ledger s
load-ledger v s = ground arith

pub begin-ledger :
    (w : Worker) (s : System)
    → ledger (on_begin w (record s { worker = w })) ≡ ledger (record s { worker = w })
unfolding begin_round
begin-ledger w s = ground arith

pub receive-ledger :
    (o : Option ClockAdvanceReq) (w : Worker) (s : System)
    → ledger (on_receive o w (record s { worker = w })) ≡ ledger (record s { worker = w })
unfolding receive miss
receive-ledger o w s = ground arith

pub look-ledger :
    (expired : Bool) (w : Worker) (s : System)
    → ledger (on_look expired w (record s { worker = w })) ≡ ledger (record s { worker = w })
unfolding look_ready look_done finish_quantum
look-ledger expired w s = ground arith

pub overlook-ledger :
    (expired : Bool) (w : Worker) (s : System)
    → ledger (on_overlook expired w (record s { worker = w })) ≡ ledger (record s { worker = w })
unfolding look_ready look_done finish_quantum
overlook-ledger expired w s = ground arith

pub grant-ledger :
    (w : Worker) (s : System)
    → ledger (on_grant w (record s { worker = w })) ≡ ledger (record s { worker = w })
unfolding grant finish_quantum
grant-ledger w s = ground arith

pub collect-ledger :
    (w : Worker) (s : System)
    → ledger (on_collect w (record s { worker = w })) ≡ ledger (record s { worker = w })
unfolding collect_stall
collect-ledger w s = ground arith

pub resume-ledger : (r : Readings) (v : Vcpu) (s : System) → ledger (on_resume r v s) ≡ ledger s
unfolding resume
resume-ledger r v s = ground arith

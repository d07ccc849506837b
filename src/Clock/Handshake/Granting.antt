-- ===== src/Clock/Handshake/Granting.antt =====
-- Each access of the worker keeps the order of the hand-over.
use qenode.Base.{
  ℕ, zero, suc, Bool-cases, ◌≡◌, refl, sym, ◌∙◌, ap, inl, inr, Bool, true, false, Option, none,
  some, List, [], ◌∷◌, ◌++◌, arith, map, subst, ltb, lt→ltb,
}
use qenode.Clock.Backend.{QuantumState, executing, waiting, VirtmcuClockBackend}
use qenode.Clock.Vcpu.{Vcpu}
use qenode.Clock.Worker.{
  ClockAdvanceReq, ClockReadyResp, Worker, starting, receiving, readying, granting, awaiting,
  reporting, answering, held, stopped, aborted, begin_round, miss, receive, look_ready,
  finish_quantum, grant, look_done, collect_stall, response,
}
use qenode.Clock.System.{
  System, on_begin, on_receive, on_look, on_grant, on_collect, on_answer, on_start, on_take,
  take_start, set_worker, send_ready,
}
use qenode.Clock.Handshake.{
  settled, offered, granted, phase, Shape, IsOrdered, deltas, Rest, IsDelta, AllDeltas,
}

map-append {ℓ ℓ'} :
    {A : Type ℓ} {B : Type ℓ'} (f : A → B) (xs ys : List A)
    → map f (xs ++ ys) ≡ map f xs ++ map f ys
map-append f [] ys = refl
map-append f (x ∷ xs) ys = ap (λ l. f x ∷ l) (map-append f xs ys)

-- The worker moves on, and no quantum is under way.
settle :
    (s : System) (b : VirtmcuClockBackend) (w w' : Worker)
    → b.shutdown ≡ s.backend.shutdown
    → b.state ≡ s.backend.state
    → phase w ≡ settled
    → phase w' ≡ settled
    → IsOrdered (record s { worker = w })
    → IsOrdered (record s { worker = w'; backend = b })
settle s b w w' up st e e' h = record {
  up = up ∙ h.up;
  shape =
      let rest : Rest s.backend.state s.device.is_yielding s.vcpu (deltas s.accepted) s.returned =
        subst
          (Shape s.backend.state s.backend.delta_ns s.device.is_yielding s.vcpu (deltas s.accepted)
            s.returned)
          e h.shape in
      subst (Shape b.state b.delta_ns s.device.is_yielding s.vcpu (deltas s.accepted) s.returned)
        (sym e') (st ∙ rest.0, rest.1, rest.2);
}

pub begin-IsOrdered :
    (w : Worker) (s : System)
    → IsOrdered (record s { worker = w })
    → IsOrdered (on_begin w (record s { worker = w }))
unfolding begin_round
begin-IsOrdered starting s h = settle s s.backend starting _ refl refl refl (rw h.up refl) h
begin-IsOrdered (receiving first) s h = h
begin-IsOrdered (readying req first) s h = h
begin-IsOrdered (granting req first) s h = h
begin-IsOrdered (awaiting req first) s h = h
begin-IsOrdered (reporting req code) s h = h
begin-IsOrdered (answering req code) s h = h
begin-IsOrdered (held resp) s h = h
begin-IsOrdered stopped s h = h
begin-IsOrdered aborted s h = h

-- A round of `wait_for_ready_and_execute` that does not time out
look_ready-phase :
    (st : QuantumState) (req : ClockAdvanceReq) (first : Bool)
    → phase (look_ready false false st req first) ≡ offered req.delta_ns
unfolding look_ready
look_ready-phase executing req first = refl
look_ready-phase waiting req first = refl

finish_quantum-same :
    (first : Bool) (b : VirtmcuClockBackend)
    → ((finish_quantum first b).shutdown ≡ b.shutdown) × ((finish_quantum first b).state ≡ b.state)
unfolding finish_quantum
finish_quantum-same true b = (refl, refl)
finish_quantum-same false b = (refl, refl)

-- The worker sees the vCPU back.
Shape-back :
    (delta_ns delta : ℕ) (y : Bool) (v : Vcpu) (accepted returned : List ℕ)
    → Shape waiting delta_ns y v accepted returned (granted delta)
    → Rest waiting y v accepted returned
Shape-back d delta y v acc ret (inl h) = absurd (ground (arith, h))
Shape-back d delta y v acc ret (inr (inl h)) = absurd (ground (arith, h))
Shape-back d delta y v acc ret (inr (inr h)) = h

look-done :
    (st : QuantumState) (req : ClockAdvanceReq) (first : Bool) (s : System)
    → s.backend.state ≡ st
    → IsOrdered (record s { worker = awaiting req first })
    → IsOrdered (set_worker s (look_done false false st req first s.backend))
unfolding look_done
look-done executing req first s e h = h
look-done waiting req first s e h =
    let same = finish_quantum-same first s.backend in
    record {
      up = same.0 ∙ h.up;
      shape =
          let rest =
            Shape-back s.backend.delta_ns req.delta_ns s.device.is_yielding s.vcpu
              (deltas s.accepted) s.returned
              (subst
                (λ st.
                  Shape st s.backend.delta_ns s.device.is_yielding s.vcpu (deltas s.accepted)
                    s.returned (granted req.delta_ns))
                e h.shape) in
          (same.1 ∙ e, rest.1, rest.2);
    }

Shape-grant :
    (st : QuantumState) (delta_ns delta : ℕ) (y : Bool) (v : Vcpu) (accepted returned : List ℕ)
    → Shape st delta_ns y v accepted returned (offered delta)
    → Shape executing delta_ns y v accepted returned (granted delta)
Shape-grant st d delta y v acc ret h = inl (refl, rw h.1 refl, h.2, h.3)

Shape-offer :
    (st : QuantumState) (delta_ns delta : ℕ) (y : Bool) (v : Vcpu) (accepted returned : List ℕ)
    → IsDelta delta
    → Rest st y v accepted returned
    → Shape st delta y v (accepted ++ (delta ∷ [])) returned (offered delta)
Shape-offer st d delta y v acc ret fit h = (h.0, h.1, refl, (rw h.2 refl, fit))

miss-settled :
    (first : Bool) (b : VirtmcuClockBackend)
    → b.shutdown ≡ false
    → ((miss first b).1.shutdown ≡ b.shutdown)
      × ((miss first b).1.state ≡ b.state)
      × (phase (miss first b).0 ≡ settled)
unfolding miss
miss-settled true b up = rw up (refl, refl, refl)
miss-settled false b up = rw up (refl, refl, ground arith)

pub receive-IsOrdered :
    (o : Option ClockAdvanceReq) (w : Worker) (s : System)
    → AllDeltas o
    → IsOrdered (record s { worker = w })
    → IsOrdered (on_receive o w (record s { worker = w }))
unfolding receive
receive-IsOrdered none (receiving first) s fit h =
    let m = miss-settled first s.backend h.up in
    settle s (miss first s.backend).1 (receiving first) (miss first s.backend).0 m.0 m.1 refl m.2 h
receive-IsOrdered (some req) (receiving first) s fit h = record {
  up = h.up;
  shape =
      subst
        (λ l.
          Shape s.backend.state req.delta_ns s.device.is_yielding s.vcpu l s.returned
            (offered req.delta_ns))
        (sym (map-append (λ (req : ClockAdvanceReq). req.delta_ns) s.accepted (req ∷ [])))
        (Shape-offer s.backend.state s.backend.delta_ns req.delta_ns s.device.is_yielding s.vcpu
          (deltas s.accepted) s.returned fit h.shape);
}
receive-IsOrdered o starting s fit h = h
receive-IsOrdered o (readying req first) s fit h = h
receive-IsOrdered o (granting req first) s fit h = h
receive-IsOrdered o (awaiting req first) s fit h = h
receive-IsOrdered o (reporting req code) s fit h = h
receive-IsOrdered o (answering req code) s fit h = h
receive-IsOrdered o (held resp) s fit h = h
receive-IsOrdered o stopped s fit h = h
receive-IsOrdered o aborted s fit h = h

pub look-IsOrdered :
    (w : Worker) (s : System)
    → IsOrdered (record s { worker = w })
    → IsOrdered (on_look false w (record s { worker = w }))
unfolding look_ready look_done
look-IsOrdered (readying req first) s h = record {
  up = h.up;
  shape = let same = look_ready-phase s.backend.state req first in rw (h.up, same) h.shape;
}
look-IsOrdered (awaiting req first) s h = simp h.up (look-done s.backend.state req first s refl h)
look-IsOrdered starting s h = h
look-IsOrdered (receiving first) s h = h
look-IsOrdered (granting req first) s h = h
look-IsOrdered (reporting req code) s h = h
look-IsOrdered (answering req code) s h = h
look-IsOrdered (held resp) s h = h
look-IsOrdered stopped s h = h
look-IsOrdered aborted s h = h

pub grant-IsOrdered :
    (w : Worker) (s : System)
    → IsOrdered (record s { worker = w })
    → IsOrdered (on_grant w (record s { worker = w }))
unfolding grant
grant-IsOrdered (granting req first) s h =
    let fits : ltb 0 req.delta_ns ≡ true = lt→ltb 0 req.delta_ns h.shape.3.1.0 in
    rw fits (record {
      up = h.up;
      shape =
          Shape-grant s.backend.state s.backend.delta_ns req.delta_ns s.device.is_yielding s.vcpu
            (deltas s.accepted) s.returned h.shape;
    })
grant-IsOrdered starting s h = h
grant-IsOrdered (receiving first) s h = h
grant-IsOrdered (readying req first) s h = h
grant-IsOrdered (awaiting req first) s h = h
grant-IsOrdered (reporting req code) s h = h
grant-IsOrdered (answering req code) s h = h
grant-IsOrdered (held resp) s h = h
grant-IsOrdered stopped s h = h
grant-IsOrdered aborted s h = h

pub collect-IsOrdered :
    (w : Worker) (s : System)
    → IsOrdered (record s { worker = w })
    → IsOrdered (on_collect w (record s { worker = w }))
unfolding collect_stall
collect-IsOrdered (reporting req code) s h = record { up = h.up; shape = h.shape }
collect-IsOrdered starting s h = h
collect-IsOrdered (receiving first) s h = h
collect-IsOrdered (readying req first) s h = h
collect-IsOrdered (granting req first) s h = h
collect-IsOrdered (awaiting req first) s h = h
collect-IsOrdered (answering req code) s h = h
collect-IsOrdered (held resp) s h = h
collect-IsOrdered stopped s h = h
collect-IsOrdered aborted s h = h

-- The responder only sends, and no quantum is under way.
send_ready-IsOrdered :
    (coordinated : Bool) (resp : ClockReadyResp) (s : System)
    → phase s.worker ≡ settled
    → IsOrdered s
    → IsOrdered (send_ready coordinated resp s)
unfolding send_ready
send_ready-IsOrdered true resp s e h =
    let g = settle s s.backend s.worker (held resp) refl refl e refl h in
    record { up = g.up; shape = g.shape }
send_ready-IsOrdered false resp s e h =
    let g = settle s s.backend s.worker starting refl refl e refl h in
    record { up = g.up; shape = g.shape }

pub answer-IsOrdered :
    (w : Worker) (s : System)
    → IsOrdered (record s { worker = w })
    → IsOrdered (on_answer w (record s { worker = w }))
unfolding response send_ready
answer-IsOrdered (answering req code) s h =
    send_ready-IsOrdered s.backend.is_coordinated (response req code s.backend)
      (record s {
        worker = answering req code;
        heartbeats = s.heartbeats ++ (s.backend.vtime_ns ∷ []);
      })
      refl (record { up = h.up; shape = h.shape })
answer-IsOrdered starting s h = h
answer-IsOrdered (receiving first) s h = h
answer-IsOrdered (readying req first) s h = h
answer-IsOrdered (granting req first) s h = h
answer-IsOrdered (awaiting req first) s h = h
answer-IsOrdered (reporting req code) s h = h
answer-IsOrdered (held resp) s h = h
answer-IsOrdered stopped s h = h
answer-IsOrdered aborted s h = h

pub start-IsOrdered : (s : System) → IsOrdered s → IsOrdered (on_start s)
start-IsOrdered s h = elim (Bool-cases s.start_sub) [
  | inl e ↦ simp e (record { up = h.up; shape = h.shape })
  | inr e ↦ simp e h
]

take_start-IsOrdered :
    (starts : ℕ) (start_sub : Bool) (resp : ClockReadyResp) (s : System)
    → s.worker ≡ held resp
    → IsOrdered s
    → IsOrdered (take_start starts start_sub resp s)
unfolding take_start
take_start-IsOrdered (suc n) start_sub resp s e h =
    let g = settle s s.backend s.worker starting refl refl (rw e refl) refl h in
    record { up = g.up; shape = g.shape }
take_start-IsOrdered zero true resp s e h = h
take_start-IsOrdered zero false resp s e h =
    let g = settle s s.backend s.worker starting refl refl (rw e refl) refl h in
    record { up = g.up; shape = g.shape }

pub take-IsOrdered :
    (w : Worker) (s : System)
    → IsOrdered (record s { worker = w })
    → IsOrdered (on_take w (record s { worker = w }))
unfolding take_start
take-IsOrdered (held resp) s h =
    take_start-IsOrdered s.starts s.start_sub resp (record s { worker = held resp }) refl h
take-IsOrdered starting s h = h
take-IsOrdered (receiving first) s h = h
take-IsOrdered (readying req first) s h = h
take-IsOrdered (granting req first) s h = h
take-IsOrdered (awaiting req first) s h = h
take-IsOrdered (reporting req code) s h = h
take-IsOrdered (answering req code) s h = h
take-IsOrdered stopped s h = h
take-IsOrdered aborted s h = h

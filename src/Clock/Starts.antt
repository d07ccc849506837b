-- ===== src/Clock/Starts.antt =====
-- hw/rust/backbone/clock/src/lib.rs: the replies of a coordinated node, each of which costs a start
-- signal.
use qenode.Base.{
  ℕ, zero, suc, ◌+◌, ◌<◌, ◌≡◌, refl, sym, ap, ◌∙◌, Bool, true, false, List, [], ◌∷◌, arith, subst,
  length, length-append, if◌then◌else◌,
}
use qenode.Clock.Backend.{VirtmcuClockBackend}
use qenode.Clock.Worker.{
  ClockReadyResp, Worker, starting, receiving, readying, granting, awaiting, reporting, answering,
  held, stopped, aborted, response,
}
use qenode.Clock.System.{
  System, Event, hook, resumes, drops, announces, polls, quits, wakes, loads, begins, receives,
  looks, overlooks, grants, collects, answers, start_arrives, start_taken, run, step, send_ready,
  take_start, realize, on_answer, on_start, on_take,
}
use qenode.Clock.Shutdown.{is_held}
use qenode.Clock.Ledger.{
  Ledger, ledger, hook-ledger, announce-ledger, poll-ledger, quit-ledger, wake-ledger, load-ledger,
  begin-ledger, receive-ledger, look-ledger, overlook-ledger, grant-ledger, collect-ledger,
  resume-ledger,
}

-- A worker that is held owes a reply.
abbrev pub owed : Worker → ℕ
owed w = if is_held w then 1 else 0

-- After `n` signals: each has been spent on a reply or lies in the channel, and each report to the
-- coordinator has been followed by a reply, or the worker is held for it.
record IsBalanced (n : ℕ) (s : System) : Type 0 where
  sub : s.start_sub ≡ true
  coordinated : s.backend.is_coordinated ≡ true
  spent : length s.replies + s.starts ≡ n
  reported : length s.dones ≡ length s.replies + owed s.worker

carried : (n : ℕ) (s t : System) → ledger t ≡ ledger s → IsBalanced n s → IsBalanced n t
carried n s t e b = record {
  sub = ap (λ (l : Ledger). l.0) e ∙ b.sub;
  coordinated = ap (λ (l : Ledger). l.1) e ∙ b.coordinated;
  spent = ap (λ (l : Ledger). length l.2 + l.3) e ∙ b.spent;
  reported =
      ap (λ (l : Ledger). length l.4) e
      ∙ b.reported
      ∙ sym (ap (λ (l : Ledger). length l.2 + (if l.5 then 1 else 0)) e);
}

-- A report is sent by a worker that is not held, and then it is.
answer-IsBalanced :
    (n : ℕ) (w : Worker) (s : System)
    → IsBalanced n (record s { worker = w })
    → IsBalanced n (on_answer w (record s { worker = w }))
unfolding response send_ready
answer-IsBalanced n (answering req code) s b = simp (b.coordinated) (record {
  sub = b.sub;
  coordinated = b.coordinated;
  spent = b.spent;
  reported = length-append s.dones _ ∙ omega (arith, b.reported);
})
answer-IsBalanced n starting s b = b
answer-IsBalanced n (receiving first) s b = b
answer-IsBalanced n (readying req first) s b = b
answer-IsBalanced n (granting req first) s b = b
answer-IsBalanced n (awaiting req first) s b = b
answer-IsBalanced n (reporting req code) s b = b
answer-IsBalanced n (held resp) s b = b
answer-IsBalanced n stopped s b = b
answer-IsBalanced n aborted s b = b

take_start-IsBalanced :
    (n starts : ℕ) (sub : Bool) (resp : ClockReadyResp) (s : System)
    → s.starts ≡ starts
    → sub ≡ true
    → s.worker ≡ held resp
    → IsBalanced n s
    → IsBalanced n (take_start starts sub resp s)
unfolding take_start
take_start-IsBalanced n (suc k) sub resp s e u h b = record {
  sub = b.sub;
  coordinated = b.coordinated;
  spent = omega (arith, length-append s.replies (resp ∷ []), b.spent, e);
  reported = omega (arith, length-append s.replies (resp ∷ []), b.reported, ap owed h);
}
take_start-IsBalanced n zero true resp s e u h b = b
take_start-IsBalanced n zero false resp s e u h b = absurd (ground (arith, u))

take-IsBalanced :
    (n : ℕ) (w : Worker) (s : System)
    → IsBalanced n (record s { worker = w })
    → IsBalanced n (on_take w (record s { worker = w }))
unfolding take_start
take-IsBalanced n (held resp) s b =
    take_start-IsBalanced n s.starts s.start_sub resp (record s { worker = held resp }) refl b.sub
      refl b
take-IsBalanced n starting s b = b
take-IsBalanced n (receiving first) s b = b
take-IsBalanced n (readying req first) s b = b
take-IsBalanced n (granting req first) s b = b
take-IsBalanced n (awaiting req first) s b = b
take-IsBalanced n (reporting req code) s b = b
take-IsBalanced n (answering req code) s b = b
take-IsBalanced n stopped s b = b
take-IsBalanced n aborted s b = b

start-IsBalanced-at :
    (n : ℕ) (sub : Bool) (s : System)
    → sub ≡ true
    → IsBalanced n s
    → IsBalanced (suc n) (if sub then record s { starts = suc s.starts } else s)
start-IsBalanced-at n false s e b = absurd (ground (arith, e))
start-IsBalanced-at n true s e b = record {
  sub = b.sub;
  coordinated = b.coordinated;
  spent = omega (arith, b.spent);
  reported = b.reported;
}

start-IsBalanced : (n : ℕ) (s : System) → IsBalanced n s → IsBalanced (suc n) (on_start s)
start-IsBalanced n s b = start-IsBalanced-at n s.start_sub s b.sub b

-- The start signals among the events
abbrev pub count_starts : List Event → ℕ
count_starts [] = 0
count_starts (start_arrives ∷ es) = suc (count_starts es)
count_starts (_ ∷ es) = count_starts es

abbrev after : ℕ → Event → ℕ
after n start_arrives = suc n
after n _ = n

step-IsBalanced :
    (e : Event) (n : ℕ) (s : System) → IsBalanced n s → IsBalanced (after n e) (step e s)
unfolding step
step-IsBalanced (hook bql_held now) n s b = carried n s _ (hook-ledger bql_held now s.vcpu s) b
step-IsBalanced announces n s b = carried n s _ (announce-ledger s.vcpu s) b
step-IsBalanced (polls y e) n s b = carried n s _ (poll-ledger y e s.vcpu s) b
step-IsBalanced quits n s b = carried n s _ (quit-ledger s.vcpu s) b
step-IsBalanced (wakes expired) n s b = carried n s _ (wake-ledger expired s.vcpu s) b
step-IsBalanced loads n s b = carried n s _ (load-ledger s.vcpu s) b
step-IsBalanced (resumes r) n s b = carried n s _ (resume-ledger r s.vcpu s) b
step-IsBalanced begins n s b = carried n s _ (begin-ledger s.worker s) b
step-IsBalanced (receives o) n s b = carried n s _ (receive-ledger o s.worker s) b
step-IsBalanced (looks expired) n s b = carried n s _ (look-ledger expired s.worker s) b
step-IsBalanced (overlooks expired) n s b = carried n s _ (overlook-ledger expired s.worker s) b
step-IsBalanced grants n s b = carried n s _ (grant-ledger s.worker s) b
step-IsBalanced collects n s b = carried n s _ (collect-ledger s.worker s) b
step-IsBalanced answers n s b = answer-IsBalanced n s.worker s b
step-IsBalanced start_arrives n s b = start-IsBalanced n s b
step-IsBalanced start_taken n s b = take-IsBalanced n s.worker s b
step-IsBalanced drops n s b = carried n s _ refl b

count-after :
    (n : ℕ) (e : Event) (es : List Event) → after n e + count_starts es ≡ n + count_starts (e ∷ es)
count-after n e es = ground arith

run-IsBalanced :
    (es : List Event) (n : ℕ) (s : System)
    → IsBalanced n s
    → IsBalanced (n + count_starts es) (run es s)
unfolding run
run-IsBalanced [] n s b = subst (λ k. IsBalanced k s) (omega arith) b
run-IsBalanced (e ∷ es) n s b =
    subst (λ k. IsBalanced k (run es (step e s))) (count-after n e es)
      (run-IsBalanced es (after n e) (step e s) (step-IsBalanced e n s b))

still_held : (w : Worker) → 0 < owed w → is_held w ≡ true
still_held w h = ground (arith, h)

-- In a coordinated node whose subscription to the start signals was made, whatever the two threads do
-- in whatever order, and whenever start signals arrive and the manager is dropped: each start signal
-- that has arrived has been spent on a reply or still lies in the channel, and the reports to the
-- coordinator are as many as the replies, and one more while the worker waits for its start. So with
-- more reports than start signals the worker is held, also after the drop.
pub run-starts :
    (now : ℕ) (b : VirtmcuClockBackend) (es : List Event)
    → b.is_coordinated ≡ true
    → let s = run es (realize now b) in
      (length s.replies + s.starts ≡ count_starts es)
      × (length s.dones ≡ length s.replies + owed s.worker)
      × (count_starts es < length s.dones → is_held s.worker ≡ true)
unfolding realize
run-starts now b es coordinated =
    let start : IsBalanced 0 (realize now b) = record {
      sub = refl;
      coordinated = coordinated;
      spent = refl;
      reported = refl;
    } in
    let h = run-IsBalanced es 0 (realize now b) start in
    (
      omega (arith, h.spent),
      h.reported,
      λ more. still_held (run es (realize now b)).worker (omega (arith, h.spent, h.reported, more)),
    )

-- ===== src/Bridge/Latest.antt =====
-- What a request is answered with.
use mathlib.Core.List.{append_assoc, append-nil}
use qenode.Base.{
  ◌≡◌, refl, subst, Bool-cases, sym, ◌∙◌, ap, ◌⊎◌, inl, inr, true, false, not, ◌&&◌, ◌||◌, Option,
  none, some, List, [], ◌∷◌, ◌++◌, arith,
}
use qenode.Bridge.Arrivals.{
  latest, heard, arrive_all-latest, latest-append, arrive_all-heard, heard-append,
}
use qenode.Bridge.Cosim.{
  BridgeState, Arrival, Round, arrive_all, clear, wait_loop, take_response, send_and_wait,
}

module _ {Resp : Type 0} where
  abbrev pub all_arrivals : List (Round Resp) → List (Arrival Resp)
  all_arrivals [] = []
  all_arrivals (r ∷ rs) = r.arrivals ++ all_arrivals rs

  -- Rounds that the vCPU waits through, after the arrivals `seen`: while the bridge runs, nothing
  -- has been heard at the start of a round, and neither test of the clock ends it.
  abbrev pub IsWaiting : (seen : List (Arrival Resp)) → List (Round Resp) → Type 0
  IsWaiting seen [] = Unit
  IsWaiting seen (r ∷ rs) =
      (r.running ≡ true)
      × (heard seen ≡ false)
      × (r.timed_out ≡ false)
      × (r.expired ≡ false)
      × IsWaiting (seen ++ r.arrivals) rs

  -- How a wait ends in a round before which `seen` has arrived, and what has arrived when it ends.
  pub data Ending (seen : List (Arrival Resp)) (r : Round Resp) : List (Arrival Resp) → Type 0 where
    stopped : r.running ≡ false → Ending seen r seen
    answered : heard seen ≡ true → Ending seen r seen
    times_out : r.running ≡ true → heard seen ≡ false → r.timed_out ≡ true → Ending seen r seen
    expires :
        r.running ≡ true
        → heard seen ≡ false
        → r.timed_out ≡ false
        → r.expired ≡ true
        → Ending seen r (seen ++ r.arrivals)

  -- A round in which the wait ends by itself
  abbrev pub HasEnd : List (Round Resp) → Type 0
  HasEnd [] = false ≡ true
  HasEnd (r ∷ rs) = ((r.running && not (r.timed_out || r.expired)) ≡ false) ⊎ HasEnd rs

  HasEnd-later :
      (r : Round Resp) (rs : List (Round Resp))
      → r.running ≡ true
      → r.timed_out ≡ false
      → r.expired ≡ false
      → HasEnd (r ∷ rs)
      → HasEnd rs
  HasEnd-later r rs run early late (inl h) = absurd (ground (arith, h, run, early, late))
  HasEnd-later r rs run early late (inr h) = h

  -- A wait that begins after `seen` has arrived: the rounds that it lasts, the round in which it
  -- ends, what has arrived by then, and the response that is there
  pub record Waited (seen : List (Arrival Resp)) (rounds : List (Round Resp)) (answer : Option Resp)
      : Type 0 where
    pub through : List (Round Resp)
    pub last : Round Resp
    pub unused : List (Round Resp)
    pub total : List (Arrival Resp)
    pub split : rounds ≡ through ++ (last ∷ unused)
    pub waiting : IsWaiting seen through
    pub ending : Ending (seen ++ all_arrivals through) last total
    pub latest_one : answer ≡ latest none total

  -- The state that a wait leaves, if it ends
  abbrev AllWaited :
      (seen : List (Arrival Resp)) → List (Round Resp) → Option (BridgeState Resp) → Type 0
  AllWaited seen rounds none = false ≡ true
  AllWaited seen rounds (some t) = Waited seen rounds t.current_resp

  -- The shared state is what has arrived since it was cleared.
  record Agrees (seen : List (Arrival Resp)) (s : BridgeState Resp) : Type 0 where
    flag : s.has_resp ≡ heard seen
    value : s.current_resp ≡ latest none seen

  arrive_all-Agrees :
      (seen xs : List (Arrival Resp)) (s : BridgeState Resp)
      → Agrees seen s
      → Agrees (seen ++ xs) (arrive_all xs s)
  arrive_all-Agrees seen xs s a = record {
    flag = arrive_all-heard xs s ∙ ap (λ b. b || heard xs) a.flag ∙ sym (heard-append seen xs);
    value =
        arrive_all-latest xs s ∙ ap (λ o. latest o xs) a.value ∙ sym (latest-append none seen xs);
  }

  ends_here :
      (seen : List (Arrival Resp)) (r : Round Resp) (rs : List (Round Resp)) (t : BridgeState Resp)
      (total : List (Arrival Resp))
      → Ending seen r total
      → t.current_resp ≡ latest none total
      → Waited seen (r ∷ rs) t.current_resp
  ends_here seen r rs t total e v = record {
    through = [];
    last = r;
    unused = rs;
    total = total;
    split = refl;
    waiting = tt;
    ending = subst (λ xs. Ending xs r total) (sym (append-nil seen)) e;
    latest_one = v;
  }

  waits_on :
      (seen : List (Arrival Resp)) (r : Round Resp) (rs : List (Round Resp))
      (o : Option (BridgeState Resp))
      → r.running ≡ true
      → heard seen ≡ false
      → r.timed_out ≡ false
      → r.expired ≡ false
      → AllWaited (seen ++ r.arrivals) rs o
      → AllWaited seen (r ∷ rs) o
  waits_on seen r rs none run quiet early late w = w
  waits_on seen r rs (some t) run quiet early late w = record {
    through = r ∷ w.through;
    last = w.last;
    unused = w.unused;
    total = w.total;
    split = ap (λ l. r ∷ l) w.split;
    waiting = (run, quiet, early, late, w.waiting);
    ending =
        subst (λ xs. Ending xs w.last w.total)
          (append_assoc seen r.arrivals (all_arrivals w.through)) w.ending;
    latest_one = w.latest_one;
  }

  wait_loop-AllWaited :
      (rounds : List (Round Resp)) (seen : List (Arrival Resp)) (s : BridgeState Resp)
      → HasEnd rounds
      → Agrees seen s
      → AllWaited seen rounds (wait_loop rounds s)
  unfolding wait_loop
  wait_loop-AllWaited [] seen s h a = h
  wait_loop-AllWaited (r ∷ rs) seen s h a =
      let after = arrive_all r.arrivals s in
      let later = arrive_all-Agrees seen r.arrivals s a in
      elim (Bool-cases r.running) [
        | inr run ↦ simp run (ends_here seen r rs s seen (stopped run) a.value)
        | inl run ↦ elim (Bool-cases (heard seen)) [
          | inl ans ↦ simp (run, a.flag, ans) (ends_here seen r rs s seen (answered ans) a.value)
          | inr quiet ↦ elim (Bool-cases r.timed_out) [
            | inl out ↦
                simp (run, a.flag, quiet, out)
                  (ends_here seen r rs s seen (times_out run quiet out) a.value)
            | inr early ↦ elim (Bool-cases r.expired) [
              | inl out ↦
                  simp (run, a.flag, quiet, early, out)
                    (ends_here seen r rs after (seen ++ r.arrivals) (expires run quiet early out)
                      later.value)
              | inr late ↦
                  simp (run, a.flag, quiet, early, late)
                    (waits_on seen r rs (wait_loop rs after) run quiet early late (
                      wait_loop-AllWaited rs (seen ++ r.arrivals) after
                        (HasEnd-later r rs run early late h) later))
            ]
          ]
        ]
      ]

  -- What `send_and_wait` returns
  abbrev pub Answered :
      (before : List (Arrival Resp)) (rounds : List (Round Resp))
      → Option (Option Resp × BridgeState Resp)
      → Type 0
  Answered before rounds none = false ≡ true
  Answered before rounds (some (answer, t)) = Waited before rounds answer × (t.current_resp ≡ none)

  take-Answered :
      (before : List (Arrival Resp)) (rounds : List (Round Resp)) (o : Option (BridgeState Resp))
      → AllWaited before rounds o
      → Answered before rounds (take_response o)
  unfolding take_response
  take-Answered before rounds none h = h
  take-Answered before rounds (some t) h = (h, refl)

  -- A request that is sent, on a bridge that runs, and with a round in which the wait times out or the
  -- bridge stops. Then the call returns. It waits through round after round as long as the bridge
  -- runs, neither a response nor the loss of the connection has come since the reset before the
  -- request, and the time is not up; it ends in the first round in which one of these fails. It
  -- returns the last response that has arrived by then, or none if none has or the connection was
  -- lost after it, and leaves no response behind. Which request a response belongs to is not asked.
  pub send_and_wait-latest :
      (before : List (Arrival Resp)) (rounds : List (Round Resp)) (s : BridgeState Resp)
      → HasEnd rounds
      → Answered before rounds (send_and_wait true true before rounds s)
  unfolding send_and_wait clear
  send_and_wait-latest before rounds s h =
      let t = arrive_all before (clear s) in
      take-Answered before rounds (wait_loop rounds t) (
        wait_loop-AllWaited rounds before t h
          (arrive_all-Agrees [] before (clear s) (record { flag = refl; value = refl })))

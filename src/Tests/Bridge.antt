-- ===== src/Tests/Bridge.antt =====
-- Runs of the co-simulation bridges.
use qenode.Base.{ℕ, ◌≡◌, refl, inl, inr, true, false, none, some, List, [], ◌∷◌, ◌++◌, arith}
use qenode.Bridge.Cosim.{
  Arrival, Round, new, send_and_wait, clear, wait_loop, take_response, arrive_all, arrive,
  dispatch_response,
}
use qenode.Bridge.Latest.{Answered, send_and_wait-latest}
use qenode.Bridge.Mmio.{HandshakeResult, complete_server_handshake, Effect, serve}
use qenode.Bridge.Session.{hello, Message, encode_all, effects_of, serve-peer}

-- The vCPU sleeps for a while; then an answer comes; the wait would time out after that.
abbrev waits : List (Round ℕ)
waits =
    record { running = true; timed_out = false; arrivals = []; expired = false }
    ∷ record {
      running = true;
      timed_out = false;
      arrivals = Arrival.response 7 ∷ [];
      expired = false;
    }
    ∷ record { running = true; timed_out = false; arrivals = []; expired = true }
    ∷ []

send_and_wait-latest_example :
    Answered
      (Arrival.response 5 ∷ [])
      waits
      (send_and_wait true true (Arrival.response 5 ∷ []) waits new)
send_and_wait-latest_example =
    send_and_wait-latest (Arrival.response 5 ∷ []) waits new (inr (inr (inl refl)))

-- A response that was there before the wait, such as one to an earlier request that has timed out, is
-- taken for the answer.
stale_answer :
    send_and_wait true true (Arrival.response 5 ∷ []) waits new
    ≡ some (some 5, record { has_resp = true; current_resp = none; is_connected = false })
unfolding send_and_wait new clear wait_loop take_response arrive_all arrive dispatch_response
stale_answer = refl

abbrev talk : List Message
talk = Message.raises 3 ∷ Message.answers 99 ∷ Message.lowers 40 ∷ []

serve-peer_example :
    (complete_server_handshake hello ≡ HandshakeResult.accepted hello)
    × (serve (record {
      write_ok = true;
      clone_ok = true;
      received = hello ++ (encode_all talk ++ (1 ∷ 2 ∷ []));
    })
        ≡ Effect.arrives Arrival.connected
          ∷ (effects_of talk ++ (Effect.arrives Arrival.disconnected ∷ [])))
serve-peer_example =
    serve-peer talk (1 ∷ 2 ∷ []) (omega arith, (omega arith, (omega arith, tt))) (omega arith)

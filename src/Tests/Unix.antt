-- ===== src/Tests/Unix.antt =====
-- A run of the Unix socket transport and its router (hw/rust/backbone/transport-unix/src).
use qenode.Base.{ℕ, ◌≡◌, refl, true, false, List, [], ◌∷◌, ◌++◌, arith}
use qenode.Base.Bytes.{Text, ascii, starts_with, le_bytes, read_le, read_bytes}
use qenode.UnixTransport.{
  UnixStream, write_all, frame, read_frame, read_loop, read_all, relay, tx_loop, dispatch,
  dispatch_all, rx_loop,
}
use qenode.UnixTransport.Calls.{AllCalled}
use qenode.UnixTransport.Relay.{AllFit, fresh, rx_loop-relay}

abbrev sent_messages : List (Text × List ℕ)
sent_messages = (ascii "sim/can/0/tx", 1 ∷ 2 ∷ []) ∷ (ascii "sim/lin/0/tx", 3 ∷ []) ∷ []

abbrev can_and_all : List (Text × ℕ)
can_and_all = (ascii "sim/can/0/tx", 10) ∷ (ascii "sim", 11) ∷ []

-- As on text that is UTF-8 already
abbrev unchanged : List ℕ → Text
unchanged bytes = bytes

-- It takes one frame and is closed then.
abbrev leaving : UnixStream
leaving = record { taken = []; writes = true ∷ false ∷ [] }

three_calls :
    rx_loop unchanged can_and_all (tx_loop fresh sent_messages).taken
    ≡ (10, 1 ∷ 2 ∷ []) ∷ (11, 1 ∷ 2 ∷ []) ∷ (11, 3 ∷ []) ∷ []
unfolding rx_loop tx_loop write_all frame read_all read_loop read_frame dispatch_all dispatch
    starts_with le_bytes read_le read_bytes
three_calls = refl

sent_messages-AllFit : AllFit unchanged sent_messages
sent_messages-AllFit = (
  record { topic = omega arith; payload = omega arith; utf8 = refl },
  (record { topic = omega arith; payload = omega arith; utf8 = refl }, tt),
)

rx_loop-relay_example :
    (relay ((tx_loop fresh sent_messages).taken ++ (5 ∷ 0 ∷ [])) ((leaving ∷ []) ++ (fresh ∷ []))
      ≡ relay ((tx_loop fresh sent_messages).taken ++ (5 ∷ 0 ∷ [])) (leaving ∷ [])
        ++ (tx_loop fresh sent_messages
            ∷ relay ((tx_loop fresh sent_messages).taken ++ (5 ∷ 0 ∷ [])) []))
    × AllCalled can_and_all sent_messages
        (rx_loop unchanged can_and_all (tx_loop fresh sent_messages).taken)
rx_loop-relay_example =
    rx_loop-relay unchanged can_and_all sent_messages (5 ∷ 0 ∷ []) (leaving ∷ []) []
      sent_messages-AllFit (unfold read_frame read_le in refl)

-- ===== src/UnixTransport.antt =====
-- hw/rust/backbone/transport-unix/src/lib.rs, `UnixDataTransport`, and router.rs, `UnixDataRouter`:
-- the frames on the sockets, the threads that write and read them, and the broadcast. A thread that
-- reads is a function of all that its socket brings until the peer closes it.
pub mod Calls
pub mod Relay
use qenode.Base.{
  ℕ, zero, suc, ◌%◌, ◌^◌, Bool, true, false, ◌||◌, Option, none, some, List, [], ◌∷◌, ◌++◌,
  if◌then◌else◌, length,
}
use qenode.Base.Bytes.{Text, le_bytes, read_le, read_bytes, starts_with}
use qenode.Base.Do.{◌>>=◌}
use qenode.Base.Maps.{same}
use qenode.Base.Order.{nat_ord, list_ord}

-- What a socket has taken from its writer, and the outcomes of the writes to come; after the last of
-- them every write succeeds.
pub record UnixStream : Type 0 where
  pub taken : List ℕ
  pub writes : List Bool

-- A write that fails may leave a part of its bytes, after which nothing is written.
unfoldable pub write_all : UnixStream → List ℕ → Option UnixStream
write_all s buf = elim s.writes [
  | [] ↦ some (record s { taken = s.taken ++ buf })
  | true ∷ writes ↦ some (record { taken = s.taken ++ buf; writes = writes })
  | false ∷ writes ↦ none
]

-- `len() as u32` wraps.
unfoldable pub frame : Text × List ℕ → List ℕ
frame (topic, payload) =
    le_bytes 4 (length topic % 2 ^ 32)
    ++ (topic ++ (le_bytes 4 (length payload % 2 ^ 32) ++ payload))

-- A round of either reading thread up to its message; none where a read fails, which ends the thread.
unfoldable pub read_frame : List ℕ → Option ((Text × List ℕ) × List ℕ)
read_frame input = do
  (topic_len, s1) ← read_le 4 input
  (topic, s2) ← read_bytes topic_len s1
  (payload_len, s3) ← read_le 4 s2
  (payload, rest) ← read_bytes payload_len s3
  some ((topic, payload), rest)

unfoldable pub read_loop : (fuel : ℕ) (input : List ℕ) → List (Text × List ℕ)
unfolding read_frame
read_loop zero input = []
read_loop (suc fuel) input = elim (read_frame input) [
  | none ↦ []
  | some (message, rest) ↦ message ∷ read_loop fuel rest
]

-- A frame has eight bytes at least, so the bytes are rounds enough.
unfoldable pub read_all : List ℕ → List (Text × List ℕ)
unfolding read_loop
read_all input = read_loop (length input) input

-- A client stays if the write succeeded.
abbrev pub keep : Option UnixStream → List UnixStream → List UnixStream
keep none clients = clients
keep (some client) clients = client ∷ clients

-- `clients.retain_mut(..)`
unfoldable pub broadcast : List ℕ → List UnixStream → List UnixStream
unfolding write_all
broadcast buf [] = []
broadcast buf (client ∷ clients) = keep (write_all client buf) (broadcast buf clients)

-- `serve`, on a new connection
unfoldable pub accept : UnixStream → List UnixStream → List UnixStream
accept client clients = clients ++ (client ∷ [])

-- The router, for messages that its reading threads have read, in the order in which they take the
-- lock.
unfoldable pub broadcast_all : List (Text × List ℕ) → List UnixStream → List UnixStream
unfolding broadcast frame
broadcast_all [] clients = clients
broadcast_all (message ∷ messages) clients =
    broadcast_all messages (broadcast (frame message) clients)

-- The reading thread of one connection
unfoldable pub relay : List ℕ → List UnixStream → List UnixStream
unfolding read_all broadcast_all
relay input clients = broadcast_all (read_all input) clients

-- `publish` puts the message into the queue, unless the writing thread has ended.
unfoldable pub publish :
    (is_writing : Bool) (topic : Text) (payload : List ℕ)
    → List (Text × List ℕ)
    → Option (List (Text × List ℕ))
publish is_writing topic payload queue =
    if is_writing then some (queue ++ ((topic, payload) ∷ [])) else none

-- The writing thread on the messages of its queue
unfoldable pub tx_loop : UnixStream → List (Text × List ℕ) → UnixStream
unfolding write_all frame
tx_loop stream [] = stream
tx_loop stream (message ∷ queue) = elim (write_all stream (frame message)) [
  | none ↦ stream
  | some written ↦ tx_loop written queue
]

-- A callback is a number.
unfoldable pub subscribe : Text → ℕ → List (Text × ℕ) → List (Text × ℕ)
subscribe topic callback subscriptions = subscriptions ++ ((topic, callback) ∷ [])

-- The calls for one message
unfoldable pub dispatch : List (Text × ℕ) → Text × List ℕ → List (ℕ × List ℕ)
unfolding starts_with
dispatch [] message = []
dispatch ((sub_topic, callback) ∷ subs) (topic, payload) =
    let rest = dispatch subs (topic, payload) in
    if same ⦃o = list_ord nat_ord⦄ sub_topic topic || starts_with sub_topic topic
    then (callback, payload) ∷ rest
    else rest

unfoldable pub dispatch_all :
    (from_utf8_lossy : List ℕ → Text) → List (Text × ℕ) → List (Text × List ℕ) → List (ℕ × List ℕ)
unfolding dispatch
dispatch_all from_utf8_lossy subs [] = []
dispatch_all from_utf8_lossy subs ((topic, payload) ∷ messages) =
    dispatch subs (from_utf8_lossy topic, payload) ++ dispatch_all from_utf8_lossy subs messages

-- The reading thread of a transport, while the subscriptions stay as they are
unfoldable pub rx_loop :
    (from_utf8_lossy : List ℕ → Text) → List (Text × ℕ) → List ℕ → List (ℕ × List ℕ)
unfolding read_all dispatch_all
rx_loop from_utf8_lossy subs input = dispatch_all from_utf8_lossy subs (read_all input)

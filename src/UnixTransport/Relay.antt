-- ===== src/UnixTransport/Relay.antt =====
-- hw/rust/backbone/transport-unix/src: what one transport publishes, through the router, to the
-- subscribers of another.
use mathlib.Core.List.{append_assoc, append-nil}
use native.Mathlib.Nat.{mod-eq_of_lt, zero-add, suc-add}
use qenode.Base.{
  ℕ, zero, suc, ◌+◌, ◌-◌, ◌^◌, ◌<◌, ◌≤◌, ◌≡◌, refl, ap, sym, ◌∙◌, Option, none, some, List, [], ◌∷◌,
  ◌++◌, arith, length, length-append,
}
use qenode.Base.Bytes.{Text, le_bytes, read_le, read_le-le_bytes, read_bytes-append}
use qenode.Base.Order.{nat_ord}
use qenode.UnixTransport.Calls.{AllCalled, dispatch-Called}
use qenode.UnixTransport.{
  UnixStream, keep, write_all, frame, read_frame, read_loop, read_all, broadcast, broadcast_all,
  relay, tx_loop, dispatch_all, rx_loop,
}

-- The lengths fit 32 bits, and the topic is the UTF-8 of a string.
pub record Fits (from_utf8_lossy : List ℕ → Text) (message : Text × List ℕ) : Type 0 where
  pub topic : length message.0 < 2 ^ 32
  pub payload : length message.1 < 2 ^ 32
  pub utf8 : from_utf8_lossy message.0 ≡ message.0

abbrev pub AllFit : (from_utf8_lossy : List ℕ → Text) → List (Text × List ℕ) → Type 0
AllFit lossy [] = Unit
AllFit lossy (m ∷ ms) = Fits lossy m × AllFit lossy ms

-- A connection that has just been made and on which no write fails
abbrev pub fresh : UnixStream
fresh = record { taken = []; writes = [] }

-- The frames of messages, one after the other
abbrev frames : List (Text × List ℕ) → List ℕ
frames [] = []
frames (m ∷ ms) = frame m ++ frames ms

read_frame-frame :
    (lossy : List ℕ → Text) (m : Text × List ℕ) (rest : List ℕ)
    → Fits lossy m
    → read_frame (frame m ++ rest) ≡ some (m, rest)
unfolding read_frame frame
read_frame-frame lossy (topic, payload) rest f = simp (
  append_assoc,
  read_le-le_bytes,
  mod-eq_of_lt f.topic,
  f.topic,
  mod-eq_of_lt f.payload,
  f.payload,
  read_bytes-append,
)

read_loop-frames :
    (lossy : List ℕ → Text) (ms : List (Text × List ℕ)) (more : ℕ) (rest : List ℕ)
    → AllFit lossy ms
    → read_frame rest ≡ none
    → read_loop (length ms + more) (frames ms ++ rest) ≡ ms
unfolding read_loop
read_loop-frames lossy [] zero rest f e = refl
read_loop-frames lossy [] (suc more) rest f e = rw (zero-add (suc more), e, read_loop)
read_loop-frames lossy (m ∷ ms) more rest f e =
    rw (suc-add (length ms) more, append_assoc (frame m) (frames ms) rest)
      (rw (read_frame-frame lossy m (frames ms ++ rest) f.0, read_loop)
        (ap (λ xs. m ∷ xs) (read_loop-frames lossy ms more rest f.1 e)))

frame_nonempty : (m : Text × List ℕ) → 1 ≤ length (frame m)
unfolding frame le_bytes
frame_nonempty (topic, payload) = omega arith

length-frames : (ms : List (Text × List ℕ)) → length ms ≤ length (frames ms)
length-frames [] = omega arith
length-frames (m ∷ ms) =
    rw (length-append (frame m) (frames ms)) (omega (arith, frame_nonempty m, length-frames ms))

read_all-frames :
    (lossy : List ℕ → Text) (ms : List (Text × List ℕ)) (rest : List ℕ)
    → AllFit lossy ms
    → read_frame rest ≡ none
    → read_all (frames ms ++ rest) ≡ ms
unfolding read_all
read_all-frames lossy ms rest f e =
    let more = length (frames ms) - length ms + length rest in
    let enough : length (frames ms ++ rest) ≡ length ms + more =
      omega (arith, length-append (frames ms) rest, length-frames ms) in
    ap (λ fuel. read_loop fuel (frames ms ++ rest)) enough ∙ read_loop-frames lossy ms more rest f e

-- A connection on which no write fails
abbrev open_stream : List ℕ → UnixStream
open_stream taken = record { taken = taken; writes = [] }

tx_loop-frames :
    (ms : List (Text × List ℕ)) (taken : List ℕ)
    → tx_loop (open_stream taken) ms ≡ open_stream (taken ++ frames ms)
unfolding tx_loop write_all
tx_loop-frames [] taken = ap open_stream (sym (append-nil taken))
tx_loop-frames (m ∷ ms) taken =
    tx_loop-frames ms (taken ++ frame m) ∙ ap open_stream (append_assoc taken (frame m) (frames ms))

broadcast_all-frames :
    (ms : List (Text × List ℕ)) (taken : List ℕ)
    → broadcast_all ms (open_stream taken ∷ []) ≡ open_stream (taken ++ frames ms) ∷ []
unfolding broadcast_all broadcast write_all
broadcast_all-frames [] taken = ap (λ bytes. open_stream bytes ∷ []) (sym (append-nil taken))
broadcast_all-frames (m ∷ ms) taken =
    broadcast_all-frames ms (taken ++ frame m)
    ∙ ap (λ bytes. open_stream bytes ∷ []) (append_assoc taken (frame m) (frames ms))

keep-append :
    (x : Option UnixStream) (xs ys : List UnixStream) → keep x (xs ++ ys) ≡ keep x xs ++ ys
keep-append none xs ys = refl
keep-append (some x) xs ys = refl

broadcast-append :
    (buf : List ℕ) (xs ys : List UnixStream)
    → broadcast buf (xs ++ ys) ≡ broadcast buf xs ++ broadcast buf ys
unfolding broadcast
broadcast-append buf [] ys = refl
broadcast-append buf (x ∷ xs) ys =
    ap (keep (write_all x buf)) (broadcast-append buf xs ys)
    ∙ keep-append (write_all x buf) (broadcast buf xs) (broadcast buf ys)

broadcast_all-append :
    (ms : List (Text × List ℕ)) (xs ys : List UnixStream)
    → broadcast_all ms (xs ++ ys) ≡ broadcast_all ms xs ++ broadcast_all ms ys
unfolding broadcast_all
broadcast_all-append [] xs ys = refl
broadcast_all-append (m ∷ ms) xs ys =
    ap (broadcast_all ms) (broadcast-append (frame m) xs ys)
    ∙ broadcast_all-append ms (broadcast (frame m) xs) (broadcast (frame m) ys)

dispatch_all-AllCalled :
    (lossy : List ℕ → Text) (subs : List (Text × ℕ)) (ms : List (Text × List ℕ))
    → AllFit lossy ms
    → AllCalled subs ms (dispatch_all lossy subs ms)
unfolding dispatch_all
dispatch_all-AllCalled lossy subs [] f = AllCalled.done
dispatch_all-AllCalled lossy subs ((topic, payload) ∷ ms) f = rw (f.0.utf8) (
    AllCalled.next _ _ (dispatch-Called subs topic payload)
      (dispatch_all-AllCalled lossy subs ms f.1))

-- Let a transport send the messages `ms`, whose lengths fit 32 bits and whose topics are UTF-8, and
-- its connection then break, after a part of a frame at most. Whichever clients the router has
-- besides, and whichever of these drop out, a client that has just connected and whose writes
-- succeed stays, and what it has taken makes its reading thread call, message by message in the
-- order of the sender, each callback whose topic is a prefix of the message's, and no other.
pub rx_loop-relay :
    (lossy : List ℕ → Text) (subs : List (Text × ℕ)) (ms : List (Text × List ℕ)) (rest : List ℕ)
    (before after : List UnixStream)
    → AllFit lossy ms
    → read_frame rest ≡ none
    → (relay ((tx_loop fresh ms).taken ++ rest) (before ++ (fresh ∷ after))
        ≡ relay ((tx_loop fresh ms).taken ++ rest) before
          ++ (tx_loop fresh ms ∷ relay ((tx_loop fresh ms).taken ++ rest) after))
      × AllCalled subs ms (rx_loop lossy subs (tx_loop fresh ms).taken)
unfolding relay rx_loop
rx_loop-relay lossy subs ms rest before after f e =
    let sent : tx_loop fresh ms ≡ open_stream (frames ms) = tx_loop-frames ms [] in
    let arrived : read_all (frames ms ++ rest) ≡ ms = read_all-frames lossy ms rest f e in
    let whole : read_all (frames ms) ≡ ms =
      ap read_all (sym (append-nil (frames ms)))
      ∙ read_all-frames lossy ms [] f (unfold read_frame read_le in refl) in
    (
      rw (sent, arrived)
          (broadcast_all-append ms before (fresh ∷ after)
            ∙ ap (λ clients. broadcast_all ms before ++ clients)
                (broadcast_all-append ms (fresh ∷ []) after
                  ∙ ap (λ clients. clients ++ broadcast_all ms after)
                      (broadcast_all-frames ms []))),
      rw (sent, whole) (dispatch_all-AllCalled lossy subs ms f),
    )

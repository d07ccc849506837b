-- ===== src/Bridge/Session.antt =====
-- A session of the MMIO bridge with a peer that follows the protocol.
use mathlib.Core.List.{append_assoc}
use qenode.Base.{
  ℕ, zero, suc, ◌^◌, ◌<◌, ◌≡◌, refl, sym, ◌∙◌, ap, Bool, true, false, none, some, List, [], ◌∷◌,
  ◌++◌, arith, ltb, if◌then◌else◌, length, length-append, subst,
}
use qenode.Base.Bytes.{le_bytes, read_le, read_bytes, read_bytes-append}
use qenode.Api.Structs.{
  handshake_magic, handshake_version, field, unpack_slice_of, new_handshake, new_sysc_msg,
}
use qenode.Api.Fields.{sysc_msg-fields, handshake-fields, length-new_handshake, length-new_sysc_msg}
use qenode.Bridge.Cosim.{Arrival}
use qenode.Bridge.Mmio.{
  virtmcu_proto_magic, virtmcu_proto_version, HandshakeResult, check_client,
  complete_server_handshake, Effect, on_message, read_loop, is_peer, serve,
}

abbrev pub hello : List ℕ
hello = new_handshake virtmcu_proto_magic virtmcu_proto_version

-- What the peer sends
pub data Message : Type 0 where
  answers : (data_ : ℕ) → Message
  raises : (irq_num : ℕ) → Message
  lowers : (irq_num : ℕ) → Message

abbrev pub encode : Message → List ℕ
encode (answers d) = new_sysc_msg 0 0 d
encode (raises i) = new_sysc_msg 1 i 0
encode (lowers i) = new_sysc_msg 2 i 0

abbrev pub encode_all : List Message → List ℕ
encode_all [] = []
encode_all (m ∷ ms) = encode m ++ encode_all ms

abbrev pub IsMessage : Message → Type 0
IsMessage (answers d) = d < 2 ^ 64
IsMessage (raises i) = i < 2 ^ 32
IsMessage (lowers i) = i < 2 ^ 32

abbrev pub AllMessages : List Message → Type 0
AllMessages [] = Unit
AllMessages (m ∷ ms) = IsMessage m × AllMessages ms

-- Only the lines that the bridge has
abbrev pub line : (irq_num : ℕ) (level : Bool) → List Effect
line i level = if ltb i 32 then Effect.sets_irq i level ∷ [] else []

abbrev pub effect_of : Message → List Effect
effect_of (answers d) = Effect.arrives (Arrival.response (new_sysc_msg 0 0 d)) ∷ []
effect_of (raises i) = line i true
effect_of (lowers i) = line i false

abbrev pub effects_of : List Message → List Effect
effects_of [] = []
effects_of (m ∷ ms) = effect_of m ++ effects_of ms

on_message-encode : (m : Message) → IsMessage m → on_message (encode m) ≡ effect_of m
unfolding on_message
on_message-encode (answers d) h =
    let f = sysc_msg-fields 0 0 d (omega arith) (omega arith) h in simp (f.0) refl
on_message-encode (raises i) h =
    let f = sysc_msg-fields 1 i 0 (omega arith) h (omega arith) in simp (f.0, f.1) refl
on_message-encode (lowers i) h =
    let f = sysc_msg-fields 2 i 0 (omega arith) h (omega arith) in simp (f.0, f.1) refl

length-encode : (m : Message) → length (encode m) ≡ 16
length-encode (answers d) = length-new_sysc_msg 0 0 d
length-encode (raises i) = length-new_sysc_msg 1 i 0
length-encode (lowers i) = length-new_sysc_msg 2 i 0

read_bytes-at : (n : ℕ) (xs ys : List ℕ) → length xs ≡ n → read_bytes n (xs ++ ys) ≡ some (xs, ys)
read_bytes-at n xs ys h =
    subst (λ k. read_bytes k (xs ++ ys) ≡ some (xs, ys)) h (read_bytes-append xs ys)

read_bytes-short : (n : ℕ) (xs : List ℕ) → length xs < n → read_bytes n xs ≡ none
unfolding read_bytes
read_bytes-short zero xs h = absurd (omega (arith, h))
read_bytes-short (suc n) [] h = refl
read_bytes-short (suc n) (x ∷ xs) h = rw (read_bytes-short n xs (omega (arith, h))) refl

read_loop-encode_all :
    (fuel : ℕ) (ms : List Message) (tail : List ℕ)
    → AllMessages ms
    → length tail < 16
    → length (encode_all ms ++ tail) < fuel
    → read_loop fuel (encode_all ms ++ tail)
      ≡ effects_of ms ++ (Effect.arrives Arrival.disconnected ∷ [])
unfolding read_loop
read_loop-encode_all zero ms tail ok short h = absurd (omega (arith, h))
read_loop-encode_all (suc fuel) [] tail ok short h =
    rw (read_bytes-short 16 tail short, read_loop) refl
read_loop-encode_all (suc fuel) (m ∷ ms) tail ok short h =
    let e = append_assoc (encode m) (encode_all ms) tail in
    let size = ap length e ∙ length-append (encode m) (encode_all ms ++ tail) in
    let read = read_bytes-at 16 (encode m) (encode_all ms ++ tail) (length-encode m) in
    let rest =
      read_loop-encode_all fuel ms tail ok.1 short (omega (arith, h, size, length-encode m)) in
    rw (e, read, read_loop, on_message-encode m ok.0, rest)
      (sym (append_assoc (effect_of m) (effects_of ms) (Effect.arrives Arrival.disconnected ∷ [])))

complete_server_handshake-hello : complete_server_handshake hello ≡ HandshakeResult.accepted hello
unfolding complete_server_handshake check_client new_handshake handshake_magic handshake_version
    field unpack_slice_of read_bytes read_le le_bytes
complete_server_handshake-hello = refl

-- The peer's side of the handshake accepts what the bridge sends first, and replies. When that reply
-- and any messages come back, and at the end less than a message, the bridge reports that it is
-- connected, then does what each message says, in order: it hands an answer on, and raises or lowers
-- a line, unless there is no such line; and it reports the loss of the connection at the end.
pub serve-peer :
    (ms : List Message) (tail : List ℕ)
    → AllMessages ms
    → length tail < 16
    → (complete_server_handshake hello ≡ HandshakeResult.accepted hello)
      × (serve (record {
        write_ok = true;
        clone_ok = true;
        received = hello ++ (encode_all ms ++ tail);
      })
          ≡ Effect.arrives Arrival.connected
            ∷ (effects_of ms ++ (Effect.arrives Arrival.disconnected ∷ [])))
unfolding serve is_peer
serve-peer ms tail ok short =
    let f =
      handshake-fields virtmcu_proto_magic virtmcu_proto_version (omega arith) (omega arith) in
    let size = length-new_handshake virtmcu_proto_magic virtmcu_proto_version in
    let read = read_bytes-at 8 hello (encode_all ms ++ tail) size in
    let loop =
      read_loop-encode_all (suc (length (encode_all ms ++ tail))) ms tail ok short (omega arith) in
    (complete_server_handshake-hello, rw (read, serve, f.0, f.1, loop) refl)

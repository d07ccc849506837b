-- ===== src/Coordinator/Topics/Misread.antt =====
-- The sending topics of which `parse_legacy_topic` does not read the sending node.
use qenode.Base.{ℕ, ◌^◌, ◌<◌, ◌≡◌, refl, none, some, [], ◌∷◌, ◌++◌, arith}
use qenode.Base.Bytes.{Text, ascii, starts_with}
use qenode.Base.Decimal.{to_string, to_string-AllDigits}
use qenode.Coordinator.Protocol.{Protocol}
use qenode.Coordinator.Topics.{
  path, uart_port_rx, uart_port_tx, chardev_tx, netdev_tx, occurs, split, join, second_last,
  topic_protocol, parse_legacy_topic,
}
use qenode.Coordinator.Topics.Parse.{
  occurs-digits, split-digits, absent, split_tail, parse_from_parts,
}

module _ (n p : ℕ) where
  port_protocol : topic_protocol (uart_port_tx (to_string n) (to_string p)) ≡ some Protocol.uart
  unfolding topic_protocol occurs starts_with uart_port_tx
  port_protocol = rw (
    occurs-digits b'e' (ascii "th") (to_string n) (b'/' ∷ (to_string p ++ ascii "/tx")) refl
        (to_string-AllDigits n),
    absent p b'e' (ascii "th") refl,
  )

  port_split :
      split (uart_port_tx (to_string n) (to_string p))
      ≡ ascii "virtmcu" ∷ ascii "uart" ∷ to_string n ∷ to_string p ∷ ascii "tx" ∷ []
  unfolding uart_port_tx split
  port_split = rw (
    split-digits (to_string n) (to_string p ++ ascii "/tx") (to_string-AllDigits n),
    split_tail p,
  )

  -- Whatever the node `n` and its port `p` below 2^32: what the node sends on the topic of the port
  -- is taken for a UART message from node `p`, on a base that ends with `n`, and the topic made of
  -- that base and a receiving node `m` is the one of port `m` of the sender.
  pub parse_legacy_topic-uart_port_tx :
      p < 2 ^ 32
      → (parse_legacy_topic (uart_port_tx (to_string n) (to_string p))
          ≡ some (Protocol.uart, p, ascii "virtmcu/uart/" ++ to_string n))
        × ((m : Text)
            → path (ascii "virtmcu/uart/" ++ to_string n) m (ascii "/rx")
              ≡ uart_port_rx (to_string n) m)
  unfolding split second_last join uart_port_rx
  parse_legacy_topic-uart_port_tx h = (
    parse_from_parts p h (uart_port_tx (to_string n) (to_string p)) Protocol.uart (ascii "virtmcu")
        (ascii "uart") (to_string n ∷ []) port_protocol port_split refl,
    λ m. refl,
  )

unrecognised : (topic : Text) → topic_protocol topic ≡ none → parse_legacy_topic topic ≡ none
unfolding parse_legacy_topic
unrecognised topic h = rw h (ground arith)

module _ (n : ℕ) where
  chardev_unrecognised : topic_protocol (chardev_tx (to_string n)) ≡ none
  unfolding topic_protocol occurs starts_with chardev_tx
  chardev_unrecognised = rw (
    absent n b'e' (ascii "th") refl,
    absent n b'u' (ascii "art") refl,
    absent n b'c' (ascii "an") refl,
    absent n b'l' (ascii "in") refl,
    absent n b's' (ascii "pi") refl,
    absent n b'r' (ascii "f/hci") refl,
    absent n b'r' (ascii "f") refl,
    absent n b's' (ascii "ystemc") refl,
  )

  netdev_unrecognised : topic_protocol (netdev_tx (to_string n)) ≡ none
  unfolding topic_protocol occurs starts_with netdev_tx
  netdev_unrecognised = rw (
    absent n b'e' (ascii "th") refl,
    absent n b'u' (ascii "art") refl,
    absent n b'c' (ascii "an") refl,
    absent n b'l' (ascii "in") refl,
    absent n b's' (ascii "pi") refl,
    absent n b'r' (ascii "f/hci") refl,
    absent n b'r' (ascii "f") refl,
    absent n b's' (ascii "ystemc") refl,
  )

  -- The coordinator subscribes to the sending topics of character and network devices, but,
  -- whatever the node, it recognises neither, and drops what is sent there.
  parse_legacy_topic_unknown :
      (parse_legacy_topic (chardev_tx (to_string n)) ≡ none)
      × (parse_legacy_topic (netdev_tx (to_string n)) ≡ none)
  parse_legacy_topic_unknown = (
    unrecognised (chardev_tx (to_string n)) chardev_unrecognised,
    unrecognised (netdev_tx (to_string n)) netdev_unrecognised,
  )

-- ===== src/Coordinator/Topics/Parse.antt =====
-- What `parse_legacy_topic` reads from the topics of the templates.
use qenode.Base.{
  ℕ, suc, length-append, ◌^◌, ◌<◌, ◌-◌, ◌≡◌, refl, false, some, List, [], ◌∷◌, ◌++◌, ◌==◌, arith,
  ltb, length, take,
}
use qenode.Base.Bytes.{Text, ascii, starts_with}
use qenode.Base.Decimal.{
  is_digit, AllDigits, to_string, to_string-AllDigits, parse_unsigned-to_string,
}
use qenode.Coordinator.Protocol.{Protocol}
use qenode.Coordinator.Topics.{
  path, eth_rx, eth_tx, uart_rx, uart_tx, sim_uart_rx, sim_uart_tx, can_rx, can_tx, lin_rx, lin_tx,
  rf_ieee802154_rx, rf_ieee802154_tx, rf_hci_rx, rf_hci_tx, occurs, split, join, second_last,
  node_and_base, topic_protocol, parse_legacy_topic,
}

-- Nothing that begins with a letter is found in digits.
pub occurs-digits :
    (c : ℕ) (cs digits rest : Text)
    → is_digit c ≡ false
    → AllDigits digits
    → occurs (c ∷ cs) (digits ++ rest) ≡ occurs (c ∷ cs) rest
unfolding occurs starts_with
occurs-digits c cs [] rest h d = refl
occurs-digits c cs (x ∷ digits) rest h d = ground (arith, occurs-digits c cs digits rest h d.2)

pub split-digits :
    (digits rest : Text) → AllDigits digits → split (digits ++ (b'/' ∷ rest)) ≡ digits ∷ split rest
unfolding split
split-digits [] rest d = refl
split-digits (x ∷ digits) rest d =
    let e : (x == b'/') ≡ false = ground arith in rw (e, split-digits digits rest d.2)

-- A node that sends on `tx` is recognised, and the answer on the same base is `rx`.
abbrev pub Answers : Protocol → Text → (tx rx : Text → Text) → ℕ → Type 0
Answers protocol base tx rx n =
    (parse_legacy_topic (tx (to_string n)) ≡ some (protocol, n, base))
    × ((m : Text) → path base m (ascii "/rx") ≡ rx m)

module _ (n : ℕ) where
  pub absent :
      (c : ℕ) (cs : Text)
      → is_digit c ≡ false
      → occurs (c ∷ cs) (to_string n ++ ascii "/tx") ≡ occurs (c ∷ cs) (ascii "/tx")
  absent c cs e = occurs-digits c cs (to_string n) (ascii "/tx") e (to_string-AllDigits n)

  pub split_tail : split (to_string n ++ ascii "/tx") ≡ to_string n ∷ split (ascii "tx")
  split_tail = split-digits (to_string n) (ascii "tx") (to_string-AllDigits n)

module _ (n : ℕ) (h : n < 2 ^ 32) where
  -- The part of the node is the second last.
  pub parse_from_parts :
      (topic : Text) (protocol : Protocol) (p q : Text) (rest : List Text)
      → topic_protocol topic ≡ some protocol
      → split topic ≡ p ∷ q ∷ (rest ++ (to_string n ∷ ascii "tx" ∷ []))
      → second_last (p ∷ q ∷ (rest ++ (to_string n ∷ ascii "tx" ∷ []))) ≡ some (to_string n)
      → parse_legacy_topic topic
        ≡ some (
          protocol,
          n,
          join (
              take
                (length (p ∷ q ∷ (rest ++ (to_string n ∷ ascii "tx" ∷ []))) - 2)
                (p ∷ q ∷ (rest ++ (to_string n ∷ ascii "tx" ∷ [])))),
        )
  unfolding parse_legacy_topic node_and_base
  parse_from_parts topic protocol p q rest hp hs hl =
      let long : ltb (suc (suc (length (rest ++ (to_string n ∷ ascii "tx" ∷ []))))) 3 ≡ false =
        ground (arith, length-append rest (to_string n ∷ ascii "tx" ∷ [])) in
      rw (hs, long, hp, hl, parse_unsigned-to_string (2 ^ 32) n (ground arith) h)

  eth_tx-Answers : Answers Protocol.ethernet (ascii "sim/eth/frame") eth_tx eth_rx n
  unfolding split topic_protocol occurs starts_with second_last join eth_tx eth_rx
  eth_tx-Answers = (
    parse_from_parts (eth_tx (to_string n)) Protocol.ethernet (ascii "sim") (ascii "eth")
        (ascii "frame" ∷ []) refl (rw (split_tail n)) refl,
    λ m. refl,
  )

  uart_tx-Answers : Answers Protocol.uart (ascii "virtmcu/uart") uart_tx uart_rx n
  unfolding split topic_protocol occurs starts_with second_last join uart_tx uart_rx
  uart_tx-Answers = (
    parse_from_parts (uart_tx (to_string n)) Protocol.uart (ascii "virtmcu") (ascii "uart") []
        (rw (absent n b'e' (ascii "th") refl)) (rw (split_tail n)) refl,
    λ m. refl,
  )

  sim_uart_tx-Answers : Answers Protocol.uart (ascii "sim/uart") sim_uart_tx sim_uart_rx n
  unfolding split topic_protocol occurs starts_with second_last join sim_uart_tx sim_uart_rx
  sim_uart_tx-Answers = (
    parse_from_parts (sim_uart_tx (to_string n)) Protocol.uart (ascii "sim") (ascii "uart") []
        (rw (absent n b'e' (ascii "th") refl)) (rw (split_tail n)) refl,
    λ m. refl,
  )

  can_tx-Answers : Answers Protocol.can_fd (ascii "sim/can") can_tx can_rx n
  unfolding split topic_protocol occurs starts_with second_last join can_tx can_rx
  can_tx-Answers = (
    parse_from_parts (can_tx (to_string n)) Protocol.can_fd (ascii "sim") (ascii "can") []
        (rw (absent n b'e' (ascii "th") refl, absent n b'u' (ascii "art") refl)) (rw (split_tail n))
        refl,
    λ m. refl,
  )

  lin_tx-Answers : Answers Protocol.lin (ascii "sim/lin") lin_tx lin_rx n
  unfolding split topic_protocol occurs starts_with second_last join lin_tx lin_rx
  lin_tx-Answers = (
    parse_from_parts (lin_tx (to_string n)) Protocol.lin (ascii "sim") (ascii "lin") []
        (rw (
          absent n b'e' (ascii "th") refl,
          absent n b'u' (ascii "art") refl,
          absent n b'c' (ascii "an") refl,
        ))
        (rw (split_tail n)) refl,
    λ m. refl,
  )

  rf_hci_tx-Answers : Answers Protocol.rf_hci (ascii "sim/rf/hci") rf_hci_tx rf_hci_rx n
  unfolding split topic_protocol occurs starts_with second_last join rf_hci_tx rf_hci_rx
  rf_hci_tx-Answers = (
    parse_from_parts (rf_hci_tx (to_string n)) Protocol.rf_hci (ascii "sim") (ascii "rf")
        (ascii "hci" ∷ [])
        (rw (
          absent n b'e' (ascii "th") refl,
          absent n b'u' (ascii "art") refl,
          absent n b'c' (ascii "an") refl,
          absent n b'l' (ascii "in") refl,
          absent n b's' (ascii "pi") refl,
        ))
        (rw (split_tail n)) refl,
    λ m. refl,
  )

  rf_ieee802154_tx-Answers :
      Answers Protocol.rf802154 (ascii "sim/rf/ieee802154") rf_ieee802154_tx rf_ieee802154_rx n
  unfolding split topic_protocol occurs starts_with second_last join rf_ieee802154_tx
      rf_ieee802154_rx
  rf_ieee802154_tx-Answers = (
    parse_from_parts (rf_ieee802154_tx (to_string n)) Protocol.rf802154 (ascii "sim") (ascii "rf")
        (ascii "ieee802154" ∷ [])
        (rw (
          absent n b'e' (ascii "th") refl,
          absent n b'u' (ascii "art") refl,
          absent n b'c' (ascii "an") refl,
          absent n b'l' (ascii "in") refl,
          absent n b's' (ascii "pi") refl,
          absent n b'r' (ascii "f/hci") refl,
        ))
        (rw (split_tail n)) refl,
    λ m. refl,
  )

  -- Whatever the node `n` below 2^32: from the topics on which it sends Ethernet, UART (both bases), CAN, LIN,
  -- IEEE 802.15.4 or HCI frames the coordinator reads the protocol, the node and the base, and the
  -- topic made of that base and a receiving node is the one on which that node receives such frames.
  pub parse_legacy_topic-tx :
      Answers Protocol.ethernet (ascii "sim/eth/frame") eth_tx eth_rx n
      × Answers Protocol.uart (ascii "virtmcu/uart") uart_tx uart_rx n
      × Answers Protocol.uart (ascii "sim/uart") sim_uart_tx sim_uart_rx n
      × Answers Protocol.can_fd (ascii "sim/can") can_tx can_rx n
      × Answers Protocol.lin (ascii "sim/lin") lin_tx lin_rx n
      × Answers Protocol.rf802154 (ascii "sim/rf/ieee802154") rf_ieee802154_tx rf_ieee802154_rx n
      × Answers Protocol.rf_hci (ascii "sim/rf/hci") rf_hci_tx rf_hci_rx n
  parse_legacy_topic-tx = (
    eth_tx-Answers, uart_tx-Answers, sim_uart_tx-Answers, can_tx-Answers, lin_tx-Answers,
    rf_ieee802154_tx-Answers, rf_hci_tx-Answers,
  )

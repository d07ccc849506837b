-- ===== src/UnixTransport/Calls.antt =====
-- hw/rust/backbone/transport-unix/src/lib.rs: which callbacks a message calls.
use mathlib.Core.List.{append-nil}
use qenode.Base.{
  ℕ, ◌≡◌, ◌≢◌, refl, ap, ap₂, sym, Bool, true, false, ◌||◌, Bool-cases, inl, inr, if◌then◌else◌,
  ◌∙◌, List, [], ◌∷◌, ◌++◌, arith,
}
use qenode.Base.Bytes.{Text, starts_with}
use qenode.Base.Maps.{same, same_iff}
use qenode.Base.Order.{nat_ord, list_ord}
use qenode.UnixTransport.{dispatch}

-- The calls that one message makes: in the order of the subscriptions, one for each whose topic is a
-- prefix of the message's, and none for the others
pub data Called (topic : Text) (payload : List ℕ)
    : List (Text × ℕ) → List (ℕ × List ℕ) → Type 0 where
  done : Called topic payload [] []
  called :
      {sub : Text} {callback : ℕ} {subs : List (Text × ℕ)} {calls : List (ℕ × List ℕ)}
      → (rest : Text) → topic ≡ sub ++ rest
      → Called topic payload subs calls
      → Called topic payload ((sub, callback) ∷ subs) ((callback, payload) ∷ calls)
  passed :
      {sub : Text} {callback : ℕ} {subs : List (Text × ℕ)} {calls : List (ℕ × List ℕ)}
      → ((rest : Text) → topic ≢ sub ++ rest)
      → Called topic payload subs calls
      → Called topic payload ((sub, callback) ∷ subs) calls

-- The calls that messages make, those of each before those of the next
pub data AllCalled (subs : List (Text × ℕ))
    : List (Text × List ℕ) → List (ℕ × List ℕ) → Type 0 where
  done : AllCalled subs [] []
  next :
      {topic : Text} {payload : List ℕ} {ms : List (Text × List ℕ)}
      → (calls later : List (ℕ × List ℕ)) → Called topic payload subs calls
      → AllCalled subs ms later
      → AllCalled subs ((topic, payload) ∷ ms) (calls ++ later)

starts_with-append : (sub rest : Text) → starts_with sub (sub ++ rest) ≡ true
unfolding starts_with
starts_with-append [] rest = refl
starts_with-append (c ∷ cs) rest = ground (arith, starts_with-append cs rest)

starts_with-rest :
    (sub text : Text) → starts_with sub text ≡ true → (rest : Text) × (text ≡ sub ++ rest)
unfolding starts_with
starts_with-rest [] text h = (text, refl)
starts_with-rest (c ∷ cs) [] h = absurd (ground (arith, h))
starts_with-rest (c ∷ cs) (d ∷ ds) h =
    let e : c ≡ d = ground (arith, h) in
    let (rest, f) = starts_with-rest cs ds (ground (arith, h)) in (rest, ap₂ ◌∷◌ (sym e) f)

-- The first test of the code is a case of the second.
matches : (sub topic : Text) → Bool
matches sub topic = same ⦃o = list_ord nat_ord⦄ sub topic || starts_with sub topic

matches-starts_with : (sub topic : Text) → matches sub topic ≡ starts_with sub topic
unfolding matches
matches-starts_with sub topic = elim (Bool-cases (same ⦃o = list_ord nat_ord⦄ sub topic)) [
  | inl e ↦
      let equal : sub ≡ topic = (same_iff ⦃o = list_ord nat_ord⦄ sub topic).0 e in
      rw e
        (sym (ap (starts_with sub) (sym equal ∙ sym (append-nil sub)) ∙ starts_with-append sub []))
  | inr e ↦ rw e
]

dispatch-Called-at :
    (sub topic : Text) (callback : ℕ) (subs : List (Text × ℕ)) (payload : List ℕ) (b : Bool)
    → starts_with sub topic ≡ b
    → Called topic payload subs (dispatch subs (topic, payload))
    → Called topic payload ((sub, callback) ∷ subs) (
        if b
        then (callback, payload) ∷ dispatch subs (topic, payload)
        else dispatch subs (topic, payload))
dispatch-Called-at sub topic callback subs payload true e h =
    called (starts_with-rest sub topic e).0 (starts_with-rest sub topic e).1 h
dispatch-Called-at sub topic callback subs payload false e h =
    passed
      (λ rest f.
        let contrary : false ≡ true =
          sym e ∙ ap (starts_with sub) f ∙ starts_with-append sub rest in
        absurd (ground (arith, contrary)))
      h

pub dispatch-Called :
    (subs : List (Text × ℕ)) (topic : Text) (payload : List ℕ)
    → Called topic payload subs (dispatch subs (topic, payload))
unfolding dispatch matches
dispatch-Called [] topic payload = Called.done
dispatch-Called ((sub, callback) ∷ subs) topic payload = rw (matches-starts_with sub topic) (
    dispatch-Called-at sub topic callback subs payload (starts_with sub topic) refl
      (dispatch-Called subs topic payload))

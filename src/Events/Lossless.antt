-- ===== src/Events/Lossless.antt =====
-- Runs of the bus of openvtld/internal/events/bus.go in which a subscriber's buffer has room.
use open_vtl.Prelude.{
  ◌⊎◌, ==_iff, ℕ, ◌+◌, ◌≤◌, ◌≡◌, refl, sym, ap, ◌∙◌, subst, Bool, true, false, ◌&&◌, inl, inr,
  Bool-cases, some, List, [], ◌∷◌, ◌++◌, append_assoc, append-nil, length, length-append, arith,
  ltb, lt→ltb, ◌==◌, not, false_is_not_true, if◌then◌else◌,
}
use open_vtl.Events.{
  Event, Channel, Bus, capacity, subscribe, closed, unsubscribe, offer, publish, channel, taken,
  receive, first, rest, first_of, Op, op_subscribe, op_publish, op_receive, op_unsubscribe,
  received, published,
}
use open_vtl.Events.Delivery.{
  closed-id, closed-buffer, find-map, find-append, found-id, taken-id, offer-id, taken-buffer,
  same_test,
}

module _ (Data : Type 0) where
  -- The run never ends the subscription of a channel.
  unfoldable pub stays : ℕ → List (Op Data) → Bool
  stays id [] = true
  stays id (op_unsubscribe j ∷ ops) = not (j == id) && stays id ops
  stays id (op_subscribe ∷ ops) = stays id ops
  stays id (op_publish ev ∷ ops) = stays id ops
  stays id (op_receive j ∷ ops) = stays id ops

  -- A channel that is subscribed and holds `buffer`.
  pub record IsHolding (id : ℕ) (b : Bus Data) (buffer : List (Event Data)) : Type 0 where
    pub at : Channel Data
    pub found : channel Data id b ≡ some at
    pub is_subscribed : at.subscribed ≡ true
    pub holds : at.buffer ≡ buffer

  -- The events so far and those still in the buffer are all there are.
  unfoldable pub IsComplete : ℕ → List (Event Data) × Bus Data → List (Event Data) → Type 0
  IsComplete id r all =
      (ch : Channel Data) × (channel Data id r.1 ≡ some ch) × (r.0 ++ ch.buffer ≡ all)

  both_true : (a b : Bool) → (a && b) ≡ true → (a ≡ true) × (b ≡ true)
  both_true true b h = (refl, h)
  both_true false b h = false_is_not_true h

  true_of_not : (a : Bool) → not a ≡ true → a ≡ false
  true_of_not false h = refl
  true_of_not true h = false_is_not_true h

  subscribe-IsHolding :
      (id : ℕ) (b : Bus Data) (buffer : List (Event Data))
      → IsHolding id b buffer
      → IsHolding id (subscribe Data b).1 buffer
  unfolding subscribe channel
  subscribe-IsHolding id b buffer k = record {
    at = k.at;
    found = find-append Data id b.channels _ k.found;
    is_subscribed = k.is_subscribed;
    holds = k.holds;
  }

  publish-IsHolding :
      (id : ℕ) (ev : Event Data) (b : Bus Data) (buffer : List (Event Data))
      → length buffer + 1 ≤ capacity Data
      → IsHolding id b buffer
      → IsHolding id (publish Data ev b) (buffer ++ ev ∷ [])
  unfolding publish channel offer
  publish-IsHolding id ev b buffer room k =
      let bound : length k.at.buffer + 1 ≤ capacity Data =
        subst (λ (es : List (Event Data)). length es + 1 ≤ capacity Data) (sym k.holds) room in
      let free : ltb (length k.at.buffer) (capacity Data) ≡ true =
        lt→ltb (length k.at.buffer) (capacity Data) (omega (arith, bound)) in
      let sends : (k.at.subscribed && ltb (length k.at.buffer) (capacity Data)) ≡ true =
        rw (k.is_subscribed, free) in
      record {
        at = offer Data ev k.at;
        found = find-map Data id (offer Data ev) (offer-id Data ev) b.channels k.found;
        is_subscribed = rw sends k.is_subscribed;
        holds = rw sends (ap (λ es. es ++ ev ∷ []) k.holds);
      }

  unsubscribe-IsHolding :
      (id j : ℕ) (b : Bus Data) (buffer : List (Event Data))
      → (j == id) ≡ false
      → IsHolding id b buffer
      → IsHolding id (unsubscribe Data j b) buffer
  unfolding unsubscribe channel
  unsubscribe-IsHolding id j b buffer other k =
      let differs : (k.at.id == j) ≡ false =
        same_test Data k.at.id j id false (found-id Data id b.channels k.found) other in
      record {
        at = closed Data j k.at;
        found = find-map Data id (closed Data j) (closed-id Data j) b.channels k.found;
        is_subscribed = rw differs k.is_subscribed;
        holds = closed-buffer Data j k.at ∙ k.holds;
      }

  receive-IsHolding :
      (id j : ℕ) (b : Bus Data) (buffer : List (Event Data))
      → IsHolding id b buffer
      → IsHolding id (receive Data j b).1 (if j == id then rest Data buffer else buffer)
  unfolding receive channel
  receive-IsHolding id j b buffer k =
      let same : (k.at.id == j) ≡ (j == id) =
        same_test Data k.at.id j id (j == id) (found-id Data id b.channels k.found) refl in
      record {
        at = taken Data j k.at;
        found = find-map Data id (taken Data j) (taken-id Data j) b.channels k.found;
        is_subscribed = still (k.at.id == j);
        holds =
            taken-buffer Data j k.at
            ∙ ap (λ t. if t then rest Data k.at.buffer else k.at.buffer) same
            ∙ ap (λ es. if j == id then rest Data es else es) k.holds;
      }
    where
      still :
          (t : Bool)
          → (if t then record k.at { buffer = rest Data k.at.buffer } else k.at).subscribed ≡ true
      still true = k.is_subscribed
      still false = k.is_subscribed

  IsComplete-receive :
      (id j : ℕ) (b : Bus Data) (buffer more : List (Event Data)) (r : List (Event Data) × Bus Data)
      → IsHolding id b buffer
      → IsComplete id r ((if j == id then rest Data buffer else buffer) ++ more)
      → IsComplete id
          ((if j == id then first_of Data (channel Data j b) else []) ++ r.0, r.1)
          (buffer ++ more)
  unfolding IsComplete
  IsComplete-receive id j b buffer more r k (ch, found, all) =
      (ch, found, go (Bool-cases (j == id)))
    where
      front :
          (es : List (Event Data))
          → r.0 ++ ch.buffer ≡ rest Data es ++ more
          → (first Data es ++ r.0) ++ ch.buffer ≡ es ++ more
      front [] h = h
      front (e ∷ es) h = ap (◌∷◌ e) h

      go :
          ((j == id) ≡ true) ⊎ ((j == id) ≡ false)
          → ((if j == id then first_of Data (channel Data j b) else []) ++ r.0) ++ ch.buffer
            ≡ buffer ++ more
      go (inl hit) =
          let here : channel Data j b ≡ some k.at =
            ap (λ i. channel Data i b) ((==_iff j id).0 hit) ∙ k.found in
          let left : r.0 ++ ch.buffer ≡ rest Data buffer ++ more =
            all ∙ ap (λ t. (if t then rest Data buffer else buffer) ++ more) hit in
          ap (λ t. ((if t then first_of Data (channel Data j b) else []) ++ r.0) ++ ch.buffer) hit
          ∙ ap (λ o. (first_of Data o ++ r.0) ++ ch.buffer) here
          ∙ ap (λ es. (first Data es ++ r.0) ++ ch.buffer) k.holds
          ∙ front buffer left
      go (inr miss) =
          ap (λ t. ((if t then first_of Data (channel Data j b) else []) ++ r.0) ++ ch.buffer) miss
          ∙ all
          ∙ ap (λ t. (if t then rest Data buffer else buffer) ++ more) miss

  -- A subscriber that stays subscribed, on a run with which its buffer and the events published fit in
  -- the capacity, receives all of them in order, but for those that its buffer still holds at the end.
  pub received-IsComplete :
      (id : ℕ) (ops : List (Op Data)) (b : Bus Data) (buffer : List (Event Data))
      → IsHolding id b buffer
      → stays id ops ≡ true
      → length buffer + length (published Data ops) ≤ capacity Data
      → IsComplete id (received Data id ops b) (buffer ++ published Data ops)
  unfolding received published stays IsComplete receive channel
  received-IsComplete id [] b buffer k s fits = (k.at, k.found, k.holds ∙ sym (append-nil buffer))
  received-IsComplete id (op_subscribe ∷ ops) b buffer k s fits =
      received-IsComplete id ops (subscribe Data b).1 buffer (subscribe-IsHolding id b buffer k) s
        fits
  received-IsComplete id (op_publish ev ∷ ops) b buffer k s fits =
      subst (IsComplete id (received Data id ops (publish Data ev b)))
        (append_assoc buffer (ev ∷ []) (published Data ops))
        (received-IsComplete id ops (publish Data ev b) (buffer ++ ev ∷ [])
          (publish-IsHolding id ev b buffer (omega (arith, fits)) k) s
          (omega (arith, fits, length-append buffer (ev ∷ []))))
  received-IsComplete id (op_unsubscribe j ∷ ops) b buffer k s fits =
      let both = both_true (not (j == id)) (stays id ops) s in
      received-IsComplete id ops (unsubscribe Data j b) buffer
        (unsubscribe-IsHolding id j b buffer (true_of_not (j == id) both.0) k) both.1 fits
  received-IsComplete id (op_receive j ∷ ops) b buffer k s fits =
      IsComplete-receive id j b buffer (published Data ops)
        (received Data id ops (receive Data j b).1) k
        (received-IsComplete id ops (receive Data j b).1
          (if j == id then rest Data buffer else buffer) (receive-IsHolding id j b buffer k) s
          (omega (arith, fits, shorter (j == id) buffer)))
    where
      drops : (es : List (Event Data)) → length (rest Data es) ≤ length es
      drops [] = omega arith
      drops (e ∷ es) = omega arith

      shorter :
          (t : Bool) (es : List (Event Data)) → length (if t then rest Data es else es) ≤ length es
      shorter true es = drops es
      shorter false es = omega arith

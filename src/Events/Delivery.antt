-- ===== src/Events/Delivery.antt =====
-- What a subscriber of the bus of openvtld/internal/events/bus.go gets.
use open_vtl.Prelude.{
  ℕ, ◌≡◌, sym, ap, ◌∙◌, subst, Bool, true, false, ◌&&◌, inl, inr, Bool-cases, some, List, [], ◌∷◌,
  ◌++◌, append_assoc, map, length, arith, ltb, ◌==◌, ==_iff, if◌then◌else◌, find,
}
use open_vtl.Events.{
  rest, first, first_of, Event, Channel, Bus, capacity, subscribe, closed, unsubscribe, offer,
  publish, has_channel_id, channel, taken, receive, Op, op_subscribe, op_publish, op_receive,
  op_unsubscribe, received, published,
}

-- The first list is the second with some entries left out.
pub data Sub {A : Type 0} : List A → List A → Type 0 where
  sub_nil : {ys : List A} → Sub [] ys
  sub_keep : {x : A} {xs ys : List A} → Sub xs ys → Sub (x ∷ xs) (x ∷ ys)
  sub_drop : {y : A} {xs ys : List A} → Sub xs ys → Sub xs (y ∷ ys)

Sub-refl : {A : Type 0} (xs : List A) → Sub xs xs
Sub-refl [] = sub_nil
Sub-refl (x ∷ xs) = sub_keep (Sub-refl xs)

-- One entry fewer in the middle.
Sub-skip :
    {A : Type 0} (xs : List A) (y : A) (ys zs : List A) → Sub zs (xs ++ ys) → Sub zs (xs ++ y ∷ ys)
Sub-skip [] y ys zs s = sub_drop s
Sub-skip (x ∷ xs) y ys [] s = sub_nil
Sub-skip (x ∷ xs) y ys (z ∷ zs) (sub_keep s) = sub_keep (Sub-skip xs y ys zs s)
Sub-skip (x ∷ xs) y ys (z ∷ zs) (sub_drop s) = sub_drop (Sub-skip xs y ys (z ∷ zs) s)

module _ (Data : Type 0) where
  some_inj : {a b : Channel Data} → some a ≡ some b → a ≡ b
  some_inj e = cc

  -- A change of channels that keeps the ids changes the channel that is found.
  pub find-map :
      (id : ℕ) (change : Channel Data → Channel Data)
      → ((ch : Channel Data) → (change ch).id ≡ ch.id)
      → (chs : List (Channel Data)) {ch : Channel Data}
      → find (has_channel_id Data id) chs ≡ some ch
      → find (has_channel_id Data id) (map change chs) ≡ some (change ch)
  unfolding find
  find-map id change same [] e = cc
  find-map id change same (d ∷ chs) {ch = ch} e =
      let test : ((change d).id == id) ≡ (d.id == id) = ap (λ n. n == id) (same d) in
      elim (Bool-cases (d.id == id)) [
        | inl hit ↦
            let found : d ≡ ch = some_inj (sym (rw hit) ∙ e) in
            let test : ((change d).id == id) ≡ true = test ∙ hit in
            rw test (ap (λ c. some (change c)) found)
        | inr miss ↦
            let test : ((change d).id == id) ≡ false = test ∙ miss in
            rw test (find-map id change same chs (sym (rw miss) ∙ e))
      ]

  pub found-id :
      (id : ℕ) (chs : List (Channel Data)) {ch : Channel Data}
      → find (has_channel_id Data id) chs ≡ some ch
      → ch.id ≡ id
  unfolding find
  found-id id [] e = cc
  found-id id (d ∷ chs) {ch = ch} e = elim (Bool-cases (d.id == id)) [
    | inl hit ↦
        let found : d ≡ ch = some_inj (sym (rw hit) ∙ e) in
        ap (λ (c : Channel Data). c.id) (sym found) ∙ (==_iff d.id id).0 hit
    | inr miss ↦ found-id id chs (sym (rw miss) ∙ e)
  ]

  pub find-append :
      (id : ℕ) (chs : List (Channel Data)) (d : Channel Data) {ch : Channel Data}
      → find (has_channel_id Data id) chs ≡ some ch
      → find (has_channel_id Data id) (chs ++ d ∷ []) ≡ some ch
  unfolding find
  find-append id [] d e = cc
  find-append id (c ∷ chs) d e = elim (Bool-cases (c.id == id)) [
    | inl hit ↦ rw hit (sym (rw hit) ∙ e)
    | inr miss ↦ rw miss (find-append id chs d (sym (rw miss) ∙ e))
  ]

  pub closed-id : (j : ℕ) (ch : Channel Data) → (closed Data j ch).id ≡ ch.id
  closed-id j ch = elim (Bool-cases (ch.id == j)) [ inl h ↦ rw h | inr h ↦ rw h ]

  pub closed-buffer : (j : ℕ) (ch : Channel Data) → (closed Data j ch).buffer ≡ ch.buffer
  closed-buffer j ch = elim (Bool-cases (ch.id == j)) [ inl h ↦ rw h | inr h ↦ rw h ]

  pub taken-id : (j : ℕ) (ch : Channel Data) → (taken Data j ch).id ≡ ch.id
  taken-id j ch = elim (Bool-cases (ch.id == j)) [ inl h ↦ rw h | inr h ↦ rw h ]

  pub offer-id : (ev : Event Data) (ch : Channel Data) → (offer Data ev ch).id ≡ ch.id
  unfolding offer
  offer-id ev ch = elim (Bool-cases (ch.subscribed && ltb (length ch.buffer) (capacity Data))) [
    | inl h ↦ rw h
    | inr h ↦ rw h
  ]

  -- An offered event is at the end of the buffer, or lost.
  offer-buffer :
      (ev : Event Data) (ch : Channel Data) (more got : List (Event Data))
      → Sub got ((offer Data ev ch).buffer ++ more)
      → Sub got (ch.buffer ++ ev ∷ more)
  unfolding offer
  offer-buffer ev ch more got s = go (ch.subscribed && ltb (length ch.buffer) (capacity Data)) s
    where
      go :
          (taken : Bool)
          → Sub got
              ((if taken then record ch { buffer = ch.buffer ++ ev ∷ [] } else ch).buffer ++ more)
          → Sub got (ch.buffer ++ ev ∷ more)
      go true s = subst (Sub got) (append_assoc ch.buffer (ev ∷ []) more) s
      go false s = Sub-skip ch.buffer ev more got s

  front :
      (buffer more later : List (Event Data))
      → Sub later (rest Data buffer ++ more)
      → Sub (first Data buffer ++ later) (buffer ++ more)
  front [] more later s = s
  front (e ∷ buffer) more later s = sub_keep s

  pub taken-buffer :
      (j : ℕ) (ch : Channel Data)
      → (taken Data j ch).buffer ≡ (if ch.id == j then rest Data ch.buffer else ch.buffer)
  taken-buffer j ch = elim (Bool-cases (ch.id == j)) [ inl h ↦ rw h | inr h ↦ rw h ]

  pub same_test : (a j id : ℕ) (t : Bool) → a ≡ id → (j == id) ≡ t → (a == j) ≡ t
  same_test a j id t h e = grind arith

  -- A receive on this channel takes the front of its buffer, on another it takes nothing.
  receive-buffer :
      (j id : ℕ) (b : Bus Data) (ch : Channel Data) (more later : List (Event Data))
      → channel Data id b ≡ some ch
      → ch.id ≡ id
      → Sub later ((taken Data j ch).buffer ++ more)
      → Sub
          ((if j == id then first_of Data (channel Data j b) else []) ++ later)
          (ch.buffer ++ more)
  receive-buffer j id b ch more later found is_id s = elim (Bool-cases (j == id)) [
    | inl hit ↦
        let here : channel Data j b ≡ some ch =
          ap (λ i. channel Data i b) ((==_iff j id).0 hit) ∙ found in
        let left : (taken Data j ch).buffer ≡ rest Data ch.buffer =
          taken-buffer j ch ∙ rw (same_test ch.id j id true is_id hit) in
        rw (hit, here)
          (front ch.buffer more later (subst (λ buffer. Sub later (buffer ++ more)) left s))
    | inr miss ↦
        let left : (taken Data j ch).buffer ≡ ch.buffer =
          taken-buffer j ch ∙ rw (same_test ch.id j id false is_id miss) in
        rw miss (subst (λ buffer. Sub later (buffer ++ more)) left s)
  ]

  -- What a subscriber receives during a run is what its buffer held and what is then published, in that
  -- order, with some events left out.
  pub received-Sub :
      (id : ℕ) (ops : List (Op Data)) (b : Bus Data) {ch : Channel Data}
      → channel Data id b ≡ some ch
      → Sub (received Data id ops b).0 (ch.buffer ++ published Data ops)
  unfolding received published channel subscribe publish unsubscribe receive
  received-Sub id [] b e = sub_nil
  received-Sub id (op_subscribe ∷ ops) b e =
      received-Sub id ops (subscribe Data b).1 (find-append id b.channels _ e)
  received-Sub id (op_publish ev ∷ ops) b {ch = ch} e = offer-buffer ev ch (published Data ops) _ (
      received-Sub id ops (publish Data ev b)
        (find-map id (offer Data ev) (offer-id ev) b.channels e))
  received-Sub id (op_unsubscribe j ∷ ops) b {ch = ch} e =
      subst
        (λ buffer.
          Sub (received Data id ops (unsubscribe Data j b)).0 (buffer ++ published Data ops))
        (closed-buffer j ch)
        (received-Sub id ops (unsubscribe Data j b)
          (find-map id (closed Data j) (closed-id j) b.channels e))
  received-Sub id (op_receive j ∷ ops) b {ch = ch} e =
      receive-buffer j id b ch (published Data ops) _ e (found-id id b.channels e) (
        received-Sub id ops (receive Data j b).1
          (find-map id (taken Data j) (taken-id j) b.channels e))

-- ===== src/Orchestrate/Apply/Polled.antt =====
-- The loops of ApplyLibraries and WaitDiscovery in openvtld/internal/orchestrate that poll for 45 seconds.
use open_vtl.Prelude.{
  ℕ, zero, suc, ◌+◌, ◌*◌, ◌≤◌, ◌<◌, ◌≡◌, refl, Bool, true, false, arith, ltb, Bool-cases, inl, inr,
}
use open_vtl.Store.{Env}
use open_vtl.Orchestrate.{Plant}
use open_vtl.Orchestrate.Apply.{
  End, ready, expired, context_ended, out_of_rounds, after_pause, unless_late, poll, poll_45s,
}

abbrev pub two_seconds : ℕ
two_seconds = 2000000000

abbrev pub seconds_45 : ℕ
seconds_45 = 45000000000

module _ (env : Env) where
  open env use {World, time_now}

  -- The clock does not go back, and a wait that is not cut short takes two seconds.
  pub record IsTicking (plant : Plant env) : Type 0 where
    pub forward : (w : World) → (time_now w).0 ≤ (time_now (time_now w).1).0
    pub waits :
        (w w' : World)
        → plant.wait (time_now w).1 ≡ (false, w')
        → (time_now w).0 + two_seconds ≤ (time_now w').0

  module _ (plant : Plant env) {A : Type 0} (ask : World → A) (enough : A → Bool) where
    -- The clock showed a time after the deadline, when what was found was not enough.
    pub record IsLate (deadline : ℕ) (found : A) (w' : World) : Type 0 where
      pub before : World
      pub asked : found ≡ ask before
      pub more : enough found ≡ false
      pub late : deadline < (time_now before).0
      pub after : w' ≡ (time_now before).1

    -- A wait was cut short, when what was found was not enough.
    pub record IsCut (deadline : ℕ) (found : A) (w' : World) : Type 0 where
      pub before : World
      pub asked : found ≡ ask before
      pub more : enough found ≡ false
      pub on_time : (time_now before).0 ≤ deadline
      pub cut : plant.wait (time_now before).1 ≡ (true, w')

    -- How a poll may end: with what is enough, or without it as the deadline or the context ended it.
    abbrev pub IsEnd : ℕ → (A × End) × World → Type 0
    IsEnd deadline ((found, ready), w') = (found ≡ ask w') × (enough found ≡ true)
    IsEnd deadline ((found, expired), w') = IsLate deadline found w'
    IsEnd deadline ((found, context_ended), w') = IsCut deadline found w'
    IsEnd deadline ((found, out_of_rounds), w') = ⊥

  module _ (plant : Plant env) (ticking : IsTicking plant) {A : Type 0} (ask : World → A)
      (enough : A → Bool) where
    abbrev rounds_of : ℕ → ℕ → World → (A × End) × World
    rounds_of deadline rounds = poll env ask enough plant.wait deadline rounds

    abbrev Ends : ℕ → (A × End) × World → Type 0
    Ends = IsEnd plant ask enough

    paused-IsEnd :
        (deadline : ℕ) (w : World) (again : World → (A × End) × World) (r : Bool × World)
        → plant.wait (time_now w).1 ≡ r
        → enough (ask w) ≡ false
        → (time_now w).0 ≤ deadline
        → ((w' : World) → plant.wait (time_now w).1 ≡ (false, w') → Ends deadline (again w'))
        → Ends deadline (after_pause env (ask w) again r)
    paused-IsEnd deadline w again (true, w') e more on_time next = record {
      before = w;
      asked = refl;
      more = more;
      on_time = on_time;
      cut = e;
    }
    paused-IsEnd deadline w again (false, w') e more on_time next = next w' e

    late-IsEnd :
        (deadline : ℕ) (w : World) (again : World → (A × End) × World) (r : ℕ × World)
        → time_now w ≡ r
        → enough (ask w) ≡ false
        → ((time_now w).0 ≤ deadline
            → (w' : World) → plant.wait (time_now w).1 ≡ (false, w')
            → Ends deadline (again w'))
        → Ends deadline (unless_late env (ask w) deadline plant.wait again (time_now w))
    late-IsEnd deadline w again r e more next = elim (Bool-cases (ltb deadline (time_now w).0)) [
      | inl over ↦ rw over (record {
        before = w;
        asked = refl;
        more = more;
        late = ground (arith, over);
        after = refl;
      })
      | inr time_left ↦ rw time_left (
          paused-IsEnd deadline w again (plant.wait (time_now w).1) refl more
            (ground (arith, time_left)) (next (ground (arith, time_left))))
    ]

    round-IsEnd :
        (deadline rounds : ℕ) (w : World)
        → ((time_now w).0 ≤ deadline
            → (w' : World) → plant.wait (time_now w).1 ≡ (false, w')
            → Ends deadline (rounds_of deadline rounds w'))
        → Ends deadline (rounds_of deadline (suc rounds) w)
    unfolding poll
    round-IsEnd deadline rounds w next = elim (Bool-cases (enough (ask w))) [
      | inl done ↦ rw done (refl, done)
      | inr more ↦ rw more (late-IsEnd deadline w _ (time_now w) refl more next)
    ]

    poll-IsEnd :
        (deadline rounds : ℕ) (w : World)
        → deadline + two_seconds < (time_now w).0 + suc rounds * two_seconds
        → Ends deadline (rounds_of deadline (suc rounds) w)
    poll-IsEnd deadline zero w room =
        round-IsEnd deadline zero w (λ on_time w' e. absurd (omega arith))
    poll-IsEnd deadline (suc rounds) w room =
        round-IsEnd deadline (suc rounds) w
          (λ on_time w' e. poll-IsEnd deadline rounds w' (omega (arith, ticking.waits w w' e)))

    -- On a clock that does not go back and with waits of two seconds, a poll of 45 seconds never runs out
    -- of its 24 rounds. It ends with something that is enough, or without it: once the clock shows more than
    -- 45 seconds from the start, or when the context ends in a wait before that.
    pub poll_45s-IsEnd :
        (w : World)
        → IsEnd plant ask enough ((time_now w).0 + seconds_45) (poll_45s env plant ask enough w)
    unfolding poll_45s
    poll_45s-IsEnd w =
        poll-IsEnd ((time_now w).0 + 45000000000) 23 (time_now w).1
          (omega (arith, ticking.forward w))

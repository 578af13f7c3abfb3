-- ===== src/Follow/Ends.antt =====
-- The follower's loop ends (crates/te_core/src/mirror.rs, `follow_loop`).
use trade_engine.Base.{
  ℕ, zero, suc, ◌-◌, ◌≤◌, ◌<◌, ◌≡◌, refl, sym, ap, ◌∙◌, Bool, true, false, not, ◌&&◌, ◌||◌, Option,
  none, some, String, arith, ◌≢◌, if◌then◌else◌,
}
use native.Mathlib.Decide.{dec_lt}
use trade_engine.Follow.{
  FollowHost, FollowPlan, Following, Turn, stop, again, starting, follow_turn, session,
  collect_wait, collected, finish, follow_loop,
}
use trade_engine.Follow.Turns.{OfTurn, follow_turn_keeps}

-- The sleeps that are left until the clock is past both the send window and the collect: each
-- sleep takes one off, nothing puts one back, and with none left the clock shows it.
pub record ClockRuns {S T : Type 0} (h : FollowHost S T) (plan : FollowPlan T) (left : S → ℕ)
    : Type 0 where
  pub by_log : (line : String) (s : S) → left (h.log line s) ≤ left s
  pub by_now : (s : S) → left (h.now_local_seconds s).1 ≤ left s
  pub by_probe : (s : S) → left (h.probe s).1 ≤ left s
  pub by_cycle : (s : S) → left (h.cycle s).1 ≤ left s
  pub by_sleep : (s : S) → left (h.sleep plan.interval_seconds s) ≤ left s - 1
  pub past_close : (s : S) → left s ≡ 0 → h.ge (h.now_local_seconds s).0 plan.send_close ≡ true
  pub past_collect : (s : S) → left s ≡ 0 → h.lt (h.now_local_seconds s).0 plan.collect_at ≡ false

module _ {S T : Type 0} (h : FollowHost S T) (plan : FollowPlan T) (left : S → ℕ)
    (runs : ClockRuns h plan left) where
  -- The loop ended, with no more sleeps left than there were.
  abbrev Ended : ℕ → Option (Following S) → Type 0
  Ended k o = (g : Following S) × ((o ≡ some g) × (left g.host ≤ k))

  turn_left : (f : Following S) → OfTurn (λ s. left s ≤ left f.host) (follow_turn h plan f)
  turn_left f =
      let k = left f.host in
      follow_turn_keeps h plan (λ s. left s ≤ k) (λ line s q. omega (arith, runs.by_log line s))
        (λ s q. omega (arith, runs.by_now s)) (λ s q. omega (arith, runs.by_probe s))
        (λ s m q. omega (arith, runs.by_cycle s)) f (omega arith)

  -- With no sleep left the turn stops, since the send window is over.
  turn_goes_on : (f g : Following S) → follow_turn h plan f ≡ again g → 0 < left f.host
  unfolding follow_turn
  turn_goes_on f g e = elim (dec_lt 0 (left f.host)) [
    | yes p ↦ p
    | no p ↦
        let over = runs.past_close f.host (omega arith) in
        let stopped : follow_turn h plan f
            ≡ stop (record f { host = (h.now_local_seconds f.host).1 }) =
          rw over refl in
        absurd (stop≢again (sym stopped ∙ e))
  ]
    where
      stop≢again : {x y : Following S} → stop x ≢ again y
      stop≢again e = cc

  session-ends :
      (fuel : ℕ) (f : Following S)
      → left f.host < fuel
      → Ended (left f.host) (session h plan fuel f)
  unfolding session
  session-ends zero f q = absurd (omega (arith, q))
  session-ends (suc n) f q = turned (session-ends n) (follow_turn h plan f) refl (turn_left f)
    where
      slept : Following S → Following S
      slept g = record g { host = h.sleep plan.interval_seconds g.host }

      Rest : Type 0
      Rest = (g : Following S) → left g.host < n → Ended (left g.host) (session h plan n g)

      next :
          Rest
          → (once : Bool) (g : Following S) → left g.host ≤ left f.host
          → 0 < left f.host
          → Ended (left f.host) (elim once [ true ↦ some g | false ↦ session h plan n (slept g) ])
      next rest true g p more = (g, (refl, p))
      next rest false g p more =
          let down = runs.by_sleep g.host in
          let (last, (done, low)) = rest (slept g) (omega (arith, down, p, more, q)) in
          (last, (done, omega (arith, down, p, low)))

      turned :
          Rest
          → (t : Turn S) → follow_turn h plan f ≡ t
          → OfTurn (λ s. left s ≤ left f.host) t
          → Ended (left f.host) (elim t [
            | stop g ↦ some g
            | again g ↦ elim plan.once [ true ↦ some g | false ↦ session h plan n (slept g) ]
          ])
      turned rest (stop g) e p = (g, (refl, p))
      turned rest (again g) e p = next rest plan.once g p (turn_goes_on f g e)

  collect_wait-ends :
      (fuel : ℕ) (so_far : Bool) (s : S)
      → left s < fuel
      → (t : S) × (collect_wait h plan fuel so_far s ≡ some t)
  unfolding collect_wait
  collect_wait-ends fuel false s q = (s, refl)
  collect_wait-ends zero true s q = absurd (omega (arith, q))
  collect_wait-ends (suc n) true s q =
      go (collect_wait-ends n true) (h.lt (h.now_local_seconds s).0 plan.collect_at) refl
    where
      now : S
      now = (h.now_local_seconds s).1

      go :
          ((t : S) → left t < n → (u : S) × (collect_wait h plan n true t ≡ some u))
          → (early : Bool) → h.lt (h.now_local_seconds s).0 plan.collect_at ≡ early
          → (u : S) × ((elim early [
            | false ↦ some now
            | true ↦ collect_wait h plan n true (h.sleep plan.interval_seconds now)
          ])
              ≡ some u)
      go rest false e = (now, refl)
      go rest true e = elim (dec_lt 0 (left s)) [
        | yes p ↦
            rest (h.sleep plan.interval_seconds now)
              (omega (arith, runs.by_sleep now, runs.by_now s, p, q))
        | no p ↦ let late = runs.past_collect s (omega arith) in cc
      ]

  finish-ends :
      (fuel : ℕ) (f : Following S)
      → left f.host < fuel
      → (r : Bool × S) × (finish h plan fuel f ≡ some r)
  unfolding finish
  finish-ends fuel f q =
      let (s, e) = collect_wait-ends fuel f.ok f.host q in
      let after : Option S → Option (Bool × S) =
        λ o. elim o [ none ↦ none | some t ↦ some (collected h plan f.ok (h.collect t)) ] in
      (collected h plan f.ok (h.collect s), ap after e)

  -- On a host where a count of sleeps goes down with each sleep, goes up with nothing, and at
  -- zero has the clock past both the send window's close and the time to collect, the follower
  -- returns an outcome whenever its fuel is above the count at the start.
  pub follow_loop-ends :
      (fuel : ℕ) (s : S) → left s < fuel → (r : Bool × S) × (follow_loop h plan fuel s ≡ some r)
  unfolding follow_loop
  follow_loop-ends fuel s q =
      let (f, (e, low)) = session-ends fuel (starting s) q in
      let (r, done) =
        over (plan.once || (not f.cycled && plan.once)) f
          (finish-ends fuel f (omega (arith, low, q))) in
      let after : Option (Following S) → Option (Bool × S) = λ o. elim o [
        | none ↦ none
        | some g ↦
            if plan.once || (not g.cycled && plan.once)
            then some (g.ok, g.host)
            else finish h plan fuel g
      ] in
      (r, ap after e ∙ done)
    where
      over :
          (b : Bool) (f : Following S)
          → (r : Bool × S) × (finish h plan fuel f ≡ some r)
          → (r : Bool × S) × ((if b then some (f.ok, f.host) else finish h plan fuel f) ≡ some r)
      over true f d = ((f.ok, f.host), refl)
      over false f d = d

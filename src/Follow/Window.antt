-- ===== src/Follow/Window.antt =====
-- When the follower sends (crates/te_core/src/mirror.rs, `follow_loop`).
use trade_engine.Base.{
  ℕ, zero, suc, ◌≡◌, refl, Bool, true, false, not, ◌&&◌, ◌||◌, Option, none, some, String, Result,
  ok, err, if◌then◌else◌,
}
use trade_engine.Follow.{
  FollowReport, FollowHost, FollowPlan, Following, Turn, stop, again, starting, follow_turn,
  session, collect_wait, collected, finish, follow_loop,
}
use trade_engine.Follow.Turns.{OfTurn, OfSome, if_both, OfHost, MaySend, follow_turn_keeps}

module _ {S T : Type 0} (h : FollowHost S T) (plan : FollowPlan T) (P : S → Type 0)
    (by_log : (line : String) (s : S) → P s → P (h.log line s))
    (by_now : (s : S) → P s → P (h.now_local_seconds s).1)
    (by_probe : (s : S) → P s → P (h.probe s).1)
    (by_cycle : (s : S) → MaySend h plan s → P s → P (h.cycle s).1)
    (by_sleep : plan.once ≡ false → (t : T) (s : S) → P s → P (h.sleep t s)) where
  session_keeps :
      (fuel : ℕ) (f : Following S) → P f.host → OfSome (OfHost P) (session h plan fuel f)
  unfolding session
  session_keeps zero f p = tt
  session_keeps (suc n) f p =
      turned (session_keeps n) (follow_turn h plan f)
        (follow_turn_keeps h plan P by_log by_now by_probe by_cycle f p)
    where
      slept : Following S → Following S
      slept g = record g { host = h.sleep plan.interval_seconds g.host }

      Rest : Type 0
      Rest = (g : Following S) → P g.host → OfSome (OfHost P) (session h plan n g)

      next :
          Rest
          → (once : Bool) → plan.once ≡ once
          → (g : Following S) → P g.host
          → OfSome (OfHost P) (elim once [ true ↦ some g | false ↦ session h plan n (slept g) ])
      next rest true e g p = p
      next rest false e g p = rest (slept g) (by_sleep e plan.interval_seconds g.host p)

      turned :
          Rest
          → (t : Turn S) → OfTurn P t
          → OfSome (OfHost P) (elim t [
            | stop g ↦ some g
            | again g ↦ elim plan.once [ true ↦ some g | false ↦ session h plan n (slept g) ]
          ])
      turned rest (stop g) p = p
      turned rest (again g) p = next rest plan.once refl g p

  collect_wait_keeps :
      plan.once ≡ false
      → (fuel : ℕ) (so_far : Bool) (s : S) → P s
      → OfSome P (collect_wait h plan fuel so_far s)
  unfolding collect_wait
  collect_wait_keeps e fuel false s p = p
  collect_wait_keeps e zero true s p = tt
  collect_wait_keeps e (suc n) true s p =
      go (h.lt (h.now_local_seconds s).0 plan.collect_at)
        (collect_wait_keeps e n true later (by_sleep e plan.interval_seconds _ (by_now s p)))
    where
      later : S
      later = h.sleep plan.interval_seconds (h.now_local_seconds s).1

      go :
          (b : Bool)
          → OfSome P (collect_wait h plan n true later)
          → OfSome P (elim b [
            | false ↦ some (h.now_local_seconds s).1
            | true ↦ collect_wait h plan n true later
          ])
      go true rest = rest
      go false rest = by_now s p

  module _ (by_collect : plan.once ≡ false → (s : S) → P s → P (h.collect s).1) where
    collected_keeps :
        (so_far : Bool) (answer : Result String FollowReport × S)
        → P answer.1
        → P (collected h plan so_far answer).1
    unfolding collected
    collected_keeps so_far (ok r, s) p = by_log r.line s p
    collected_keeps so_far (err reason, s) p = by_log _ s p

    finish_keeps :
        plan.once ≡ false
        → (fuel : ℕ) (f : Following S) → P f.host
        → OfSome (λ r. P r.1) (finish h plan fuel f)
    unfolding finish
    finish_keeps e fuel f p =
        go (collect_wait h plan fuel f.ok f.host) (collect_wait_keeps e fuel f.ok f.host p)
      where
        go :
            (o : Option S)
            → OfSome P o
            → OfSome
                (λ r. P r.1)
                (elim o [ none ↦ none | some s ↦ some (collected h plan f.ok (h.collect s)) ])
        go none q = tt
        go (some s) q = collected_keeps f.ok (h.collect s) (by_collect e s q)

    -- The follower's effects on the host are only these: what holds at the start, and is kept by
    -- logging, reading the clock, probing, a cycle right after the clock was read in the send
    -- window and a probe said that the venue reads, and, unless the run is for one cycle,
    -- sleeping and collecting, holds when the follower ends.
    pub follow_loop_keeps :
        (fuel : ℕ) (s : S) → P s → OfSome (λ r. P r.1) (follow_loop h plan fuel s)
    unfolding follow_loop
    follow_loop_keeps fuel s p = go _ (session_keeps fuel (starting s) p)
      where
        go :
            (o : Option (Following S))
            → OfSome (OfHost P) o
            → OfSome
                (λ r. P r.1)
                (elim o [
                  | none ↦ none
                  | some f ↦
                      if plan.once || (not f.cycled && plan.once)
                      then some (f.ok, f.host)
                      else finish h plan fuel f
                ])
        go none q = tt
        go (some f) q = over plan.once refl
          where
            over :
                (once : Bool)
                → plan.once ≡ once
                → OfSome
                    (λ r. P r.1)
                    (if once || (not f.cycled && once)
                      then some (f.ok, f.host)
                      else finish h plan fuel f)
            over true e = q
            over false e =
                if_both (OfSome (λ r. P r.1)) (not f.cycled && false) q (finish_keeps e fuel f q)

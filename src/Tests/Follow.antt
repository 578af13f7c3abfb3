-- ===== src/Tests/Follow.antt =====
-- A venue that reads at once, followed from the third hour on (`follow_loop` of
-- crates/te_core/src/mirror.rs).
use trade_engine.Base.{
  ℕ, ◌+◌, ◌-◌, ◌≤◌, ◌<◌, ◌≡◌, Bool, true, false, none, some, [], ok, arith, ltb, leb, ap, subst,
}
use trade_engine.Follow.{FollowReport, Probe, readable, FollowHost, FollowPlan, follow_loop}
use trade_engine.Follow.Turns.{OfSome, MaySend}
use trade_engine.Follow.Window.{follow_loop_keeps}
use trade_engine.Follow.Ends.{ClockRuns, follow_loop-ends}

-- The hour, and how many cycles were sent.
record Venue : Type 0 where
  pub hour : ℕ
  pub sent : ℕ

abbrev quiet : FollowReport
quiet = record {
  halted = false;
  refused = none;
  deferred = none;
  queued = 0;
  fills = 0;
  closes = 0;
  refused_count = 0;
  waiting = [];
  line = "quiet";
}

abbrev host : FollowHost Venue ℕ
host = record {
  now_local_seconds = λ s. (s.hour, s);
  sleep = λ t s. record s { hour = s.hour + t };
  probe = λ s. (readable, s);
  cycle = λ s. (ok quiet, record s { sent = s.sent + 1 });
  collect = λ s. (ok quiet, s);
  log = λ line s. s;
  ge = λ a b. leb b a;
  lt = ltb;
}

abbrev plan : FollowPlan ℕ
plan = record {
  send_open = 5;
  send_close = 10;
  collect_at = 12;
  interval_seconds = 1;
  once = false;
  max_unreadable = 3;
}

abbrev third_hour : Venue
third_hour = record { hour = 3; sent = 0 }

-- Nothing is sent before the window opens.
abbrev SentInWindow : Venue → Type 0
SentInWindow s = 0 < s.sent → 5 ≤ s.hour

opens : (n : ℕ) → leb 5 n ≡ true → 5 ≤ n
opens n e = ground arith

in_window : (s : Venue) → MaySend host plan s → SentInWindow s → SentInWindow (host.cycle s).1
in_window s m p n =
    let same : m.before ≡ s = ap (λ (a : Probe × Venue). a.1) m.reads in
    subst (λ (t : Venue). 5 ≤ t.hour) same (opens m.before.hour m.window.from_open)

follow_loop_keeps_example : OfSome (λ r. SentInWindow r.1) (follow_loop host plan 20 third_hour)
follow_loop_keeps_example =
    follow_loop_keeps host plan SentInWindow (λ line s p. p) (λ s p. p) (λ s p. p) in_window
      (λ e t s p n. omega (arith, p n)) (λ e s p. p) 20 third_hour (λ n. omega (arith, n))

abbrev hours_left : Venue → ℕ
hours_left s = 12 - s.hour

hours_run : ClockRuns host plan hours_left
hours_run = record {
  by_log = λ line s. omega arith;
  by_now = λ s. omega arith;
  by_probe = λ s. omega arith;
  by_cycle = λ s. omega arith;
  by_sleep = λ s. omega arith;
  past_close = λ s e. ground arith;
  past_collect = λ s e. ground arith;
}

follow_loop-ends_example : (r : Bool × Venue) × (follow_loop host plan 10 third_hour ≡ some r)
follow_loop-ends_example =
    follow_loop-ends host plan hours_left hours_run 10 third_hour (omega arith)

-- ===== src/Follow.antt =====
-- The follower of the venue mirror (crates/te_core/src/mirror.rs): one loop over a send window with
-- a budget for a venue that cannot be read, then one collect. What it drives is the interface
-- `FollowHost`; times are 64-bit floats, of which it takes the comparisons.
pub mod Turns
pub mod Window
pub mod Ends
use Prim.Native.String
use trade_engine.Base.{
  ℕ, zero, suc, ◌+◌, ◌%◌, ◌^◌, Bool, true, false, not, ◌&&◌, ◌||◌, Option, none, some, List, [],
  ◌∷◌, String, Result, ok, err, str_eq, ltb, ◌==◌, if◌then◌else◌,
}
use trade_engine.Base.Text.{show}

pub record FollowReport : Type 0 where
  pub halted : Bool
  pub refused : Option String
  pub deferred : Option String
  pub queued : ℕ
  pub fills : ℕ
  pub closes : ℕ
  pub refused_count : ℕ
  pub waiting : List String
  pub line : String

pub data Probe : Type 0 where
  readable : Probe
  unreadable : String → Probe

-- The effects that the loop drives, each on the host's state, and `>=` and `<` on its times.
pub record FollowHost (S T : Type 0) : Type 0 where
  pub now_local_seconds : S → T × S
  pub sleep : T → S → S
  pub probe : S → Probe × S
  pub cycle : S → Result String FollowReport × S
  pub collect : S → Result String FollowReport × S
  pub log : String → S → S
  pub ge : T → T → Bool
  pub lt : T → T → Bool

pub record FollowPlan (T : Type 0) : Type 0 where
  pub send_open : T
  pub send_close : T
  pub collect_at : T
  pub interval_seconds : T
  pub once : Bool
  pub max_unreadable : ℕ

-- The host and the variables of the loop.
pub record Following (S : Type 0) : Type 0 where
  pub host : S
  pub unreadable_cycles : ℕ
  pub waiting_before : List String
  pub ok : Bool
  pub cycled : Bool

abbrev pub starting : {S : Type 0} → S → Following S
starting s = record {
  host = s;
  unreadable_cycles = 0;
  waiting_before = [];
  ok = true;
  cycled = false;
}

-- A turn of the loop breaks out of it or goes on.
pub data Turn (S : Type 0) : Type 0 where
  stop again : Following S → Turn S

unfoldable pub same_texts : List String → List String → Bool
same_texts [] [] = true
same_texts (s ∷ ss) (t ∷ ts) = str_eq s t && same_texts ss ts
same_texts _ _ = false

abbrev pub is_nil : List String → Bool
is_nil [] = true
is_nil (s ∷ ss) = false

abbrev pub is_none : Option String → Bool
is_none none = true
is_none (some s) = false

-- Whether a report has anything to say that the one before did not.
unfoldable pub has_news : FollowReport → List String → Bool
unfolding same_texts
has_news r before =
    ltb 0 r.queued
    || ltb 0 r.refused_count
    || ltb 0 r.fills
    || ltb 0 r.closes
    || (not (is_nil r.waiting) && not (same_texts r.waiting before))

module _ {S T : Type 0} (h : FollowHost S T) (plan : FollowPlan T) where
  unfoldable pub say : String → Following S → Following S
  say line f = record f { host = h.log line f.host }

  unfoldable pub fail_with : String → Following S → Turn S
  unfolding say
  fail_with line f = stop (record (say line f) { ok = false })

  -- A venue that was not read, or that deferred the cycle, against the budget. The counter is 32
  -- bits wide.
  unfoldable pub strain : String → String → String → Following S → Turn S
  unfolding say fail_with
  strain what why line f =
      let n = (f.unreadable_cycles + 1) % 2 ^ 32 in
      let counted = record f { unreadable_cycles = n } in
      let last = String.◌++◌ "giving up: venue " (
        String.◌++◌ what (
          String.◌++◌ " for "
            (String.◌++◌ (show n) (String.◌++◌ " cycle(s) (" (String.◌++◌ why ")"))))) in
      if plan.once || ltb plan.max_unreadable n
      then fail_with last counted
      else again (if n == 1 then say line counted else counted)

  unfoldable pub resume : Following S → Following S
  unfolding say
  resume f =
      let line =
        String.◌++◌ "resumed after "
          (String.◌++◌ (show f.unreadable_cycles) " unreadable cycle(s)") in
      if ltb 0 f.unreadable_cycles then record (say line f) { unreadable_cycles = 0 } else f

  unfoldable pub note_report : FollowReport → Following S → Following S
  unfolding say has_news
  note_report r f = record (if has_news r f.waiting_before then say r.line f else f) {
    waiting_before = r.waiting;
  }

  unfoldable pub on_deferred : Option String → FollowReport → Following S → Turn S
  unfolding strain resume note_report
  on_deferred (some why) r f = strain "deferred" why r.line f
  on_deferred none r f = again (note_report r (resume f))

  unfoldable pub on_report : Option String → FollowReport → Following S → Turn S
  unfolding fail_with on_deferred
  on_report (some reason) r f = fail_with (String.◌++◌ "REFUSED  " reason) f
  on_report none r f =
      if r.halted then fail_with (String.◌++◌ "HALTED  " r.line) f else on_deferred r.deferred r f

  unfoldable pub on_cycle : Result String FollowReport → Following S → Turn S
  unfolding fail_with on_report
  on_cycle (err reason) f = fail_with (String.◌++◌ "REFUSED  " reason) f
  on_cycle (ok r) f = on_report r.refused r (record f { cycled = true })

  unfoldable pub on_probe : Probe → Following S → Turn S
  unfolding strain on_cycle
  on_probe (unreadable why) f =
      strain "unreadable" why
        (String.◌++◌ "venue unreadable (" (String.◌++◌ why "); sending nothing until it reads")) f
  on_probe readable f =
      let answer = h.cycle f.host in on_cycle answer.0 (record f { host = answer.1 })

  unfoldable pub probe_venue : Following S → Turn S
  unfolding on_probe
  probe_venue f = let answer = h.probe f.host in on_probe answer.0 (record f { host = answer.1 })

  -- One pass of the session's loop.
  unfoldable pub follow_turn : Following S → Turn S
  unfolding probe_venue
  follow_turn f =
      let clock = h.now_local_seconds f.host in
      let f' = record f { host = clock.1 } in
      if h.ge clock.0 plan.send_close
      then stop f'
      else if h.ge clock.0 plan.send_open
      then probe_venue f'
      else again f'

  -- `none` is a loop that the fuel does not end.
  unfoldable pub session : ℕ → Following S → Option (Following S)
  unfolding follow_turn
  session zero f = none
  session (suc n) f = elim (follow_turn f) [
    | stop g ↦ some g
    | again g ↦ elim plan.once [
      | true ↦ some g
      | false ↦ session n (record g { host = h.sleep plan.interval_seconds g.host })
    ]
  ]

  unfoldable pub collect_wait : ℕ → Bool → S → Option S
  collect_wait fuel false s = some s
  collect_wait zero true s = none
  collect_wait (suc n) true s =
      let clock = h.now_local_seconds s in
      elim (h.lt clock.0 plan.collect_at) [
        | false ↦ some clock.1
        | true ↦ collect_wait n true (h.sleep plan.interval_seconds clock.1)
      ]

  unfoldable pub collected : Bool → Result String FollowReport × S → Bool × S
  collected so_far (ok r, s) = (so_far && not r.halted && is_none r.deferred, h.log r.line s)
  collected so_far (err reason, s) = (false, h.log (String.◌++◌ "REFUSED  " reason) s)

  unfoldable pub finish : ℕ → Following S → Option (Bool × S)
  unfolding collect_wait collected
  finish fuel f = elim (collect_wait fuel f.ok f.host) [
    | none ↦ none
    | some s ↦ some (collected f.ok (h.collect s))
  ]

  -- `FollowOutcome::Done`, and the host as the loop leaves it.
  unfoldable pub follow_loop : ℕ → S → Option (Bool × S)
  unfolding session finish
  follow_loop fuel s = elim (session fuel (starting s)) [
    | none ↦ none
    | some f ↦
        if plan.once || (not f.cycled && plan.once) then some (f.ok, f.host) else finish fuel f
  ]

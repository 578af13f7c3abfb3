-- ===== src/Follow/Turns.antt =====
-- What one turn of the follower keeps (crates/te_core/src/mirror.rs, `follow_loop`).
use trade_engine.Base.{
  ◌≡◌, refl, Bool, true, false, Option, none, some, subst, sym, String, Result, ok, err, ltb,
  if◌then◌else◌,
}
use trade_engine.Follow.{
  FollowReport, Probe, readable, unreadable, FollowHost, FollowPlan, Following, Turn, stop, again,
  has_news, say, fail_with, strain, resume, note_report, on_deferred, on_report, on_cycle, on_probe,
  probe_venue, follow_turn,
}

-- What holds of the host when a turn ends.
abbrev pub OfTurn : {S : Type 0} → (S → Type 0) → Turn S → Type 0
OfTurn P (stop f) = P f.host
OfTurn P (again f) = P f.host

abbrev pub OfHost : {S : Type 0} → (S → Type 0) → Following S → Type 0
OfHost P f = P f.host

-- What holds of the value if there is one.
abbrev pub OfSome : {A : Type 0} → (A → Type 0) → Option A → Type 0
OfSome P none = Unit {0}
OfSome P (some a) = P a

pub if_both :
    {A : Type 0} (P : A → Type 0) (b : Bool) {x y : A} → P x → P y → P (if b then x else y)
if_both P true p q = p
if_both P false p q = q

module _ {S T : Type 0} (h : FollowHost S T) (plan : FollowPlan T) where
  -- The clock shows a time from the send window's open to before its close.
  pub record InWindow (s : S) : Type 0 where
    pub from_open : h.ge (h.now_local_seconds s).0 plan.send_open ≡ true
    pub to_close : h.ge (h.now_local_seconds s).0 plan.send_close ≡ false

  -- A cycle starts from a state that a probe left, which said the venue reads, right after the
  -- clock was read in the window.
  pub record MaySend (s : S) : Type 0 where
    pub before : S
    pub window : InWindow before
    pub reads : h.probe (h.now_local_seconds before).1 ≡ (readable, s)

module _ {S T : Type 0} (h : FollowHost S T) (plan : FollowPlan T) (P : S → Type 0)
    (by_log : (line : String) (s : S) → P s → P (h.log line s)) where
  if_turn : (b : Bool) (x y : Turn S) → OfTurn P x → OfTurn P y → OfTurn P (if b then x else y)
  if_turn true x y p q = p
  if_turn false x y p q = q

  if_host : (b : Bool) (x y : Following S) → P x.host → P y.host → P (if b then x else y).host
  if_host true x y p q = p
  if_host false x y p q = q

  strain_keeps :
      (what why line : String) (f : Following S)
      → P f.host
      → OfTurn P (strain h plan what why line f)
  unfolding strain fail_with say
  strain_keeps what why line f p = search (if_turn, if_host, by_log, p) depth 8

  on_deferred_keeps :
      (deferred : Option String) (r : FollowReport) (f : Following S)
      → P f.host
      → OfTurn P (on_deferred h plan deferred r f)
  unfolding on_deferred note_report resume say
  on_deferred_keeps (some why) r f p = strain_keeps "deferred" why r.line f p
  on_deferred_keeps none r f p =
      let g = resume h plan f in
      let resumed : P g.host =
        if_both (OfHost P) (ltb 0 f.unreadable_cycles) (by_log _ f.host p) p in
      if_both (OfHost P) (has_news r g.waiting_before) (by_log r.line g.host resumed) resumed

  on_report_keeps :
      (refused : Option String) (r : FollowReport) (f : Following S)
      → P f.host
      → OfTurn P (on_report h plan refused r f)
  unfolding on_report fail_with say
  on_report_keeps (some reason) r f p = by_log _ f.host p
  on_report_keeps none r f p =
      if_both (OfTurn P) r.halted (by_log _ f.host p) (on_deferred_keeps r.deferred r f p)

  on_cycle_keeps :
      (answer : Result String FollowReport) (f : Following S)
      → P f.host
      → OfTurn P (on_cycle h plan answer f)
  unfolding on_cycle fail_with say
  on_cycle_keeps (err reason) f p = by_log _ f.host p
  on_cycle_keeps (ok r) f p = on_report_keeps r.refused r (record f { cycled = true }) p

  module _ (by_now : (s : S) → P s → P (h.now_local_seconds s).1)
      (by_probe : (s : S) → P s → P (h.probe s).1)
      (by_cycle : (s : S) → MaySend h plan s → P s → P (h.cycle s).1) where
    on_probe_keeps :
        (before : S) (answer : Probe) (s : S) (f : Following S)
        → InWindow h plan before
        → h.probe (h.now_local_seconds before).1 ≡ (answer, s)
        → f.host ≡ s
        → P s
        → OfTurn P (on_probe h plan answer f)
    unfolding on_probe
    on_probe_keeps before (unreadable why) s f w e same p =
        strain_keeps "unreadable" why _ f (subst P (sym same) p)
    on_probe_keeps before readable s f w e same p =
        on_cycle_keeps (h.cycle f.host).0 (record f { host = (h.cycle f.host).1 })
          (subst (λ (t : S). P (h.cycle t).1) (sym same)
            (by_cycle s (record { before = before; window = w; reads = e }) p))

    pub follow_turn_keeps : (f : Following S) → P f.host → OfTurn P (follow_turn h plan f)
    unfolding follow_turn probe_venue
    follow_turn_keeps f p =
        go (h.ge clock.0 plan.send_close) (h.ge clock.0 plan.send_open) refl refl
      where
        clock : T × S
        clock = h.now_local_seconds f.host

        there : Following S
        there = record f { host = clock.1 }

        go :
            (closed opened : Bool)
            → h.ge clock.0 plan.send_close ≡ closed
            → h.ge clock.0 plan.send_open ≡ opened
            → OfTurn P (
                if closed
                then stop there
                else if opened
                then probe_venue h plan there
                else again there)
        go true opened c o = by_now f.host p
        go false false c o = by_now f.host p
        go false true c o =
            on_probe_keeps f.host (h.probe clock.1).0 (h.probe clock.1).1
              (record there { host = (h.probe clock.1).1 }) (record { from_open = o; to_close = c })
              refl refl (by_probe clock.1 (by_now f.host p))

-- ===== src/Lib.antt =====
-- A trade engine: decimal money, an event-sourced ledger of accounts and an order manager on top of
-- them, in the Rust crate crates/te_core. A log of events is the only record; `fold` computes the
-- state of every account from it, and all arithmetic is on `Money`, a decimal of at most 28 digits
-- that never rounds silently beyond its bound.
--
-- Money.antt and below model crates/te_core/src/money.rs. A `Money` is the sign, mantissa and scale
-- that `Decimal::from_i128_with_scale` is given; the crate rust_decimal itself is the instance
-- parameter `Decimals` (Money/Order), with the law that its order is by value, and `by_value` is a
-- concrete one. `u128` arithmetic is on natural numbers with every overflow check written out
-- (`checked_mul`, `checked_add`), `BigUint` is the natural numbers, an `i64` exponent an integer.
-- `strip_zeros` and `digits` recur on fuel that the number itself bounds. Literal is `try_parse`,
-- which walks the list of a text's characters, and PyRules the white space and the decimal digits
-- of crates/te_core/src/options/pyrules.rs.
--
-- Ledger.antt and below model crates/te_core/src/ledger: Errors (the wrappers of ops.rs), Dict
-- (`OMap` as its callers see it), OMap (the same with its index and journal), Model and Keys
-- (model.rs), and from fold.rs OrderFsm (`allowed`, `validate_transition`), Lots (`make_position`,
-- `consume_lots`, `take_lots`), Trade (`apply_trade`, `multiplier`), State (`AccountState`),
-- FillHandler (`on_fill`), OrderHandlers and Fold (`apply_event`, `ordered`, `fold`,
-- `fold_account`). A handler takes the state and returns the new one or a refusal. The source's
-- handlers write to the state before a later check refuses; the callers drop the state then, so a
-- refusal has none here. Refusals are kinds, without their messages. Quantities that the source
-- counts in `i128` are natural numbers or integers without a bound.
--
-- Mirror models mirror.rs: MirrorState and its events, Filling its fills, and Views what it shows.
-- `mirror_step` of fold.rs takes its events into the account's state.
--
-- Oms.antt and below model decisions of crates/te_core/src/oms/manager.rs: Venue (acknowledgements,
-- cancel and reconciliation), Allocation (splitting a quantity by the largest remainder), Replace
-- (replacement terms) and Bracket (the protective stop and its children). They read the ledger's
-- state and plan events that the ledger then folds.
--
-- Sim.antt and below model crates/te_core/src/sim: Trailing is the trailing stop of trailing.rs,
-- where a refusal can leave the state moved, so an update gives the state and the answer.
--
-- Follow.antt and below model the follower of crates/te_core/src/mirror.rs: `FollowHost` is the
-- interface of the host that it drives, Window says when it sends and Ends that it ends. A loop
-- that its fuel does not end has no outcome.
--
-- Calendar.antt and below model crates/te_core/src/calendar.rs. The crate chrono and its time zone
-- are the instance parameter `Chrono` (Calendar/Dates), a date being its day number, with the laws
-- of its documentation. The search for a session has fuel for every day of the calendar; `running`,
-- the answer without fuel, is shown never to be given.
--
-- Options.antt models the strikes, symbols and roots of crates/te_core/src/options.rs, and
-- Options/Lifecycle what an option is worth and delivers (options/lifecycle.rs); Ledger/Lifecycle
-- is `on_lifecycle` of fold.rs on top of both. What trades and option events do is stated against
-- relations of their own: Ledger/Lots/Closing and Taking for the lots closed or taken
-- from the oldest on, Ledger/Trade/Kinds for the trades, Ledger/Lifecycle/Effects for the events. Texts of numbers that rust_decimal reads, writes and
-- adds are `Decimals`, too, and so are `to_uppercase` and the calendar date of a day number.
--
-- Not modelled: the manager's other decisions and its command flow, the parsing of option symbols,
-- wire formats, the futures calendar, margin, risk rules, the rest of the simulators, the runtime
-- and the bindings.
--
-- Base holds what the modules share: Boolean tests, results with `OnOk` (what holds of every value
-- that is not a refusal), lists and integers over the native numbers, and powers of ten. Tests
-- holds runs of the code and the theorems applied to them.
pub mod Base
pub mod Money
pub mod Ledger
pub mod Options
pub mod Oms
pub mod Sim
pub mod Follow
pub mod Calendar
pub mod Tests

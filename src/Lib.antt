-- ===== src/Lib.antt =====
-- Verification of jevTrader's trading core: the order book and the actors that keep it, the paper
-- matcher and the execution actor with its risk gate, the signal actor, the lifecycle of a contract, the
-- markout tracker, and the parts of a replay that keep time, windows, settlements and the ledger.
--
-- How the program works: market messages of the venue reach a market actor, which keeps the order book
-- of one token and marks it stale when messages were missed. Signals become quotes; a quote passes the
-- risk gate and, if it passes, rests in the paper book of its variant, where later updates of the top of
-- the book fill it. A replay runs the same core over recorded markets, in windows that keep a training
-- set apart from what it is tested on.
--
-- Where each part is modelled:
-- - Polymarket/Book: src/polymarket/book.rs. A side is a list of prices with quantities (`BookSide`,
--   `OrderBook`), `set_level`, `apply_snapshot`, `apply_delta`, `mark_stale` and the reads carry the
--   source's names. The hasher is a parameter; `hash_input` is what is written to it.
-- - Engine/MarketActor: src/engine/market_actor.rs. `apply_message` is the handler, `run` the loop over
--   the messages of the channel, `publish` the watch channel's last value.
-- - Strategy/Risk: src/strategy/risk.rs.
-- - Execution/Paper: src/execution/paper.rs. The resting orders are the source's `BTreeMap`, a list of
--   entries in ascending order of their ids (Prelude/BTreeMap). `place`, `cancel`, `apply_update` and
--   `replay` carry the source's names; `fill_all` is the loop that `apply_update` has twice.
-- - Engine/ExecutionActor: src/engine/execution_actor.rs, two paper books behind one gate.
-- - Replay/Walkforward: src/replay/walkforward.rs, windows, planner, purge and embargo.
-- - Domain/Events: identifiers and the trade side of src/domain.
-- - State/PolyHistory: src/state/poly_history.rs. The deque is the list of its samples, oldest first.
-- - Engine/SignalActor: src/engine/signal_actor.rs. The judgment client is a parameter of
--   `evaluate_next`.
-- - Engine/Registry: src/engine/registry.rs. The registry's hash map is a list of entries; an operation
--   that fails gives the registry back with the error.
-- - Domain/Market and Domain/MarketSpec: src/domain/market.rs and what src/market_spec.rs reads off a
--   specification. Texts are native strings, with Rust's operations on them in Prelude/Text.
-- - Replay/Clock: src/replay/clock.rs.
-- - Replay/Ledger: src/replay/ledger.rs. An operation gives the new episode or an error named for its
--   message.
-- - Replay/Resolution: src/replay/resolution.rs.
-- - Engine/Markouts: the markout tracker of src/engine/pipeline.rs; the array of five mids is a record.
-- - Replay/Synchronizer: src/replay/synchronizer.rs with the events of src/replay/types.rs. A stream and
--   its index are what is left of the stream.
-- - Replay/Causality: src/replay/causality.rs.
-- - Config, Domain/Price, Strategy/LeadLag and Strategy/Quote: the thresholds of src/config.rs, the prices
--   of src/domain/price.rs, the rule of src/strategy/lead_lag.rs and src/strategy/quote.rs.
-- - Engine/Pipeline: the decision, the candidate price and `finish_branch` of src/engine/pipeline.rs.
--   `IsExact` is what it relies on of floats: a number of micro-units of at most a million survives the
--   division by a million and back.
-- - Replay/Fills: src/replay/fills.rs. `collect` is the loop over the prints, `judge` what follows it.
-- - Jev/Response: the validation in src/jev/response.rs. A map with texts for keys is its list of entries
--   in their order.
-- - Replay/Portfolio and Replay/Fees: src/replay/portfolio.rs and src/replay/fees.rs. A mutable
--   reference to a portfolio is the change that its holder makes; in Portfolio/Isolation a run is a list
--   of such changes, each with its key.
-- - Replay/Complement: src/replay/complement.rs.
--
-- Numbers: `u64` and `usize` are natural numbers with the saturating and checked operations written out
-- at 2^64 - 1 (Prelude/Words); `i64` is an integer with its range (Prelude/Int); a price is its number of
-- micros. Floating point is the interface Prelude/F64, a parameter of everything that uses it, with no
-- laws assumed; Prelude/Tenths is an instance for runs. Errors are values; a panic is `none`.
--
-- Fuel: the planner's loop takes one round more than the last time in milliseconds; each round moves the
-- start forward by at least one millisecond. The merge of the streams takes one round more than they have
-- events; each round takes one event.
--
-- Not modelled: network clients and JSON decoding (src/feeds, src/polymarket/ws.rs, rest.rs,
-- discover.rs, and src/jev but for the validation of decoded answers), storage and telemetry, the entry
-- points, the asynchronous wiring of src/engine/pipeline.rs around a branch, and the float statistics of
-- the replay reports: they move or print data, or are calculations over floats.
pub mod Prelude
pub mod Config
pub mod Domain
pub mod Polymarket
pub mod Strategy
pub mod Execution
pub mod Engine
pub mod Jev
pub mod Replay
pub mod State

-- ===== src/Replay/Ledger/Episodes.antt =====
-- src/replay/ledger.rs: what holds of an episode after any sequence of operations.
use Prim.Native.String.{String}
use jev_trader.Prelude.{
  ℕ, ◌+◌, ◌≡◌, refl, Bool, true, false, not, ◌||◌, none, some, is_some, List, [], ◌∷◌, arith,
}
use jev_trader.Prelude.Int.{ℤ, pos, pos_part, neg_part, +ℤ_parts, ◌+ℤ◌, ltb_ℤ, checked_add}
use jev_trader.Prelude.Results.{ok, err}
use jev_trader.Prelude.F64.{F64}
use jev_trader.Replay.Ledger.{
  ExitType, is_no_fill_type, TradeEpisode, SizedOrder, Order, Done, has_fill,
  new_with_exit_submit_latency, apply_sizing, apply_fill, request_exit, apply_exit_fill,
  set_resolution, set_resolution_outcome, set_resolution_provenance, set_outcome_provenance,
  set_resolution_time_provenance, apply_exit, settle_accounting,
}

module _ (f : F64) where
  open f use {F}

  -- The episode after an operation, which leaves it as it was if it fails.
  abbrev pub kept : TradeEpisode f → Done f → TradeEpisode f
  kept e (ok after) = after
  kept e (err error) = e

  -- Whether an order is filled before it arrived.
  abbrev pub precedes_fill : TradeEpisode f → Bool
  precedes_fill e = elim e.fill_ts_ms [ none ↦ false | some ts ↦ ltb_ℤ ts e.order_arrival_ts_ms ]

  -- An episode has a whole fill or none, no fill before the order arrived, no exit without a fill but
  -- the one that says so, and no outcome without the time of the resolution.
  abbrev pub IsSound : TradeEpisode f → Type 0
  IsSound e =
      (is_some e.fill_price ≡ is_some e.fill_ts_ms)
      × (is_some e.fill_qty ≡ is_some e.fill_ts_ms)
      × (precedes_fill e ≡ false)
      × ((is_no_fill_type e.exit_type || is_some e.fill_ts_ms) ≡ true)
      × ((not (is_some e.resolution_outcome) || is_some e.resolution_at_ms) ≡ true)

  -- A fill, once recorded, and the arrival of the order stay.
  abbrev pub Keeps : TradeEpisode f → TradeEpisode f → Type 0
  Keeps before after =
      (has_fill f before ≡ true
        → (after.fill_ts_ms ≡ before.fill_ts_ms)
          × (after.fill_price ≡ before.fill_price)
          × (after.fill_qty ≡ before.fill_qty))
      × (after.order_arrival_ts_ms ≡ before.order_arrival_ts_ms)

  abbrev pub Steps : TradeEpisode f → Done f → Type 0
  Steps e done = (IsSound e → IsSound (kept e done)) × Keeps e (kept e done)

  apply_sizing-Steps :
      (e : TradeEpisode f) (sizing : SizedOrder f) → Steps e (apply_sizing f e sizing)
  unfolding apply_sizing
  apply_sizing-Steps e sizing = ground arith

  apply_fill-Steps :
      (e : TradeEpisode f) (ts : ℤ) (price qty : F) → Steps e (apply_fill f e ts price qty)
  unfolding apply_fill
  apply_fill-Steps e ts price qty = ground arith

  request_exit-Steps :
      (e : TradeEpisode f) (ts : ℤ) (latency : ℕ) → Steps e (request_exit f e ts latency)
  unfolding request_exit
  request_exit-Steps e ts latency = ground arith

  apply_exit_fill-Steps :
      (e : TradeEpisode f) (ts : ℤ) (price : F) → Steps e (apply_exit_fill f e ts price)
  unfolding apply_exit_fill
  apply_exit_fill-Steps e ts price = ground arith

  set_resolution-Steps : (e : TradeEpisode f) (ts : ℤ) → Steps e (set_resolution f e ts)
  unfolding set_resolution
  set_resolution-Steps e ts = ground arith

  set_resolution_outcome-Steps :
      (e : TradeEpisode f) (word : String) → Steps e (set_resolution_outcome f e word)
  unfolding set_resolution_outcome
  set_resolution_outcome-Steps e word = ground arith

  set_resolution_provenance-Steps :
      (e : TradeEpisode f) (word : String) → Steps e (set_resolution_provenance f e word)
  unfolding set_resolution_provenance
  set_resolution_provenance-Steps e word = ground arith

  set_outcome_provenance-Steps :
      (e : TradeEpisode f) (word : String) → Steps e (set_outcome_provenance f e word)
  unfolding set_outcome_provenance
  set_outcome_provenance-Steps e word = ground arith

  set_resolution_time_provenance-Steps :
      (e : TradeEpisode f) (word : String) → Steps e (set_resolution_time_provenance f e word)
  unfolding set_resolution_time_provenance
  set_resolution_time_provenance-Steps e word = ground arith

  apply_exit-Steps :
      (e : TradeEpisode f) (exit_type : ExitType) (ts : ℤ) (price : F)
      → Steps e (apply_exit f e exit_type ts price)
  unfolding apply_exit
  apply_exit-Steps e exit_type ts price = ground arith

  settle_accounting-Steps :
      (e : TradeEpisode f) (gross fees rebates net : F)
      → Steps e (settle_accounting f e gross fees rebates net)
  unfolding settle_accounting
  settle_accounting-Steps e gross fees rebates net = ground arith

  -- One call on an episode.
  pub data Operation : Type 0 where
    sizing : SizedOrder f → Operation
    fill : ℤ → F → F → Operation
    exit_request : ℤ → ℕ → Operation
    exit_fill : ℤ → F → Operation
    resolve : ℤ → Operation
    outcome : String → Operation
    provenance : String → Operation
    outcome_evidence : String → Operation
    time_evidence : String → Operation
    exit : ExitType → ℤ → F → Operation
    accounting : F → F → F → F → Operation

  abbrev pub operate : TradeEpisode f → Operation → Done f
  operate e (sizing order) = apply_sizing f e order
  operate e (fill ts price qty) = apply_fill f e ts price qty
  operate e (exit_request ts latency) = request_exit f e ts latency
  operate e (exit_fill ts price) = apply_exit_fill f e ts price
  operate e (resolve ts) = set_resolution f e ts
  operate e (outcome word) = set_resolution_outcome f e word
  operate e (provenance word) = set_resolution_provenance f e word
  operate e (outcome_evidence word) = set_outcome_provenance f e word
  operate e (time_evidence word) = set_resolution_time_provenance f e word
  operate e (exit exit_type ts price) = apply_exit f e exit_type ts price
  operate e (accounting gross fees rebates net) = settle_accounting f e gross fees rebates net

  abbrev pub operates : TradeEpisode f → List Operation → TradeEpisode f
  operates e [] = e
  operates e (o ∷ operations) = operates (kept e (operate e o)) operations

  operate-Steps : (e : TradeEpisode f) (o : Operation) → Steps e (operate e o)
  operate-Steps e (sizing order) = apply_sizing-Steps e order
  operate-Steps e (fill ts price qty) = apply_fill-Steps e ts price qty
  operate-Steps e (exit_request ts latency) = request_exit-Steps e ts latency
  operate-Steps e (exit_fill ts price) = apply_exit_fill-Steps e ts price
  operate-Steps e (resolve ts) = set_resolution-Steps e ts
  operate-Steps e (outcome word) = set_resolution_outcome-Steps e word
  operate-Steps e (provenance word) = set_resolution_provenance-Steps e word
  operate-Steps e (outcome_evidence word) = set_outcome_provenance-Steps e word
  operate-Steps e (time_evidence word) = set_resolution_time_provenance-Steps e word
  operate-Steps e (exit exit_type ts price) = apply_exit-Steps e exit_type ts price
  operate-Steps e (accounting gross fees rebates net) =
      settle_accounting-Steps e gross fees rebates net

  Keeps-trans : (a b c : TradeEpisode f) → Keeps a b → Keeps b c → Keeps a c
  Keeps-trans a b c h k = ground (arith, h, k)

  -- Whatever is done to a sound episode, in any order and failing or not: it stays sound, and the fill
  -- that it has, if it has one, is never changed.
  pub operates-IsSound :
      (e : TradeEpisode f) (operations : List Operation)
      → IsSound e
      → IsSound (operates e operations) × Keeps e (operates e operations)
  operates-IsSound e [] s = (s, ((λ h. (refl, refl, refl)), refl))
  operates-IsSound e (o ∷ operations) s =
      let (sound, keeps) = operate-Steps e o in
      let next = kept e (operate e o) in
      let (sound', keeps') = operates-IsSound next operations (sound s) in
      (sound', Keeps-trans e next (operates next operations) keeps keeps')

  -- A new episode arrives when both latencies have passed after its signal, and is not filled.
  pub new_lem :
      (order : Order f) (e : TradeEpisode f)
      → new_with_exit_submit_latency f order ≡ ok e
      → IsSound e
        × (has_fill f e ≡ false)
        × (pos_part e.order_arrival_ts_ms + neg_part order.signal_ts_ms
            ≡ pos_part order.signal_ts_ms
              + order.jev_latency_ms
              + order.submit_latency_ms
              + neg_part e.order_arrival_ts_ms)
  unfolding new_with_exit_submit_latency checked_add
  new_lem order e h = ground (
    arith,
    +ℤ_parts order.signal_ts_ms (pos order.jev_latency_ms),
    +ℤ_parts (order.signal_ts_ms +ℤ pos order.jev_latency_ms) (pos order.submit_latency_ms),
  )

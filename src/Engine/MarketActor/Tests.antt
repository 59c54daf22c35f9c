-- ===== src/Engine/MarketActor/Tests.antt =====
-- A run of the actor, after the tests of src/engine/market_actor.rs, and the instances of the
-- theorems about it.
use jev_trader.Prelude.{ℕ, ◌≡◌, refl, inr, true, false, none, some, List, [], ◌∷◌}
use jev_trader.Polymarket.Book
use jev_trader.Polymarket.Book.{bid, ask}
use jev_trader.Engine.MarketActor.{
  BookSnapshot, BookDelta, MarketMessage, book_snapshot, book_delta, with_observer, run,
}
use jev_trader.Engine.MarketActor.Sound.{IsSound, run-IsSound}
use jev_trader.Engine.MarketActor.Trust.{RestsOnSnapshot, run_fresh}

abbrev hasher : List ℕ → ℕ
hasher l = 0

abbrev snapshot : BookSnapshot
snapshot = record {
  condition_id = "c";
  token_id = "yes";
  sequence = some 7;
  bids = (400000, 4) ∷ [];
  asks = (600000, 6) ∷ [];
  book_hash = none;
  source_hash = none;
}

abbrev delta : ℕ → BookDelta
delta n = record {
  condition_id = "c";
  token_id = "yes";
  sequence = some n;
  side = ask;
  price = 550000;
  quantity = some 3;
  book_hash = none;
  source_hash = none;
}

abbrev messages : List MarketMessage
messages = book_snapshot snapshot ∷ book_delta (delta 8) ∷ []

deltas_converge :
    (run hasher (with_observer "yes") messages).book
    ≡ record { bids = (400000, 4) ∷ []; asks = (550000, 3) ∷ (600000, 6) ∷ []; stale = false }
unfolding run with_observer Book.apply_snapshot Book.apply_delta
deltas_converge = refl

-- A gap in the sequence makes the book stale.
gap_marks_stale :
    (run hasher
      (with_observer "yes")
      (book_snapshot snapshot ∷ book_delta (delta 9) ∷ [])).book.stale
    ≡ true
unfolding run with_observer Book.apply_snapshot Book.apply_delta
gap_marks_stale = refl

start-IsSound : IsSound (with_observer "yes")
unfolding with_observer
start-IsSound = record {
  valid = record {
    bids_side = record { ordered = tt; positive = tt };
    asks_side = record { ordered = tt; positive = tt };
  };
  observed = inr refl;
}

run-IsSound_example :
    IsSound (run hasher (with_observer "yes") messages)
    × ((run hasher (with_observer "yes") messages).yes_token_id ≡ "yes")
unfolding with_observer
run-IsSound_example = run-IsSound hasher (with_observer "yes") messages start-IsSound

run_fresh_example : RestsOnSnapshot "yes" messages
unfolding run with_observer Book.apply_snapshot Book.apply_delta
run_fresh_example = run_fresh hasher (with_observer "yes") messages start-IsSound refl refl

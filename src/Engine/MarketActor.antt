-- ===== src/Engine/MarketActor.antt =====
-- src/engine/market_actor.rs: the owner of one market's order book. The channels are sequences: the
-- messages that arrive, and the snapshot last published to the observer, if there is one.
pub mod Sound
pub mod Trust
mod Tests
use Prim.Native.String.{String}
use text.Mathlib.Text.{◌==◌ as str_eq}
use jev_trader.Prelude.{
  ℕ, ◌≡◌, Bool, true, false, not, ◌&&◌, Option, none, some, List, [], ◌∷◌, ◌==◌, if◌then◌else◌,
}
use jev_trader.Prelude.Words.{saturating_add}
use jev_trader.Prelude.Int.{ℤ}
use jev_trader.Domain.Events.{TradeSide, TokenId, ConditionId, MarketId}
use jev_trader.Polymarket.Book
use jev_trader.Polymarket.Book.{Level, BookSide, OrderBook, empty_book}

pub record BookSnapshot : Type 0 where
  pub condition_id : ConditionId
  pub token_id : TokenId
  pub sequence : Option ℕ
  pub bids : List Level
  pub asks : List Level
  pub book_hash : Option ℕ
  pub source_hash : Option String

pub record BookDelta : Type 0 where
  pub condition_id : ConditionId
  pub token_id : TokenId
  pub sequence : Option ℕ
  pub side : BookSide
  pub price : ℕ
  pub quantity : Option ℕ
  pub book_hash : Option ℕ
  pub source_hash : Option String

pub record LastTradePriceUpdate : Type 0 where
  pub condition_id : ConditionId
  pub token_id : TokenId
  pub price : ℕ
  pub side : Option TradeSide
  pub size : Option ℕ
  pub timestamp_ms : ℤ

pub record TickSizeUpdate : Type 0 where
  pub condition_id : ConditionId
  pub token_id : TokenId
  pub old_tick_size : ℕ
  pub new_tick_size : ℕ
  pub timestamp_ms : ℤ

pub record BestBidAskUpdate : Type 0 where
  pub condition_id : ConditionId
  pub token_id : TokenId
  pub best_bid : ℕ
  pub best_ask : ℕ
  pub spread : ℕ
  pub timestamp_ms : ℤ

pub record NewMarketUpdate : Type 0 where
  pub market_id : MarketId
  pub condition_id : ConditionId
  pub question : String
  pub slug : String
  pub description : String
  pub token_ids : List TokenId
  pub outcomes : List String
  pub timestamp_ms : ℤ

pub record MarketResolvedUpdate : Type 0 where
  pub market_id : MarketId
  pub condition_id : ConditionId
  pub token_ids : List TokenId
  pub winning_token_id : TokenId
  pub winning_outcome : String
  pub timestamp_ms : ℤ

pub data MarketMessage : Type 0 where
  book_snapshot : BookSnapshot → MarketMessage
  book_delta : BookDelta → MarketMessage
  last_trade_price : LastTradePriceUpdate → MarketMessage
  tick_size_change : TickSizeUpdate → MarketMessage
  best_bid_ask : BestBidAskUpdate → MarketMessage
  new_market : NewMarketUpdate → MarketMessage
  market_resolved : MarketResolvedUpdate → MarketMessage

pub record MarketSnapshot : Type 0 where
  pub book : OrderBook
  pub stale : Bool

pub record MarketActor : Type 0 where
  pub yes_token_id : TokenId
  pub book : OrderBook
  pub next_sequence : Option ℕ
  -- What the `watch` channel holds; `none` for an actor without an observer.
  pub published : Option MarketSnapshot

unfoldable pub latest_snapshot : MarketActor → MarketSnapshot
latest_snapshot actor = record { book = actor.book; stale = actor.book.stale }

-- `MarketActor::new`
unfoldable pub new : TokenId → MarketActor
unfolding Book.mark_stale
new token = record {
  yes_token_id = token;
  book = Book.mark_stale empty_book;
  next_sequence = none;
  published = none;
}

-- `MarketActor::channel_with_snapshot`, without the ends of the channels.
unfoldable pub with_observer : TokenId → MarketActor
unfolding new latest_snapshot
with_observer token =
    let actor = new token in record actor { published = some (latest_snapshot actor) }

-- The `match` on the expected and the actual sequence.
pub check_sequence : Option ℕ → Option ℕ → OrderBook → OrderBook
unfolding Book.mark_stale
check_sequence (some expected) (some actual) book =
    if expected == actual then book else Book.mark_stale book
check_sequence (some expected) none book = Book.mark_stale book
check_sequence none _ book = book

pub set_quantity : BookDelta → OrderBook → OrderBook
set_quantity delta book = elim delta.quantity [
  | some quantity ↦ Book.apply_delta book delta.side delta.price quantity
  | none ↦ book
]

-- `sender.send_replace(self.latest_snapshot())`, if there is an observer
pub publish : MarketActor → MarketActor
unfolding latest_snapshot
publish actor = elim actor.published [
  | none ↦ actor
  | some old ↦ record actor { published = some (latest_snapshot actor) }
]

module _ (hasher : List ℕ → ℕ) where
  -- `if let Some(expected) = … && book.book_hash() != expected { book.mark_stale() }`
  pub check_hash : Option ℕ → OrderBook → OrderBook
  unfolding Book.mark_stale
  check_hash none book = book
  check_hash (some expected) book =
      if Book.book_hash hasher book == expected then book else Book.mark_stale book

  pub apply_snapshot : MarketActor → BookSnapshot → MarketActor
  unfolding check_hash
  apply_snapshot actor snapshot =
      if str_eq snapshot.token_id actor.yes_token_id
      then record actor {
        book =
            check_hash snapshot.book_hash
              (Book.apply_snapshot actor.book snapshot.bids snapshot.asks);
        next_sequence = elim snapshot.sequence [
          | some sequence ↦ some (saturating_add sequence 1)
          | none ↦ none
        ];
      }
      else actor

  pub apply_delta : MarketActor → BookDelta → MarketActor
  unfolding check_hash check_sequence set_quantity
  apply_delta actor delta =
      if str_eq delta.token_id actor.yes_token_id
      then record actor {
        book =
            check_hash delta.book_hash
              (set_quantity delta (check_sequence actor.next_sequence delta.sequence actor.book));
        next_sequence = elim delta.sequence [
          | some sequence ↦ some (saturating_add sequence 1)
          | none ↦ actor.next_sequence
        ];
      }
      else actor

  pub dispatch : MarketActor → MarketMessage → MarketActor
  unfolding apply_snapshot apply_delta
  dispatch actor (book_snapshot snapshot) = apply_snapshot actor snapshot
  dispatch actor (book_delta delta) = apply_delta actor delta
  dispatch actor _ = actor

  pub apply_message : MarketActor → MarketMessage → MarketActor
  unfolding dispatch publish
  apply_message actor message = publish (dispatch actor message)

  -- `MarketActor::run`, until the sender is dropped
  pub run : MarketActor → List MarketMessage → MarketActor
  unfolding apply_message
  run actor [] = actor
  run actor (message ∷ messages) = run (apply_message actor message) messages

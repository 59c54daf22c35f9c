-- ===== src/Engine/MarketActor/Sound.antt =====
-- src/engine/market_actor.rs: the invariant of the actor and of its observer.
use text.Mathlib.Text.{◌==◌ as str_eq}
use jev_trader.Prelude.{
  ℕ, ◌≡◌, refl, ◌⊎◌, inl, inr, Option, none, some, List, [], ◌∷◌, arith, ◌==◌, Bool-cases,
  Option-cases, ◌∙◌,
}
use jev_trader.Polymarket.Book
use jev_trader.Polymarket.Book.{OrderBook}
use jev_trader.Polymarket.Book.Replay.{IsValid, apply_delta_lem, apply_snapshot_lem}
use jev_trader.Engine.MarketActor.{
  BookSnapshot, BookDelta, MarketMessage, book_snapshot, book_delta, MarketActor, latest_snapshot,
  check_hash, check_sequence, set_quantity, apply_snapshot, apply_delta, publish, dispatch,
  apply_message, run,
}

-- The actor never holds a malformed book, and the observer sees the book that the actor holds.
pub record IsSound (actor : MarketActor) : Type 0 where
  pub valid : IsValid actor.book
  pub observed : (actor.published ≡ none) ⊎ (actor.published ≡ some (latest_snapshot actor))

pub publish_lem :
    (actor : MarketActor)
    → ((publish actor).book ≡ actor.book)
      × ((publish actor).next_sequence ≡ actor.next_sequence)
      × ((publish actor).yes_token_id ≡ actor.yes_token_id)
unfolding publish
publish_lem actor = elim (Option-cases actor.published) [
  | inl e ↦ ground arith
  | inr (old, e) ↦ ground arith
]

mark_stale-IsValid : (book : OrderBook) → IsValid book → IsValid (Book.mark_stale book)
unfolding Book.mark_stale
mark_stale-IsValid book v = record { bids_side = v.bids_side; asks_side = v.asks_side }

pub check_sequence-IsValid :
    (next actual : Option ℕ) (book : OrderBook)
    → IsValid book
    → IsValid (check_sequence next actual book)
unfolding check_sequence
check_sequence-IsValid none _ book v = v
check_sequence-IsValid (some e) none book v = mark_stale-IsValid book v
check_sequence-IsValid (some e) (some a) book v = elim (Bool-cases (e == a)) [
  | inl h ↦ rw h v
  | inr h ↦ rw h (mark_stale-IsValid book v)
]

pub set_quantity_lem :
    (delta : BookDelta) (book : OrderBook)
    → IsValid book
    → IsValid (set_quantity delta book) × ((set_quantity delta book).stale ≡ book.stale)
unfolding set_quantity
set_quantity_lem delta book v = elim (Option-cases delta.quantity) [
  | inl e ↦ rw e (v, refl)
  | inr (q, e) ↦
      let (w, kept, shown) = apply_delta_lem book delta.side delta.price q v in rw e (w, kept)
]

module _ (hasher : List ℕ → ℕ) where
  check_hash-IsValid :
      (expected : Option ℕ) (book : OrderBook)
      → IsValid book
      → IsValid (check_hash hasher expected book)
  unfolding check_hash
  check_hash-IsValid none book v = v
  check_hash-IsValid (some expected) book v =
      elim (Bool-cases (Book.book_hash hasher book == expected)) [
        | inl h ↦ rw h v
        | inr h ↦ rw h (mark_stale-IsValid book v)
      ]

  apply_delta-IsValid :
      (actor : MarketActor) (d : BookDelta)
      → IsValid actor.book
      → IsValid (apply_delta hasher actor d).book
  unfolding apply_delta
  apply_delta-IsValid actor d v = elim (Bool-cases (str_eq d.token_id actor.yes_token_id)) [
    | inl e ↦ rw e (
        check_hash-IsValid d.book_hash _
          (set_quantity_lem d _
            (check_sequence-IsValid actor.next_sequence d.sequence actor.book v)).0)
    | inr e ↦ rw e v
  ]

  apply_snapshot-IsValid :
      (actor : MarketActor) (s : BookSnapshot)
      → IsValid actor.book
      → IsValid (apply_snapshot hasher actor s).book
  unfolding apply_snapshot
  apply_snapshot-IsValid actor s v = elim (Bool-cases (str_eq s.token_id actor.yes_token_id)) [
    | inl e ↦
        rw e (check_hash-IsValid s.book_hash _ (apply_snapshot_lem actor.book s.bids s.asks).0)
    | inr e ↦ rw e v
  ]

  dispatch-IsValid :
      (actor : MarketActor) (message : MarketMessage)
      → IsValid actor.book
      → IsValid (dispatch hasher actor message).book
  unfolding dispatch
  dispatch-IsValid actor (book_snapshot s) v = apply_snapshot-IsValid actor s v
  dispatch-IsValid actor (book_delta d) v = apply_delta-IsValid actor d v
  dispatch-IsValid actor _ v = v

  dispatch_keeps :
      (actor : MarketActor) (message : MarketMessage)
      → ((dispatch hasher actor message).yes_token_id ≡ actor.yes_token_id)
        × ((dispatch hasher actor message).published ≡ actor.published)
  unfolding dispatch apply_snapshot apply_delta
  dispatch_keeps actor (book_snapshot s) = ground arith
  dispatch_keeps actor (book_delta d) = ground arith
  dispatch_keeps actor _ = (refl, refl)

  pub apply_message-IsSound :
      (actor : MarketActor) (message : MarketMessage)
      → IsSound actor
      → IsSound (apply_message hasher actor message)
        × ((apply_message hasher actor message).yes_token_id ≡ actor.yes_token_id)
  unfolding apply_message publish latest_snapshot
  apply_message-IsSound actor message s =
      let d = dispatch hasher actor message in
      let v : IsValid d.book = dispatch-IsValid actor message s.valid in
      let t = (dispatch_keeps actor message).0 in
      elim (Option-cases d.published) [
        | inl e ↦ rw (e, publish) (record { valid = v; observed = inl e }, t)
        | inr (old, e) ↦ rw (e, publish) (record { valid = v; observed = inr refl }, t)
      ]

  -- After any sequence of messages the actor's book is well-formed, and an observer, if there is one,
  -- sees exactly the actor's book with its stale flag.
  pub run-IsSound :
      (actor : MarketActor) (messages : List MarketMessage)
      → IsSound actor
      → IsSound (run hasher actor messages)
        × ((run hasher actor messages).yes_token_id ≡ actor.yes_token_id)
  unfolding run
  run-IsSound actor [] s = (s, refl)
  run-IsSound actor (m ∷ messages) s =
      let (s', t) = apply_message-IsSound actor m s in
      let (s'', t') = run-IsSound (apply_message hasher actor m) messages s' in (s'', t' ∙ t)

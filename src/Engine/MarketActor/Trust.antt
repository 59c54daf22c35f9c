-- ===== src/Engine/MarketActor/Trust.antt =====
-- src/engine/market_actor.rs: when the book may be trusted.
use text.Mathlib.Text.{◌==◌ as str_eq}
use jev_trader.Prelude.{
  ℕ, ◌≡◌, refl, ◌⊎◌, inl, inr, Bool, true, false, Option, none, some, List, [], ◌∷◌, ◌++◌, arith,
  ◌==◌, if◌then◌else◌, Bool-cases, ap, ◌&&◌,
}
use jev_trader.Prelude.Words.{saturating_add}
use jev_trader.Domain.Events.{TokenId}
use jev_trader.Polymarket.Book
use jev_trader.Polymarket.Book.{OrderBook}
use jev_trader.Polymarket.Book.Replay.{IsValid}
use jev_trader.Engine.MarketActor.{
  BookSnapshot, BookDelta, MarketMessage, book_snapshot, book_delta, MarketActor, check_hash,
  check_sequence, set_quantity, apply_snapshot, apply_delta, dispatch, apply_message, run,
}
use jev_trader.Engine.MarketActor.Sound.{
  IsSound, publish_lem, set_quantity_lem, check_sequence-IsValid, apply_message-IsSound,
}

-- The next sequence number after a message with this one.
abbrev after_sequence : Option ℕ → Option ℕ → Option ℕ
after_sequence next none = next
after_sequence next (some sequence) = some (saturating_add sequence 1)

abbrev pub in_order : Option ℕ → Option ℕ → Bool
in_order (some expected) (some actual) = expected == actual
in_order (some expected) none = false
in_order none _ = true

abbrev pub is_snapshot : TokenId → MarketMessage → Bool
is_snapshot token (book_snapshot s) = str_eq s.token_id token
is_snapshot token _ = false

-- No message is a snapshot of the token, and the sequence numbers of its deltas have no gap.
abbrev pub follows : TokenId → Option ℕ → List MarketMessage → Bool
follows token next [] = true
follows token next (book_snapshot s ∷ messages) =
    let rest = follows token next messages in if str_eq s.token_id token then false else rest
follows token next (book_delta d ∷ messages) =
    let rest = follows token (after_sequence next d.sequence) messages in
    let other = follows token next messages in
    if str_eq d.token_id token then in_order next d.sequence && rest else other
follows token next (_ ∷ messages) = follows token next messages

-- A snapshot of the token, and after it only messages that follow it without a gap.
abbrev pub RestsOnSnapshot : TokenId → List MarketMessage → Type 0
RestsOnSnapshot token messages =
    (before : List MarketMessage) × (s : BookSnapshot) × (after : List MarketMessage) × (messages
      ≡ before ++ (book_snapshot s ∷ after))
    × (str_eq s.token_id token ≡ true)
    × (follows token (after_sequence none s.sequence) after ≡ true)

-- The check of a sequence number leaves a fresh book fresh exactly when the number is in order.
check_sequence-stale :
    (next actual : Option ℕ) (book : OrderBook)
    → (check_sequence next actual book).stale ≡ (if in_order next actual then book.stale else true)
unfolding check_sequence Book.mark_stale
check_sequence-stale none _ book = refl
check_sequence-stale (some e) none book = refl
check_sequence-stale (some e) (some a) book = ground arith

module _ (hasher : List ℕ → ℕ) where
  check_hash-stale :
      (expected : Option ℕ) (book : OrderBook)
      → book.stale ≡ true
      → (check_hash hasher expected book).stale ≡ true
  unfolding check_hash Book.mark_stale
  check_hash-stale none book e = e
  check_hash-stale (some expected) book e = ground arith

  check_hash-fresh :
      (expected : Option ℕ) (book : OrderBook)
      → (check_hash hasher expected book).stale ≡ false
      → book.stale ≡ false
  check_hash-fresh expected book h = elim (Bool-cases book.stale) [
    | inl e ↦ absurd (cc (check_hash-stale expected book e))
    | inr e ↦ e
  ]

  apply_delta-fresh :
      (actor : MarketActor) (d : BookDelta) (messages : List MarketMessage)
      → IsValid actor.book
      → (apply_delta hasher actor d).book.stale ≡ false
      → follows actor.yes_token_id (apply_delta hasher actor d).next_sequence messages ≡ true
      → (actor.book.stale ≡ false)
        × (follows actor.yes_token_id actor.next_sequence (book_delta d ∷ messages) ≡ true)
  unfolding apply_delta
  apply_delta-fresh actor d messages v f h =
      let checked = check_sequence actor.next_sequence d.sequence actor.book in
      ground (
        arith,
        check_hash-fresh d.book_hash (set_quantity d checked),
        (set_quantity_lem d checked
            (check_sequence-IsValid actor.next_sequence d.sequence actor.book v)).1,
        check_sequence-stale actor.next_sequence d.sequence actor.book,
      )

  dispatch-fresh :
      (actor : MarketActor) (message : MarketMessage) (messages : List MarketMessage)
      → IsValid actor.book
      → is_snapshot actor.yes_token_id message ≡ false
      → (dispatch hasher actor message).book.stale ≡ false
      → follows actor.yes_token_id (dispatch hasher actor message).next_sequence messages ≡ true
      → (actor.book.stale ≡ false)
        × (follows actor.yes_token_id actor.next_sequence (message ∷ messages) ≡ true)
  unfolding dispatch
  dispatch-fresh actor (book_snapshot s) messages v n f h = unfold apply_snapshot in ground arith
  dispatch-fresh actor (book_delta d) messages v n f h = apply_delta-fresh actor d messages v f h
  dispatch-fresh actor _ messages v n f h = (f, h)

  snapshot_sequence :
      (actor : MarketActor) (s : BookSnapshot)
      → str_eq s.token_id actor.yes_token_id ≡ true
      → (apply_message hasher actor (book_snapshot s)).next_sequence
        ≡ after_sequence none s.sequence
  unfolding apply_message dispatch apply_snapshot
  snapshot_sequence actor s e = ground (arith, publish_lem (apply_snapshot hasher actor s))

  message_fresh :
      (actor : MarketActor) (m : MarketMessage) (messages : List MarketMessage)
      → IsSound actor
      → (apply_message hasher actor m).book.stale ≡ false
      → follows actor.yes_token_id (apply_message hasher actor m).next_sequence messages ≡ true
      → ((actor.book.stale ≡ false)
          × (follows actor.yes_token_id actor.next_sequence (m ∷ messages) ≡ true))
        ⊎ RestsOnSnapshot actor.yes_token_id (m ∷ messages)
  message_fresh actor m messages s f h = elim (Bool-cases (is_snapshot actor.yes_token_id m)) [
    | inl e ↦ inr (rests m e h)
    | inr e ↦ inl (
        unfold apply_message in
        let (pb, pn, pt) = publish_lem (dispatch hasher actor m) in
        dispatch-fresh actor m messages s.valid e (rw pb at f) (rw pn at h))
  ]
    where
      rests :
          (m : MarketMessage)
          → is_snapshot actor.yes_token_id m ≡ true
          → follows actor.yes_token_id (apply_message hasher actor m).next_sequence messages ≡ true
          → RestsOnSnapshot actor.yes_token_id (m ∷ messages)
      rests (book_snapshot r) e h =
          ([], r, messages, refl, e, rw (snapshot_sequence actor r e) at h)
      rests _ e h = absurd (cc e)

  run_fresh_from :
      (actor : MarketActor) (messages : List MarketMessage)
      → IsSound actor
      → (run hasher actor messages).book.stale ≡ false
      → ((actor.book.stale ≡ false)
          × (follows actor.yes_token_id actor.next_sequence messages ≡ true))
        ⊎ RestsOnSnapshot actor.yes_token_id messages
  unfolding run
  run_fresh_from actor [] s f = inl (f, refl)
  run_fresh_from actor (m ∷ messages) s f =
      let (s', t) = apply_message-IsSound hasher actor m s in
      elim (run_fresh_from (apply_message hasher actor m) messages s' f) [
        | inl (g, h) ↦ message_fresh actor m messages s g (rw t at h)
        | inr (before, r, after, e, y, o) ↦
            inr (m ∷ before, r, after, ap (◌∷◌ m) e, rw t at y, rw t at o)
      ]

  -- A stale actor's book is fresh after some messages only if they end in a snapshot of the token and
  -- messages after it whose deltas for the token have no gap in their sequence numbers: no delta, and
  -- no other message, ever clears the flag.
  pub run_fresh :
      (actor : MarketActor) (messages : List MarketMessage)
      → IsSound actor
      → actor.book.stale ≡ true
      → (run hasher actor messages).book.stale ≡ false
      → RestsOnSnapshot actor.yes_token_id messages
  run_fresh actor messages s stale fresh = elim (run_fresh_from actor messages s fresh) [
    | inl (f, h) ↦ absurd (cc)
    | inr r ↦ r
  ]

-- ===== src/Replay/Synchronizer/Kinds.antt =====
-- src/replay/synchronizer.rs: the order of time, and of the kinds of event at the same time.
use jev_trader.Prelude.{
  ℕ, ◌≤◌, ◌≡◌, refl, ◌⊎◌, inl, inr, false, List, [], ◌∷◌, map, arith, All, All-zip, All-map,
}
use jev_trader.Prelude.Int.{◌≤ℤ◌}
use jev_trader.Replay.Synchronizer.{
  sort_by_key, HistoricalEvent, underlying_tick, poly_top, poly_trade, ts_ms, rank, is_before,
}
use jev_trader.Replay.Synchronizer.Sorting.{IsOrdered, sort_by_key-All, sort_by_key-IsOrdered}

module _ (D : Type 0) where
  abbrev Event : Type 0
  Event = HistoricalEvent D

  abbrev pub NoLater : Event → Event → Type 0
  NoLater a b = ts_ms D a ≤ℤ ts_ms D b

  pub before-NoLater : (a b : Event) → is_before D b a ≡ false → NoLater a b
  unfolding is_before
  before-NoLater a b h = ground arith

  abbrev pub IsTick : Event → Type 0
  IsTick (underlying_tick t d) = Unit
  IsTick _ = ⊥

  abbrev pub IsTop : Event → Type 0
  IsTop (poly_top t d) = Unit
  IsTop _ = ⊥

  abbrev pub IsTrade : Event → Type 0
  IsTrade (poly_trade t d) = Unit
  IsTrade _ = ⊥

  -- The kinds in their order: ticks, tops, trades.
  abbrev pub InKindOrder : Event → Event → Type 0
  InKindOrder a b = IsTick a ⊎ ((IsTop a × (IsTop b ⊎ IsTrade b)) ⊎ (IsTrade a × IsTrade b))

  -- Not later, and at the same time in the order of the kinds.
  abbrev pub GoesFirst : Event → Event → Type 0
  GoesFirst a b = NoLater a b × (ts_ms D a ≡ ts_ms D b → InKindOrder a b)

  -- The same, by the code's own comparison.
  abbrev pub NotAfter : Event → Event → Type 0
  NotAfter a b = is_before D b a ≡ false

  InKindOrder-rank : (a b : Event) → rank D a ≤ rank D b → InKindOrder a b
  InKindOrder-rank (underlying_tick t d) b h = inl tt
  InKindOrder-rank (poly_top t d) (underlying_tick s e) h = absurd (omega (arith, h))
  InKindOrder-rank (poly_top t d) (poly_top s e) h = inr (inl (tt, inl tt))
  InKindOrder-rank (poly_top t d) (poly_trade s e) h = inr (inl (tt, inr tt))
  InKindOrder-rank (poly_trade t d) (underlying_tick s e) h = absurd (omega (arith, h))
  InKindOrder-rank (poly_trade t d) (poly_top s e) h = absurd (omega (arith, h))
  InKindOrder-rank (poly_trade t d) (poly_trade s e) h = inr (inr (tt, tt))

  pub NotAfter-GoesFirst : (a b : Event) → NotAfter a b → GoesFirst a b
  unfolding is_before
  NotAfter-GoesFirst a b h =
      (before-NoLater a b h, λ same. InKindOrder-rank a b (ground (arith, same)))

  NotAfter-kind : (k : ℕ) (a b : Event) → rank D a ≡ k → rank D b ≡ k → NoLater a b → NotAfter a b
  unfolding is_before
  NotAfter-kind k a b same_a same_b h = ground arith

  IsOrdered-kind :
      (k : ℕ) (l : List Event)
      → All (λ e. rank D e ≡ k) l
      → IsOrdered NoLater l
      → IsOrdered NotAfter l
  IsOrdered-kind k [] same h = tt
  IsOrdered-kind k (e ∷ l) same h =
      (All-zip _ _ _ l (λ b. NotAfter-kind k e b same.0) same.1 h.0, IsOrdered-kind k l same.1 h.1)

  pub IsOrdered-map :
      (R S : Event → Event → Type 0)
      → ((a b : Event) → R a b → S a b)
      → (l : List Event) → IsOrdered R l
      → IsOrdered S l
  IsOrdered-map R S f [] h = tt
  IsOrdered-map R S f (e ∷ l) h = (All-map _ _ l (f e) h.0, IsOrdered-map R S f l h.1)

  -- A stream of one kind of event.
  abbrev pub IsUniform : List Event → Type 0
  IsUniform s = All IsTick s ⊎ (All IsTop s ⊎ All IsTrade s)

  rank-IsTick : (e : Event) → IsTick e → rank D e ≡ 0
  rank-IsTick (underlying_tick t d) h = refl
  rank-IsTick (poly_top t d) h = absurd h
  rank-IsTick (poly_trade t d) h = absurd h

  rank-IsTop : (e : Event) → IsTop e → rank D e ≡ 1
  rank-IsTop (underlying_tick t d) h = absurd h
  rank-IsTop (poly_top t d) h = refl
  rank-IsTop (poly_trade t d) h = absurd h

  rank-IsTrade : (e : Event) → IsTrade e → rank D e ≡ 2
  rank-IsTrade (underlying_tick t d) h = absurd h
  rank-IsTrade (poly_top t d) h = absurd h
  rank-IsTrade (poly_trade t d) h = refl

  -- The rank that a stream's events share.
  shared_rank : (s : List Event) → IsUniform s → (k : ℕ) × All (λ e. rank D e ≡ k) s
  shared_rank s (inl ticks) = (0, All-map _ _ s rank-IsTick ticks)
  shared_rank s (inr (inl tops)) = (1, All-map _ _ s rank-IsTop tops)
  shared_rank s (inr (inr trades)) = (2, All-map _ _ s rank-IsTrade trades)

  pub uniform_streams :
      (streams : List (List Event))
      → All IsUniform streams
      → All (IsOrdered NotAfter) (map (sort_by_key (ts_ms D)) streams)
  uniform_streams [] u = tt
  uniform_streams (s ∷ streams) u =
      let (k, same) = shared_rank s u.0 in
      (
        IsOrdered-kind k (sort_by_key (ts_ms D) s) (sort_by_key-All (ts_ms D) _ s same)
            (sort_by_key-IsOrdered (ts_ms D) s),
        uniform_streams streams u.1,
      )

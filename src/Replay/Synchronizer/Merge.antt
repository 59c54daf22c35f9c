-- ===== src/Replay/Synchronizer/Merge.antt =====
-- src/replay/synchronizer.rs, `Synchronizer::merge`: every event once, in order of event time.
use mathlib.Core.Path.{subst}
use mathlib.Core.List.{Perm}
use mathlib.Core.List.Perm
use jev_trader.Prelude.{
  ℕ, zero, suc, ◌<◌, ◌≡◌, refl, inl, inr, false, none, some, List, [], ◌∷◌, map, arith, All,
}
use jev_trader.Replay.Synchronizer.{
  sort_by_key, HistoricalEvent, ts_ms, is_before, best_head, advance, merge_loop, total, merge,
  SynchronizedEvent,
}
use jev_trader.Replay.Synchronizer.Sorting.{IsOrdered, sort_by_key-perm, sort_by_key-IsOrdered}
use jev_trader.Replay.Synchronizer.Kinds.{
  NoLater, before-NoLater, GoesFirst, NotAfter, NotAfter-GoesFirst, IsOrdered-map, IsUniform,
  uniform_streams,
}
use jev_trader.Replay.Synchronizer.Heads.{
  flatten, head_at, IsEmpty, Chosen, best_none, advance-perm, advance-total, advance-All,
  advance-IsOrdered, All-IsLate, late_trans,
}

module _ (D : Type 0) where
  abbrev Event : Type 0
  Event = HistoricalEvent D

  -- The events of the merged stream.
  abbrev pub events : List (SynchronizedEvent D) → List Event
  events out = map (λ e. e.1) out

  flatten-IsEmpty : (streams : List (List Event)) → All (IsEmpty D) streams → flatten streams ≡ []
  flatten-IsEmpty [] h = refl
  flatten-IsEmpty ([] ∷ streams) h = flatten-IsEmpty streams h.1
  flatten-IsEmpty ((e ∷ s) ∷ streams) h = absurd h.0

  -- A round that takes an event, and the last one.
  merge_loop-some :
      (fuel : ℕ) (streams : List (List Event)) (r : Event × ℕ)
      → best_head D none 0 streams ≡ some r
      → merge_loop D (suc fuel) streams
        ≡ (ts_ms D r.0, r.0) ∷ merge_loop D fuel (advance D r.1 streams)
  unfolding merge_loop
  merge_loop-some fuel streams r found = rw (found, merge_loop) refl

  merge_loop-none :
      (fuel : ℕ) (streams : List (List Event))
      → best_head D none 0 streams ≡ none
      → merge_loop D (suc fuel) streams ≡ []
  unfolding merge_loop
  merge_loop-none fuel streams missing = rw (missing, merge_loop) refl

  Chosen-head :
      (streams : List (List Event)) (e : Event) (ei : ℕ)
      → Chosen D 0 streams e ei
      → head_at D ei streams ≡ some e
  Chosen-head streams e ei (n, index, head) =
      subst (λ k. head_at D k streams ≡ some e) (omega (arith, index)) head

  merge_loop-perm :
      (fuel : ℕ) (streams : List (List Event))
      → total D streams < fuel
      → Perm (events (merge_loop D fuel streams)) (flatten streams)
  merge_loop-perm zero streams enough = absurd (omega (arith, enough))
  merge_loop-perm (suc fuel) streams enough = elim (best_none D 0 streams) [
    | inl (missing, empty) ↦
        rw (merge_loop-none fuel streams missing, flatten-IsEmpty streams empty) Perm.rfl
    | inr (r, found, late, chosen) ↦
        let head = Chosen-head streams r.0 r.1 chosen in
        rw (merge_loop-some fuel streams r found) (
          Perm.trans
            (Perm.cons r.0 (
              merge_loop-perm fuel (advance D r.1 streams)
                (omega (arith, advance-total D r.1 r.0 streams head, enough))))
            (advance-perm D r.1 r.0 streams head))
  ]

  merge_loop-All :
      (P : Event → Type 0) (fuel : ℕ) (streams : List (List Event))
      → All (All P) streams
      → All P (events (merge_loop D fuel streams))
  unfolding merge_loop
  merge_loop-All P zero streams a = tt
  merge_loop-All P (suc fuel) streams a = elim (best_none D 0 streams) [
    | inl (missing, empty) ↦ rw (missing, merge_loop) tt
    | inr (r, found, late, chosen) ↦
        let (here, rest) = advance-All D P r.1 r.0 streams (Chosen-head streams r.0 r.1 chosen) a in
        rw (found, merge_loop) (here, merge_loop-All P fuel (advance D r.1 streams) rest)
  ]

  module _ (R : Event → Event → Type 0) (transitive : (a b c : Event) → R a b → R b c → R a c)
      (late_R : (a b : Event) → is_before D b a ≡ false → R a b) where
    merge_loop-IsOrdered :
        (fuel : ℕ) (streams : List (List Event))
        → All (IsOrdered R) streams
        → IsOrdered R (events (merge_loop D fuel streams))
    unfolding merge_loop
    merge_loop-IsOrdered zero streams a = tt
    merge_loop-IsOrdered (suc fuel) streams a = elim (best_none D 0 streams) [
      | inl (missing, empty) ↦ rw (missing, merge_loop) tt
      | inr (r, found, late, chosen) ↦
          let head = Chosen-head streams r.0 r.1 chosen in
          let behind = All-IsLate D R transitive late_R r.0 streams late a in
          let rest = (advance-All D (R r.0) r.1 r.0 streams head behind).1 in
          rw (found, merge_loop)
            (
              merge_loop-All (R r.0) fuel (advance D r.1 streams) rest,
              merge_loop-IsOrdered fuel (advance D r.1 streams)
                  (advance-IsOrdered D R r.1 streams a),
            )
    ]

  sorted_streams :
      (streams : List (List Event))
      → All (IsOrdered (NoLater D)) (map (sort_by_key (ts_ms D)) streams)
  sorted_streams [] = tt
  sorted_streams (s ∷ streams) = (sort_by_key-IsOrdered (ts_ms D) s, sorted_streams streams)

  flatten-perm :
      (streams : List (List Event))
      → Perm (flatten (map (sort_by_key (ts_ms D)) streams)) (flatten streams)
  flatten-perm [] = Perm.rfl
  flatten-perm (s ∷ streams) = Perm.append (sort_by_key-perm (ts_ms D) s) (flatten-perm streams)

  stamped :
      (fuel : ℕ) (streams : List (List Event))
      → All (λ e. e.0 ≡ ts_ms D e.1) (merge_loop D fuel streams)
  unfolding merge_loop
  stamped zero streams = tt
  stamped (suc fuel) streams = elim (best_none D 0 streams) [
    | inl (missing, empty) ↦ rw (missing, merge_loop) tt
    | inr (r, found, late, chosen) ↦
        rw (found, merge_loop) (refl, stamped fuel (advance D r.1 streams))
  ]

  -- Whatever the streams and their own order, the merge ends and gives each of their events exactly
  -- once, stamped with its time, in order of time.
  pub merge_lem :
      (streams : List (List Event))
      → Perm (events (merge D streams)) (flatten streams)
        × IsOrdered (NoLater D) (events (merge D streams))
        × All (λ e. e.0 ≡ ts_ms D e.1) (merge D streams)
  unfolding merge
  merge_lem streams =
      let sorted = map (sort_by_key (ts_ms D)) streams in
      (
        Perm.trans (merge_loop-perm (suc (total D sorted)) sorted (omega arith))
            (flatten-perm streams),
        merge_loop-IsOrdered (NoLater D) (λ a b c h k. omega (arith, h, k)) (before-NoLater D)
            (suc (total D sorted)) sorted (sorted_streams streams),
        stamped (suc (total D sorted)) sorted,
      )

  -- If each stream holds one kind of event, then the merge is in order of time, and at the same time
  -- ticks come before tops, and tops before trades.
  pub merge_kinds :
      (streams : List (List Event))
      → All (IsUniform D) streams
      → IsOrdered (GoesFirst D) (events (merge D streams))
  unfolding merge
  merge_kinds streams u =
      let sorted = map (sort_by_key (ts_ms D)) streams in
      IsOrdered-map D (NotAfter D) (GoesFirst D) (NotAfter-GoesFirst D) (events (merge D streams)) (
        merge_loop-IsOrdered (NotAfter D) (λ a b c h k. late_trans D c b a k h) (λ a b h. h)
          (suc (total D sorted)) sorted (uniform_streams D streams u))

-- ===== src/Engine/Markouts/Tests.antt =====
-- Runs of the markout tracker on concrete data, after the tests of src/engine/pipeline.rs, and the
-- instances of the theorems about it.
use jev_trader.Prelude.{ℕ, ◌+◌, ◌≡◌, refl, true, none, some, List, [], ◌∷◌, length, All}
use jev_trader.Prelude.Int.{pos, saturating_add, ◌+ℤ◌}
use jev_trader.Domain.Events.{buy}
use jev_trader.Engine.ExecutionActor.{control}
use jev_trader.Engine.Markouts.{MarkoutQuote, MarkoutTracker, untouched, observe}
use jev_trader.Engine.Markouts.Horizons.{
  Sighting, observes, observes-length, IsRow, IsRest, observes-IsRow,
}

abbrev quote : MarkoutQuote ℕ
quote = record {
  condition_id = "condition";
  jev_ts = pos 0;
  side = buy;
  price = 400000;
  size = 10;
  quoted_at_ms = pos 0;
  variant = control;
  tags = 0;
  quoted = true;
}

abbrev tracker : MarkoutTracker ℕ
tracker = untouched ℕ quote ∷ []

abbrev sightings : List Sighting
sightings =
    (pos 1000, some 41) ∷ (pos 2000, none) ∷ (pos 10000, some 43) ∷ (pos 60000, some 44) ∷ []

observes_all_kept :
    let o = observes ℕ tracker sightings in length o.completed + length o.remaining ≡ 1
observes_all_kept = observes-length ℕ tracker sightings

observes-IsRow_example :
    let o = observes ℕ tracker sightings in
    All (IsRow ℕ tracker sightings) o.completed × All (IsRest ℕ tracker sightings) o.remaining
observes-IsRow_example = observes-IsRow ℕ tracker sightings

completes_with_first_mids :
    (observes ℕ tracker sightings).completed
    ≡ record {
      quote = quote;
      mids = record { mid_1s = 41; mid_5s = 43; mid_10s = 43; mid_30s = 44; mid_60s = 44 };
      completed_at_ms = pos 60000;
    }
      ∷ []
unfolding observe saturating_add ◌+ℤ◌
completes_with_first_mids = refl

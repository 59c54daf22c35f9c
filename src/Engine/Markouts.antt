-- ===== src/Engine/Markouts.antt =====
-- src/engine/pipeline.rs: the markout tracker, which follows a quote to five horizons. The tags of a
-- quote are carried and never read; their type is a parameter.
pub mod Horizons
mod Tests
use Prim.Native.String.{String}
use jev_trader.Prelude.{ℕ, Bool, Option, none, some, List, [], ◌∷◌, ◌++◌, if◌then◌else◌, length}
use jev_trader.Prelude.Int.{ℤ, pos, leb_ℤ, saturating_add}
use jev_trader.Domain.Events.{TradeSide}
use jev_trader.Engine.ExecutionActor.{Variant}

-- An array of one value for each of `MARKOUT_HORIZONS_MS`.
pub record Mids (A : Type 0) : Type 0 where
  pub mid_1s : A
  pub mid_5s : A
  pub mid_10s : A
  pub mid_30s : A
  pub mid_60s : A

module _ (Tags : Type 0) where
  -- `MarkoutQuote`, which a `PendingMarkout` and a `CompletedMarkout` carry on.
  pub record MarkoutQuote : Type 0 where
    pub condition_id : String
    pub jev_ts : ℤ
    pub side : TradeSide
    pub price : ℕ
    pub size : ℕ
    pub quoted_at_ms : ℤ
    pub variant : Variant
    pub tags : Tags
    pub quoted : Bool

  pub record PendingMarkout : Type 0 where
    pub quote : MarkoutQuote
    pub mids : Mids (Option ℕ)

  pub record CompletedMarkout : Type 0 where
    pub quote : MarkoutQuote
    pub mids : Mids ℕ
    pub completed_at_ms : ℤ

  -- The `pending` field of a `MarkoutTracker`, which is all of it.
  abbrev pub MarkoutTracker : Type 0
  MarkoutTracker = List PendingMarkout

  abbrev pub untouched : MarkoutQuote → PendingMarkout
  untouched quote = record {
    quote = quote;
    mids = record { mid_1s = none; mid_5s = none; mid_10s = none; mid_30s = none; mid_60s = none };
  }

  unfoldable pub add_quote_with_variant : MarkoutTracker → MarkoutQuote → MarkoutTracker
  add_quote_with_variant pending quote = pending ++ untouched quote ∷ []

  -- One round of the loop over the horizons.
  abbrev pub fill_slot : ℤ → ℕ → ℤ → ℕ → Option ℕ → Option ℕ
  fill_slot at_ms mid quoted_at_ms horizon_ms (some earlier) = some earlier
  fill_slot at_ms mid quoted_at_ms horizon_ms none =
      if leb_ℤ (saturating_add quoted_at_ms (pos horizon_ms)) at_ms then some mid else none

  pub fill_slots : ℤ → ℕ → PendingMarkout → PendingMarkout
  fill_slots at_ms mid p =
      let at = fill_slot at_ms mid p.quote.quoted_at_ms in
      record p {
        mids = record {
          mid_1s = at 1000 p.mids.mid_1s;
          mid_5s = at 5000 p.mids.mid_5s;
          mid_10s = at 10000 p.mids.mid_10s;
          mid_30s = at 30000 p.mids.mid_30s;
          mid_60s = at 60000 p.mids.mid_60s;
        };
      }

  -- The mids, if all are there.
  abbrev pub all_mids : Mids (Option ℕ) → Option (Mids ℕ)
  all_mids m = elim m.mid_1s [
    | none ↦ none
    | some a ↦ elim m.mid_5s [
      | none ↦ none
      | some b ↦ elim m.mid_10s [
        | none ↦ none
        | some c ↦ elim m.mid_30s [
          | none ↦ none
          | some d ↦ elim m.mid_60s [
            | none ↦ none
            | some e ↦
                some (record { mid_1s = a; mid_5s = b; mid_10s = c; mid_30s = d; mid_60s = e })
          ]
        ]
      ]
    ]
  ]

  -- What an observation completes, and what stays pending.
  pub record Observed : Type 0 where
    pub completed : List CompletedMarkout
    pub remaining : MarkoutTracker

  abbrev pub sort_out : ℤ → PendingMarkout → Observed → Observed
  sort_out at_ms p rest = elim (all_mids p.mids) [
    | some mids ↦ record rest {
      completed = record { quote = p.quote; mids = mids; completed_at_ms = at_ms } ∷ rest.completed;
    }
    | none ↦ record rest { remaining = p ∷ rest.remaining }
  ]

  pub observe_all : ℤ → ℕ → MarkoutTracker → Observed
  unfolding fill_slots
  observe_all at_ms mid [] = record { completed = []; remaining = [] }
  observe_all at_ms mid (p ∷ pending) =
      sort_out at_ms (fill_slots at_ms mid p) (observe_all at_ms mid pending)

  unfoldable pub observe : MarkoutTracker → ℤ → Option ℕ → Observed
  unfolding observe_all
  observe pending at_ms none = record { completed = []; remaining = pending }
  observe pending at_ms (some mid) = observe_all at_ms mid pending

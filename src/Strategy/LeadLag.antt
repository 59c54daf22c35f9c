-- ===== src/Strategy/LeadLag.antt =====
-- src/strategy/lead_lag.rs and the signal of src/jev/response.rs: the rule that a signal must pass.
use jev_trader.Prelude.{Bool, ◌&&◌}
use jev_trader.Prelude.F64.{F64}
use jev_trader.Config.{QuoteThresholds}

module _ (f : F64) where
  open f use {F, lt, add}

  pub record TickDistribution : Type 0 where
    pub up_3_plus : F
    pub up_2 : F
    pub up_1 : F
    pub flat : F
    pub down_1 : F
    pub down_2 : F
    pub down_3_plus : F

  pub record V1Signal : Type 0 where
    pub yes_pressure_5s : F
    pub no_pressure_5s : F
    pub move_persists : F
    pub underreact_up : F
    pub underreact_down : F
    pub repricing : TickDistribution
    pub repricing_confidence : F
    pub fill_before_decay : F
    pub fill_toxic : F

  abbrev pub p_up_ge_1_tick : V1Signal → F
  p_up_ge_1_tick s = add (add s.repricing.up_1 s.repricing.up_2) s.repricing.up_3_plus

  unfoldable pub should_quote : V1Signal → QuoteThresholds f → Bool
  should_quote s thresholds =
      lt thresholds.under_min s.underreact_up
      && lt thresholds.next_up_min (p_up_ge_1_tick s)
      && lt thresholds.persist_min s.move_persists
      && lt thresholds.fill_min s.fill_before_decay
      && lt s.fill_toxic thresholds.toxic_max
      && lt s.underreact_down thresholds.conflict_max
      && lt s.no_pressure_5s thresholds.no_pressure_max

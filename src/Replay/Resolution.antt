-- ===== src/Replay/Resolution.antt =====
-- src/replay/resolution.rs: which markets may be settled in a replay. A time is an `i64`.
pub mod Evidence
mod Tests
use Prim.Native.String.{String}
use jev_trader.Prelude.{Bool, true, false, not, ◌&&◌, ◌||◌, Option, none, some, if◌then◌else◌}
use jev_trader.Prelude.Int.{ℤ, pos, leb_ℤ}
use jev_trader.Prelude.Text.{is_blank}
use jev_trader.Prelude.Results.{Result, ok, err}

pub data ResolutionOutcome : Type 0 where
  yes no : ResolutionOutcome

pub data Provenance : Type 0 where
  exact proxy : Provenance

pub data Fidelity : Type 0 where
  exact proxy synthetic_complement unknown : Fidelity

pub data ResolutionSkipReason : Type 0 where
  missing_outcome missing_timestamp unreliable_fidelity : ResolutionSkipReason
  unknown_condition proxy_not_allowed : ResolutionSkipReason

pub record ResolutionSkip : Type 0 where
  pub condition_id : String
  pub reason : ResolutionSkipReason

abbrev pub is_proxy : Provenance → Bool
is_proxy Provenance.exact = false
is_proxy Provenance.proxy = true

abbrev pub is_exact : Fidelity → Bool
is_exact Fidelity.exact = true
is_exact _ = false

-- `F` is the type of the strike, which no operation reads.
module _ (F : Type 0) where
  pub record ResolutionSpec : Type 0 where
    pub condition_id : String
    pub market_id : String
    pub asset : String
    pub horizon : String
    pub resolution_source : String
    pub resolution_rule_excerpt : String
    pub fidelity : Fidelity
    pub resolution_at_ms : ℤ
    pub reference : Option String
    pub strike : Option F
    pub start_at : Option String
    pub end_at : Option String

  pub record ResolvedMarket : Type 0 where
    pub spec : ResolutionSpec
    pub outcome : ResolutionOutcome
    pub outcome_provenance : Provenance
    pub time_provenance : Provenance
    pub provenance : Provenance
    pub resolved_at_ms : ℤ

  abbrev pub Resolved : Type 0
  Resolved = Result ResolvedMarket ResolutionSkip

  abbrev skip : ResolutionSpec → ResolutionSkipReason → Resolved
  skip spec reason = err (record { condition_id = spec.condition_id; reason = reason })

  unfoldable pub resolve_market_split :
      ResolutionSpec → Option ResolutionOutcome → Provenance → Provenance → Bool → Bool → Resolved
  resolve_market_split spec outcome outcome_prov time_prov allow_proxy_outcome allow_proxy_time =
      if is_blank spec.condition_id || is_blank spec.market_id
      then skip spec unknown_condition
      else if leb_ℤ spec.resolution_at_ms (pos 0)
      then skip spec missing_timestamp
      else elim outcome [
        | none ↦ skip spec missing_outcome
        | some seen ↦
            if not (is_proxy outcome_prov) && not (is_exact spec.fidelity)
            then skip spec unreliable_fidelity
            else if is_proxy outcome_prov && not allow_proxy_outcome
            then skip spec proxy_not_allowed
            else if is_proxy time_prov && not allow_proxy_time
            then skip spec proxy_not_allowed
            else ok (record {
              spec = spec;
              outcome = seen;
              outcome_provenance = outcome_prov;
              time_provenance = time_prov;
              provenance = outcome_prov;
              resolved_at_ms = spec.resolution_at_ms;
            })
      ]

  unfoldable pub resolve_market :
      ResolutionSpec → Option ResolutionOutcome → Provenance → Bool → Resolved
  unfolding resolve_market_split
  resolve_market spec outcome provenance allow_proxy =
      resolve_market_split spec outcome provenance provenance allow_proxy allow_proxy

-- ===== src/Funding/Config.antt =====
-- The configuration, the inputs and the results of the funding engine
-- (server/src/workers/funding-engine/funding-engine.model.ts), its defaults, and what it asks of the
-- prover and the relay. An optional flag that is absent is false; times are whole milliseconds.
use pnlx.Base.{ℕ, Bool, not, ◌&&◌, String, List, Option, some, some_of}
use pnlx.Base.Int.{ℤ, pos}
use pnlx.Base.Text.{Hex, same?, ◌⧺◌, truthy?}
use pnlx.Base.Result.{Result, throw_if}
use pnlx.Protocol.Markets.{PremiumSource, FundingUpdateRecord, FundingPremiumSampleRecord}

pub record FundingEngineConfig : Type 0 where
  pub impact_margin : Option ℤ
  pub interval_ms : ℕ
  pub max_funding_delta : Option ℤ
  pub minimum_samples : Option ℕ
  pub premium_mode : Option PremiumSource
  pub premium_rate : ℤ
  pub premium_rate_cap : Option ℤ
  pub sample_interval_ms : Option ℕ
  pub settlements_onchain_required : Bool

pub record RunFundingCycleInput : Type 0 where
  pub applied_at : Option ℕ
  pub elapsed_ms : Option ℤ
  pub market_id : Option String
  pub max_funding_delta : Option ℤ
  pub premium_rate : Option ℤ

pub record FundingCycleMarketResult : Type 0 where
  pub elapsed_ms : ℤ
  pub market_id : String
  pub reason : Option String
  pub skipped : Bool
  pub update : Option FundingUpdateRecord

pub record FundingPremiumSampleResult : Type 0 where
  pub sample : FundingPremiumSampleRecord

pub record FundingCycleResult : Type 0 where
  pub applied_at : ℕ
  pub results : List FundingCycleMarketResult

abbrev pub default_sample_interval_ms : ℕ
default_sample_interval_ms = 60000

abbrev pub default_minimum_samples : ℕ
default_minimum_samples = 10

abbrev pub default_impact_margin : ℤ
default_impact_margin = pos 5000000000

abbrev pub default_premium_rate_cap : ℤ
default_premium_rate_cap = pos 5000

-- What the prover is asked to prove (server/src/workers/prover/prover.model.ts).
pub record FundingSettlementProofInput : Type 0 where
  pub applied_at : ℕ
  pub elapsed_ms : ℤ
  pub interval_ms : ℕ
  pub mark_price : ℤ
  pub market_id : String
  pub max_funding_delta : Option ℤ
  pub new_funding_index : ℤ
  pub old_funding_index : ℤ
  pub premium_rate : ℤ

-- What is read of a relayed transaction (server/src/workers/onchain/onchain.model.ts).
pub record RelayedTx : Type 0 where
  pub function_name : Option String
  pub submitted : Bool
  pub tx_hash : Option Hex

-- The prover and the relay together, where the engine has both and the relay is enabled: a call
-- proves and relays a settlement, or throws.
abbrev pub FundingRelay : Type 0
FundingRelay = Option (FundingSettlementProofInput → Result (List RelayedTx))

abbrev pub is_submitted : String → RelayedTx → Bool
is_submitted function_name relay =
    same? relay.function_name (some function_name) && relay.submitted && truthy? relay.tx_hash

-- server/src/shared/protocol/onchain-submission.ts
unfoldable pub assert_submitted_relay : List RelayedTx → String → Result (Unit {0})
assert_submitted_relay relays function_name =
    throw_if (not (some_of (is_submitted function_name) relays))
      (function_name ⧺ " transaction was not submitted")

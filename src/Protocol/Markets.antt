-- ===== src/Protocol/Markets.antt =====
-- Markets, funding and batch runs (packages/protocol-types/src/index.ts). A `number` here is a time, a count or an index, so a
-- natural number; a `bigint` is an integer; an optional field is an `Option`.
use pnlx.Base.{ℕ, String, Option, List}
use pnlx.Base.Int.{ℤ}
use pnlx.Base.Text.{Hex}

pub record MarketConfig : Type 0 where
  pub market_id : String
  pub oracle_price : ℤ
  pub max_leverage : ℤ
  pub initial_margin_rate : ℤ
  pub maintenance_margin_rate : ℤ
  pub funding_index : ℤ

pub data PremiumSource : Type 0 where
  fixed impact_twap : PremiumSource

pub record FundingUpdateRecord : Type 0 where
  pub applied_at : ℕ
  pub funding_delta : ℤ
  pub market_id : String
  pub new_funding_index : ℤ
  pub old_funding_index : ℤ
  pub premium_rate : Option ℤ
  pub premium_sample_count : Option ℕ
  pub premium_source : Option PremiumSource

pub record FundingPremiumSampleRecord : Type 0 where
  pub impact_ask_price : Option ℤ
  pub impact_bid_price : Option ℤ
  pub impact_notional : ℤ
  pub index_price : ℤ
  pub market_id : String
  pub premium_rate : ℤ
  pub sampled_at : ℕ
  pub source : String

pub data BatchExecutionRunStatus : Type 0 where
  failed running settled skipped : BatchExecutionRunStatus

pub data BatchExecutionPhase : Type 0 where
  oracle maker_liquidity matcher proving batch_settlement settlement_commit maker_finalize :
      BatchExecutionPhase

pub record BatchExecutionRunRecord : Type 0 where
  pub aggregate_volume : Option ℤ
  pub batch_id : String
  pub completed_at : Option ℕ
  pub fill_count : Option ℕ
  pub market_id : String
  pub phase : Option BatchExecutionPhase
  pub phase_timestamps : Option (List (BatchExecutionPhase × ℕ))
  pub reason : Option String
  pub run_id : Hex
  pub settlement_digest : Option Hex
  pub started_at : ℕ
  pub status : BatchExecutionRunStatus
  pub updated_at : Option ℕ

-- ===== src/Funding/Cycles.antt =====
-- What the funding of a market changes (server/src/workers/funding-engine/funding-engine.service.ts).
use pnlx.Base.{
  ℕ, ◌≡◌, ◌≢◌, ◌⊎◌, inl, inr, refl, sym, subst, Option, Bool-cases, or_else, true, false, none,
  some, arith,
}
use pnlx.Base.Int.{ℤ, pos, leb_ℤ, negate, ◌≤ℤ◌, ◌+ℤ◌, ◌==ℤ◌}
use pnlx.Base.Result.{ok}
use pnlx.Base.Map
use pnlx.Base.Text.{truthy?}
use pnlx.Base.Map.{get-set_self}
use pnlx.Protocol.Markets.{MarketConfig, FundingUpdateRecord}
use pnlx.Store.State.{Store}
use pnlx.Store.Chains.{chain-eq-ok, pure-eq-ok}
use pnlx.Store.Monad.{lift}
use pnlx.MarketMath.Funding.{FundingIndexDeltaInput, funding_index_delta}
use pnlx.MarketMath.Bounds.{funding_index_delta_bounds}
use pnlx.Store.Markets.{update_market, add_funding_update, funding_update_key}
use pnlx.Funding.Config.{
  FundingEngineConfig, RunFundingCycleInput, FundingCycleMarketResult, FundingSettlementProofInput,
  FundingRelay,
}
use pnlx.Funding.Premium.{FundingPremium}
use pnlx.Funding.Cycle.{
  apply_funding, settle_onchain, charge_market, fund_market, fund_elapsed, fund_premium, run_market,
  funding_record, proof_input, elapsed_since_last_funding, premium_for_market, delta_input,
  max_delta,
}

-- The market is left alone, and so is the store.
abbrev pub IsSkipped : Store → FundingCycleMarketResult → Store → Type 0
IsSkipped s r t = (r.skipped ≡ true) × (r.update ≡ none) × (t ≡ s)

-- The market's index has moved by the update, which is not zero and stored under a new key.
pub record IsMoved (market : MarketConfig) (u : FundingUpdateRecord) (s t : Store) : Type 0 where
  pub by_delta : u.new_funding_index ≡ market.funding_index +ℤ u.funding_delta
  pub nonzero : u.funding_delta ≢ pos 0
  pub index :
      Map.get market.market_id t.markets
      ≡ some (record market { funding_index = u.new_funding_index })
  pub fresh : Map.has (funding_update_key u) s.funding_updates ≡ false
  pub stored : Map.get (funding_update_key u) t.funding_updates ≡ some u

-- The limit holds, where there is one.
abbrev pub IsLimited : Option ℤ → ℤ → Type 0
IsLimited none delta = Unit
IsLimited (some limit) delta = (negate limit ≤ℤ delta) × (delta ≤ℤ limit)

delta-IsLimited :
    (i : FundingIndexDeltaInput) (limit : Option ℤ) (delta : ℤ)
    → i.max_funding_delta ≡ limit
    → funding_index_delta i ≡ ok delta
    → IsLimited limit delta
delta-IsLimited i none delta e h = tt
delta-IsLimited i (some limit) delta e h = funding_index_delta_bounds i limit delta e h

IsMoved-same :
    (market : MarketConfig) (u : FundingUpdateRecord) {s t s' t' : Store}
    → s ≡ s'
    → t ≡ t'
    → IsMoved market u s t
    → IsMoved market u s' t'
IsMoved-same market u e f h = rw (sym e, sym f) h

apply_funding-IsMoved :
    (market : MarketConfig) (delta : ℤ) (at : ℕ) (p : FundingPremium) (s : Store)
    (u : FundingUpdateRecord)
    → (apply_funding market delta at p s).0 ≡ ok u
    → IsMoved market u s (apply_funding market delta at p s).1
unfolding apply_funding update_market add_funding_update
apply_funding-IsMoved market delta at p s u h =
    let moved =
      get-set_self market.market_id
        (record market { funding_index = market.funding_index +ℤ delta }) s.markets in
    let kept =
      get-set_self (funding_update_key (funding_record market delta at p))
        (funding_record market delta at p) s.funding_updates in
    record {
      by_delta = ground (arith, h);
      nonzero = ground (arith, h);
      index = ground (arith, h, moved);
      fresh = ground (arith, h);
      stored = ground (arith, h, kept);
    }

apply_funding-delta :
    (market : MarketConfig) (delta : ℤ) (at : ℕ) (p : FundingPremium) (s : Store)
    (u : FundingUpdateRecord)
    → (apply_funding market delta at p s).0 ≡ ok u
    → u.funding_delta ≡ delta
unfolding apply_funding update_market add_funding_update
apply_funding-delta market delta at p s u h = ground (arith, h)

settle_onchain-same :
    (config : FundingEngineConfig) (relay : FundingRelay) (input : FundingSettlementProofInput)
    (s : Store)
    → (settle_onchain config relay input s).1 ≡ s
unfolding settle_onchain
settle_onchain-same config relay input s = ground arith

module _ (config : FundingEngineConfig) (relay : FundingRelay) (market : MarketConfig) (at : ℕ)
    (input : RunFundingCycleInput) where
  -- The market is skipped, or it is moved by a delta within the limit.
  abbrev pub IsFunded : Store → FundingCycleMarketResult → Store → Type 0
  IsFunded s r t =
      IsSkipped s r t
      ⊎ ((u : FundingUpdateRecord) × (r.update ≡ some u)
          × (r.skipped ≡ false)
          × IsLimited (max_delta config input) u.funding_delta
          × IsMoved market u s t)

  charge_market-IsFunded :
      (elapsed : ℤ) (p : FundingPremium) (delta : ℤ) (s t : Store) (r : FundingCycleMarketResult)
      → IsLimited (max_delta config input) delta
      → charge_market config relay market at input elapsed p delta s ≡ (ok r, t)
      → IsFunded s r t
  unfolding charge_market
  charge_market-IsFunded elapsed p delta s t r limited h =
      let settled =
        chain-eq-ok
          (settle_onchain config relay (proof_input config market at input elapsed p delta)) _ s t
          h in
      let stored = chain-eq-ok (apply_funding market delta at p) _ _ t settled.2 in
      let moved =
        apply_funding-IsMoved market delta at p
          (settle_onchain config relay (proof_input config market at input elapsed p delta) s).1
          stored.0 stored.1 in
      let same =
        settle_onchain-same config relay (proof_input config market at input elapsed p delta) s in
      let end = pure-eq-ok _ _ t stored.2 in
      inr (
        stored.0,
        ground (arith, end.0),
        ground (arith, end.0),
        subst (IsLimited (max_delta config input))
            (sym (apply_funding-delta market delta at p _ stored.0 stored.1)) limited,
        IsMoved-same market stored.0 same end.1 moved,
      )

  fund_market-IsFunded :
      (elapsed : ℤ) (p : FundingPremium) (s t : Store) (r : FundingCycleMarketResult)
      → fund_market config relay market at input elapsed p s ≡ (ok r, t)
      → IsFunded s r t
  unfolding fund_market
  fund_market-IsFunded elapsed p s t r h =
      let known =
        chain-eq-ok (lift (funding_index_delta (delta_input config market input elapsed p))) _ s t
          h in
      elim (Bool-cases (known.0 ==ℤ pos 0)) [
        | inl e ↦ inl (ground (arith, e, known.1, known.2))
        | inr e ↦
            charge_market-IsFunded elapsed p known.0 s t r
              (delta-IsLimited (delta_input config market input elapsed p) (max_delta config input)
                known.0 refl known.1)
              (ground (arith, e, known.1, known.2))
      ]

  fund_elapsed-IsFunded :
      (elapsed : ℤ) (s t : Store) (r : FundingCycleMarketResult)
      → fund_elapsed config relay market at input elapsed s ≡ (ok r, t)
      → IsFunded s r t
  unfolding fund_elapsed fund_premium premium_for_market
  fund_elapsed-IsFunded elapsed s t r h =
      let known =
        chain-eq-ok (premium_for_market config market.market_id at input.premium_rate)
          (fund_premium config relay market at input elapsed) s t h in
      elim (Bool-cases (truthy? known.0.reason)) [
        | inl f ↦ ground (arith, f, known.2)
        | inr f ↦ fund_market-IsFunded elapsed known.0 s t r (ground (arith, f, known.2))
      ]

  -- When the funding of a market returns, it has either skipped the market and left the store alone,
  -- or moved the market's index by the delta of the update that it returns, which is not zero, is
  -- within the limit that the call or else the service sets, if one does, and is stored under a new key.
  pub run_market-IsFunded :
      (s t : Store) (r : FundingCycleMarketResult)
      → run_market config relay market at input s ≡ (ok r, t)
      → IsFunded s r t
  unfolding run_market
  run_market-IsFunded s t r h =
      let elapsed =
        or_else input.elapsed_ms (elapsed_since_last_funding config market.market_id at s) in
      elim (Bool-cases (leb_ℤ elapsed (pos 0))) [
        | inl e ↦ ground (arith, e, h)
        | inr e ↦ fund_elapsed-IsFunded elapsed s t r (ground (arith, e, h))
      ]

-- ===== src/Service/FxRateService/Preview.antt =====
-- A preview shows what a transfer at the same rate will charge.
use ai_spec_driven_developme.Prelude.{String, ◌≡◌, arith}
use ai_spec_driven_developme.Decimal.{Decimal}
use ai_spec_driven_developme.Errors.{Result, ok, err}
use ai_spec_driven_developme.Models.{FxRateSnapshot}
use ai_spec_driven_developme.Config.{Settings}
use ai_spec_driven_developme.Session.{Session}
use ai_spec_driven_developme.Service.FxRateService.{ConversionPreviewResponse, preview_of}
use ai_spec_driven_developme.Service.CrossCurrencyTransferService.Computation.{
  Amounts, calculate_amounts, to_quantum,
}

module _ (snapshot : FxRateSnapshot) (from_currency : String) (amount rate : Decimal) where
  abbrev pub response_of : Result Amounts → Result ConversionPreviewResponse
  response_of (err x) = err x
  response_of (ok a) = ok (record {
    input_amount = amount;
    from_currency = from_currency;
    exchange_rate = rate;
    gross_converted_amount = a.gross_amount;
    estimated_sending_fee = a.sending_fee;
    estimated_receiving_fee = a.receiving_fee;
    estimated_net_amount = a.net_amount;
    total_sender_cost = a.total_sender_cost;
    snapshot_id = snapshot.id;
    effective_at = snapshot.effective_at;
    is_stale = snapshot.is_stale;
  })

  -- A preview has the fees, the amounts and the total cost that `calculate_amounts` computes for a
  -- transfer of the same amount at the same rate, and raises what it raises.
  pub preview_of-calculate_amounts :
      (settings : Settings) (s : Session)
      → preview_of settings snapshot from_currency amount rate s
        ≡ (response_of (calculate_amounts settings amount rate), s)
  unfolding preview_of calculate_amounts to_quantum
  preview_of-calculate_amounts settings s = ground arith

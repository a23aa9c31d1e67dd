-- ===== src/Rest/Transactions/Success.antt =====
-- `merge_into_txes` of src/rpc/light_wallet.cpp answers, and its answer has every output and every spend.
use monero_lws.Base.{◌≡◌, Bool, List}
use monero_lws.Base.Results.{ok}
use monero_lws.Db.Data.{Output, Spend, SpendMeta}
use monero_lws.Rest.Transactions.{Merge, merge}
use monero_lws.Rest.Transactions.Steps.{IsMerged}

abbrev pub meta_of_output : Output → SpendMeta
meta_of_output o = o.spend_meta

module _ (all skip : Bool) where
  abbrev IsAnswered : List Output → List Spend → Merge → Type 0
  IsAnswered outputs spends m =
      (r : Merge) × ((merge all skip outputs spends m ≡ ok r)
        × IsMerged all skip outputs spends m r)

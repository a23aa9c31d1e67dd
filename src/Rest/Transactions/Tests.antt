-- ===== src/Rest/Transactions/Tests.antt =====
-- An output that is spent in a later transaction, which pays another one back, and the theorem at them.
use monero_lws.Base.{ℕ, List, [], ◌∷◌}
use monero_lws.Db.Data.{Output, Spend}
use monero_lws.Rest.Transactions.{no_output, no_meta}

abbrev paid : ℕ → ℕ → ℕ → ℕ → Output
paid height hash low amount = record no_output {
  link = record { height = height; tx_hash = hash };
  spend_meta = record no_meta { id = record { high = 0; low = low }; amount = amount };
}

abbrev spent : Spend
spent = record {
  link = record { height = 12; tx_hash = 8 };
  image = 5;
  source = record { high = 0; low = 1 };
  timestamp = 0;
  unlock_time = 0;
  mixin_count = 15;
  length = 0;
  payment_id = 0;
  sender = record { maj_i = 0; min_i = 0 };
}

abbrev all_paid : List Output
all_paid = paid 11 9 1 100 ∷ paid 12 8 2 30 ∷ paid 12 8 3 5 ∷ []

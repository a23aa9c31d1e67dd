-- ===== src/Rest/Tests.antt =====
-- Two outputs, the later id first, one of them spent, and the theorem at them.
use monero_lws.Base.{ℕ, ◌≡◌, refl, inl, true, List, [], ◌∷◌}
use monero_lws.Base.Results.{ok}
use monero_lws.Db.Data.{Output, Spend}
use monero_lws.Rest.AddressInfo.{
  Rules, Info, is_locked, add_meta, add_outputs, add_spends, get_address_info,
}
use monero_lws.Rest.Balances.{IsAnswer, get_address_info-IsAnswer}

abbrev rules : Rules
rules = record {
  max_block_number = 500000000;
  locked_delta_blocks = 1;
  spendable_age = 10;
  locked_until = λ time. true;
}

abbrev paid : ℕ → ℕ → ℕ → Output
paid low amount height = record {
  link = record { height = height; tx_hash = 99 };
  spend_meta = record {
    id = record { high = 0; low = low };
    amount = amount;
    mixin_count = 15;
    index = 0;
    tx_public = 77;
  };
  timestamp = 1;
  unlock_time = 0;
  tx_prefix_hash = 98;
  public_key = 25;
  ringct_mask = 3;
  extra = 0x80;
  payment_id = 0;
  fee = 10;
  recipient = record { maj_i = 0; min_i = 3 };
}

abbrev spend : Spend
spend = record {
  link = record { height = 51; tx_hash = 100 };
  image = 5;
  source = record { high = 0; low = 9 };
  timestamp = 1;
  unlock_time = 0;
  mixin_count = 15;
  length = 0;
  payment_id = 0;
  sender = record { maj_i = 0; min_i = 3 };
}

abbrev outputs : List Output
outputs = paid 9 1000 20 ∷ paid 4 300 45 ∷ []

abbrev answer : Info
answer = record {
  total_received = 1300;
  locked_funds = 300;
  total_sent = 1000;
  spent_outputs = ((paid 9 1000 20).spend_meta, spend) ∷ [];
}

-- The second output is ten blocks too young.
get_address_info-answer : get_address_info rules 50 outputs (spend ∷ []) ≡ ok answer
unfolding get_address_info add_outputs add_meta is_locked add_spends
get_address_info-answer = refl

get_address_info-IsAnswer_example :
    (info : Info) × ((get_address_info rules 50 outputs (spend ∷ []) ≡ ok info)
      × IsAnswer outputs (spend ∷ []) info)
get_address_info-IsAnswer_example =
    get_address_info-IsAnswer rules 50 outputs (spend ∷ [])
      (((paid 9 1000 20).spend_meta, (inl refl, refl)), tt)

-- ===== src/Db/Account/Tests.antt =====
-- An account with two outputs, out of order, and the theorems at it.
use monero_lws.Base.{◌≡◌, refl, ◌≤◌, true, false, some, List, [], ◌∷◌, ◌++◌}
use monero_lws.Db.Data.{OutputId, AddressIndex, Output}
use monero_lws.Db.Account.{
  Account, Immutable, Receive, make_account, add_out, updated, get_spendable,
}
use monero_lws.Db.Account.Spendable.{IsOrdered, make_account-IsOrdered}
use monero_lws.Db.Account.Updates
use monero_lws.Db.Account.Updates.{
  Call, receive, spend, check_in, run, all_sent, all_accepted, reported, run-reported,
  run-IsOrdered, run-height, add_out_twice,
}

abbrev internal : Immutable
internal = record {
  address = 1;
  id = 4;
  pubs = record { view_public = 10; spend_public = 11 };
  view_key = 12;
}

abbrev primary : AddressIndex
primary = record { maj_i = 0; min_i = 0 }

abbrev second_id : OutputId
second_id = record { high = 0; low = 2 }

abbrev ninth_id : OutputId
ninth_id = record { high = 0; low = 9 }

abbrev stored : List Receive
stored = record { id = ninth_id; index = primary } ∷ record { id = second_id; index = primary } ∷ []

abbrev user : Account
user = make_account internal 50 stored (30 ∷ 20 ∷ [])

abbrev paid : Output
paid = record {
  link = record { height = 51; tx_hash = 99 };
  spend_meta = record {
    id = record { high = 0; low = 5 };
    amount = 1000;
    mixin_count = 15;
    index = 0;
    tx_public = 77;
  };
  timestamp = 1;
  unlock_time = 0;
  tx_prefix_hash = 98;
  public_key = 25;
  ringct_mask = 3;
  extra = 0x80;
  payment_id = 0;
  fee = 10;
  recipient = record { maj_i = 0; min_i = 3 };
}

abbrev user-IsOrdered : IsOrdered user
user-IsOrdered = make_account-IsOrdered internal 50 stored (30 ∷ 20 ∷ [])

user_pubs : user.pubs ≡ 20 ∷ 30 ∷ []
unfolding make_account
user_pubs = refl

accepts : (add_out user paid).1 ≡ true
unfolding add_out make_account
accepts = refl

make_account-IsOrdered_example : IsOrdered (make_account internal 50 stored (30 ∷ 20 ∷ []))
make_account-IsOrdered_example = make_account-IsOrdered internal 50 stored (30 ∷ 20 ∷ [])

abbrev calls : List Call
calls = receive paid ∷ check_in 51 ∷ receive paid ∷ check_in 52 ∷ []

add_out_twice_example :
    add_out (run (add_out user paid).0 calls) paid ≡ (run (add_out user paid).0 calls, false)
add_out_twice_example = add_out_twice user paid paid calls user-IsOrdered accepts refl

finds : get_spendable user ninth_id ≡ some primary
unfolding get_spendable make_account
finds = refl

-- The output goes out with the first check-in, and is not accepted again.
sends_once : reported (all_sent user calls) ≡ paid ∷ []
unfolding all_sent Updates.step add_out updated make_account
sends_once = refl

run-reported_example :
    reported (all_sent user calls) ++ (run user calls).outputs
    ≡ user.outputs ++ all_accepted user calls
run-reported_example = run-reported user calls

run-IsOrdered_example : IsOrdered (run user calls)
run-IsOrdered_example = run-IsOrdered user calls user-IsOrdered

run-height_example : user.height ≤ (run user calls).height
run-height_example = run-height user calls

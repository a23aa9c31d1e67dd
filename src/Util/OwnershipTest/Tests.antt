-- ===== src/Util/OwnershipTest/Tests.antt =====
-- A transaction with two outputs, over arithmetic in place of the curve's, and the theorems at it.
use Prim.Native.Nat.{bit_and}
use monero_lws.Base.{
  Bool-cases, inl, inr, ◌==◌, ℕ, ◌+◌, ◌-◌, ◌≡◌, refl, arith, true, Option, none, some, List, [],
  ◌∷◌,
}
use monero_lws.Base.Results.{ok}
use monero_lws.Db.Account.{Account, Immutable, get_spendable}
use monero_lws.Db.Data.{AddressIndex, TransactionLink, pack}
use monero_lws.Util.OwnershipTest.{Crypto, to_key, TxOut, Tx, Call, World, decode_amount}
use monero_lws.Util.OwnershipTest.Search.{test_offsets, test_inputs, find_owner}
use monero_lws.Util.OwnershipTest.Run.{amount_of, test_outputs, test_user}
use monero_lws.Util.OwnershipTest.Sound.{
  Report, spent, received, noting, IsSound, test_user-IsSound,
}
use monero_lws.Util.OwnershipTest.Complete.{IsNoted, test_user-IsNoted}

abbrev curve : Crypto
curve = record {
  generate_key_derivation = λ key view. some (key + view);
  out_can_be_to_acc = λ tag derivation index. true;
  derive_subaddress_public_key = λ key derivation index. some (key - (derivation + index));
  derivation_to_scalar = λ derivation index. derivation + index;
  ecdh_decode = λ info scalar bulletproof. record {
    mask = info.mask - scalar;
    amount = info.amount - scalar;
  };
  add_keys2 = λ mask amount. mask + amount;
  h2d = λ amount. some amount;
  payment_id_mask = λ key. key;
  identity = 1;
  bulletproof2 = 4;
}

abbrev secrets : Immutable
secrets = record {
  address = 0;
  id = 7;
  pubs = record { view_public = 0; spend_public = 5 };
  view_key = 1;
}

abbrev owner : Account
owner = record {
  immutable = some secrets;
  spendable =
      record { id = record { high = 0; low = 30 }; index = record { maj_i = 0; min_i = 2 } } ∷ [];
  pubs = [];
  spends = [];
  outputs = [];
  height = 10;
}

-- With the derivation 3, the first output is the primary address's, with the amount 4.
abbrev first_out : TxOut
first_out = record { amount = 0; key = some 8; view_tag = none }

abbrev tx : Tx
tx = record {
  version = 2;
  unlock_time = 0;
  vin = to_key 0 (10 ∷ 20 ∷ []) 77 ∷ [];
  vout = first_out ∷ record { amount = 0; key = some 20; view_tag = none } ∷ [];
  pub_key = some 2;
  nonce = none;
  additional_pub_keys = [];
  rct_type = 5;
  commitments = 6 ∷ 0 ∷ [];
  ecdh_info = record { mask = 5; amount = 7 } ∷ record { mask = 0; amount = 0 } ∷ [];
  prefix_hash = 99;
  fee = 1;
}

abbrev call : Call
call = record { height = 11; timestamp = 5; tx_hash = 100; tx = tx; out_ids = 50 ∷ 51 ∷ [] }

abbrev find : Account → ℕ → Option AddressIndex
find user key = none

abbrev start : World (List Report)
start = record { user = owner; rest = [] }

abbrev link : TransactionLink
link = record { height = 11; tx_hash = 100 }

abbrev reports : List Report
reports =
    spent (record {
      link = link;
      image = 77;
      source = record { high = 0; low = 30 };
      timestamp = 5;
      unlock_time = 0;
      mixin_count = 1;
      length = 0;
      payment_id = 0;
      sender = record { maj_i = 0; min_i = 2 };
    })
    ∷ received (record {
      link = link;
      spend_meta = record {
        id = record { high = 0; low = 50 };
        amount = 4;
        mixin_count = 1;
        index = 0;
        tx_public = 2;
      };
      timestamp = 5;
      unlock_time = 0;
      tx_prefix_hash = 99;
      public_key = 8;
      ringct_mask = 2;
      extra = 128;
      payment_id = 0;
      fee = 1;
      recipient = record { maj_i = 0; min_i = 0 };
    })
    ∷ []

-- The second output is nobody's.
tested : test_user curve (noting true find) call 2 start ≡ ok (record start { rest = reports })
unfolding test_user test_inputs test_offsets get_spendable test_outputs find_owner amount_of
    decode_amount pack
tested = refl

test_user-IsSound_example :
    IsSound curve true find call owner secrets (record start { rest = reports })
test_user-IsSound_example =
    test_user-IsSound curve true find call owner secrets 2 (record start { rest = reports }) refl
      tested

amount :
    (ext : ℕ)
    → (a : ℕ × (ℕ × ℕ)) × (amount_of curve (noting true find) call 0 first_out 3 ext ≡ ok (some a))
unfolding amount_of decode_amount
amount ext = elim (Bool-cases (bit_and ext 1 == 0)) [
  | inl e ↦ rw e (_, refl)
  | inr e ↦ rw e (_, refl)
]

test_user-IsNoted_example : IsNoted 8 0 reports
test_user-IsNoted_example =
    test_user-IsNoted curve true find call owner secrets 2 3 8 0 first_out
      (record start { rest = reports }) (omega arith) refl refl refl (refl, (refl, (refl, amount)))
      tested

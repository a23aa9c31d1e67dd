-- ===== src/Util/OwnershipTest/Run.antt =====
-- `ownership_test::operator()` of src/util/ownership_test.cpp.
use Prim.Native.Nat.{bit_and, bit_or}
use monero_lws.Base.{
  ℕ, suc, ◌*◌, ◌^◌, Bool, false, ◌&&◌, ◌||◌, Option, none, some, List, [], ◌∷◌, ltb, leb, ◌==◌,
  if◌then◌else◌, length,
}
use monero_lws.Base.Results.{Result, ok, err, ◌>>=◌}
use monero_lws.Db.Account.{Account, Immutable}
use monero_lws.Db.Data.{Output, pack, u32_max}
use monero_lws.Util.OwnershipTest.{
  Error, unsupported_version, null_account, bad_cast, Crypto, TxOut, Nonce, Call, PaymentId, World,
  Actions, decrypt_payment_id, decode_amount, unencrypted_id, elem_at, derive_each, or_none,
}
use monero_lws.Util.OwnershipTest.Search.{Owner, test_inputs, find_owner}

-- The variables of the loop over the outputs.
pub record Outputs (S : Type 0) : Type 0 where
  pub ext : ℕ
  pub payment : PaymentId
  pub world : World S

module _ {S : Type 0} (c : Crypto) (actions : Actions S) (call : Call) where
  -- The amount, the mask and the flags; `none` where the amount cannot be decrypted.
  abbrev pub decrypted : ℕ → Option (ℕ × ℕ) → Option (ℕ × (ℕ × ℕ))
  decrypted ext none = none
  decrypted ext (some p) = some (p.0, (p.1, bit_or ext 2))

  unfoldable pub amount_of : ℕ → TxOut → ℕ → ℕ → Result Error (Option (ℕ × (ℕ × ℕ)))
  amount_of index out derivation ext =
      let hidden = do
        commitment ← elem_at call.tx.commitments index
        info ← elem_at call.tx.ecdh_info index
        ok (
            decrypted ext (
              decode_amount c commitment info derivation index
                (leb c.bulletproof2 call.tx.rct_type)))
      in if out.amount == 0 && (bit_and ext 1 == 0 && ltb 1 call.tx.version)
        then hidden
        else ok
            (some (out.amount, (c.identity, if ltb 1 call.tx.version then bit_or ext 2 else ext)))

  -- The payment id, decrypted where it is short and was not yet.
  abbrev pub short_id : Option Nonce → ℕ → PaymentId → PaymentId
  short_id none derivation payment = payment
  short_id (some n) derivation payment = elim n.encrypted [
    | none ↦ payment
    | some id ↦
        if payment.length == 0
        then record { length = 8; id = decrypt_payment_id c id derivation * 2 ^ 192 }
        else payment
  ]

  abbrev pub output_row : ℕ → TxOut → ℕ → ℕ → Owner → PaymentId → ℕ × (ℕ × ℕ) → ℕ → Output
  output_row index out key mixin owner payment a id = record {
    link = record { height = call.height; tx_hash = call.tx_hash };
    spend_meta = record {
      id = record { high = if ltb call.tx.version 2 then out.amount else 0; low = id };
      amount = a.0;
      mixin_count = mixin;
      index = index;
      tx_public = owner.tx_public;
    };
    timestamp = call.timestamp;
    unlock_time = call.tx.unlock_time;
    tx_prefix_hash = call.tx.prefix_hash;
    public_key = key;
    ringct_mask = a.1.0;
    extra = pack a.1.1 payment.length;
    payment_id = payment.id;
    fee = call.tx.fee;
    recipient = owner.recipient;
  }

  -- `on_output`, of the owner's output.
  abbrev pub report_output :
      ℕ
      → TxOut
      → ℕ
      → ℕ
      → Owner
      → World S
      → Outputs S
      → Option (ℕ × (ℕ × ℕ))
      → Result Error (Outputs S)
  report_output index out key mixin owner w o none = ok (record o { world = w })
  report_output index out key mixin owner w o (some a) =
      let payment = short_id call.tx.nonce owner.derivation o.payment in
      elem_at call.out_ids index >>= (λ id.
        if ltb u32_max index
        then err bad_cast
        else ok (record {
          ext = a.1.1;
          payment = payment;
          world = actions.on_output (output_row index out key mixin owner payment a id) w;
        }))

  -- The derivations that are tried: that of the transaction's key, and the additional one for the output.
  abbrev pub tried : ℕ → ℕ → List (ℕ × ℕ) → ℕ → Result Error (List (ℕ × ℕ))
  tried derived tx_key [] index = ok ((derived, tx_key) ∷ [])
  tried derived tx_key (d ∷ ds) index = do
    additional ← elem_at (d ∷ ds) index
    ok ((derived, tx_key) ∷ additional ∷ [])

  abbrev pub can_be : Option ℕ → ℕ → List (ℕ × ℕ) → Bool
  can_be view_tag index [] = false
  can_be view_tag index (d ∷ ds) =
      c.out_can_be_to_acc view_tag d.0 index || can_be view_tag index ds

  abbrev pub test_owned :
      ℕ → TxOut → ℕ → ℕ → Outputs S → Option Owner × World S → Result Error (Outputs S)
  test_owned index out key mixin o (none, w) = ok (record o { world = w })
  test_owned index out key mixin o (some owner, w) = do
    a ← amount_of index out owner.derivation o.ext
    report_output index out key mixin owner w o a

  -- The body of the loop over the outputs, from the output's key on.
  abbrev pub test_matched :
      ℕ → ℕ → TxOut → ℕ → ℕ → Outputs S → List (ℕ × ℕ) → Result Error (Outputs S)
  test_matched spend_public index out key mixin o derivations =
      if can_be out.view_tag index derivations
      then test_owned index out key mixin o
          (find_owner c actions call spend_public key index derivations o.world)
      else ok o

  abbrev pub test_key :
      ℕ → ℕ → ℕ → List (ℕ × ℕ) → ℕ → ℕ → TxOut → Outputs S → Option ℕ → Result Error (Outputs S)
  test_key spend_public derived tx_key additional mixin index out o none = ok o
  test_key spend_public derived tx_key additional mixin index out o (some key) =
      tried derived tx_key additional index >>= test_matched spend_public index out key mixin o

  -- The loop, with the account's key, the derivations and the number of the first output.
  unfoldable pub test_outputs :
      ℕ → ℕ → ℕ → List (ℕ × ℕ) → ℕ → ℕ → List TxOut → Outputs S → Result Error (Outputs S)
  test_outputs spend_public derived tx_key additional mixin index [] o = ok o
  test_outputs spend_public derived tx_key additional mixin index (out ∷ vout) o =
      test_key spend_public derived tx_key additional mixin index out o out.key
      >>= test_outputs spend_public derived tx_key additional mixin (suc index) vout

  -- `additional_derivations` for an account.
  abbrev pub additional_of : ℕ → List (ℕ × ℕ)
  additional_of view_key =
      if actions.subaddresses && length call.tx.additional_pub_keys == length call.tx.vout
      then or_none (derive_each c view_key call.tx.additional_pub_keys)
      else []

  -- The inputs and the outputs, for an account with those keys, which the callbacks leave as they are.
  abbrev pub test_derived : ℕ → Immutable → World S → Option ℕ → Result Error (World S)
  test_derived tx_key i w none = ok w
  test_derived tx_key i w (some derived) = do
    t ←
        test_inputs c actions call (unencrypted_id call.tx.nonce) call.tx.vin
          (record { ext = 0; mixin = 0; world = w })
    o ←
        test_outputs i.pubs.spend_public derived tx_key (additional_of i.view_key) t.mixin 0
          call.tx.vout
          (record { ext = t.ext; payment = unencrypted_id call.tx.nonce; world = t.world })
    ok o.world

  abbrev pub test_keys : ℕ → World S → Option Immutable → Result Error (World S)
  test_keys tx_key w none = err null_account
  test_keys tx_key w (some i) =
      test_derived tx_key i w (c.generate_key_derivation tx_key i.view_key)

  -- The body of the loop over the accounts.
  unfoldable pub test_user : ℕ → World S → Result Error (World S)
  test_user tx_key w =
      if leb call.height w.user.height then ok w else test_keys tx_key w w.user.immutable

  unfoldable pub test_users : ℕ → List Account → S → Result Error (List Account × S)
  test_users tx_key [] s = ok ([], s)
  test_users tx_key (user ∷ users) s = do
    w ← test_user tx_key (record { user = user; rest = s })
    r ← test_users tx_key users w.rest
    ok (w.user ∷ r.0, r.1)

  -- `ownership_test::operator()`
  unfoldable pub ownership_test : List Account → S → Result Error (List Account × S)
  ownership_test users s =
      if ltb 2 call.tx.version
      then err unsupported_version
      else elim call.tx.pub_key [ none ↦ ok (users, s) | some key ↦ test_users key users s ]

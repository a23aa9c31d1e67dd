-- ===== src/Util/OwnershipTest.antt =====
-- src/util/ownership_test.h and ownership_test.cpp, with src/util/transactions.cpp: which inputs and outputs of a transaction are
-- an account's. `Crypto` has the functions of Monero that the code calls; a key, derivation or hash is a number. A
-- `Tx` has what Monero's functions read of a transaction. The callbacks may change the account and whatever else they
-- reach, of the type `S`; what is thrown is an `Error`.
pub mod Complete
pub mod Run
pub mod Search
pub mod Sound
mod Tests
use Prim.Native.Nat.{bit_and, bit_or, bit_xor}
use monero_lws.Base.{
  ℕ, suc, ◌+◌, ◌-◌, ◌*◌, ◌%◌, ◌^◌, max, Bool, true, false, not, ◌&&◌, ◌||◌, Option, none, some,
  List, [], ◌∷◌, ltb, leb, ◌==◌, if◌then◌else◌, length, get_elem?,
}
use monero_lws.Base.Results.{Result, ok, err, ◌>>=◌}
use monero_lws.Db.Account.{Account, Immutable, get_spendable}
use monero_lws.Db.Data.{AddressIndex, OutputId, Output, Spend, is_zero, pack, u32_max, u64_max}

pub data Error : Type 0 where
  unsupported_version null_account out_of_range bad_cast : Error

-- `rct::ecdhTuple`
pub record Ecdh : Type 0 where
  pub mask : ℕ
  pub amount : ℕ

pub record Crypto : Type 0 where
  pub generate_key_derivation : ℕ → ℕ → Option ℕ
  pub out_can_be_to_acc : Option ℕ → ℕ → ℕ → Bool
  pub derive_subaddress_public_key : ℕ → ℕ → ℕ → Option ℕ
  pub derivation_to_scalar : ℕ → ℕ → ℕ
  pub ecdh_decode : Ecdh → ℕ → Bool → Ecdh
  pub add_keys2 : ℕ → ℕ → ℕ
  pub h2d : ℕ → Option ℕ
  -- The first eight bytes of `cn_fast_hash` of the key and `HASH_KEY_ENCRYPTED_PAYMENT_ID`.
  pub payment_id_mask : ℕ → ℕ
  -- `rct::identity` and `RCTTypeBulletproof2`
  pub identity : ℕ
  pub bulletproof2 : ℕ

pub data Input : Type 0 where
  -- `txin_to_key`: the amount, the relative offsets and the key image.
  to_key : ℕ → List ℕ → ℕ → Input
  gen other : Input

-- A `tx_out`, with what `get_output_public_key` and `get_output_view_tag` read of it.
pub record TxOut : Type 0 where
  pub amount : ℕ
  pub key : Option ℕ
  pub view_tag : Option ℕ

-- What is found in a `tx_extra_nonce`.
pub record Nonce : Type 0 where
  pub payment_id : Option ℕ
  pub encrypted : Option ℕ

pub record Tx : Type 0 where
  pub version : ℕ
  pub unlock_time : ℕ
  pub vin : List Input
  pub vout : List TxOut
  pub pub_key : Option ℕ
  pub nonce : Option Nonce
  pub additional_pub_keys : List ℕ
  pub rct_type : ℕ
  pub commitments : List ℕ
  pub ecdh_info : List Ecdh
  pub prefix_hash : ℕ
  pub fee : ℕ

-- The arguments of the test but the accounts; the hash is the one given or the one computed.
pub record Call : Type 0 where
  pub height : ℕ
  pub timestamp : ℕ
  pub tx_hash : ℕ
  pub tx : Tx
  pub out_ids : List ℕ

-- `std::pair<std::uint8_t, db::output::payment_id_>`; a short id is the first eight of the 32 bytes.
pub record PaymentId : Type 0 where
  pub length : ℕ
  pub id : ℕ

-- `lws::decrypt_payment_id`
unfoldable pub decrypt_payment_id : Crypto → ℕ → ℕ → ℕ
decrypt_payment_id c out key = bit_xor out (c.payment_id_mask key)

-- `lws::decode_amount`
unfoldable pub decode_amount : Crypto → ℕ → Ecdh → ℕ → ℕ → Bool → Option (ℕ × ℕ)
decode_amount c commitment info sk index bulletproof2 =
    let copy = c.ecdh_decode info (c.derivation_to_scalar sk index) bulletproof2 in
    if commitment == c.add_keys2 copy.mask copy.amount
    then elim (c.h2d copy.amount) [ none ↦ none | some amount ↦ some (amount, copy.mask) ]
    else none

-- The account that is tested, and what else the callbacks change.
pub record World (S : Type 0) : Type 0 where
  pub user : Account
  pub rest : S

-- The callbacks return: what they could throw is left out. They may change the account, but not its keys, which only the
-- constructor and an assignment of another account set.
pub record Actions (S : Type 0) : Type 0 where
  pub on_spend : Spend → World S → World S
  pub on_output : Output → World S → World S
  -- `storage_reader::find_subaddress`, with an error as `none`, and `storage::update_lookahead`.
  pub find_subaddress : Account → ℕ → S → Option AddressIndex
  pub upsert_lookahead : Account → ℕ → AddressIndex → S → S
  -- Whether `subaddress` is there, and whether its reader is borrowed.
  pub subaddresses : Bool
  pub borrowed : Bool

-- `unencrypted_id`
abbrev pub unencrypted_id : Option Nonce → PaymentId
unencrypted_id none = record { length = 0; id = 0 }
unencrypted_id (some n) = elim n.payment_id [
  | none ↦ record { length = 0; id = 0 }
  | some id ↦ record { length = 32; id = id }
]

-- `at`
abbrev pub elem_at {ℓ} : {A : Type ℓ} → List A → ℕ → Result Error A
elem_at xs i = elim (get_elem? xs i) [ none ↦ err out_of_range | some x ↦ ok x ]

-- `additional_derivations`, each with its key; none of them where one cannot be generated.
abbrev pub both_derived : Option ℕ → ℕ → Option (List (ℕ × ℕ)) → Option (List (ℕ × ℕ))
both_derived none k ds = none
both_derived (some d) k none = none
both_derived (some d) k (some ds) = some ((d, k) ∷ ds)

abbrev pub derive_each : Crypto → ℕ → List ℕ → Option (List (ℕ × ℕ))
derive_each c view_key [] = some []
derive_each c view_key (k ∷ keys) =
    both_derived (c.generate_key_derivation k view_key) k (derive_each c view_key keys)

abbrev pub or_none : Option (List (ℕ × ℕ)) → List (ℕ × ℕ)
or_none none = []
or_none (some ds) = ds

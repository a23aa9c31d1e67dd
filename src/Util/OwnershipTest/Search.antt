-- ===== src/Util/OwnershipTest/Search.antt =====
-- The parts of `ownership_test::operator()` of src/util/ownership_test.cpp: the test of the inputs, and the search for the owner
-- of an output.
use Prim.Native.Nat.{bit_or}
use monero_lws.Base.{
  ℕ, ◌+◌, ◌-◌, ◌%◌, ◌^◌, max, Option, none, some, List, [], ◌∷◌, ltb, ◌==◌, if◌then◌else◌, length,
}
use monero_lws.Base.Results.{Result, ok, err}
use monero_lws.Db.Account.{get_spendable}
use monero_lws.Db.Data.{AddressIndex, OutputId, is_zero, u32_max, u64_max}
use monero_lws.Util.OwnershipTest.{
  Error, bad_cast, Crypto, Input, to_key, gen, other, Call, PaymentId, World, Actions,
}

-- The address of an output to the primary address.
abbrev pub primary : AddressIndex
primary = record { maj_i = 0; min_i = 0 }

-- Whose output it is: the address, and `active_derivation` and `active_pub`.
pub record Owner : Type 0 where
  pub recipient : AddressIndex
  pub derivation : ℕ
  pub tx_public : ℕ

-- The variables that the inputs leave.
pub record Tested (S : Type 0) : Type 0 where
  pub ext : ℕ
  pub mixin : ℕ
  pub world : World S

module _ {S : Type 0} (c : Crypto) (actions : Actions S) (call : Call) where
  -- `on_spend`, where the output is the account's.
  abbrev pub report_spend : OutputId → ℕ → ℕ → PaymentId → Option AddressIndex → World S → World S
  report_spend id image mixin payment none w = w
  report_spend id image mixin payment (some index) w =
      actions.on_spend
        (record {
          link = record { height = call.height; tx_hash = call.tx_hash };
          image = image;
          source = id;
          timestamp = call.timestamp;
          unlock_time = call.tx.unlock_time;
          mixin_count = mixin;
          length = payment.length;
          payment_id = payment.id;
          sender = index;
        })
        w

  -- The loop over the offsets, from the output that was reached.
  unfoldable pub test_offsets : ℕ → ℕ → ℕ → PaymentId → ℕ → List ℕ → World S → World S
  test_offsets amount image mixin payment goffset [] w = w
  test_offsets amount image mixin payment goffset (o ∷ offsets) w =
      let id : OutputId = record { high = amount; low = (goffset + o) % 2 ^ 64 } in
      test_offsets amount image mixin payment ((goffset + o) % 2 ^ 64) offsets
        (report_spend id image mixin payment (get_spendable w.user id) w)

  unfoldable pub test_inputs : PaymentId → List Input → Tested S → Result Error (Tested S)
  test_inputs payment [] t = ok t
  test_inputs payment (to_key amount offsets image ∷ vin) t =
      let mixin = max 1 (length offsets) - 1 in
      let rest = test_inputs payment vin (record t {
        mixin = mixin;
        world = test_offsets amount image mixin payment 0 offsets t.world;
      }) in
      if ltb u32_max mixin then err bad_cast else rest
  test_inputs payment (gen ∷ vin) t = test_inputs payment vin (record t { ext = bit_or t.ext 1 })
  test_inputs payment (other ∷ vin) t = test_inputs payment vin t

  -- `subaddress_reader::update_lookahead`
  unfoldable pub update_lookahead : AddressIndex → World S → World S
  update_lookahead match w =
      let height = if call.height == u64_max then w.user.height else call.height in
      if is_zero match
      then w
      else (if actions.borrowed
          then w
          else record w { rest = actions.upsert_lookahead w.user height match w.rest })

  -- The two attempts, over the derivations with their keys. The owner that is found has the lookahead updated.
  abbrev pub found_subaddress :
      ℕ → ℕ → Option AddressIndex → World S → Option Owner × World S → Option Owner × World S
  found_subaddress derivation pub_key none w next = next
  found_subaddress derivation pub_key (some match) w next = (
    some (record { recipient = match; derivation = derivation; tx_public = pub_key }),
    update_lookahead match w,
  )

  abbrev pub attempt :
      ℕ → ℕ → ℕ → Option ℕ → World S → Option Owner × World S → Option Owner × World S
  attempt spend_public derivation pub_key none w next = next
  attempt spend_public derivation pub_key (some derived_pub) w next =
      if spend_public == derived_pub
      then (some (record { recipient = primary; derivation = derivation; tx_public = pub_key }), w)
      else (if actions.subaddresses
          then found_subaddress derivation pub_key
              (actions.find_subaddress w.user derived_pub w.rest) w next
          else next)

  unfoldable pub find_owner : ℕ → ℕ → ℕ → List (ℕ × ℕ) → World S → Option Owner × World S
  find_owner spend_public out_key index [] w = (none, w)
  find_owner spend_public out_key index (d ∷ ds) w =
      attempt spend_public d.0 d.1 (c.derive_subaddress_public_key out_key d.0 index) w
        (find_owner spend_public out_key index ds w)

-- ===== src/Wire/Msgpack/Tests.antt =====
-- An object with two fields, written and passed over, and the theorems at it.
use monero_lws.Base.{
  All, length, length-drop, ◌≤◌, ◌≢◌, some, none, ℕ, ◌≡◌, refl, ◌-◌, ◌^◌, ◌++◌, ◌∷◌, [], List, true,
  false, arith, drop, drop-append-length,
}
use monero_lws.Base.Results.{ok, err}
use monero_lws.Wire.Msgpack.{out_of_fuel}
unfoldable use monero_lws.Wire.Msgpack.Bytes.{to_big}
use monero_lws.Wire.Msgpack.Write.{Writer, element}
use monero_lws.Wire.Msgpack.Write
use monero_lws.Wire.Msgpack.Read
use monero_lws.Wire.Msgpack.Skip.{skip_value, KeyMap, find_key, same_bytes}
use monero_lws.Wire.Msgpack.Skip
use monero_lws.Wire.Msgpack.Halting.{skip_value-halts}
use monero_lws.Wire.Msgpack.Keys.{key-unknown}
use monero_lws.Wire.Msgpack.Integers.{reader}
use monero_lws.Wire.Msgpack.Signed.{integer_round_trip}
use monero_lws.Wire.Msgpack.Tokens.{
  IsWritable, Token, unsigned_token, integer_token, array_token, object_token, boolean_token,
  string_token, end_token, write_tokens, depth_after_all,
}
use monero_lws.Wire.Msgpack.Trees.{after_all, skip_value-complete}

abbrev fresh : Writer
fresh = record { bytes = []; expected = 1; integer_keys = false }

abbrev fields : List Token
fields =
    object_token 2
    ∷ string_token (97 ∷ [])
    ∷ unsigned_token 300
    ∷ string_token (98 ∷ [])
    ∷ array_token 2
    ∷ integer_token (2 ^ 64 - 200)
    ∷ boolean_token true
    ∷ end_token
    ∷ end_token
    ∷ []

abbrev encoded : List ℕ
encoded = 0x82 ∷ 0xa1 ∷ 97 ∷ 0xcd ∷ 1 ∷ 44 ∷ 0xa1 ∷ 98 ∷ 0x92 ∷ 0xd1 ∷ 255 ∷ 56 ∷ 0xc3 ∷ []

fields_written : write_tokens fresh fields ≡ ok (record fresh { bytes = encoded; expected = 0 })
unfolding Write.integer Write.unsigned_integer Write.string Write.boolean Write.start_array
    Write.start_object Write.end_container Write.do_integer Write.do_unsigned_integer
    Write.write_count Write.write_fixed_count Write.write_signed Write.write_endian to_big
fields_written = refl

integer_round_trip_example :
    (bs : List ℕ) × ((Write.integer fresh (2 ^ 64 - 200) ≡ ok (element fresh bs))
      × (Read.integer (reader (bs ++ 1 ∷ []) 1 2) ≡ ok (2 ^ 64 - 200, reader (1 ∷ []) 0 2)))
integer_round_trip_example = integer_round_trip (2 ^ 64 - 200) fresh (1 ∷ []) 0 2 (omega arith)

fields-IsWritable : All IsWritable fields
fields-IsWritable = (
  omega arith,
  (omega arith, (omega arith, (omega arith, (omega arith, (omega arith, (tt, (tt, (tt, tt)))))))),
)

skip_value-complete_example :
    (bs : List ℕ) × ((write_tokens fresh fields ≡ ok (after_all fresh fields bs))
      × (skip_value drop (reader (bs ++ 7 ∷ []) 4 1)
          ≡ ok (reader (7 ∷ []) 3 (depth_after_all 1 fields))))
skip_value-complete_example =
    skip_value-complete drop drop-append-length fields fresh (7 ∷ []) 3 1 refl fields-IsWritable
      (omega arith) (omega arith)

drop-shortens : (n : ℕ) (xs : List ℕ) → length (drop n xs) ≤ length xs
drop-shortens n xs = omega (arith, length-drop n xs)

skip_value-halts_example : skip_value drop (reader encoded 1 0) ≢ err out_of_fuel
skip_value-halts_example =
    skip_value-halts drop drop-append-length drop-shortens (reader encoded 1 0)

abbrev asked : List KeyMap
asked = record { name = 97 ∷ []; id = 0 } ∷ record { name = 98 ∷ []; id = 1 } ∷ []

asked_known : find_key (λ k. same_bytes (98 ∷ []) k.name) 0 asked ≡ some 1
unfolding find_key
asked_known = refl

asked_unknown : find_key (λ k. same_bytes (99 ∷ []) k.name) 0 asked ≡ none
unfolding find_key
asked_unknown = refl

key-unknown_example :
    (bs : List ℕ) × ((write_tokens fresh (string_token (99 ∷ []) ∷ fields)
        ≡ ok (after_all fresh (string_token (99 ∷ []) ∷ fields) bs))
      × (Skip.key drop asked 2 (reader (bs ++ 5 ∷ []) 5 1)
          ≡ Skip.key drop asked 1 (reader (5 ∷ []) 3 (depth_after_all 1 fields))))
key-unknown_example =
    key-unknown drop drop-append-length asked (99 ∷ []) fields 1 fresh (5 ∷ []) 3 1 (omega arith)
      asked_unknown refl fields-IsWritable (omega arith) (omega arith)

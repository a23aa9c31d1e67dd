-- ===== src/Wire/Msgpack/Keys.antt =====
-- `key` of src/wire/msgpack/read.cpp on the fields of an object that was written with strings as keys.
use mathlib.Core.List.{append_assoc}
use monero_lws.Base.{
  ℕ, suc, ◌+◌, ◌%◌, ◌-◌, ◌^◌, ◌<◌, ◌≡◌, refl, ◌∙◌, arith, true, false, none, some, List, ◌∷◌, ◌++◌,
  ◌||◌, dec_lt, inl, inr, length, All,
}
use monero_lws.Base.Results.{ok}
use monero_lws.Wire.Msgpack.{string_types, unsigned_types, ftag_string, ftag_unsigned, matches}
use monero_lws.Wire.Msgpack.Bytes.{to_big}
use monero_lws.Wire.Msgpack.Write.{Writer, element, write_endian}
use monero_lws.Wire.Msgpack.Write
use monero_lws.Wire.Msgpack.Read.{Reader, read_string}
use monero_lws.Wire.Msgpack.Skip.{
  RemovesPrefix, KeyMap, same_bytes, find_key, read_key, matches_types, skip_value,
}
use monero_lws.Wire.Msgpack.Skip
use monero_lws.Wire.Msgpack.Integers.{reader, start_element-reader, Chosen, chosen}
use monero_lws.Wire.Msgpack.Counts.{
  read_sized-to_big, read_string-fixed, string_tag, long_string_write, short_string_write,
}
use monero_lws.Wire.Msgpack.Containers.{matches_types-In}
use monero_lws.Wire.Msgpack.Tokens.{
  Token, string_token, write_tokens, depth_after_all, IsWritable, complete, announced,
}
use monero_lws.Wire.Msgpack.Trees.{after_all, write_tokens-cons, skip_tokens}

-- The bytes of a string, from its tag on.
StringBytes : List ℕ → List ℕ → Type 0
StringBytes s rest =
    (b : ℕ) × ((bs : List ℕ) × (((matches ftag_string b || matches_types string_types b) ≡ true)
        × (((w : Writer) → Write.string w s ≡ ok (element w (b ∷ bs)))
            × (read_string (bs ++ rest) b ≡ ok (s, rest)))))

string_bytes : (s rest : List ℕ) → length s < 2 ^ 32 → StringBytes s rest
unfolding StringBytes write_endian
string_bytes s rest h = elim (dec_lt 31 (length s)) [
  | yes l ↦ (
    (c.0).tag,
    (
      to_big (c.0).size (length s) ++ s,
      (
        either (c.0).tag (matches_types-In string_types c.0 c.1.0),
        (
          λ w. long_string_write s w c l,
          string_tag c.0 ((to_big (c.0).size (length s) ++ s) ++ rest) c.1.0
              ∙ read_sized-to_big (c.0).size s rest c.1.1.0,
        ),
      ),
    ),
  )
  | no l ↦ (
    0xa0 + length s % 256,
    (
      s,
      (
        ground arith,
        (λ w. short_string_write s w (omega arith), read_string-fixed s rest (omega arith)),
      ),
    ),
  )
]
  where
    c : Chosen (length s) string_types
    c = chosen string_types (length s) (inr (inr (inl h)))

    either :
        (b : ℕ)
        → matches_types string_types b ≡ true
        → (matches ftag_string b || matches_types string_types b) ≡ true
    either b k = rw k (ground arith)

read_key-string :
    (map : List KeyMap) (b n d : ℕ) (bs rest s : List ℕ)
    → (matches ftag_string b || matches_types string_types b) ≡ true
    → read_string (bs ++ rest) b ≡ ok (s, rest)
    → read_key map b (reader (bs ++ rest) n d)
      ≡ ok (find_key (λ k. same_bytes s k.name) 0 map, reader rest n d)
unfolding read_key
read_key-string map b n d bs rest s h k = rw (not_fixed, not_sized, h, k) refl
  where
    not_fixed : matches ftag_unsigned b ≡ false
    not_fixed = ground arith

    not_sized : matches_types unsigned_types b ≡ false
    not_sized = ground arith

module _ (remove_prefix : ℕ → List ℕ → List ℕ) (removes : RemovesPrefix remove_prefix) where
  -- A key that the caller asks for, written as a string, is found with its index in the map; the reader
  -- is left at the value, and one field less is to come.
  pub key-known :
      (map : List KeyMap) (name : List ℕ) (index state : ℕ) (w : Writer) (rest : List ℕ) (n d : ℕ)
      → length name < 2 ^ 32
      → find_key (λ k. same_bytes name k.name) 0 map ≡ some index
      → (bs : List ℕ) × ((Write.string w name ≡ ok (element w bs))
          × (Skip.key remove_prefix map (suc state) (reader (bs ++ rest) (suc n) d)
              ≡ ok (some index, (state, reader rest n d))))
  unfolding Skip.key StringBytes
  key-known map name index state w rest n d h f = (
    c.0 ∷ c.1.0,
    (
      c.1.1.1.0 w,
      rw
          (
            start_element-reader c.0 (c.1.0 ++ rest) n d,
            read_key-string map c.0 n d c.1.0 rest name c.1.1.0 c.1.1.1.1,
            f,
          )
          refl,
    ),
  )
    where
      c : StringBytes name rest
      c = string_bytes name rest h

  key-skips :
      (map : List KeyMap) (state b : ℕ) (bs : List ℕ) (n d : ℕ) (r s : Reader)
      → read_key map b (reader bs n d) ≡ ok (none, r)
      → skip_value remove_prefix r ≡ ok s
      → Skip.key remove_prefix map (suc state) (reader (b ∷ bs) (suc n) d)
        ≡ Skip.key remove_prefix map state s
  unfolding Skip.key
  key-skips map state b bs n d r s h k = rw (start_element-reader b bs n d, h, k) refl

  -- A field that the caller does not ask for, its key written as a string and its value by a complete
  -- sequence of calls within the limits of `skip_value`, is passed over, and `key` goes on with the next
  -- field; the depth is left as `skip_value` leaves it.
  pub key-unknown :
      (map : List KeyMap) (name : List ℕ) (ts : List Token) (state : ℕ) (w : Writer) (rest : List ℕ)
      (n d : ℕ)
      → length name < 2 ^ 32
      → find_key (λ k. same_bytes name k.name) 0 map ≡ none
      → complete 1 ts ≡ true
      → All IsWritable ts
      → suc n + announced ts < 2 ^ 64 - 1
      → depth_after_all d ts < 100
      → (bs : List ℕ) × ((write_tokens w (string_token name ∷ ts)
            ≡ ok (after_all w (string_token name ∷ ts) bs))
          × (Skip.key remove_prefix map (suc state) (reader (bs ++ rest) (suc (suc n)) d)
              ≡ Skip.key remove_prefix map state (reader rest n (depth_after_all d ts))))
  unfolding StringBytes
  key-unknown map name ts state w rest n d h f e a l s = (
    (c.0 ∷ c.1.0) ++ v.0,
    (write_tokens-cons w (string_token name) ts (c.0 ∷ c.1.0) v.0 (c.1.1.1.0 w) (v.1.0 _), read),
  )
    where
      v :
          (bs : List ℕ) × (((w : Writer) → write_tokens w ts ≡ ok (after_all w ts bs))
            × (skip_value remove_prefix (reader (bs ++ rest) (suc n) d)
                ≡ ok (reader rest n (depth_after_all d ts))))
      v = skip_tokens remove_prefix removes ts rest n d e a l s

      c : StringBytes name (v.0 ++ rest)
      c = string_bytes name (v.0 ++ rest) h

      read :
          Skip.key remove_prefix map
            (suc state)
            (reader (((c.0 ∷ c.1.0) ++ v.0) ++ rest) (suc (suc n)) d)
          ≡ Skip.key remove_prefix map state (reader rest n (depth_after_all d ts))
      read = rw (append_assoc (c.0 ∷ c.1.0) v.0 rest) (
          key-skips map state c.0 (c.1.0 ++ (v.0 ++ rest)) (suc n) d
            (reader (v.0 ++ rest) (suc n) d) (reader rest n (depth_after_all d ts))
            (read_key-string map c.0 (suc n) d c.1.0 (v.0 ++ rest) name c.1.1.0 c.1.1.1.1
              ∙ rw f refl)
            v.1.1)

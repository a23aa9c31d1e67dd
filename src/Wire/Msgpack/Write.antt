-- ===== src/Wire/Msgpack/Write.antt =====
-- src/wire/msgpack/write.h and write.cpp: `msgpack_writer` with a sink that is not flushed. `bytes` is what was put
-- to the stream; a function that only appends to the stream returns what it appends.
use monero_lws.Base.{
  ℕ, ◌+◌, ◌-◌, ◌*◌, ◌%◌, ◌^◌, Bool, List, [], ◌∷◌, ◌++◌, ltb, leb, ◌==◌, if◌then◌else◌, length,
}
use monero_lws.Base.Results.{Result, ok, err, ◌>>=◌}
use monero_lws.Wire.Msgpack.{
  Error, integer_encoding, incomplete, NumType, max_value, min_value, unsigned_types, signed_types,
  string_types, binary_types, array_types, object_types, FixedTag, ftag_unsigned, ftag_string,
  ftag_array, ftag_object,
}
unfoldable use monero_lws.Wire.Msgpack.Bytes.{to_big}

pub record Writer : Type 0 where
  pub bytes : List ℕ
  pub expected : ℕ
  pub integer_keys : Bool

-- `expected_` is an `std::size_t`.
abbrev pub decrement : ℕ → ℕ
decrement expected = (expected + (2 ^ 64 - 1)) % 2 ^ 64

unfoldable pub write_endian : ℕ → NumType → List ℕ
write_endian value t = t.tag ∷ to_big t.size value

-- `write_count<T>`: the first of the types that is large enough.
unfoldable pub write_count : List NumType → ℕ → Result Error (List ℕ)
write_count [] items = err integer_encoding
write_count (t ∷ ts) items =
    if ltb (max_value t) items then write_count ts items else ok (write_endian items t)

-- `write_count<T, U>`: in the fixed tag, where it fits.
unfoldable pub write_fixed_count : FixedTag → List NumType → ℕ → Result Error (List ℕ)
write_fixed_count f types items =
    if leb items f.max then ok ((f.tag + items % 256) ∷ []) else write_count types items

-- The loop of `do_integer`, on 64-bit patterns of negative numbers.
unfoldable pub write_signed : List NumType → ℕ → Result Error (List ℕ)
write_signed [] value = err integer_encoding
write_signed (t ∷ ts) value =
    if ltb value (min_value t) then write_signed ts value else ok (write_endian value t)

unfoldable pub do_integer : ℕ → Result Error (List ℕ)
do_integer value =
    if leb (2 ^ 64 - 32) value then ok (value % 256 ∷ []) else write_signed signed_types value

unfoldable pub do_unsigned_integer : ℕ → Result Error (List ℕ)
do_unsigned_integer value = write_count unsigned_types value

-- The bytes of a finished element.
abbrev pub element : Writer → List ℕ → Writer
element w bs = record w { bytes = w.bytes ++ bs; expected = decrement w.expected }

-- `integer_t`
unfoldable pub integer : Writer → ℕ → Result Error Writer
integer w value = do
  bs ←
      if ltb value (2 ^ 63)
      then (if leb value ftag_unsigned.max then ok (value ∷ []) else do_unsigned_integer value)
      else do_integer value
  ok (element w bs)

-- `unsigned_integer_t`
unfoldable pub unsigned_integer : Writer → ℕ → Result Error Writer
unsigned_integer w value = do
  bs ← if leb value ftag_unsigned.max then ok (value ∷ []) else do_unsigned_integer value
  ok (element w bs)

unfoldable pub boolean : Writer → Bool → Writer
boolean w value = element w ((if value then 0xc3 else 0xc2) ∷ [])

-- `real`, from the 64 bits of the number.
unfoldable pub real : Writer → ℕ → Writer
real w bits = element w (0xcb ∷ to_big 8 bits)

unfoldable pub string : Writer → List ℕ → Result Error Writer
string w source = do
  count ← write_fixed_count ftag_string string_types (length source)
  ok (element w (count ++ source))

unfoldable pub binary : Writer → List ℕ → Result Error Writer
binary w source = do
  count ← write_count binary_types (length source)
  ok (element w (count ++ source))

unfoldable pub start_array : Writer → ℕ → Result Error Writer
start_array w items = do
  count ← write_fixed_count ftag_array array_types items
  ok (record w { bytes = w.bytes ++ count; expected = (w.expected + items) % 2 ^ 64 })

-- `items * 2` has 64 bits as well.
unfoldable pub start_object : Writer → ℕ → Result Error Writer
start_object w items = do
  count ← write_fixed_count ftag_object object_types items
  ok (record w { bytes = w.bytes ++ count; expected = (w.expected + items * 2) % 2 ^ 64 })

-- `end_array` and `end_object`
unfoldable pub end_container : Writer → Writer
end_container w = record w { expected = decrement w.expected }

-- `key(id, str)`
unfoldable pub key : Writer → ℕ → List ℕ → Result Error Writer
key w id str = if w.integer_keys then unsigned_integer w id else string w str

-- `take_msgpack`; its `std::logic_error` is `incomplete`.
unfoldable pub take_msgpack : Writer → Result Error (List ℕ × Writer)
take_msgpack w = if w.expected == 0 then ok (w.bytes, record w { bytes = [] }) else err incomplete

-- ===== src/Wire/Msgpack/Read.antt =====
-- src/wire/msgpack/read.h and read.cpp, with the depth of src/wire/read.cpp: `msgpack_reader`, less `skip_value` and
-- `key`. `remaining` is the span `remaining_`; a reader that failed is not used again.
use monero_lws.Base.{
  ℕ, ◌+◌, ◌-◌, ◌*◌, ◌/◌, ◌^◌, Bool, true, false, max, Option, none, some, List, [], ◌∷◌, ltb, leb,
  ◌==◌, if◌then◌else◌, length, take, drop,
}
use monero_lws.Base.Results.{Result, ok, err, ◌>>=◌}
use monero_lws.Wire.Msgpack.{
  Error, not_enough_bytes, underflow_tree, max_tree_size, incomplete, schema_array, schema_boolean,
  schema_fixed_binary, schema_integer, schema_larger_integer, schema_maximum_depth, schema_object,
  schema_smaller_integer, schema_string, NumType, array_types, object_types, FixedTag,
  ftag_unsigned, ftag_signed, ftag_string, ftag_array, ftag_object, matches, extract,
}
unfoldable use monero_lws.Wire.Msgpack.Bytes.{read_endian}

pub record Reader : Type 0 where
  pub remaining : List ℕ
  pub tags_remaining : ℕ
  pub depth : ℕ

abbrev pub init : List ℕ → Reader
init source = record { remaining = source; tags_remaining = 1; depth = 0 }

unfoldable pub update_tags_remaining : Reader → Result Error Reader
update_tags_remaining r =
    if r.tags_remaining == 0
    then err underflow_tree
    else ok (record r { tags_remaining = r.tags_remaining - 1 })

-- `increment_depth` of src/wire/read.cpp; `max_read_depth` is 100.
unfoldable pub increment_depth : Reader → Result Error Reader
increment_depth r =
    if r.depth + 1 == 100 then err schema_maximum_depth else ok (record r { depth = r.depth + 1 })

-- `decrement_depth`, by which `end_array` and `end_object` end; `none` is the `std::logic_error`.
unfoldable pub decrement_depth : Reader → Option Reader
decrement_depth r = if r.depth == 0 then none else some (record r { depth = r.depth - 1 })

unfoldable pub peek_tag : Reader → Result Error ℕ
peek_tag r = elim r.remaining [ [] ↦ err not_enough_bytes | b ∷ bs ↦ ok b ]

unfoldable pub get_tag : Reader → Result Error (ℕ × Reader)
get_tag r = do next ← peek_tag r; ok (next, record r { remaining = drop 1 r.remaining })

-- The 64-bit pattern of a signed integer of `size` bytes.
abbrev pub sign_extend : ℕ → ℕ → ℕ
sign_extend size v = if ltb v (2 ^ (8 * size - 1)) then v else 2 ^ 64 - 2 ^ (8 * size) + v

-- `boost::numeric_cast<T>` from a signed or an unsigned type, for the two types that `read_integer` is used with
-- here, and for `unsigned`.
abbrev pub to_intmax : Bool → ℕ → Result Error ℕ
to_intmax true v = ok v
to_intmax false v = if ltb v (2 ^ 63) then ok v else err schema_smaller_integer

abbrev pub to_uintmax : Bool → ℕ → Result Error ℕ
to_uintmax true v = if ltb v (2 ^ 63) then ok v else err schema_larger_integer
to_uintmax false v = ok v

unfoldable pub read_as : (Bool → ℕ → Result Error ℕ) → Bool → ℕ → List ℕ → Result Error (ℕ × List ℕ)
read_as cast is_signed size source = do
  p ← read_endian size source
  v ← cast is_signed (if is_signed then sign_extend size p.0 else p.0)
  ok (v, p.1)

unfoldable pub read_integer : (Bool → ℕ → Result Error ℕ) → List ℕ → ℕ → Result Error (ℕ × List ℕ)
read_integer cast source next =
    if next == 0xd0
    then read_as cast true 1 source
    else (if next == 0xcc
        then read_as cast false 1 source
        else (if next == 0xd1
            then read_as cast true 2 source
            else (if next == 0xcd
                then read_as cast false 2 source
                else (if next == 0xd2
                    then read_as cast true 4 source
                    else (if next == 0xce
                        then read_as cast false 4 source
                        else (if next == 0xd3
                            then read_as cast true 8 source
                            else (if next == 0xcf
                                then read_as cast false 8 source
                                else err schema_integer)))))))

-- `read_raw`: that many bytes, and what is left.
unfoldable pub read_raw : List ℕ → ℕ → Result Error (List ℕ × List ℕ)
read_raw source bytes =
    if ltb (length source) bytes
    then err not_enough_bytes
    else ok (take bytes source, drop bytes source)

-- `read_raw<T>`: as many as an integer of `size` bytes says.
unfoldable pub read_sized : ℕ → List ℕ → Result Error (List ℕ × List ℕ)
read_sized size source = do p ← read_endian size source; read_raw p.1 p.0

unfoldable pub read_string : List ℕ → ℕ → Result Error (List ℕ × List ℕ)
read_string source next =
    if matches ftag_string next
    then read_raw source (extract ftag_string next)
    else (if next == 0xd9
        then read_sized 1 source
        else (if next == 0xda
            then read_sized 2 source
            else (if next == 0xdb then read_sized 4 source else err schema_string)))

unfoldable pub read_binary : List ℕ → ℕ → Result Error (List ℕ × List ℕ)
read_binary source next =
    if next == 0xc4
    then read_sized 1 source
    else (if next == 0xc5
        then read_sized 2 source
        else (if next == 0xc6 then read_sized 4 source else err schema_string))

-- The loop of `read_count` over the types, from the bytes after the tag on.
unfoldable pub read_count_types : List NumType → Error → List ℕ → ℕ → Result Error (ℕ × List ℕ)
read_count_types [] expected source next = err expected
read_count_types (t ∷ ts) expected source next =
    if t.tag == next then read_endian t.size source else read_count_types ts expected source next

unfoldable pub read_count : FixedTag → List NumType → Error → Reader → Result Error (ℕ × Reader)
read_count f types expected r = do
  p ← get_tag r
  q ←
      if matches f p.0
      then ok (extract f p.0, (p.1).remaining)
      else read_count_types types expected (p.1).remaining p.0
  ok (q.0, record r { remaining = q.1 })

unfoldable pub check_complete : Reader → Result Error (Unit {0})
check_complete r = if r.tags_remaining == 0 then ok tt else err incomplete

-- What `update_tags_remaining` and `get_tag` do at the start of an element.
abbrev pub start_element : Reader → Result Error (ℕ × Reader)
start_element r = update_tags_remaining r >>= get_tag

unfoldable pub boolean : Reader → Result Error (Bool × Reader)
boolean r = do
  p ← start_element r
  if p.0 == 0xc3
      then ok (true, p.1)
      else (if p.0 == 0xc2 then ok (false, p.1) else err schema_boolean)

abbrev pub with_rest {ℓ} : {A : Type ℓ} → Reader → A × List ℕ → A × Reader
with_rest r p = (p.0, record r { remaining = p.1 })

unfoldable pub do_integer : Reader → ℕ → Result Error (ℕ × Reader)
do_integer r next =
    if matches ftag_signed next
    then ok (sign_extend 1 next, r)
    else read_integer to_intmax r.remaining next >>= λ p. ok (with_rest r p)

unfoldable pub do_unsigned_integer : Reader → ℕ → Result Error (ℕ × Reader)
do_unsigned_integer r next = read_integer to_uintmax r.remaining next >>= λ p. ok (with_rest r p)

unfoldable pub integer : Reader → Result Error (ℕ × Reader)
integer r = do p ← start_element r; if leb p.0 ftag_unsigned.max then ok p else do_integer p.1 p.0

unfoldable pub unsigned_integer : Reader → Result Error (ℕ × Reader)
unsigned_integer r = do
  p ← start_element r
  if leb p.0 ftag_unsigned.max then ok p else do_unsigned_integer p.1 p.0

unfoldable pub string : Reader → Result Error (List ℕ × Reader)
string r = do p ← start_element r; q ← read_string (p.1).remaining p.0; ok (with_rest p.1 q)

unfoldable pub binary : Reader → Result Error (List ℕ × Reader)
binary r = do p ← start_element r; q ← read_binary (p.1).remaining p.0; ok (with_rest p.1 q)

-- `binary(dest)`, of `size` bytes.
unfoldable pub fixed_binary : ℕ → Reader → Result Error (List ℕ × Reader)
fixed_binary size r = do p ← binary r; if size == length p.0 then ok p else err schema_fixed_binary

unfoldable pub start_array : ℕ → Reader → Result Error (ℕ × Reader)
start_array min_element_size r = do
  p ← read_count ftag_array array_types schema_array r
  if ltb (2 ^ 64 - 1 - r.tags_remaining) p.0
      then err max_tree_size
      else (if ltb (length (p.1).remaining / max min_element_size 1) p.0
          then err schema_array
          else (do
            s ← increment_depth (record p.1 { tags_remaining = r.tags_remaining + p.0 })
            ok (p.0, s)))

unfoldable pub is_array_end : ℕ → Reader → Result Error (Bool × Reader)
is_array_end count r =
    if count == 0 then (update_tags_remaining r >>= λ s. ok (true, s)) else ok (false, r)

unfoldable pub start_object : Reader → Result Error (ℕ × Reader)
start_object r = do
  p ← read_count ftag_object object_types schema_object r
  if ltb ((2 ^ 64 - 1) / 2) p.0
      then err max_tree_size
      else (if ltb (2 ^ 64 - 1 - r.tags_remaining) (p.0 * 2) then err max_tree_size else (do
        s ← increment_depth (record p.1 { tags_remaining = r.tags_remaining + p.0 * 2 })
        ok (p.0, s)))

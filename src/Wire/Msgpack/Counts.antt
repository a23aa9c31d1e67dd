-- ===== src/Wire/Msgpack/Counts.antt =====
-- Round trips of what stands behind a count in src/wire/msgpack/: strings, binaries, arrays and objects.
use mathlib.Core.List.{append_assoc}
use monero_lws.Base.{
  ℕ, suc, ◌+◌, ◌%◌, ◌^◌, ◌≤◌, ◌<◌, ◌≡◌, refl, arith, true, List, [], ◌∷◌, ◌++◌, dec_lt, inl, inr,
  In, length, take-append-length, drop-append-length,
}
use monero_lws.Base.Results.{ok}
use monero_lws.Wire.Msgpack.{
  NumType, FixedTag, string_types, binary_types, matches, extract, ftag_string,
}
use monero_lws.Wire.Msgpack.Bytes.{to_big, read_endian-to_big, is_long}
use monero_lws.Wire.Msgpack.Write.{Writer, element, write_endian, write_count, write_fixed_count}
use monero_lws.Wire.Msgpack.Write
use monero_lws.Wire.Msgpack.Read.{
  Reader, start_element, read_raw, read_sized, read_string, read_binary, read_count,
  read_count_types,
}
use monero_lws.Wire.Msgpack.Read
use monero_lws.Wire.Msgpack.Integers.{reader, start_element-reader, Chosen, chosen}

pub read_raw-append : (s rest : List ℕ) → read_raw (s ++ rest) (length s) ≡ ok (s, rest)
unfolding read_raw
read_raw-append s rest =
    rw (is_long s rest, take-append-length s rest, drop-append-length s rest) refl

pub read_sized-to_big :
    (size : ℕ) (s rest : List ℕ)
    → length s < 256 ^ size
    → read_sized size ((to_big size (length s) ++ s) ++ rest) ≡ ok (s, rest)
unfolding read_sized
read_sized-to_big size s rest h =
    rw
      (
        append_assoc (to_big size (length s)) s rest,
        read_endian-to_big size (length s) (s ++ rest) h,
        read_raw-append s rest,
      )
      refl

-- The tag of a length leads back to its type.
pub string_tag :
    (t : NumType) (source : List ℕ)
    → In t string_types
    → read_string source t.tag ≡ read_sized t.size source
unfolding read_string
string_tag t source (inl e) = rw e refl
string_tag t source (inr (inl e)) = rw e refl
string_tag t source (inr (inr (inl e))) = rw e refl
string_tag t source (inr (inr (inr m))) = absurd m

pub binary_tag :
    (t : NumType) (source : List ℕ)
    → In t binary_types
    → read_binary source t.tag ≡ read_sized t.size source
unfolding read_binary
binary_tag t source (inl e) = rw e refl
binary_tag t source (inr (inl e)) = rw e refl
binary_tag t source (inr (inr (inl e))) = rw e refl
binary_tag t source (inr (inr (inr m))) = absurd m

pub binary_write :
    (s : List ℕ) (w : Writer) (c : Chosen (length s) binary_types)
    → Write.binary w s ≡ ok (element w (write_endian (length s) c.0 ++ s))
unfolding Write.binary
binary_write s w c = rw c.1.1.1 refl

-- What `binary` writes of less than 2^32 bytes is read back by `binary`.
pub binary_round_trip :
    (s : List ℕ) (w : Writer) (rest : List ℕ) (n d : ℕ)
    → length s < 2 ^ 32
    → (bs : List ℕ) × ((Write.binary w s ≡ ok (element w bs))
        × (Read.binary (reader (bs ++ rest) (suc n) d) ≡ ok (s, reader rest n d)))
unfolding Read.binary write_endian
binary_round_trip s w rest n d h = (write_endian (length s) c.0 ++ s, (binary_write s w c, read))
  where
    c : Chosen (length s) binary_types
    c = chosen binary_types (length s) (inr (inr (inl h)))

    read :
        Read.binary (reader ((write_endian (length s) c.0 ++ s) ++ rest) (suc n) d)
        ≡ ok (s, reader rest n d)
    read =
        rw
          (
            start_element-reader (c.0).tag ((to_big (c.0).size (length s) ++ s) ++ rest) n d,
            binary_tag c.0 ((to_big (c.0).size (length s) ++ s) ++ rest) c.1.0,
            read_sized-to_big (c.0).size s rest c.1.1.0,
          )
          refl

-- `write_fixed_count` on either side of its bound.
pub write_fixed_count-small :
    (f : FixedTag) (types : List NumType) (items : ℕ)
    → items ≤ f.max
    → write_fixed_count f types items ≡ ok ((f.tag + items % 256) ∷ [])
unfolding write_fixed_count
write_fixed_count-small f types items h = ground arith

pub write_fixed_count-large :
    (f : FixedTag) (types : List NumType) (items : ℕ)
    → f.max < items
    → write_fixed_count f types items ≡ write_count types items
unfolding write_fixed_count
write_fixed_count-large f types items h = ground arith

pub read_string-fixed :
    (s rest : List ℕ)
    → length s ≤ 31
    → read_string (s ++ rest) (0xa0 + length s % 256) ≡ ok (s, rest)
unfolding read_string
read_string-fixed s rest h = rw (is_string, extracted, read_raw-append s rest) refl
  where
    is_string : matches ftag_string (0xa0 + length s % 256) ≡ true
    is_string = ground arith

    extracted : extract ftag_string (0xa0 + length s % 256) ≡ length s
    extracted = omega arith

pub long_string_write :
    (s : List ℕ) (w : Writer) (c : Chosen (length s) string_types)
    → 31 < length s
    → Write.string w s ≡ ok (element w (write_endian (length s) c.0 ++ s))
unfolding Write.string
long_string_write s w c l =
    rw (write_fixed_count-large ftag_string string_types (length s) l, c.1.1.1) refl

pub short_string_write :
    (s : List ℕ) (w : Writer)
    → length s ≤ 31
    → Write.string w s ≡ ok (element w ((0xa0 + length s % 256) ∷ s))
unfolding Write.string
short_string_write s w l = rw (write_fixed_count-small ftag_string string_types (length s) l) refl

-- What `string` writes of less than 2^32 bytes is read back by `string`.
pub string_round_trip :
    (s : List ℕ) (w : Writer) (rest : List ℕ) (n d : ℕ)
    → length s < 2 ^ 32
    → (bs : List ℕ) × ((Write.string w s ≡ ok (element w bs))
        × (Read.string (reader (bs ++ rest) (suc n) d) ≡ ok (s, reader rest n d)))
unfolding Read.string write_endian
string_round_trip s w rest n d h = elim (dec_lt 31 (length s)) [
  | yes l ↦ (write_endian (length s) c.0 ++ s, (long_string_write s w c l, read))
  | no l ↦ (
    (0xa0 + length s % 256) ∷ s,
    (short_string_write s w (omega arith), short_read (omega arith)),
  )
]
  where
    c : Chosen (length s) string_types
    c = chosen string_types (length s) (inr (inr (inl h)))

    read :
        Read.string (reader ((write_endian (length s) c.0 ++ s) ++ rest) (suc n) d)
        ≡ ok (s, reader rest n d)
    read =
        rw
          (
            start_element-reader (c.0).tag ((to_big (c.0).size (length s) ++ s) ++ rest) n d,
            string_tag c.0 ((to_big (c.0).size (length s) ++ s) ++ rest) c.1.0,
            read_sized-to_big (c.0).size s rest c.1.1.0,
          )
          refl

    short_read :
        length s ≤ 31
        → Read.string (reader ((0xa0 + length s % 256) ∷ s ++ rest) (suc n) d)
          ≡ ok (s, reader rest n d)
    short_read l =
        rw
          (start_element-reader (0xa0 + length s % 256) (s ++ rest) n d, read_string-fixed s rest l)
          refl

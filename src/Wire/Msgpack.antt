-- ===== src/Wire/Msgpack.antt =====
-- src/wire/msgpack/base.h: the tags of the format, with the types and the errors that its writer and its reader share.
-- A byte is a number below 256. An `std::intmax_t` is its 64-bit pattern, so that it is negative from 2^63 on.
pub mod Bytes
pub mod Write
pub mod Read
pub mod Integers
pub mod Signed
pub mod Counts
pub mod Containers
pub mod Steps
pub mod Rounds
pub mod Halting
pub mod Tokens
pub mod Passes
pub mod Trees
pub mod Keys
mod Tests
pub mod Skip
use monero_lws.Base.{ℕ, ◌+◌, ◌-◌, ◌*◌, ◌%◌, ◌^◌, Bool, List, [], ◌∷◌, ltb, ◌==◌, if◌then◌else◌}

pub data Error : Type 0 where
  not_enough_bytes underflow_tree max_tree_size invalid incomplete integer_encoding : Error
  schema_array schema_boolean schema_fixed_binary schema_integer schema_invalid_key : Error
  schema_larger_integer schema_maximum_depth schema_object schema_smaller_integer : Error
  schema_string : Error
  -- Not an error of the source: the bound on the rounds of `skip_value`.
  out_of_fuel : Error

-- `type<T, V>`: the tag and the number of bytes of the integer after it.
pub record NumType : Type 0 where
  pub tag : ℕ
  pub size : ℕ

-- `type::max` of an unsigned type.
abbrev pub max_value : NumType → ℕ
max_value t = 256 ^ t.size - 1

-- `type::min` of a signed type, as a 64-bit pattern.
abbrev pub min_value : NumType → ℕ
min_value t = 2 ^ 64 - 2 ^ (8 * t.size - 1)

abbrev pub num_type : ℕ → ℕ → NumType
num_type tag size = record { tag = tag; size = size }

abbrev pub unsigned_types : List NumType
unsigned_types = num_type 0xcc 1 ∷ num_type 0xcd 2 ∷ num_type 0xce 4 ∷ num_type 0xcf 8 ∷ []

abbrev pub signed_types : List NumType
signed_types = num_type 0xd0 1 ∷ num_type 0xd1 2 ∷ num_type 0xd2 4 ∷ num_type 0xd3 8 ∷ []

abbrev pub string_types : List NumType
string_types = num_type 0xd9 1 ∷ num_type 0xda 2 ∷ num_type 0xdb 4 ∷ []

abbrev pub binary_types : List NumType
binary_types = num_type 0xc4 1 ∷ num_type 0xc5 2 ∷ num_type 0xc6 4 ∷ []

abbrev pub array_types : List NumType
array_types = num_type 0xdc 2 ∷ num_type 0xdd 4 ∷ []

abbrev pub object_types : List NumType
object_types = num_type 0xde 2 ∷ num_type 0xdf 4 ∷ []

-- `fixed_tag<T, M, N>`: the mask `M` has all bits of the byte but the lowest, and `free` is the number of values that
-- those can have.
pub record FixedTag : Type 0 where
  pub tag : ℕ
  pub free : ℕ
  pub max : ℕ

abbrev pub fixed_tag : ℕ → ℕ → ℕ → FixedTag
fixed_tag tag free max = record { tag = tag; free = free; max = max }

abbrev pub ftag_unsigned : FixedTag
ftag_unsigned = fixed_tag 0x00 0x80 0x7f

abbrev pub ftag_signed : FixedTag
ftag_signed = fixed_tag 0xe0 0x20 0

abbrev pub ftag_string : FixedTag
ftag_string = fixed_tag 0xa0 0x20 31

abbrev pub ftag_array : FixedTag
ftag_array = fixed_tag 0x90 0x10 15

abbrev pub ftag_object : FixedTag
ftag_object = fixed_tag 0x80 0x10 15

-- `(value & mask()) == tag()` and `value & ~mask()`.
abbrev pub matches : FixedTag → ℕ → Bool
matches f value = value - value % f.free == f.tag

abbrev pub extract : FixedTag → ℕ → ℕ
extract f value = value % f.free

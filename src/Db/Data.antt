-- ===== src/Db/Data.antt =====
-- src/db/data.h and data.cpp: identifiers, links, their comparisons, the packed length byte and the difficulty.
-- A hash, a public key or a key image is the number whose 32 bytes, most significant first, are its
-- bytes, so that `memcmp` is the order of numbers.
pub mod Order
pub mod Words
mod Tests
use Prim.Native.Nat.{bit_and, bit_or}
use monero_lws.Base.{ℕ, ◌+◌, ◌-◌, ◌*◌, ◌/◌, ◌%◌, ◌^◌, Bool, ◌&&◌, ltb, leb, ◌==◌, if◌then◌else◌}

-- `std::uint64_t(-1)`, also `block_id::txpool`.
abbrev pub u64_max : ℕ
u64_max = 2 ^ 64 - 1

-- `std::uint32_t(-1)`, also `account_id::invalid`.
abbrev pub u32_max : ℕ
u32_max = 2 ^ 32 - 1

pub record OutputId : Type 0 where
  pub high : ℕ
  pub low : ℕ

pub record AddressIndex : Type 0 where
  pub maj_i : ℕ
  pub min_i : ℕ

abbrev pub is_zero : AddressIndex → Bool
is_zero i = i.maj_i == 0 && i.min_i == 0

pub record TransactionLink : Type 0 where
  pub height : ℕ
  pub tx_hash : ℕ

-- `operator==(output_id, output_id)`
abbrev pub output_id_eq : OutputId → OutputId → Bool
output_id_eq a b = a.high == b.high && a.low == b.low

-- `operator<(output_id, output_id)`
abbrev pub output_id_less : OutputId → OutputId → Bool
output_id_less a b = if a.high == b.high then ltb a.low b.low else ltb a.high b.high

-- `operator<=(output_id, output_id)`
abbrev pub output_id_le : OutputId → OutputId → Bool
output_id_le a b = if a.high == b.high then leb a.low b.low else ltb a.high b.high

-- `operator<(address_index const&, address_index const&)`
abbrev pub address_index_less : AddressIndex → AddressIndex → Bool
address_index_less a b = if a.maj_i == b.maj_i then ltb a.min_i b.min_i else ltb a.maj_i b.maj_i

-- `operator==(transaction_link const&, transaction_link const&)`
abbrev pub link_eq : TransactionLink → TransactionLink → Bool
link_eq a b = a.height == b.height && a.tx_hash == b.tx_hash

-- `operator<(transaction_link const&, transaction_link const&)`
abbrev pub link_less : TransactionLink → TransactionLink → Bool
link_less a b = if a.height == b.height then ltb a.tx_hash b.tx_hash else ltb a.height b.height

-- `operator<=(transaction_link const&, transaction_link const&)`
abbrev pub link_le : TransactionLink → TransactionLink → Bool
link_le a b = if b.height == a.height then leb a.tx_hash b.tx_hash else ltb a.height b.height

-- `pack(extra, length)`: two bits of flags above six bits of length, in one byte.
unfoldable pub pack : ℕ → ℕ → ℕ
pack val length = bit_or (val * 2 ^ 6 % 256) (bit_and length 0x3f)

-- `unpack(extra_and_length)`
unfoldable pub unpack : ℕ → ℕ × ℕ
unpack val = (val / 2 ^ 6, bit_and val 0x3f)

-- A `uint128_t` in two words.
pub record BlockDifficulty : Type 0 where
  pub high : ℕ
  pub low : ℕ

unfoldable pub set_difficulty : ℕ → BlockDifficulty
set_difficulty v = record { high = v / 2 ^ 64 % 2 ^ 64; low = v % 2 ^ 64 }

unfoldable pub get_difficulty : BlockDifficulty → ℕ
get_difficulty d = (d.high * 2 ^ 64 % 2 ^ 128 + d.low) % 2 ^ 128

-- `output::spend_meta_`
pub record SpendMeta : Type 0 where
  pub id : OutputId
  pub amount : ℕ
  pub mixin_count : ℕ
  pub index : ℕ
  pub tx_public : ℕ

-- `output`. The field `pub` is spelled `public_key`; the payment id's union is one number of 32 bytes.
pub record Output : Type 0 where
  pub link : TransactionLink
  pub spend_meta : SpendMeta
  pub timestamp : ℕ
  pub unlock_time : ℕ
  pub tx_prefix_hash : ℕ
  pub public_key : ℕ
  pub ringct_mask : ℕ
  pub extra : ℕ
  pub payment_id : ℕ
  pub fee : ℕ
  pub recipient : AddressIndex

-- `spend`
pub record Spend : Type 0 where
  pub link : TransactionLink
  pub image : ℕ
  pub source : OutputId
  pub timestamp : ℕ
  pub unlock_time : ℕ
  pub mixin_count : ℕ
  pub length : ℕ
  pub payment_id : ℕ
  pub sender : AddressIndex

pub record AccountAddress : Type 0 where
  pub view_public : ℕ
  pub spend_public : ℕ

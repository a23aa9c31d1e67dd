-- ===== src/Db/Data/Words.antt =====
-- Round trips of the packed words of data.h.
use monero_lws.Base.{
  ℕ, ◌*◌, ◌^◌, ◌+◌, ◌/◌, ◌%◌, ◌<◌, ◌≡◌, refl, true, arith, agree_below, agree_below→eq,
}
use monero_lws.Db.Data.{pack, unpack, BlockDifficulty, set_difficulty, get_difficulty}

-- Every 128-bit difficulty is read back as it was stored.
pub get_difficulty-set_difficulty : (v : ℕ) → v < 2 ^ 128 → get_difficulty (set_difficulty v) ≡ v
unfolding get_difficulty set_difficulty
get_difficulty-set_difficulty v h = omega arith

-- Two words survive the way through the 128-bit number.
pub set_difficulty-get_difficulty :
    (d : BlockDifficulty) → d.high < 2 ^ 64 → d.low < 2 ^ 64 → set_difficulty (get_difficulty d) ≡ d
unfolding get_difficulty set_difficulty
set_difficulty-get_difficulty d h l = ground arith

pack_table : agree_below (λ x. (unpack (pack (x / 64) (x % 64))).0) (λ x. x / 64) 256 ≡ true
unfolding agree_below pack unpack
pack_table = refl

pack_low_table : agree_below (λ x. (unpack (pack (x / 64) (x % 64))).1) (λ x. x % 64) 256 ≡ true
unfolding agree_below pack unpack
pack_low_table = refl

unpack-pack_byte : (x : ℕ) → x < 256 → unpack (pack (x / 64) (x % 64)) ≡ (x / 64, x % 64)
unpack-pack_byte x h =
    λ i. (agree_below→eq _ _ 256 pack_table x h i, agree_below→eq _ _ 256 pack_low_table x h i)

-- The flags and the payment id's length are read back from the byte that `pack` builds of two bits of
-- flags and six bits of length.
pub unpack-pack :
    (val length : ℕ) → val < 4 → length < 64 → unpack (pack val length) ≡ (val, length)
unpack-pack val length h l =
    rw (quotient, remainder) at (unpack-pack_byte (val * 64 + length) (omega arith))
  where
    quotient : (val * 64 + length) / 64 ≡ val
    quotient = omega arith

    remainder : (val * 64 + length) % 64 ≡ length
    remainder = omega arith

-- ===== src/Db/Data/Tests.antt =====
-- The comparisons and the packed words on concrete values.
use monero_lws.Base.{◌≡◌, refl, arith}
use monero_lws.Db.Data.{pack, BlockDifficulty, set_difficulty, get_difficulty}
use monero_lws.Db.Data.Words.{set_difficulty-get_difficulty}

-- A coinbase output that is RingCT, with a payment id of 8 bytes.
pack_example : pack 3 8 ≡ 0xc8
unfolding pack
pack_example = refl

abbrev two_words : BlockDifficulty
two_words = record { high = 7; low = 9 }

set_difficulty-get_difficulty_example : set_difficulty (get_difficulty two_words) ≡ two_words
set_difficulty-get_difficulty_example =
    set_difficulty-get_difficulty two_words (omega arith) (omega arith)

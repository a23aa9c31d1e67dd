-- ===== src/Mempool/Tests.antt =====
-- A cache of two addresses, whose subaddresses are a number, and the theorems at it.
use monero_lws.Base.{ℕ, ◌≡◌, refl, inl, none, arith, List, [], ◌∷◌}
use monero_lws.Mempool.{Cache, set}
use monero_lws.Mempool.Recent.{IsValid, recent, touch, set-Recent}
use monero_lws.Mempool.Pool.{
  Pool, PoolCall, add, scan, run, tables, take_snapshot, take_snapshot-run,
}

abbrev empty : Cache ℕ
empty = record { entries = []; order = [] }

empty-IsValid : IsValid empty
empty-IsValid =
    (record { distinct = tt; unique = tt; agree = λ k. refl; same_length = refl }, omega arith)

abbrev one : Cache ℕ
one = record { entries = (5, record { subaddrs = 1; txids = 10 ∷ 11 ∷ [] }) ∷ []; order = 5 ∷ [] }

set-empty : set 5 1 (10 ∷ 11 ∷ []) empty ≡ one
unfolding set
set-empty = refl

one-IsValid : IsValid one
one-IsValid = (
  record {
    distinct = (refl, tt);
    unique = (refl, tt);
    agree = λ k. ground arith;
    same_length = refl;
  },
  omega arith,
)

set-Recent_example :
    IsValid (set 7 2 (12 ∷ []) one)
    × (recent (set 7 2 (12 ∷ []) one)
        ≡ touch 7 (record { subaddrs = 2; txids = 12 ∷ [] }) (recent one))
set-Recent_example = set-Recent 7 2 (12 ∷ []) one one-IsValid

-- Transactions that are their own hash.
abbrev own : ℕ → ℕ
own tx = tx

abbrev pool : Pool ℕ
pool = record { state = (4, record { tx = 4; timestamp = 1 }) ∷ []; snapshot = none }

abbrev calls : List (PoolCall ℕ)
calls = scan ∷ add 2 (4 ∷ 6 ∷ []) ∷ scan ∷ []

take_snapshot-run_example : (take_snapshot (run own calls pool)).1 ≡ tables own calls pool.state
take_snapshot-run_example = take_snapshot-run own calls pool (inl refl)

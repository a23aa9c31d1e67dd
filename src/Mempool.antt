-- ===== src/Mempool.antt =====
-- src/mempool.h and mempool.cpp: the cache of the transactions in the pool that are not an account's.
-- An address is the number with its 64 bytes; the subaddresses of an account are of a type `D` with a comparison. The map is an association list, and the iterator that an entry holds into the list of recent
-- addresses stands where the entry's address does.
pub mod Keys
pub mod Lookup
pub mod Pool
pub mod Recent
mod Tests
use monero_lws.Base.{
  ℕ, Bool, true, false, Option, none, some, List, [], ◌∷◌, leb, ◌==◌, if◌then◌else◌, length,
}

-- `mempool::address_cache::entry`
pub record Entry (D : Type 0) : Type 0 where
  pub subaddrs : D
  pub txids : List ℕ

-- `mempool::address_cache`
pub record Cache (D : Type 0) : Type 0 where
  pub entries : List (ℕ × Entry D)
  pub order : List ℕ

abbrev pub max_cache_size : ℕ
max_cache_size = 1000

-- The list without the element that is spliced.
abbrev pub remove : ℕ → List ℕ → List ℕ
remove k [] = []
remove k (x ∷ xs) = if x == k then xs else x ∷ remove k xs

-- `back` and `pop_back`
abbrev pub back : ℕ → List ℕ → ℕ
back x [] = x
back x (y ∷ ys) = back y ys

abbrev pub pop_back : ℕ → List ℕ → List ℕ
pop_back x [] = []
pop_back x (y ∷ ys) = x ∷ pop_back y ys

module _ {D : Type 0} where
  -- `find`, `erase` and the assignment to an entry of `std::unordered_map`.
  abbrev pub find : ℕ → List (ℕ × Entry D) → Option (Entry D)
  find k [] = none
  find k (x ∷ m) = if x.0 == k then some x.1 else find k m

  abbrev pub erase : ℕ → List (ℕ × Entry D) → List (ℕ × Entry D)
  erase k [] = []
  erase k (x ∷ m) = if x.0 == k then m else x ∷ erase k m

  abbrev pub assign : ℕ → Entry D → List (ℕ × Entry D) → List (ℕ × Entry D)
  assign k e [] = []
  assign k e (x ∷ m) = if x.0 == k then (x.0, e) ∷ m else x ∷ assign k e m

  abbrev pub txids_of : (D → D → Bool) → D → Option (Entry D) → List ℕ
  txids_of same subaddrs none = []
  txids_of same subaddrs (some e) = if same e.subaddrs subaddrs then e.txids else []

  -- `address_cache::get`
  unfoldable pub get : (D → D → Bool) → ℕ → D → Cache D → List ℕ
  get same address subaddrs c = txids_of same subaddrs (find address c.entries)

  abbrev pub add_entry : ℕ → Entry D → Cache D → Cache D
  add_entry address e c =
      if leb max_cache_size (length ((address, e) ∷ c.entries))
      then record {
        entries = erase (back address c.order) ((address, e) ∷ c.entries);
        order = pop_back address c.order;
      }
      else record { entries = (address, e) ∷ c.entries; order = address ∷ c.order }

  abbrev pub set_entry : ℕ → Entry D → Cache D → Option (Entry D) → Cache D
  set_entry address e c none = add_entry address e c
  set_entry address e c (some old) = record {
    entries = assign address e c.entries;
    order = address ∷ remove address c.order;
  }

  -- `address_cache::set`
  unfoldable pub set : ℕ → D → List ℕ → Cache D → Cache D
  set address subaddrs txids c =
      set_entry address (record { subaddrs = subaddrs; txids = txids }) c (find address c.entries)

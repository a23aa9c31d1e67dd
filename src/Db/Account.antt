-- ===== src/Db/Account.antt =====
-- src/db/account.h and account.cpp: the part of an account that a scanner thread works on.
-- `Immutable` is the shared `account::internal`; `none` is a moved-from account, whose accessors throw.
pub mod Spendable
pub mod Updates
mod Tests
use monero_lws.Base.{
  ℕ, ◌≡◌, Bool, true, false, Option, none, some, List, [], ◌∷◌, ◌++◌, max, ltb, ◌==◌, if◌then◌else◌,
  lower_bound, insert_at_bound, insert_sorted, sort,
}
use monero_lws.Db.Data.{
  OutputId, AddressIndex, Output, Spend, AccountAddress, output_id_eq, output_id_less,
  address_index_less, u32_max,
}

pub record Immutable : Type 0 where
  pub address : ℕ
  pub id : ℕ
  pub pubs : AccountAddress
  pub view_key : ℕ

-- `std::pair<output_id, address_index>`
pub record Receive : Type 0 where
  pub id : OutputId
  pub index : AddressIndex

-- `std::pair`'s `operator<`
abbrev pub receive_less : Receive → Receive → Bool
receive_less a b =
    if output_id_less a.id b.id
    then true
    else (if output_id_less b.id a.id then false else address_index_less a.index b.index)

pub record Account : Type 0 where
  pub immutable : Option Immutable
  pub spendable : List Receive
  pub pubs : List ℕ
  pub spends : List Spend
  pub outputs : List Output
  pub height : ℕ

-- `account::update`
pub record Update : Type 0 where
  pub spends : List Spend
  pub outputs : List Output
  pub old_height : ℕ
  pub new_height : ℕ

-- The public constructor, from the account's row and its stored outputs.
unfoldable pub make_account : Immutable → ℕ → List Receive → List ℕ → Account
make_account immutable scan_height spendable pubs = record {
  immutable = some immutable;
  spendable = sort receive_less spendable;
  pubs = sort ltb pubs;
  spends = [];
  outputs = [];
  height = scan_height;
}

-- The private constructor takes the four arguments that it is given; the rest is copied after it.
unfoldable pub clone : Account → Account
clone a = record {
  immutable = a.immutable;
  spendable = a.spendable;
  pubs = a.pubs;
  spends = a.spends;
  outputs = a.outputs;
  height = a.height;
}

unfoldable pub updated : Account → ℕ → Account × Update
updated a new_height = (
  record a { spends = []; outputs = []; height = max a.height new_height },
  record { spends = a.spends; outputs = a.outputs; old_height = a.height; new_height = new_height },
)

-- `account::id`
unfoldable pub account_id : Account → ℕ
account_id a = elim a.immutable [ none ↦ u32_max | some i ↦ i.id ]

-- `account::db_address`, with the throw of `null_check` as `none`.
unfoldable pub db_address : Account → Option AccountAddress
db_address a = elim a.immutable [ none ↦ none | some i ↦ some i.pubs ]

-- `{id, address_index{primary, primary}}`
abbrev pub searchable : OutputId → Receive
searchable id = record { id = id; index = record { maj_i = 0; min_i = 0 } }

-- The tests after `lower_bound`: not the end, and the same output.
abbrev pub matching : OutputId → List Receive → Option AddressIndex
matching id [] = none
matching id (r ∷ rs) = if output_id_eq r.id id then some r.index else none

unfoldable pub get_spendable : Account → OutputId → Option AddressIndex
get_spendable a id = matching id (lower_bound (λ r. receive_less r (searchable id)) a.spendable)

-- `existing_pub != end && *existing_pub == out.pub`
abbrev pub starts_with_key : ℕ → List ℕ → Bool
starts_with_key key [] = false
starts_with_key key (k ∷ ks) = k == key

unfoldable pub add_out : Account → Output → Account × Bool
add_out a out =
    if starts_with_key out.public_key (lower_bound (λ k. ltb k out.public_key) a.pubs)
    then (a, false)
    else (
      record a {
        pubs = insert_sorted ltb out.public_key a.pubs;
        spendable =
            insert_sorted receive_less (record { id = out.spend_meta.id; index = out.recipient })
              a.spendable;
        outputs = a.outputs ++ out ∷ [];
      },
      true,
    )

unfoldable pub add_spend : Account → Spend → Account
add_spend a spend = record a { spends = a.spends ++ spend ∷ [] }

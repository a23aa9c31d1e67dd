-- ===== src/Db/Account/Spendable.antt =====
-- The sorted vectors of an account: every operation keeps them sorted, so the binary searches find what is there.
use monero_lws.Base.{
  ℕ, ◌≡◌, refl, ◌⊎◌, inl, inr, true, false, some, List, [], ◌∷◌, ◌++◌, ltb, arith, lower_bound,
  insert_sorted, IsOrder, IsSorted, insert_sorted-IsSorted, sort-IsSorted, In, All, All-In,
  In-insert_at_bound, Bool-cases,
}
use monero_lws.Db.Data.{OutputId, AddressIndex, Output, address_index_less}
use monero_lws.Db.Account.{
  Account, Receive, Immutable, receive_less, searchable, matching, starts_with_key, make_account,
  add_out, get_spendable,
}

ltb-IsOrder : IsOrder ltb
ltb-IsOrder = record {
  asym = λ a b h. ground arith;
  trans = λ a b c h k. ground arith;
  total = λ a b h k. ground arith;
}

receive_less-IsOrder : IsOrder receive_less
receive_less-IsOrder = record {
  asym = λ a b h. ground arith;
  trans = λ a b c h k. ground arith;
  total = λ a b h k. ground arith;
}

pub record IsOrdered (a : Account) : Type 0 where
  pub spendable : IsSorted receive_less a.spendable
  pub pubs : IsSorted ltb a.pubs

-- A new account is ordered, whatever the order of the stored outputs that it is built from.
pub make_account-IsOrdered :
    (i : Immutable) (height : ℕ) (spendable : List Receive) (pubs : List ℕ)
    → IsOrdered (make_account i height spendable pubs)
unfolding make_account
make_account-IsOrdered i height spendable pubs = record {
  spendable = sort-IsSorted receive_less receive_less-IsOrder spendable;
  pubs = sort-IsSorted ltb ltb-IsOrder pubs;
}

pub add_out-IsOrdered : (a : Account) (out : Output) → IsOrdered a → IsOrdered (add_out a out).0
unfolding add_out
add_out-IsOrdered a out o =
    elim (Bool-cases
      (starts_with_key out.public_key (lower_bound (λ k. ltb k out.public_key) a.pubs))) [
        | inl e ↦ rw e o
        | inr e ↦ rw e (record {
          spendable =
              insert_sorted-IsSorted receive_less receive_less-IsOrder _ a.spendable o.spendable;
          pubs = insert_sorted-IsSorted ltb ltb-IsOrder _ a.pubs o.pubs;
        })
      ]

-- In a sorted list the search for a key stops at the key, if it is there, and only then.
above-not-In :
    (key k : ℕ) (ks : List ℕ) → ltb key k ≡ true → All (λ y. ltb y k ≡ false) ks → ¬ In key ks
above-not-In key k [] h s m = m
above-not-In key k (x ∷ ks) h s (inl e) = ground arith
above-not-In key k (x ∷ ks) h s (inr m) = above-not-In key k ks h s.1 m

found-In :
    (key : ℕ) (ks : List ℕ)
    → starts_with_key key (lower_bound (λ k. ltb k key) ks) ≡ true
    → In key ks
found-In key [] e = cc
found-In key (k ∷ ks) e = ground (arith, found-In key ks)

In-found :
    (key : ℕ) (ks : List ℕ)
    → IsSorted ltb ks
    → In key ks
    → starts_with_key key (lower_bound (λ k. ltb k key) ks) ≡ true
In-found key [] s m = absurd m
In-found key (k ∷ ks) s (inl e) = ground arith
In-found key (k ∷ ks) s (inr m) =
    ground (arith, In-found key ks s.1 m, λ (h : ltb key k ≡ true). above-not-In key k ks h s.0 m)

-- An output whose one-time key is known is refused and changes nothing; any other is stored: its key, its id with
-- its recipient, and the output itself at the end.
pub add_out_cases :
    (a : Account) (out : Output)
    → IsOrdered a
    → (In out.public_key a.pubs × (add_out a out ≡ (a, false)))
      ⊎ ((¬ In out.public_key a.pubs)
          × (add_out a out ≡ (
            record a {
              pubs = insert_sorted ltb out.public_key a.pubs;
              spendable =
                  insert_sorted receive_less
                    (record { id = out.spend_meta.id; index = out.recipient })
                    a.spendable;
              outputs = a.outputs ++ out ∷ [];
            },
            true,
          )))
unfolding add_out
add_out_cases a out o =
    elim (Bool-cases
      (starts_with_key out.public_key (lower_bound (λ k. ltb k out.public_key) a.pubs))) [
        | inl e ↦ inl (found-In out.public_key a.pubs e, rw e)
        | inr e ↦ inr (λ m. cc (e, In-found out.public_key a.pubs o.pubs m), rw e)
      ]

-- The key of a stored output is among the account's keys.
pub add_out-In :
    (a : Account) (out : Output)
    → IsOrdered a
    → (add_out a out).1 ≡ true
    → In out.public_key (add_out a out).0.pubs
add_out-In a out o stored = elim (add_out_cases a out o) [
  | inl (m, e) ↦ cc
  | inr (m, e) ↦
      rw e (In-insert_at_bound (λ k. ltb k out.public_key) out.public_key _ a.pubs (inl refl))
]

-- A key that is there stays.
pub In-add_out :
    (key : ℕ) (a : Account) (out : Output)
    → IsOrdered a
    → In key a.pubs
    → In key (add_out a out).0.pubs
In-add_out key a out o known = elim (add_out_cases a out o) [
  | inl (m, e) ↦ rw e known
  | inr (m, e) ↦
      rw e (In-insert_at_bound (λ k. ltb k out.public_key) out.public_key key a.pubs (inr known))
]

-- What `get_spendable` answers is stored under the id that it was asked for.
matching-In :
    (id : OutputId) (i : AddressIndex) (rs : List Receive)
    → matching id (lower_bound (λ r. receive_less r (searchable id)) rs) ≡ some i
    → In (record { id = id; index = i }) rs
matching-In id i [] e = cc
matching-In id i (r ∷ rs) e = ground (arith, matching-In id i rs)

-- Among the entries of one id the search stops at the least index.
In-matching :
    (id : OutputId) (i : AddressIndex) (rs : List Receive)
    → IsSorted receive_less rs
    → In (record { id = id; index = i }) rs
    → (j : AddressIndex) × (matching id (lower_bound (λ r. receive_less r (searchable id)) rs)
        ≡ some j)
      × (address_index_less i j ≡ false)
In-matching id i [] s m = absurd m
In-matching id i (r ∷ rs) s (inl e) = (i, ground arith, ground arith)
In-matching id i (r ∷ rs) s (inr m) = elim (Bool-cases (receive_less r (searchable id))) [
  | inl e ↦ rw e (In-matching id i rs s.1 m)
  | inr e ↦
      let least : receive_less (record { id = id; index = i }) r ≡ false =
        All-In (λ y. receive_less y r ≡ false) (record { id = id; index = i }) rs s.0 m in
      rw e (r.index, ground arith, ground arith)
]

-- What `get_spendable` answers for an id is stored in the account with that id.
pub get_spendable_sound :
    (a : Account) (id : OutputId) (i : AddressIndex)
    → get_spendable a id ≡ some i
    → In (record { id = id; index = i }) a.spendable
unfolding get_spendable
get_spendable_sound a id i = matching-In id i a.spendable

-- For an output that a sorted account holds `get_spendable` answers: with its index, or with a lesser one that is
-- stored under the same id.
pub get_spendable_complete :
    (a : Account) (id : OutputId) (i : AddressIndex)
    → IsOrdered a
    → In (record { id = id; index = i }) a.spendable
    → (j : AddressIndex) × (get_spendable a id ≡ some j) × (address_index_less i j ≡ false)
unfolding get_spendable
get_spendable_complete a id i o = In-matching id i a.spendable o.spendable

-- Each output that `add_out` stores can be spent afterwards.
pub get_spendable-add_out :
    (a : Account) (out : Output)
    → IsOrdered a
    → (add_out a out).1 ≡ true
    → (j : AddressIndex) × (get_spendable (add_out a out).0 out.spend_meta.id ≡ some j)
      × (address_index_less out.recipient j ≡ false)
get_spendable-add_out a out o stored =
    get_spendable_complete (add_out a out).0 out.spend_meta.id out.recipient
      (add_out-IsOrdered a out o) held
  where
    held : In (record { id = out.spend_meta.id; index = out.recipient }) (add_out a out).0.spendable
    held = elim (add_out_cases a out o) [
      | inl (m, e) ↦ cc
      | inr (m, e) ↦ rw e (
          In-insert_at_bound
            (λ r. receive_less r (record { id = out.spend_meta.id; index = out.recipient }))
            (record { id = out.spend_meta.id; index = out.recipient }) _ a.spendable (inl refl))
    ]

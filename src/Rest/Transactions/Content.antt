-- ===== src/Rest/Transactions/Content.antt =====
-- What the transactions of `merge_into_txes` in src/rpc/light_wallet.cpp contain.
use mathlib.Core.List.{append_assoc, append-nil}
use monero_lws.Base.{
  ℕ, ◌+◌, ◌%◌, ◌^◌, ◌<◌, ◌≡◌, refl, sym, ap, subst, ◌∙◌, arith, Bool, true, false, Bool-cases, inl,
  inr, if_true, if_false, ◌==◌, List, [], ◌∷◌, ◌++◌, map, All,
}
use native.Mathlib.Nat.{mod-eq_of_lt}
use monero_lws.Db.Data.{Output, Spend, SpendMeta}
use monero_lws.Rest.Transactions.{
  Transaction, transaction_of_output, transaction_of_spend, add_amount, place_spend, add_spent,
  note_receive, place_output,
}

abbrev pub spend_of : SpendMeta × Spend → Spend
spend_of x = x.1

-- The outputs and the spends of transactions, of which the newest comes first, in the order in which they were added.
abbrev pub receives_of : List Transaction → List Output
receives_of [] = []
receives_of (t ∷ out) = receives_of out ++ t.receives

abbrev pub spends_of : List Transaction → List Spend
spends_of [] = []
spends_of (t ∷ out) = spends_of out ++ map spend_of t.spends

-- A sum on 64 bits.
abbrev pub summed : ℕ → List Output → ℕ
summed n [] = n
summed n (o ∷ outputs) = summed ((n + o.spend_meta.amount) % 2 ^ 64) outputs

-- The amount of a transaction is the sum of those of its outputs.
abbrev pub IsSum : Transaction → Type 0
IsSum t = t.info.spend_meta.amount ≡ summed 0 t.receives

summed-append :
    (n : ℕ) (outputs : List Output) (o : Output)
    → summed n (outputs ++ o ∷ []) ≡ (summed n outputs + o.spend_meta.amount) % 2 ^ 64
summed-append n [] o = refl
summed-append n (p ∷ outputs) o = summed-append ((n + p.spend_meta.amount) % 2 ^ 64) outputs o

map-append :
    (xs ys : List (SpendMeta × Spend))
    → map spend_of (xs ++ ys) ≡ map spend_of xs ++ map spend_of ys
map-append [] ys = refl
map-append (x ∷ xs) ys = ap (λ l. x.1 ∷ l) (map-append xs ys)

-- An output is added to the outputs if all are asked for.
abbrev pub shown : Bool → List Output → List Output
shown true outputs = outputs
shown false outputs = []

pub receives-place_output :
    (all skip : Bool) (o : Output) (out : List Transaction)
    → receives_of (place_output all skip o out) ≡ receives_of out ++ shown all (o ∷ [])
receives-place_output true skip o [] = refl
receives-place_output false skip o [] = refl
receives-place_output true skip o (t ∷ out) =
    elim (Bool-cases (t.info.link.tx_hash == o.link.tx_hash)) [
      | inl e ↦
          ap receives_of
            (if_true _ (note_receive true skip o (transaction_of_output o) ∷ t ∷ out) e)
          ∙ sym (append_assoc (receives_of out) t.receives (o ∷ []))
      | inr e ↦
          ap receives_of
            (if_false (note_receive true skip o (add_amount o.spend_meta.amount t) ∷ out) _ e)
    ]
receives-place_output false skip o (t ∷ out) =
    elim (Bool-cases (t.info.link.tx_hash == o.link.tx_hash)) [
      | inl e ↦
          ap receives_of
            (if_true _ (note_receive false skip o (transaction_of_output o) ∷ t ∷ out) e)
          ∙ sym (append-nil _)
      | inr e ↦
          ap receives_of
            (if_false (note_receive false skip o (add_amount o.spend_meta.amount t) ∷ out) _ e)
    ]

pub spends-place_output :
    (all skip : Bool) (o : Output) (out : List Transaction)
    → spends_of (place_output all skip o out) ≡ spends_of out
spends-place_output true skip o [] = refl
spends-place_output false skip o [] = refl
spends-place_output true skip o (t ∷ out) =
    elim (Bool-cases (t.info.link.tx_hash == o.link.tx_hash)) [
      | inl e ↦
          ap spends_of (if_true _ (note_receive true skip o (transaction_of_output o) ∷ t ∷ out) e)
      | inr e ↦
          ap spends_of
            (if_false (note_receive true skip o (add_amount o.spend_meta.amount t) ∷ out) _ e)
          ∙ append-nil _
    ]
spends-place_output false skip o (t ∷ out) =
    elim (Bool-cases (t.info.link.tx_hash == o.link.tx_hash)) [
      | inl e ↦
          ap spends_of (if_true _ (note_receive false skip o (transaction_of_output o) ∷ t ∷ out) e)
      | inr e ↦
          ap spends_of
            (if_false (note_receive false skip o (add_amount o.spend_meta.amount t) ∷ out) _ e)
          ∙ append-nil _
    ]

small : (a : ℕ) → a < 2 ^ 64 → a ≡ (0 + a) % 2 ^ 64
small a w = sym (mod-eq_of_lt {n = 0 + a} {m = 2 ^ 64} (omega (arith, w)) ∙ omega arith)

pub place_output-IsSum :
    (skip : Bool) (o : Output) (out : List Transaction)
    → o.spend_meta.amount < 2 ^ 64
    → All IsSum out
    → All IsSum (place_output true skip o out)
place_output-IsSum skip o [] w h = (small o.spend_meta.amount w, tt)
place_output-IsSum skip o (t ∷ out) w (s, h) =
    elim (Bool-cases (t.info.link.tx_hash == o.link.tx_hash)) [
      | inl e ↦
          subst (All IsSum)
            (sym (if_true (note_receive true skip o (add_amount o.spend_meta.amount t) ∷ out) _ e))
            (ap (λ n. (n + o.spend_meta.amount) % 2 ^ 64) s ∙ sym (summed-append 0 t.receives o), h)
      | inr e ↦
          subst (All IsSum)
            (sym (if_false _ (note_receive true skip o (transaction_of_output o) ∷ t ∷ out) e))
            (small o.spend_meta.amount w, (s, h))
    ]

pub receives-place_spend :
    (meta : SpendMeta) (s : Spend) (out : List Transaction)
    → receives_of (place_spend meta s out) ≡ receives_of out
receives-place_spend meta s [] = refl
receives-place_spend meta s (t ∷ out) = elim (Bool-cases (t.info.link.tx_hash == s.link.tx_hash)) [
  | inl e ↦ ap receives_of (if_true _ (transaction_of_spend meta s ∷ t ∷ out) e)
  | inr e ↦
      ap receives_of (if_false (record t { spends = t.spends ++ (meta, s) ∷ [] } ∷ out) _ e)
      ∙ append-nil _
]

pub spends-place_spend :
    (meta : SpendMeta) (s : Spend) (out : List Transaction)
    → spends_of (place_spend meta s out) ≡ spends_of out ++ s ∷ []
spends-place_spend meta s [] = refl
spends-place_spend meta s (t ∷ out) = elim (Bool-cases (t.info.link.tx_hash == s.link.tx_hash)) [
  | inl e ↦
      ap spends_of (if_true _ (transaction_of_spend meta s ∷ t ∷ out) e)
      ∙ ap (λ l. spends_of out ++ l) (map-append t.spends ((meta, s) ∷ []))
      ∙ sym (append_assoc (spends_of out) (map spend_of t.spends) (s ∷ []))
  | inr e ↦ ap spends_of (if_false (record t { spends = t.spends ++ (meta, s) ∷ [] } ∷ out) _ e)
]

pub place_spend-IsSum :
    (meta : SpendMeta) (s : Spend) (out : List Transaction)
    → All IsSum out
    → All IsSum (place_spend meta s out)
place_spend-IsSum meta s [] h = (refl, tt)
place_spend-IsSum meta s (t ∷ out) (z, h) =
    elim (Bool-cases (t.info.link.tx_hash == s.link.tx_hash)) [
      | inl e ↦ subst (All IsSum) (sym (if_true _ (transaction_of_spend meta s ∷ t ∷ out) e)) (z, h)
      | inr e ↦
          subst (All IsSum)
            (sym (if_false (record t { spends = t.spends ++ (meta, s) ∷ [] } ∷ out) _ e))
            (refl, (z, h))
    ]

pub add_spent_lem :
    (amount : ℕ) (out : List Transaction)
    → (receives_of (add_spent amount out) ≡ receives_of out)
      × ((spends_of (add_spent amount out) ≡ spends_of out)
          × (All IsSum out → All IsSum (add_spent amount out)))
add_spent_lem amount [] = (refl, (refl, λ h. h))
add_spent_lem amount (t ∷ out) = (refl, (refl, λ h. h))

-- ===== src/Util/RandomOutputs/Triangular.antt =====
-- The outputs that `triangular_pick` of src/util/random_outputs.cpp picks.
use monero_lws.Base.{
  ℕ, zero, suc, ◌+◌, ◌≤◌, ◌≡◌, refl, arith, some, List, [], ◌∷◌, length, ltb, ◌==◌, All, Bool-cases,
  Option-cases, inl, inr, subst,
}
use monero_lws.Base.Results.{ok}
use monero_lws.Util.RandomOutputs.{
  pick_all, pick_all_from, OutputRef, Histogram, pick_index, pick_each, triangular_pick,
}

pick_index-le : (u : ℕ) (cs : List ℕ) (i : ℕ) → pick_index u cs ≡ some i → i ≤ u
unfolding pick_index
pick_index-le u [] i h = absurd (ground arith)
pick_index-le u (c ∷ cs) i h = elim (Bool-cases (ltb u c)) [
  | inl e ↦ pick_index-le u cs i (rw e at h)
  | inr e ↦ ground (arith, rw e at h)
]

-- Every picked output has the amount, and its index is at most `unlocked_count`.
abbrev pub ArePicked : Histogram → ℕ → List OutputRef → Type 0
ArePicked hist entries refs =
    (length refs ≡ entries)
    × All (λ r. (r.amount ≡ hist.amount) × r.index ≤ hist.unlocked_count) refs

pick_each-ArePicked :
    (hist : Histogram) (out : List (List ℕ)) (refs : List OutputRef)
    → pick_each hist out ≡ some refs
    → ArePicked hist (length out) refs
unfolding pick_each
pick_each-ArePicked hist [] refs h = subst (λ x. ArePicked hist 0 x) (some-inj h) (refl, tt)
  where
    some-inj : some [] ≡ some refs → [] ≡ refs
    some-inj e = ground arith
pick_each-ArePicked hist (cs ∷ more) refs h =
    elim (Option-cases (pick_index hist.unlocked_count cs)) [
      | inl e ↦ absurd (ground (arith, rw e at h))
      | inr e ↦ elim (Option-cases (pick_each hist more)) [
        | inl k ↦ absurd (ground (arith, rw (e.1, k) at h))
        | inr k ↦
            subst (λ x. ArePicked hist (suc (length more)) x)
              {x = record { amount = hist.amount; index = e.0 } ∷ k.0}
              (ground (arith, rw (e.1, k.1) at h))
              (put e.0 k.0 (pick_index-le hist.unlocked_count cs e.0 e.1)
                (pick_each-ArePicked hist more k.0 k.1))
      ]
    ]
  where
    put :
        (i : ℕ) (rs : List OutputRef)
        → i ≤ hist.unlocked_count
        → ArePicked hist (length more) rs
        → ArePicked hist (suc (length more)) (record { amount = hist.amount; index = i } ∷ rs)
    put i rs l a = (omega (arith, a.0), ((refl, l), a.1))

pick_all_from-ArePicked :
    (hist : Histogram) (index entries : ℕ)
    → index + entries ≤ hist.unlocked_count
    → ArePicked hist entries (pick_all_from index entries hist.amount)
unfolding pick_all_from
pick_all_from-ArePicked hist index zero h = (refl, tt)
pick_all_from-ArePicked hist index (suc entries) h =
    put (pick_all_from-ArePicked hist (index + 1) entries (omega (arith, h)))
  where
    rest : List OutputRef
    rest = pick_all_from (index + 1) entries hist.amount

    put :
        ArePicked hist entries rest
        → ArePicked hist (suc entries) (record { amount = hist.amount; index = index } ∷ rest)
    put a = (omega (arith, a.0), ((refl, omega (arith, h)), a.1))

-- A successful `triangular_pick` fills every entry with an output of the amount whose index is at most
-- `unlocked_count`.
pub triangular_pick-ArePicked :
    (hist : Histogram) (out : List (List ℕ)) (refs : List OutputRef)
    → triangular_pick hist out ≡ some (ok refs)
    → ArePicked hist (length out) refs
unfolding triangular_pick pick_all
triangular_pick-ArePicked hist out refs h =
    elim (Bool-cases (ltb hist.total_count hist.unlocked_count)) [
      | inl e ↦ absurd (ground (arith, rw e at h))
      | inr e ↦ elim (Bool-cases (ltb hist.unlocked_count (length out))) [
        | inl k ↦ absurd (ground (arith, rw (e, k) at h))
        | inr k ↦ elim (Bool-cases (hist.unlocked_count == length out)) [
          | inl m ↦
              subst (λ x. ArePicked hist (length out) x)
                {x = pick_all_from 0 (length out) hist.amount} (ground (arith, rw (e, k, m) at h))
                (pick_all_from-ArePicked hist 0 (length out) (ground arith))
          | inr m ↦ elim (Option-cases (pick_each hist out)) [
            | inl n ↦ absurd (ground (arith, rw (e, k, m, n) at h))
            | inr n ↦
                subst (λ x. ArePicked hist (length out) x) {x = n.0}
                  (ground (arith, rw (e, k, m, n.1) at h)) (pick_each-ArePicked hist out n.0 n.1)
          ]
        ]
      ]
    ]

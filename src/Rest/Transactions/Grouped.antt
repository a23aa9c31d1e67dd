-- ===== src/Rest/Transactions/Grouped.antt =====
-- How `merge_into_txes` of src/rpc/light_wallet.cpp groups outputs and spends into transactions.
use monero_lws.Base.{
  ℕ, ◌+◌, ◌%◌, ◌^◌, ◌≡◌, refl, sym, ap, subst, ◌∙◌, arith, inl, inr, Bool, true, false, not, ◌&&◌,
  Bool-cases, Option-cases, if_true, if_false, ◌==◌, List, [], ◌∷◌, ◌++◌, All, All-In, In,
  All-insert_at_bound, if◌then◌else◌,
}
use monero_lws.Base.Results.{ok, ◌>>=◌, bind_ok, guard_ok, ok_inj}
use monero_lws.Db.Data.{Output, Spend, SpendMeta, link_le, output_id_eq}
use monero_lws.Rest.AddressInfo.{before, find_metadata, receive_of}
use monero_lws.Rest.Metas.{IsOrdered, add_meta-insert, add_meta-IsOrdered, receive_of-In}
use monero_lws.Rest.Transactions.{
  Transaction, Merge, not_verified, is_reached, place_spend, add_spent, place_output, add_output,
  meta_of, put_spend, add_spend, merge,
}

abbrev pub tx_of : Transaction → ℕ
tx_of t = t.info.link.tx_hash

-- The sum of the amounts of the sources, on 64 bits.
abbrev pub summed_sources : ℕ → List (SpendMeta × Spend) → ℕ
summed_sources n [] = n
summed_sources n (x ∷ spends) = summed_sources ((n + x.0.amount) % 2 ^ 64) spends

-- The newest transaction is not the one before.
abbrev IsApart : Transaction → List Transaction → Type 0
IsApart t [] = Unit
IsApart t (u ∷ out) = (tx_of u == tx_of t) ≡ false

abbrev pub AreApart : List Transaction → Type 0
AreApart [] = Unit
AreApart (t ∷ out) = IsApart t out × AreApart out

-- Each spend is there with one of the sources, that of the output that it spends, and the amount spent is the sum of theirs. Where the sources are
-- skipped, it is 0.
abbrev pub AreSpent : List SpendMeta → Bool → ℕ → List (SpendMeta × Spend) → Type 0
AreSpent sources true spent spends = spent ≡ 0
AreSpent sources false spent spends =
    (spent ≡ summed_sources 0 spends)
    × All (λ x. (output_id_eq x.0.id x.1.source ≡ true) × In x.0 sources) spends

nothing_spent : (sources : List SpendMeta) (skip : Bool) → AreSpent sources skip 0 []
nothing_spent sources true = refl
nothing_spent sources false = (refl, tt)

-- The outputs and the spends of a transaction have its hash.
abbrev pub IsOne : List SpendMeta → Bool → Transaction → Type 0
IsOne sources skip t =
    All (λ o. o.link.tx_hash ≡ tx_of t) t.receives
    × (All (λ x. x.1.link.tx_hash ≡ tx_of t) t.spends × AreSpent sources skip t.spent t.spends)

abbrev pub IsGrouped : List SpendMeta → Bool → List Transaction → Type 0
IsGrouped sources skip out = All (IsOne sources skip) out × AreApart out

All-snoc :
    {A : Type 0} (P : A → Type 0) (xs : List A) (x : A) → All P xs → P x → All P (xs ++ x ∷ [])
All-snoc P [] x h p = (p, tt)
All-snoc P (y ∷ xs) x (q, h) p = (q, All-snoc P xs x h p)

summed_sources-append :
    (n : ℕ) (spends : List (SpendMeta × Spend)) (x : SpendMeta × Spend)
    → summed_sources n (spends ++ x ∷ []) ≡ (summed_sources n spends + x.0.amount) % 2 ^ 64
summed_sources-append n [] x = refl
summed_sources-append n (y ∷ spends) x = summed_sources-append ((n + y.0.amount) % 2 ^ 64) spends x

module _ (sources : List SpendMeta) where
  place_output-IsGrouped :
      (all skip : Bool) (o : Output) (out : List Transaction)
      → IsGrouped sources skip out
      → IsGrouped sources skip (place_output all skip o out)
  place_output-IsGrouped true skip o [] h =
      ((((refl, tt), (tt, nothing_spent sources skip)), tt), (tt, tt))
  place_output-IsGrouped false skip o [] h =
      (((tt, (tt, nothing_spent sources skip)), tt), (tt, tt))
  place_output-IsGrouped true skip o (t ∷ out) (((r, one), h), (a, rest)) =
      elim (Bool-cases (tx_of t == o.link.tx_hash)) [
        | inl e ↦ rw e (((All-snoc _ t.receives o r (ground arith), one), h), (a, rest))
        | inr e ↦
            rw e ((((refl, tt), (tt, nothing_spent sources skip)), ((r, one), h)), (e, (a, rest)))
      ]
  place_output-IsGrouped false skip o (t ∷ out) (((r, one), h), (a, rest)) =
      elim (Bool-cases (tx_of t == o.link.tx_hash)) [
        | inl e ↦ rw e (((r, one), h), (a, rest))
        | inr e ↦ rw e (((tt, (tt, nothing_spent sources skip)), ((r, one), h)), (e, (a, rest)))
      ]

  -- A spend is placed with its source, whose amount is added.
  place_spend-skipped :
      (meta : SpendMeta) (s : Spend) (out : List Transaction)
      → IsGrouped sources true out
      → IsGrouped sources true (place_spend meta s out)
  place_spend-skipped meta s [] h = (((tt, ((refl, tt), refl)), tt), (tt, tt))
  place_spend-skipped meta s (t ∷ out) (((r, (p, one)), h), (a, rest)) =
      elim (Bool-cases (tx_of t == s.link.tx_hash)) [
        | inl e ↦ rw e (((r, (All-snoc _ t.spends (meta, s) p (ground arith), one)), h), (a, rest))
        | inr e ↦ rw e (((tt, ((refl, tt), refl)), ((r, (p, one)), h)), (e, (a, rest)))
      ]

  place_spend-summed :
      (meta : SpendMeta) (s : Spend) (out : List Transaction)
      → (output_id_eq meta.id s.source ≡ true) × In meta sources
      → IsGrouped sources false out
      → IsGrouped sources false (add_spent meta.amount (place_spend meta s out))
  place_spend-summed meta s [] k h = (((tt, ((refl, tt), (refl, (k, tt)))), tt), (tt, tt))
  place_spend-summed meta s (t ∷ out) k (((r, (p, one)), h), (a, rest)) =
      elim (Bool-cases (tx_of t == s.link.tx_hash)) [
        | inl e ↦ rw e (
          (
            (
              r,
              (
                All-snoc _ t.spends (meta, s) p (ground arith),
                (
                  ap (λ n. (n + meta.amount) % 2 ^ 64) one.0
                      ∙ sym (summed_sources-append 0 t.spends (meta, s)),
                  All-snoc _ t.spends (meta, s) one.1 k,
                ),
              ),
            ),
            h,
          ),
          (a, rest),
        )
        | inr e ↦ rw e (((tt, ((refl, tt), (refl, (k, tt)))), ((r, (p, one)), h)), (e, (a, rest)))
      ]

  -- The entries that have been seen are sources, in the order of their ids.
  abbrev IsSoFar : Bool → Merge → Type 0
  IsSoFar skip m =
      IsGrouped sources skip m.out × (IsOrdered m.metas × All (λ x. In x sources) m.metas)

  add_spend-IsSoFar :
      (all skip : Bool) (s : Spend) (m r : Merge)
      → IsSoFar skip m
      → add_spend all skip s m ≡ ok r
      → IsSoFar skip r
  unfolding add_spend
  add_spend-IsSoFar all true s m r (g, more) h =
      let (meta, (_, e)) =
        bind_ok (meta_of all true (receive_of s.source (find_metadata m.metas s.source)))
          (λ meta. ok (put_spend all true s m meta)) r h in
      subst (IsSoFar true) (ok_inj e) (place_spend-skipped meta s m.out g, more)
  add_spend-IsSoFar all false s m r (g, (o, k)) h =
      elim (Option-cases (receive_of s.source (find_metadata m.metas s.source))) [
        | inl e ↦ absurd (
            ground (
              arith,
              sym (ap (λ o. meta_of all false o >>= λ meta. ok (put_spend all false s m meta)) e)
                  ∙ h,
            ))
        | inr (n, e) ↦
            let (there, same) = receive_of-In s.source m.metas n e in
            subst (IsSoFar false)
              (ok_inj (
                sym (ap (λ o. meta_of all false o >>= λ meta. ok (put_spend all false s m meta)) e)
                ∙ h))
              (
                place_spend-summed n s m.out (same, All-In (λ x. In x sources) n m.metas k there) g,
                (o, k),
              )
      ]

  add_output-IsSoFar :
      (all skip : Bool) (o : Output) (m : Merge)
      → In o.spend_meta sources
      → IsSoFar skip m
      → IsSoFar skip (add_output all skip o m)
  unfolding add_output
  add_output-IsSoFar all skip o m i (g, (order, k)) = (
    place_output-IsGrouped all skip o m.out g,
    (
      add_meta-IsOrdered o.spend_meta m.metas order,
      subst (All (λ x. In x sources)) (sym (add_meta-insert o.spend_meta m.metas order)) (
          All-insert_at_bound (λ x. In x sources) (before o.spend_meta.id) o.spend_meta m.metas i
            k),
    ),
  )

  -- Whatever the merge answers is grouped.
  pub merge-IsGrouped :
      (all skip : Bool) (outputs : List Output) (spends : List Spend) (m r : Merge)
      → All (λ o. In o.spend_meta sources) outputs
      → IsSoFar skip m
      → merge all skip outputs spends m ≡ ok r
      → IsGrouped sources skip r.out
  unfolding merge
  merge-IsGrouped all skip [] [] m r k g h =
      subst (IsGrouped sources skip) (ap (λ (m : Merge). m.out) (ok_inj h)) g.0
  merge-IsGrouped all skip (o ∷ outputs) [] m r (i, k) g h =
      merge-IsGrouped all skip outputs [] (add_output all skip o m) r k
        (add_output-IsSoFar all skip o m i g) (guard_ok _ not_verified _ r h)
  merge-IsGrouped all skip [] (s ∷ spends) m r k g h =
      let (n, (e, run)) =
        bind_ok (add_spend all skip s m) (merge all skip [] spends) r
          (guard_ok _ not_verified _ r h) in
      merge-IsGrouped all skip [] spends n r k (add_spend-IsSoFar all skip s m n g e) run
  merge-IsGrouped all skip (o ∷ outputs) (s ∷ spends) m r (i, k) g h =
      let run =
        guard_ok (not (is_reached m.out o.link && is_reached m.out s.link)) not_verified
          (if link_le o.link s.link
            then merge all skip outputs (s ∷ spends) (add_output all skip o m)
            else add_spend all skip s m >>= merge all skip (o ∷ outputs) spends)
          r h in
      elim (Bool-cases (link_le o.link s.link)) [
        | inl e ↦
            merge-IsGrouped all skip outputs (s ∷ spends) (add_output all skip o m) r k
              (add_output-IsSoFar all skip o m i g) (sym (if_true _ _ e) ∙ run)
        | inr e ↦
            let (n, (f, rest)) =
              bind_ok (add_spend all skip s m) (merge all skip (o ∷ outputs) spends) r
                (sym (if_false _ _ e) ∙ run) in
            merge-IsGrouped all skip (o ∷ outputs) spends n r (i, k)
              (add_spend-IsSoFar all skip s m n g f) rest
      ]

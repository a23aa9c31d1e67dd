-- ===== src/Rest/Transactions/Steps.antt =====
-- A round of `merge_into_txes` in src/rpc/light_wallet.cpp: what it needs, and what it keeps.
use monero_lws.Base.{
  ℕ, ◌^◌, ◌<◌, ◌≡◌, refl, sym, ap, subst, ◌∙◌, arith, ◌⊎◌, inl, inr, Bool, true, false, Bool-cases,
  Option-cases, if_true, if_false, ◌==◌, List, [], ◌∷◌, ◌++◌, All, All-In, In, In-insert_at_bound,
  if◌then◌else◌,
}
use monero_lws.Base.Results.{ok, ◌>>=◌}
use monero_lws.Db.Data.{Output, Spend, SpendMeta, TransactionLink, link_le, output_id_eq}
use monero_lws.Rest.AddressInfo.{before, find_metadata, add_meta, receive_of}
use monero_lws.Rest.Metas.{IsOrdered, add_meta-insert, receive_of-finds}
use monero_lws.Rest.Transactions.{
  Transaction, Merge, no_meta, is_reached, transaction_of_output, transaction_of_spend, add_amount,
  note_receive, place_spend, add_spent, place_output, meta_of, put_spend, add_spend,
}
use monero_lws.Rest.Transactions.Content.{
  receives_of, spends_of, summed, IsSum, shown, receives-place_spend, spends-place_spend,
  place_spend-IsSum, add_spent_lem,
}

-- In the order of the links.
abbrev pub OutputsAreSorted : List Output → Type 0
OutputsAreSorted [] = Unit
OutputsAreSorted (o ∷ os) = All (λ p. link_le o.link p.link ≡ true) os × OutputsAreSorted os

abbrev pub SpendsAreSorted : List Spend → Type 0
SpendsAreSorted [] = Unit
SpendsAreSorted (s ∷ ss) = All (λ p. link_le s.link p.link ≡ true) ss × SpendsAreSorted ss

-- An output of the list is the one that is spent, and does not come after the spend.
abbrev pub HasSource : List Output → Spend → Type 0
HasSource outputs s =
    (o : Output) × (In o outputs
      × ((output_id_eq o.spend_meta.id s.source ≡ true) × (link_le o.link s.link ≡ true)))

-- The same, where some outputs have been seen.
abbrev pub IsSourced : List SpendMeta → List Output → Spend → Type 0
IsSourced metas outputs s =
    ((m : SpendMeta) × (In m metas × (output_id_eq m.id s.source ≡ true))) ⊎ HasSource outputs s

pub le_trans :
    (a b c : TransactionLink) → link_le a b ≡ true → link_le b c ≡ true → link_le a c ≡ true
le_trans a b c h k = ground (arith, h, k)

-- The last transaction is not behind any output or spend that is left.
abbrev pub IsBefore : List Transaction → List Output → List Spend → Type 0
IsBefore out outputs spends =
    All (λ o. is_reached out o.link ≡ true) outputs × All (λ s. is_reached out s.link ≡ true) spends

pub All-map :
    {A : Type 0} (P Q : A → Type 0) (xs : List A) → ((x : A) → P x → Q x) → All P xs → All Q xs
All-map P Q [] f p = tt
All-map P Q (x ∷ xs) f (p, ps) = (f x p, All-map P Q xs f ps)

pub All-both :
    {A : Type 0} (P Q R : A → Type 0) (xs : List A)
    → ((x : A) → P x → Q x → R x)
    → All P xs
    → All Q xs
    → All R xs
All-both P Q R [] f p q = tt
All-both P Q R (x ∷ xs) f (p, ps) (q, qs) = (f x p q, All-both P Q R xs f ps qs)

module _ (skip : Bool) where
  link-note_receive :
      (all : Bool) (o : Output) (t : Transaction)
      → (note_receive all skip o t).info.link ≡ t.info.link
  link-note_receive true o t = refl
  link-note_receive false o t = refl

module _ (all skip : Bool) where
  -- The link of the last transaction is that of an output that was placed, or was there.
  pub reached_output :
      (o : Output) (out : List Transaction) (next : TransactionLink)
      → link_le o.link next ≡ true
      → is_reached out next ≡ true
      → is_reached (place_output all skip o out) next ≡ true
  reached_output o [] next h k =
      ap (λ l. link_le l next) (link-note_receive skip all o (transaction_of_output o)) ∙ h
  reached_output o (t ∷ out) next h k = elim (Bool-cases (t.info.link.tx_hash == o.link.tx_hash)) [
    | inl e ↦
        ap (λ out. is_reached out next)
          (if_true _ (note_receive all skip o (transaction_of_output o) ∷ t ∷ out) e)
        ∙ ap (λ l. link_le l next) (link-note_receive skip all o (add_amount o.spend_meta.amount t))
        ∙ k
    | inr e ↦
        ap (λ out. is_reached out next)
          (if_false (note_receive all skip o (add_amount o.spend_meta.amount t) ∷ out) _ e)
        ∙ ap (λ l. link_le l next) (link-note_receive skip all o (transaction_of_output o))
        ∙ h
  ]

  reached_spend :
      (meta : SpendMeta) (s : Spend) (out : List Transaction) (next : TransactionLink)
      → link_le s.link next ≡ true
      → is_reached out next ≡ true
      → is_reached (place_spend meta s out) next ≡ true
  reached_spend meta s [] next h k = h
  reached_spend meta s (t ∷ out) next h k =
      elim (Bool-cases (t.info.link.tx_hash == s.link.tx_hash)) [
        | inl e ↦
            ap (λ out. is_reached out next) (if_true _ (transaction_of_spend meta s ∷ t ∷ out) e)
            ∙ k
        | inr e ↦
            ap (λ out. is_reached out next)
              (if_false (record t { spends = t.spends ++ (meta, s) ∷ [] } ∷ out) _ e)
            ∙ h
      ]

In-add_meta :
    (m meta : SpendMeta) (metas : List SpendMeta)
    → IsOrdered metas
    → (m ≡ meta) ⊎ In m metas
    → In m (add_meta meta metas)
In-add_meta m meta metas o h =
    subst (In m) (sym (add_meta-insert meta metas o))
      (In-insert_at_bound (before meta.id) meta m metas h)

reached_add_spent :
    (amount : ℕ) (out : List Transaction) (next : TransactionLink)
    → is_reached out next ≡ true
    → is_reached (add_spent amount out) next ≡ true
reached_add_spent amount [] next h = h
reached_add_spent amount (t ∷ out) next h = h

-- What `put_spend` changes.
pub put_spend_lem :
    (all skip : Bool) (s : Spend) (m : Merge) (meta : SpendMeta)
    → (receives_of (put_spend all skip s m meta).out ≡ receives_of m.out)
      × ((spends_of (put_spend all skip s m meta).out ≡ spends_of m.out ++ s ∷ [])
          × ((All IsSum m.out → All IsSum (put_spend all skip s m meta).out)
              × ((next : TransactionLink)
                  → link_le s.link next ≡ true
                  → is_reached m.out next ≡ true
                  → is_reached (put_spend all skip s m meta).out next ≡ true)))
put_spend_lem all true s m meta = (
  receives-place_spend meta s m.out,
  (
    spends-place_spend meta s m.out,
    (place_spend-IsSum meta s m.out, reached_spend all true meta s m.out),
  ),
)
put_spend_lem all false s m meta =
    let (r, (p, i)) = add_spent_lem meta.amount (place_spend meta s m.out) in
    (
      r ∙ receives-place_spend meta s m.out,
      (
        p ∙ spends-place_spend meta s m.out,
        (
          λ h. i (place_spend-IsSum meta s m.out h),
          λ next h k.
              reached_add_spent meta.amount (place_spend meta s m.out) next
                (reached_spend all false meta s m.out next h k),
        ),
      ),
    )

pub add_meta-IsSourced :
    (metas : List SpendMeta) (o : Output) (outputs : List Output) (s : Spend)
    → IsOrdered metas
    → IsSourced metas (o ∷ outputs) s
    → IsSourced (add_meta o.spend_meta metas) outputs s
add_meta-IsSourced metas o outputs s k (inl (m, (i, e))) =
    inl (m, (In-add_meta m o.spend_meta metas k (inr i), e))
add_meta-IsSourced metas o outputs s k (inr (p, (inl q, (e, l)))) = inl (
  o.spend_meta,
  (
    In-add_meta o.spend_meta o.spend_meta metas k (inl refl),
    subst (λ (x : Output). output_id_eq x.spend_meta.id s.source ≡ true) q e,
  ),
)
add_meta-IsSourced metas o outputs s k (inr (p, (inr i, h))) = inr (p, (i, h))

-- A spend before the next output is before all that follow it, and none of them comes before the spend.
pub after_spend :
    (s : Spend) (o : Output) (outputs : List Output)
    → link_le o.link s.link ≡ false
    → All (λ p. link_le o.link p.link ≡ true) outputs
    → All (λ p. link_le s.link p.link ≡ true) (o ∷ outputs)
after_spend s o outputs e h =
    let before_o : link_le s.link o.link ≡ true = ground (arith, e) in
    (
      before_o,
      All-map (λ p. link_le o.link p.link ≡ true) (λ p. link_le s.link p.link ≡ true) outputs
          (λ p. le_trans s.link o.link p.link before_o) h,
    )

pub not_before :
    (s : Spend) (o : Output) (outputs : List Output) (p : Output)
    → link_le o.link s.link ≡ false
    → All (λ p. link_le o.link p.link ≡ true) outputs
    → In p (o ∷ outputs)
    → link_le p.link s.link ≡ false
not_before s o outputs p e h (inl q) = ap (λ (x : Output). link_le x.link s.link) q ∙ e
not_before s o outputs p e h (inr i) =
    ground (arith, e, All-In (λ p. link_le o.link p.link ≡ true) p outputs h i)

module _ (all skip : Bool) where
  abbrev pub IsKnown : List SpendMeta → Spend → Type 0
  IsKnown metas s = (m : SpendMeta) × (In m metas × (output_id_eq m.id s.source ≡ true))

  pub spend_ok :
      (s : Spend) (m : Merge)
      → IsOrdered m.metas
      → (skip ≡ true) ⊎ IsKnown m.metas s
      → (meta : SpendMeta) × (add_spend all skip s m ≡ ok (put_spend all skip s m meta))
  unfolding add_spend
  spend_ok s m o (inr (k, (i, e))) =
      let (n, g) = receive_of-finds s.source m.metas k o i e in
      (
        if skip then no_meta else n,
        ap (λ r. meta_of all skip r >>= λ meta. ok (put_spend all skip s m meta)) g,
      )
  spend_ok s m o (inl e) =
      elim (Option-cases (receive_of s.source (find_metadata m.metas s.source))) [
        | inl g ↦ (
          no_meta,
          ap (λ r. meta_of all skip r >>= λ meta. ok (put_spend all skip s m meta)) g
              ∙ ap (λ r. r >>= λ meta. ok (put_spend all skip s m meta)) (if_true _ _ e),
        )
        | inr (n, g) ↦ (
          if skip then no_meta else n,
          ap (λ r. meta_of all skip r >>= λ meta. ok (put_spend all skip s m meta)) g,
        )
      ]

  -- The answer from a state on.
  abbrev pub IsMerged : List Output → List Spend → Merge → Merge → Type 0
  IsMerged outputs spends m r =
      (receives_of r.out ≡ receives_of m.out ++ shown all outputs)
      × ((spends_of r.out ≡ spends_of m.out ++ spends)
          × ((r.total ≡ summed m.total outputs) × (all ≡ true → All IsSum m.out → All IsSum r.out)))

  abbrev pub IsReady : List Output → List Spend → Merge → Type 0
  IsReady outputs spends m =
      OutputsAreSorted outputs
      × (SpendsAreSorted spends
          × (IsBefore m.out outputs spends
              × (IsOrdered m.metas
                  × (((skip ≡ true) ⊎ All (IsSourced m.metas outputs) spends)
                      × All (λ o. o.spend_meta.amount < 2 ^ 64) outputs))))

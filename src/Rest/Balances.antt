-- ===== src/Rest/Balances.antt =====
-- The totals of `get_address_info` of src/rest_server.cpp.
use native.Mathlib.Nat.{mod-add-mod}
use mathlib.Core.List.{append_assoc, append-nil}
use monero_lws.Base.{
  ℕ, ◌+◌, ◌%◌, ◌^◌, ◌≡◌, refl, ap, sym, ◌∙◌, subst, arith, true, inl, inr, ◌⊎◌, List, [], ◌∷◌, ◌++◌,
  All, In, insert_at_bound-In, In-insert_at_bound,
}
use monero_lws.Base.Results.{ok, ◌>>=◌}
use monero_lws.Db.Data.{Output, Spend, SpendMeta, output_id_eq}
use monero_lws.Rest.AddressInfo.{
  Rules, before, add_meta, Info, add_outputs, add_spend, add_spends, no_info, get_address_info,
}
use monero_lws.Rest.Metas.{
  IsOrdered, add_meta-insert, add_meta-IsOrdered, receive_of-In, receive_of-finds,
}

abbrev pub metas_of : List Output → List SpendMeta
metas_of [] = []
metas_of (o ∷ outputs) = o.spend_meta ∷ metas_of outputs

abbrev pub total : List SpendMeta → ℕ
total [] = 0
total (m ∷ metas) = m.amount + total metas

In-insert :
    (m meta : SpendMeta) (metas : List SpendMeta)
    → IsOrdered metas
    → (m ≡ meta) ⊎ In m metas
    → In m (add_meta meta metas)
In-insert m meta metas o i =
    subst (In m) (sym (add_meta-insert meta metas o))
      (In-insert_at_bound (before meta.id) meta m metas i)

insert-In :
    (m meta : SpendMeta) (metas : List SpendMeta)
    → IsOrdered metas
    → In m (add_meta meta metas)
    → (m ≡ meta) ⊎ In m metas
insert-In m meta metas o i =
    insert_at_bound-In (before meta.id) meta m metas (subst (In m) (add_meta-insert meta metas o) i)

wrap : (a b c : ℕ) → ((a + b) % 2 ^ 64 + c) % 2 ^ 64 ≡ (a + (b + c)) % 2 ^ 64
wrap a b c = mod-add-mod (a + b) (2 ^ 64) c ∙ ap (λ n. n % 2 ^ 64) {x = a + b + c} (omega arith)

module _ (r : Rules) (last : ℕ) where
  -- What the loop over the outputs leaves.
  abbrev Received : List Output → List SpendMeta → Info → List SpendMeta × Info → Type 0
  Received outputs metas info p =
      IsOrdered p.0
      × (((m : SpendMeta) → In m metas ⊎ In m (metas_of outputs) → In m p.0)
          × (((m : SpendMeta) → In m p.0 → In m metas ⊎ In m (metas_of outputs))
              × ((p.1.total_received % 2 ^ 64
                    ≡ (info.total_received + total (metas_of outputs)) % 2 ^ 64)
                  × ((p.1.total_sent ≡ info.total_sent)
                      × (p.1.spent_outputs ≡ info.spent_outputs)))))

  add_outputs-Received :
      (outputs : List Output) (metas : List SpendMeta) (info : Info)
      → IsOrdered metas
      → Received outputs metas info (add_outputs r last outputs metas info)
  unfolding add_outputs
  add_outputs-Received [] metas info o = (
    o,
    (
      (λ m i. elim i [ inl h ↦ h | inr h ↦ absurd h ]),
      (
        (λ m i. inl i),
        (ap (λ n. n % 2 ^ 64) {x = info.total_received} (omega arith), (refl, refl)),
      ),
    ),
  )
  add_outputs-Received (x ∷ outputs) metas info o =
      let (a, (b, (c, (d, e)))) =
        add_outputs-Received outputs (add_meta x.spend_meta metas) _
          (add_meta-IsOrdered x.spend_meta metas o) in
      (
        a,
        (
          (λ m i. b m (forth m i)),
          (
            (λ m i. back m (c m i)),
            (d ∙ wrap info.total_received x.spend_meta.amount (total (metas_of outputs)), e),
          ),
        ),
      )
    where
      forth :
          (m : SpendMeta)
          → In m metas ⊎ In m (metas_of (x ∷ outputs))
          → In m (add_meta x.spend_meta metas) ⊎ In m (metas_of outputs)
      forth m (inl h) = inl (In-insert m x.spend_meta metas o (inr h))
      forth m (inr (inl h)) = inl (In-insert m x.spend_meta metas o (inl h))
      forth m (inr (inr h)) = inr h

      back :
          (m : SpendMeta)
          → In m (add_meta x.spend_meta metas) ⊎ In m (metas_of outputs)
          → In m metas ⊎ In m (metas_of (x ∷ outputs))
      back m (inl h) = elim (insert-In m x.spend_meta metas o h) [
        | inl p ↦ inr (inl p)
        | inr p ↦ inl p
      ]
      back m (inr h) = inr (inr h)

-- A spend has the output of its source.
abbrev pub IsPaid : List SpendMeta → SpendMeta × Spend → Type 0
IsPaid metas p = In p.0 metas × (output_id_eq p.0.id p.1.source ≡ true)

abbrev pub sent : List (SpendMeta × Spend) → ℕ
sent [] = 0
sent (p ∷ ps) = p.0.amount + sent ps

abbrev pub spends_of : List (SpendMeta × Spend) → List Spend
spends_of [] = []
spends_of (p ∷ ps) = p.1 ∷ spends_of ps

add_spends-lem :
    (metas : List SpendMeta) (spends : List Spend) (info : Info)
    → IsOrdered metas
    → All (λ s. (m : SpendMeta) × (In m metas × (output_id_eq m.id s.source ≡ true))) spends
    → (t : Info) × ((add_spends metas spends info ≡ ok t)
        × ((t.total_received ≡ info.total_received)
            × ((more : List (SpendMeta × Spend)) × ((t.spent_outputs ≡ info.spent_outputs ++ more)
                  × ((spends_of more ≡ spends)
                      × (All (IsPaid metas) more
                          × (t.total_sent % 2 ^ 64 ≡ (info.total_sent + sent more) % 2 ^ 64)))))))
unfolding add_spends
add_spends-lem metas [] info o h = (
  info,
  (
    refl,
    (
      refl,
      (
        [],
        (
          sym (append-nil info.spent_outputs),
          (refl, (tt, ap (λ n. n % 2 ^ 64) {x = info.total_sent} (omega arith))),
        ),
      ),
    ),
  ),
)
add_spends-lem metas (s ∷ spends) info o h =
    let (n, g) = receive_of-finds s.source metas h.0.0 o h.0.1.0 h.0.1.1 in
    let (t, (e, (u, (more, (a, (b, (c, d))))))) =
      add_spends-lem metas spends
        (record info {
          spent_outputs = info.spent_outputs ++ (n, s) ∷ [];
          total_sent = (info.total_sent + n.amount) % 2 ^ 64;
        })
        o h.1 in
    (
      t,
      (
        ap (λ x. add_spend s info x >>= add_spends metas spends) g ∙ e,
        (
          u,
          (
            (n, s) ∷ more,
            (
              a ∙ append_assoc info.spent_outputs ((n, s) ∷ []) more,
              (
                ap (◌∷◌ s) b,
                (
                  (receive_of-In s.source metas n g, c),
                  d ∙ wrap info.total_sent n.amount (sent more),
                ),
              ),
            ),
          ),
        ),
      ),
    )

All-map :
    {A : Type 0} (P Q : A → Type 0) (xs : List A) → ((x : A) → P x → Q x) → All P xs → All Q xs
All-map P Q [] f h = tt
All-map P Q (x ∷ xs) f h = (f x h.0, All-map P Q xs f h.1)

abbrev pub HasReceive : List Output → Spend → Type 0
HasReceive outputs s =
    (m : SpendMeta) × (In m (metas_of outputs) × (output_id_eq m.id s.source ≡ true))

-- The answer for such spends: the totals, and for each spend, in order, an output with the id of its source.
abbrev pub IsAnswer : List Output → List Spend → Info → Type 0
IsAnswer outputs spends info =
    (info.total_received % 2 ^ 64 ≡ total (metas_of outputs) % 2 ^ 64)
    × ((info.total_sent % 2 ^ 64 ≡ sent info.spent_outputs % 2 ^ 64)
        × ((spends_of info.spent_outputs ≡ spends)
            × All (IsPaid (metas_of outputs)) info.spent_outputs))

-- Where the source of each spend is among the outputs, in whatever order these are, the answer has the sum of the outputs'
-- amounts as received and that of the spends' sources as sent, on 64 bits, and lists each spend with an output of
-- the account that has the id of its source.
pub get_address_info-IsAnswer :
    (r : Rules) (last : ℕ) (outputs : List Output) (spends : List Spend)
    → All (HasReceive outputs) spends
    → (info : Info) × ((get_address_info r last outputs spends ≡ ok info)
        × IsAnswer outputs spends info)
unfolding get_address_info
get_address_info-IsAnswer r last outputs spends h =
    let (o, (b, (c, (d, (e, f))))) = add_outputs-Received r last outputs [] no_info tt in
    let received = add_outputs r last outputs [] no_info in
    let (t, (g, (u, (more, (a, (i, (j, k))))))) =
      add_spends-lem received.0 spends received.1 o
        (All-map (HasReceive outputs) _ spends (λ s p. (p.0, (b p.0 (inr p.1.0), p.1.1))) h) in
    (
      t,
      (
        g,
        (
          ap (λ n. n % 2 ^ 64) u
              ∙ d
              ∙ ap (λ n. n % 2 ^ 64) {x = 0 + total (metas_of outputs)} (omega arith),
          subst
              (λ l.
                (t.total_sent % 2 ^ 64 ≡ sent l % 2 ^ 64)
                × ((spends_of l ≡ spends) × All (IsPaid (metas_of outputs)) l))
              (sym (a ∙ ap (λ l. l ++ more) f))
              (
                k
                    ∙ ap (λ n. (n + sent more) % 2 ^ 64) e
                    ∙ ap (λ n. n % 2 ^ 64) {x = 0 + sent more} (omega arith),
                (
                  i,
                  All-map (IsPaid received.0) (IsPaid (metas_of outputs)) more
                      (λ p q. (known p.0 (c p.0 q.0), q.1)) j,
                ),
              ),
        ),
      ),
    )
  where
    known : (m : SpendMeta) → In m [] ⊎ In m (metas_of outputs) → In m (metas_of outputs)
    known m (inl h) = absurd h
    known m (inr h) = h

-- ===== src/Rest/Metas.antt =====
-- The outputs of `get_address_info` of src/rest_server.cpp, in the order of their ids, and the search for one.
use monero_lws.Base.{
  ◌≡◌, refl, ap, sym, ◌∙◌, subst, arith, true, false, Bool-cases, inl, inr, ◌⊎◌, some, List, [],
  ◌∷◌, ◌++◌, All, All-In, In, insert_at_bound, All-insert_at_bound, if_true, if_false, some_inj,
}
use monero_lws.Db.Data.{OutputId, SpendMeta, output_id_eq, output_id_less}
use monero_lws.Rest.AddressInfo.{before, is_last, find_metadata, add_meta, receive_of}

-- No entry is less than one that stands before it.
abbrev pub IsOrdered : List SpendMeta → Type 0
IsOrdered [] = Unit {0}
IsOrdered (m ∷ metas) = All (λ n. output_id_less n.id m.id ≡ false) metas × IsOrdered metas

above :
    (a b : SpendMeta) (metas : List SpendMeta)
    → output_id_less b.id a.id ≡ false
    → All (λ n. output_id_less n.id b.id ≡ false) metas
    → All (λ n. output_id_less n.id a.id ≡ false) metas
above a b [] e h = tt
above a b (m ∷ metas) e h = (ground (arith, e, h.0), above a b metas e h.1)

is_last-before :
    (id : OutputId) (m : SpendMeta) (metas : List SpendMeta)
    → IsOrdered (m ∷ metas)
    → is_last id (m ∷ metas) ≡ true
    → before id m ≡ true
is_last-before id m [] o h = h
is_last-before id m (n ∷ metas) o h = ground (arith, o.0.0, is_last-before id n metas o.1 h)

-- The push at the end is the insertion.
insert-last :
    (meta : SpendMeta) (metas : List SpendMeta)
    → IsOrdered metas
    → is_last meta.id metas ≡ true
    → metas ++ meta ∷ [] ≡ insert_at_bound (before meta.id) meta metas
insert-last meta [] o h = refl
insert-last meta (m ∷ []) o h = rw h refl
insert-last meta (m ∷ n ∷ metas) o h =
    ap (◌∷◌ m) (insert-last meta (n ∷ metas) o.1 h)
    ∙ sym (if_true _ _ (is_last-before meta.id m (n ∷ metas) o h))

pub add_meta-insert :
    (meta : SpendMeta) (metas : List SpendMeta)
    → IsOrdered metas
    → add_meta meta metas ≡ insert_at_bound (before meta.id) meta metas
unfolding add_meta
add_meta-insert meta metas o = elim (Bool-cases (is_last meta.id metas)) [
  | inl h ↦ if_true _ _ h ∙ insert-last meta metas o h
  | inr h ↦ if_false _ _ h
]

insert-IsOrdered :
    (meta : SpendMeta) (metas : List SpendMeta)
    → IsOrdered metas
    → IsOrdered (insert_at_bound (before meta.id) meta metas)
insert-IsOrdered meta [] o = (tt, tt)
insert-IsOrdered meta (m ∷ metas) o = elim (Bool-cases (before meta.id m)) [
  | inl e ↦ rw e (
    All-insert_at_bound (λ n. output_id_less n.id m.id ≡ false) (before meta.id) meta metas
        (ground (arith, e)) o.0,
    insert-IsOrdered meta metas o.1,
  )
  | inr e ↦ rw e ((e, above meta m metas e o.0), o)
]

pub add_meta-IsOrdered :
    (meta : SpendMeta) (metas : List SpendMeta) → IsOrdered metas → IsOrdered (add_meta meta metas)
add_meta-IsOrdered meta metas o =
    subst IsOrdered (sym (add_meta-insert meta metas o)) (insert-IsOrdered meta metas o)

-- What is found is there, with that id; and what is there is found.
pub receive_of-In :
    (id : OutputId) (metas : List SpendMeta) (m : SpendMeta)
    → receive_of id (find_metadata metas id) ≡ some m
    → In m metas × (output_id_eq m.id id ≡ true)
receive_of-In id [] m h = absurd (ground (arith, h))
receive_of-In id (n ∷ metas) m h = elim (Bool-cases (before id n)) [
  | inl b ↦
      let (i, e) = receive_of-In id metas m (sym (ap (receive_of id) (if_true _ _ b)) ∙ h) in
      (inr i, e)
  | inr b ↦ here (sym (ap (receive_of id) (if_false _ _ b)) ∙ h) (Bool-cases (output_id_eq n.id id))
]
  where
    here :
        receive_of id (n ∷ metas) ≡ some m
        → (output_id_eq n.id id ≡ true) ⊎ (output_id_eq n.id id ≡ false)
        → In m (n ∷ metas) × (output_id_eq m.id id ≡ true)
    here g (inl e) =
        let p = some_inj (sym (if_true _ _ e) ∙ g) in
        (inl (sym p), subst (λ x. output_id_eq x.id id ≡ true) p e)
    here g (inr e) = absurd (ground (arith, sym (if_false _ _ e) ∙ g))

pub receive_of-finds :
    (id : OutputId) (metas : List SpendMeta) (m : SpendMeta)
    → IsOrdered metas
    → In m metas
    → output_id_eq m.id id ≡ true
    → (n : SpendMeta) × (receive_of id (find_metadata metas id) ≡ some n)
receive_of-finds id [] m o i e = absurd i
receive_of-finds id (n ∷ metas) m o i e = elim (Bool-cases (before id n)) [
  | inl b ↦
      let (x, g) = receive_of-finds id metas m o.1 (later b i) e in
      (x, ap (receive_of id) (if_true _ _ b) ∙ g)
  | inr b ↦ (n, ap (receive_of id) (if_false _ _ b) ∙ if_true _ _ (same b i))
]
  where
    later : before id n ≡ true → In m (n ∷ metas) → In m metas
    later b (inl p) = absurd (ground (arith, b, subst (λ x. output_id_eq x.id id ≡ true) p e))
    later b (inr i) = i

    same : before id n ≡ false → In m (n ∷ metas) → output_id_eq n.id id ≡ true
    same b (inl p) = subst (λ x. output_id_eq x.id id ≡ true) p e
    same b (inr i) =
        ground (arith, b, e, All-In (λ x. output_id_less x.id n.id ≡ false) m metas o.0 i)

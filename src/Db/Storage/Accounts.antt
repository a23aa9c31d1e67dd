-- ===== src/Db/Storage/Accounts.antt =====
-- The accounts that `rollback_accounts` of src/db/storage.cpp goes through.
use mathlib.Core.List.{append_assoc, append-nil}
use monero_lws.Base.{
  ℕ, zero, suc, ◌-◌, ◌<◌, ◌≡◌, refl, sym, ap, ◌∙◌, arith, ◌⊎◌, inl, inr, Bool-cases, if_true,
  if_false, not, max, leb, none, some, List, [], ◌∷◌, ◌++◌, map, length, if◌then◌else◌,
}
use monero_lws.Base.Results.{Result, ok, ◌>>=◌, bind_assoc, bind_congr}
use monero_lws.Db.Storage.{
  behind, IsLawful, position, unzip, seek, step, nodup, remove, viewed-none, viewed-some, Error,
  found,
}
use monero_lws.Db.Storage.Erase.{bulk_insert, next_dup-del, rows-del}
use monero_lws.Db.Storage.Rows.{AccountLookup, Tables, Users}
use monero_lws.Db.Storage.Rollback.{
  bound, rollback_account, next_lookup, rollback_accounts_loop, rollback_accounts,
}
use monero_lws.Db.Storage.Fork.{length-unzip, unzip-behind}

abbrev pub lookup_of : ℕ × AccountLookup → AccountLookup
lookup_of x = x.1

-- The rows before the first one whose key is not below the height, and those from it on.
abbrev pub below : {V : Type 0} → ℕ → List (ℕ × V) → List (ℕ × V)
below height [] = []
below height (x ∷ r) = let rest = below height r in if leb height x.0 then [] else x ∷ rest

abbrev pub from_height : {V : Type 0} → ℕ → List (ℕ × V) → List (ℕ × V)
from_height height [] = []
from_height height (x ∷ r) =
    let rest = from_height height r in if leb height x.0 then x ∷ r else rest

seek_height :
    {V : Type 0} (height : ℕ) (l r : List (ℕ × V))
    → ((seek (λ k v. leb height k) l r ≡ none)
        × ((from_height height r ≡ []) × (below height r ≡ r)))
      ⊎ ((x : ℕ × V) × ((r' : List (ℕ × V)) × ((seek (λ k v. leb height k) l r
                ≡ some (x, position (behind l (below height r)) (x ∷ r') none))
              × ((from_height height r ≡ x ∷ r')
                  × (unzip l r ≡ unzip (behind l (below height r)) (x ∷ r'))))))
seek_height height l [] = inl (refl, (refl, refl))
seek_height height l (x ∷ r) = elim (Bool-cases (leb height x.0)) [
  | inl e ↦ inr (
    x,
    (
      r,
      (
        if_true _ _ e
            ∙ ap (λ b. some (x, position (behind l b) (x ∷ r) none)) (sym (if_true _ _ e)),
        (if_true _ _ e, ap (λ b. unzip (behind l b) (x ∷ r)) (sym (if_true _ _ e))),
      ),
    ),
  )
  | inr e ↦ elim (seek_height height (x ∷ l) r) [
    | inl (a, (b, c)) ↦
        inl (if_false _ _ e ∙ a, (if_false _ _ e ∙ b, if_false _ _ e ∙ ap (λ r. x ∷ r) c))
    | inr (y, (r', (a, (b, c)))) ↦ inr (
      y,
      (
        r',
        (
          if_false _ _ e
              ∙ a
              ∙ ap (λ b. some (y, position (behind l b) (y ∷ r') none)) (sym (if_false _ _ e)),
          (if_false _ _ e ∙ b, c ∙ ap (λ b. unzip (behind l b) (y ∷ r')) (sym (if_false _ _ e))),
        ),
      ),
    )
  ]
]

module _ (T : Tables) (height new_height : ℕ) where
  -- The accounts of the lookups, one after the other.
  abbrev pub rollback_each : List AccountLookup → Users T → Result Error (Users T)
  rollback_each [] users = ok users
  rollback_each (k ∷ ks) users = rollback_account T height new_height k users >>= rollback_each ks

  -- The lookups are inserted again, at the new height.
  abbrev pub reinsert : List AccountLookup → T.accounts_bh.State → Users T → Result Error (Users T)
  reinsert ks s after =
      ok (record after { accounts_bh = bulk_insert T.accounts_bh new_height ks s })

module _ (T : Tables) (L : IsLawful T.accounts_bh) where
  next_lookup-none :
      (c : T.accounts_bh.Cursor) (k : ℕ) (v : AccountLookup) (l : List (ℕ × AccountLookup))
      → T.accounts_bh.view c ≡ position l ((k, v) ∷ []) none
      → next_lookup T (T.accounts_bh.del c) ≡ none
  unfolding next_lookup
  next_lookup-none c k v l e =
      ap (λ o. found o (T.accounts_bh.next_nodup (T.accounts_bh.del c)) (λ x. some x))
        (viewed-none T.accounts_bh _ (next_dup-del T.accounts_bh L c k v l [] e))
      ∙ viewed-none T.accounts_bh _
          (L.next_nodup_lem _ ∙ ap (step (nodup T.accounts_bh.same)) (L.del_lem c ∙ ap remove e))

  next_lookup-some :
      (c : T.accounts_bh.Cursor) (k : ℕ) (v : AccountLookup) (x : ℕ × AccountLookup)
      (l r : List (ℕ × AccountLookup))
      → T.accounts_bh.view c ≡ position l ((k, v) ∷ x ∷ r) none
      → (d : T.accounts_bh.Cursor) × ((next_lookup T (T.accounts_bh.del c) ≡ some (x, d))
          × (T.accounts_bh.view d ≡ position l (x ∷ r) none))
  unfolding next_lookup
  next_lookup-some c k v x l r e = elim (Bool-cases (T.accounts_bh.same x.0 k)) [
    | inl t ↦
        let (d, (there, on)) =
          viewed-some T.accounts_bh _ x (position l (x ∷ r) none)
            (next_dup-del T.accounts_bh L c k v l (x ∷ r) e ∙ if_true _ _ t) in
        (
          d,
          (
            ap (λ o. found o (T.accounts_bh.next_nodup (T.accounts_bh.del c)) (λ x. some x)) there,
            on,
          ),
        )
    | inr f ↦
        let (d, (there, on)) = viewed-some T.accounts_bh _ x (position l (x ∷ r) none) (
          L.next_nodup_lem _
          ∙ ap (step (nodup T.accounts_bh.same)) (L.del_lem c ∙ ap remove e)
          ∙ if_true _ _ (ap not f)) in
        (
          d,
          (
            ap (λ o. found o (T.accounts_bh.next_nodup (T.accounts_bh.del c)) (λ x. some x))
                  (viewed-none T.accounts_bh _
                    (next_dup-del T.accounts_bh L c k v l (x ∷ r) e ∙ if_false _ _ f))
                ∙ there,
            on,
          ),
        )
  ]

  module _ (height new_height : ℕ) where
    loop_lem :
        (n : ℕ) (c : T.accounts_bh.Cursor) (k : ℕ) (v : AccountLookup)
        (l r : List (ℕ × AccountLookup))
        → T.accounts_bh.view c ≡ position l ((k, v) ∷ r) none
        → length r < n
        → (t : T.accounts_bh.State) × ((T.accounts_bh.rows t ≡ unzip l [])
            × ((ids : List AccountLookup) (users : Users T)
                → rollback_accounts_loop T n height new_height v c ids users ≡ (
                    rollback_each T height new_height (v ∷ map lookup_of r) users
                    >>= reinsert T height new_height (ids ++ v ∷ map lookup_of r) t)))
    unfolding rollback_accounts_loop
    loop_lem zero c k v l r e h = absurd (omega arith)
    loop_lem (suc n) c k v l [] e h = (
      T.accounts_bh.table (T.accounts_bh.del c),
      (
        rows-del T.accounts_bh L c k v l [] e,
        λ ids users.
            ap
              (λ o. rollback_account T height new_height v users >>= λ after.
                found o
                  (reinsert T height new_height (ids ++ v ∷ [])
                    (T.accounts_bh.table (T.accounts_bh.del c)) after)
                  (λ x.
                    rollback_accounts_loop T n height new_height x.0.1 x.1 (ids ++ v ∷ []) after))
              (next_lookup-none c k v l e)
            ∙ sym (bind_assoc (rollback_account T height new_height v users) (λ u. ok u) _),
      ),
    )
    loop_lem (suc n) c k v l (x ∷ r) e h =
        let (d, (there, on)) = next_lookup-some c k v x l r e in
        let (t, (left, run)) = loop_lem n d x.0 x.1 l r on (omega (arith, h)) in
        (
          t,
          (
            left,
            λ ids users.
                ap
                  (λ o. rollback_account T height new_height v users >>= λ after.
                    found o
                      (reinsert T height new_height (ids ++ v ∷ [])
                        (T.accounts_bh.table (T.accounts_bh.del c)) after)
                      (λ x.
                        rollback_accounts_loop T n height new_height x.0.1 x.1 (ids ++ v ∷ [])
                          after))
                  there
                ∙ bind_congr (rollback_account T height new_height v users) _ _
                    (run (ids ++ v ∷ []))
                ∙ ap
                    (λ ks. rollback_account T height new_height v users >>= λ after.
                      rollback_each T height new_height (x.1 ∷ map lookup_of r) after
                      >>= reinsert T height new_height ks t)
                    (append_assoc ids (v ∷ []) (x.1 ∷ map lookup_of r))
                ∙ sym (
                    bind_assoc (rollback_account T height new_height v users)
                      (rollback_each T height new_height (x.1 ∷ map lookup_of r)) _),
          ),
        )

  abbrev begin : ℕ → Users T → (ℕ × AccountLookup) × T.accounts_bh.Cursor → Result Error (Users T)
  begin height users x =
      rollback_accounts_loop T (bound T.accounts_bh users.accounts_bh) height (max height 1 - 1)
        x.0.1 x.1 [] users

  -- `rollback_accounts` undoes the account of each lookup from the height on, in the order of the table, and fails only
  -- if one of them does; it then takes these lookups, and no others, out of the table and puts them in again one below
  -- the height, or at 0.
  pub rollback_accounts_lem :
      (height : ℕ) (users : Users T)
      → (t : T.accounts_bh.State) × ((T.accounts_bh.rows t
            ≡ below height (T.accounts_bh.rows users.accounts_bh))
          × (rollback_accounts T height users ≡ (
              rollback_each T height
                (max height 1 - 1)
                (map lookup_of (from_height height (T.accounts_bh.rows users.accounts_bh)))
                users
              >>= reinsert T height
                  (max height 1 - 1)
                  (map lookup_of (from_height height (T.accounts_bh.rows users.accounts_bh)))
                  t)))
  unfolding rollback_accounts bulk_insert
  rollback_accounts_lem height users =
      elim (seek_height height [] (T.accounts_bh.rows users.accounts_bh)) [
        | inl (e, (gone, all)) ↦ (
          users.accounts_bh,
          (
            sym all,
            ap (λ o. found o (ok users) (begin height users))
                  (viewed-none T.accounts_bh _ (L.set_range_lem _ _ ∙ e))
                ∙ ap
                    (λ r.
                      rollback_each T height (max height 1 - 1) (map lookup_of r) users
                      >>= reinsert T height (max height 1 - 1) (map lookup_of r) users.accounts_bh)
                    (sym gone),
          ),
        )
        | inr (x, (r, (e, (these, whole)))) ↦
            let (c, (there, on)) = viewed-some T.accounts_bh _ x _ (L.set_range_lem _ _ ∙ e) in
            let (t, (left, run)) =
              loop_lem height (max height 1 - 1) (bound T.accounts_bh users.accounts_bh) c x.0 x.1 _
                r on
                (omega (
                  arith,
                  ap length whole,
                  length-unzip (behind [] (below height (T.accounts_bh.rows users.accounts_bh)))
                      (x ∷ r),
                )) in
            (
              t,
              (
                left ∙ unzip-behind [] _ [] ∙ append-nil _,
                ap (λ o. found o (ok users) (begin height users)) there
                    ∙ run [] users
                    ∙ ap
                        (λ r.
                          rollback_each T height (max height 1 - 1) (map lookup_of r) users
                          >>= reinsert T height (max height 1 - 1) (map lookup_of r) t)
                        (sym these),
              ),
            )
      ]

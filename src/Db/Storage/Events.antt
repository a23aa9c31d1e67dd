-- ===== src/Db/Storage/Events.antt =====
-- The events that `rollback_events` of src/db/storage.cpp leaves.
use mathlib.Core.List.{append-nil}
use monero_lws.Base.{
  ℕ, zero, suc, ◌≤◌, ◌<◌, ◌≡◌, refl, sym, ap, subst, ◌∙◌, arith, ◌⊎◌, inl, inr, Bool, Bool-cases,
  if_true, if_false, not, ltb, ◌==◌, ==_iff, true, Option, none, some, List, [], ◌∷◌, ◌++◌, length,
  All, if◌then◌else◌,
}
use monero_lws.Base.Results.{Result, ok}
use monero_lws.Db.Storage.{
  behind, LmdbTable, IsLawful, position, unzip, seek_back, seek_last, back, back_nodup, remove,
  viewed, viewed-none, viewed-some, Error,
}
use monero_lws.Db.Storage.Erase.{rows-del}
use monero_lws.Db.Storage.Rows.{WebhookEvent}
use monero_lws.Db.Storage.Rollback.{bound, event_step, rollback_events_loop, rollback_events}
use monero_lws.Db.Storage.Fork.{length-unzip, unzip-behind}
use monero_lws.Db.Storage.Kept.{IsOrdered}

abbrev pub event_height : WebhookEvent → ℕ
event_height e = e.link.tx.height

abbrev pub is_old : ℕ → ℕ × WebhookEvent → Bool
is_old height x = ltb (event_height x.1) height

-- The events below the height.
abbrev pub old_events : ℕ → List (ℕ × WebhookEvent) → List (ℕ × WebhookEvent)
old_events height [] = []
old_events height (x ∷ r) =
    let rest = old_events height r in if is_old height x then x ∷ rest else rest

-- The same of those before a cursor, in front of what is behind it.
abbrev purge : ℕ → List (ℕ × WebhookEvent) → List (ℕ × WebhookEvent) → List (ℕ × WebhookEvent)
purge height [] r = r
purge height (x ∷ l) r = purge height l (if is_old height x then x ∷ r else r)

purge-behind :
    (height : ℕ) (l rows r : List (ℕ × WebhookEvent))
    → purge height (behind l rows) r ≡ purge height l (old_events height rows ++ r)
purge-behind height l [] r = refl
purge-behind height l (x ∷ rows) r = elim (Bool-cases (is_old height x)) [
  | inl e ↦
      purge-behind height (x ∷ l) rows r
      ∙ ap (purge height l) (
          if_true (x ∷ old_events height rows ++ r) (old_events height rows ++ r) e
          ∙ ap (λ s. s ++ r)
              (sym (if_true (x ∷ old_events height rows) (old_events height rows) e)))
  | inr e ↦
      purge-behind height (x ∷ l) rows r
      ∙ ap (purge height l) (
          if_false (x ∷ old_events height rows ++ r) (old_events height rows ++ r) e
          ∙ ap (λ s. s ++ r)
              (sym (if_false (x ∷ old_events height rows) (old_events height rows) e)))
]

-- Backwards through a table that is sorted: of the same account the earlier events are not later ones.
abbrev Precedes : ℕ × WebhookEvent → ℕ × WebhookEvent → Type 0
Precedes x y = y.0 ≡ x.0 → event_height y.1 ≤ event_height x.1

abbrev IsBackwards : List (ℕ × WebhookEvent) → Type 0
IsBackwards [] = Unit
IsBackwards (x ∷ l) = All (Precedes x) l × IsBackwards l

module _ (E : LmdbTable ℕ WebhookEvent) where
  abbrev Follow : ℕ × WebhookEvent → List (ℕ × WebhookEvent) → Type 0
  Follow x r = All (λ y. (x.0 ≤ y.0) × (x.0 ≡ y.0 → event_height x.1 ≤ event_height y.1)) r

  all_precede :
      (x : ℕ × WebhookEvent) (r l : List (ℕ × WebhookEvent))
      → All (λ y. Follow y (x ∷ r)) l
      → All (Precedes x) l
  all_precede x r [] h = tt
  all_precede x r (y ∷ l) (((a, b), c), h) = (b, all_precede x r l h)

  drop_first :
      (x : ℕ × WebhookEvent) (r l : List (ℕ × WebhookEvent))
      → All (λ y. Follow y (x ∷ r)) l
      → All (λ y. Follow y r) l
  drop_first x r [] h = tt
  drop_first x r (y ∷ l) ((a, c), h) = (c, drop_first x r l h)

  behind-IsBackwards :
      (l rows : List (ℕ × WebhookEvent))
      → IsBackwards l
      → IsOrdered E event_height rows
      → All (λ y. Follow y rows) l
      → IsBackwards (behind l rows)
  behind-IsBackwards l [] b o f = b
  behind-IsBackwards l (x ∷ rows) b (h, o) f =
      behind-IsBackwards (x ∷ l) rows (all_precede x rows l f, b) o (h, drop_first x rows l f)

  pub seek_last_lem :
      (l rows : List (ℕ × WebhookEvent))
      → ((seek_last l rows ≡ none) × (rows ≡ []))
        ⊎ ((x : ℕ × WebhookEvent) × ((l' : List (ℕ × WebhookEvent)) × ((seek_last l rows
                  ≡ some (x, position l' (x ∷ []) none))
                × (x ∷ l' ≡ behind l rows))))
  seek_last_lem l [] = inl (refl, refl)
  seek_last_lem l (x ∷ []) = inr (x, (l, (refl, refl)))
  seek_last_lem l (x ∷ y ∷ rows) = elim (seek_last_lem (x ∷ l) (y ∷ rows)) [
    | inl (a, b) ↦ absurd (ground (arith, ap length b))
    | inr h ↦ inr h
  ]

  module _ (same : (j k : ℕ) → E.same j k ≡ (j == k)) (height : ℕ) where
    -- What is passed over on the way to the account before is below the height, too.
    skip_lem :
        (x : ℕ × WebhookEvent) (l r : List (ℕ × WebhookEvent))
        → is_old height x ≡ true
        → All (Precedes x) l
        → IsBackwards l
        → ((seek_back (λ j. not (E.same j x.0)) l r ≡ none) × (purge height l r ≡ unzip l r))
          ⊎ ((y : ℕ × WebhookEvent) × ((l' : List (ℕ × WebhookEvent)) × ((r' : List
                    (ℕ × WebhookEvent))
                  × ((seek_back (λ j. not (E.same j x.0)) l r ≡ some (y, position l' (y ∷ r') none))
                      × ((purge height l r ≡ purge height (y ∷ l') r')
                          × ((unzip l' (y ∷ r') ≡ unzip l r)
                              × ((length l' < length l) × IsBackwards (y ∷ l'))))))))
    skip_lem x [] r o p b = inl (refl, refl)
    skip_lem x (y ∷ l) r o (e, p) (b, bs) = elim (Bool-cases (E.same y.0 x.0)) [
      | inl s ↦
          let joined : y.0 ≡ x.0 = (==_iff y.0 x.0).0 (sym (same y.0 x.0) ∙ s) in
          let old : is_old height y ≡ true = ground (arith, o, e joined) in
          elim (skip_lem x l (y ∷ r) o p bs) [
            | inl (a, q) ↦
                inl (if_false _ _ (ap not s) ∙ a, ap (purge height l) (if_true _ _ old) ∙ q)
            | inr (z, (l', (r', (a, (q, (u, (n, w))))))) ↦ inr (
              z,
              (
                l',
                (
                  r',
                  (
                    if_false _ _ (ap not s) ∙ a,
                    (ap (purge height l) (if_true _ _ old) ∙ q, (u, (omega (arith, n), w))),
                  ),
                ),
              ),
            )
          ]
      | inr s ↦ inr (y, (l, (r, (if_true _ _ (ap not s), (refl, (refl, (omega arith, (b, bs))))))))
    ]

    module _ (L : IsLawful E) where
      abbrev after_round :
          ℕ → Option ((ℕ × WebhookEvent) × E.Cursor) × E.State → Result Error E.State
      after_round n r = rollback_events_loop E n height r.0 r.1

      -- The loop from a record on.
      abbrev Purges : ℕ → Type 0
      Purges n =
          (x : ℕ × WebhookEvent) (c : E.Cursor) (s : E.State) (l r : List (ℕ × WebhookEvent))
          → E.view c ≡ position l (x ∷ r) none
          → length l < n
          → IsBackwards (x ∷ l)
          → (t : E.State) × ((rollback_events_loop E n height (some (x, c)) s ≡ ok t)
              × (E.rows t ≡ purge height (x ∷ l) r))

      undo :
          (n : ℕ) (x : ℕ × WebhookEvent) (c : E.Cursor) (l r : List (ℕ × WebhookEvent))
          → E.view c ≡ position l (x ∷ r) none
          → length l < suc n
          → IsBackwards l
          → viewed E (E.prev (E.del c)) ≡ seek_back (λ k. true) l r
          → Purges n
          → (t : E.State) × ((after_round n (E.prev (E.del c), E.table (E.del c)) ≡ ok t)
              × (E.rows t ≡ purge height l r))
      unfolding rollback_events_loop
      undo n x c [] r e h b seen again = (
        E.table (E.del c),
        (
          ap (λ o. after_round n (o, E.table (E.del c))) (viewed-none E _ seen),
          rows-del E L c x.0 x.1 [] r e,
        ),
      )
      undo n x c (y ∷ l) r e h b seen again =
          let (d, (there, on)) = viewed-some E _ y (position l (y ∷ r) none) seen in
          let (t, (run, left)) = again y d (E.table (E.del c)) l r on (omega (arith, h)) b in
          (t, (ap (λ o. after_round n (o, E.table (E.del c))) there ∙ run, left))

      loop_lem :
          (n : ℕ) (x : ℕ × WebhookEvent) (c : E.Cursor) (s : E.State)
          (l r : List (ℕ × WebhookEvent))
          → E.view c ≡ position l (x ∷ r) none
          → length l < n
          → IsBackwards (x ∷ l)
          → (t : E.State) × ((rollback_events_loop E n height (some (x, c)) s ≡ ok t)
              × (E.rows t ≡ purge height (x ∷ l) r))
      unfolding rollback_events_loop event_step
      loop_lem zero x c s l r e h b = absurd (omega arith)
      loop_lem (suc n) x c s l r e h (p, b) = elim (Bool-cases (is_old height x)) [
        | inl o ↦
            let step = ap (after_round n) (if_true (E.prev_nodup c, E.table c) _ o) in
            let seen = L.prev_nodup_lem c ∙ ap (back_nodup E.same) e in
            let purged = ap (purge height l) (sym (if_true (x ∷ r) r o)) in
            elim (skip_lem x l (x ∷ r) o p b) [
              | inl (a, q) ↦ (
                E.table c,
                (
                  step ∙ ap (λ o. after_round n (o, E.table c)) (viewed-none E _ (seen ∙ a)),
                  L.rows-table c ∙ ap (λ p. unzip p.left p.right) e ∙ sym q ∙ purged,
                ),
              )
              | inr (y, (l', (r', (a, (q, (u, (m, w))))))) ↦
                  let (d, (there, on)) = viewed-some E _ y (position l' (y ∷ r') none) (seen ∙ a) in
                  let (t, (run, left)) =
                    loop_lem n y d (E.table c) l' r' on (omega (arith, m, h)) w in
                  (
                    t,
                    (
                      step ∙ ap (λ o. after_round n (o, E.table c)) there ∙ run,
                      left ∙ sym q ∙ purged,
                    ),
                  )
            ]
        | inr o ↦
            let step = ap (after_round n) (if_false _ (E.prev (E.del c), E.table (E.del c)) o) in
            let seen = L.prev_lem (E.del c) ∙ ap back (L.del_lem c ∙ ap remove e) in
            let (t, (run, left)) = undo n x c l r e h b seen (loop_lem n) in
            (t, (step ∙ run, left ∙ ap (purge height l) (sym (if_false (x ∷ r) r o))))
      ]

      -- In a table that is sorted by account and, for an account, by height, `rollback_events` ends and leaves exactly
      -- the events below the height, in their order.
      pub rows-rollback_events :
          (s : E.State)
          → IsOrdered E event_height (E.rows s)
          → (t : E.State) × ((rollback_events E height s ≡ ok t)
              × (E.rows t ≡ old_events height (E.rows s)))
      unfolding rollback_events rollback_events_loop
      rows-rollback_events s o = elim (seek_last_lem [] (E.rows s)) [
        | inl (a, b) ↦ (
          s,
          (
            ap (λ o. rollback_events_loop E (bound E s) height o s)
                (viewed-none E _ (L.last_lem s ∙ a)),
            b ∙ ap (old_events height) (sym b),
          ),
        )
        | inr (x, (l, (a, b))) ↦
            let (c, (there, on)) =
              viewed-some E _ x (position l (x ∷ []) none) (L.last_lem s ∙ a) in
            let back : IsBackwards (x ∷ l) =
              subst IsBackwards (sym b) (behind-IsBackwards [] (E.rows s) tt o tt) in
            let whole : unzip (x ∷ l) [] ≡ E.rows s =
              ap (λ l. unzip l []) b ∙ unzip-behind [] (E.rows s) [] ∙ append-nil _ in
            let (t, (run, left)) =
              loop_lem (bound E s) x c s l [] on
                (omega (arith, ap length whole, length-unzip l (x ∷ []))) back in
            (
              t,
              (
                ap (λ o. rollback_events_loop E (bound E s) height o s) there ∙ run,
                left
                    ∙ ap (λ l. purge height l []) b
                    ∙ purge-behind height [] (E.rows s) []
                    ∙ append-nil _,
              ),
            )
      ]

-- ===== src/Scanner/Server/Deal.antt =====
-- What `do_replace_users` of src/rpc/scanner/server.cpp deals out.
use mathlib.Core.List.{reverse, append_assoc, append-nil, Perm, reverse_perm, perm_middle}
use mathlib.Core.List.Perm
use monero_lws.Base.{
  ℕ, suc, ◌+◌, ◌-◌, ◌/◌, ◌≤◌, ◌<◌, ◌≡◌, refl, ap, sym, ◌∙◌, subst, arith, Bool, false, none, some,
  List, [], ◌∷◌, ◌++◌, map, ◌==◌, length, length-reverse, take, drop, drop_all, map-take-drop, ltb,
  insert_sorted, insert_at_bound, length-insert_at_bound, Bool-cases, inl, inr, ◌⊎◌,
}
use monero_lws.Base.Results.{ok, err}
use monero_lws.Db.Account.{Account}
use monero_lws.Scanner.Queue
use monero_lws.Scanner.Queue.{Queue, is_empty}
use monero_lws.Scanner.Server.{
  Error, Connection, Server, Row, by_height, count_threads, connected, sorted_ids, sorted_users,
  deal_local, threads_used, deal, do_replace_users,
}

-- The accounts that wait in the queues as replacements, one queue after the other.
abbrev pub replacements : List Queue → List Account
replacements [] = []
replacements (q ∷ qs) = (elim q.replace [ none ↦ [] | some accounts ↦ accounts ]) ++ replacements qs

module _ (full : Row → Account) where
  -- Each queue gets its part of the users, and what is left follows.
  deal_local-split :
      (remaining : ℕ) (users : List Row) (qs : List Queue)
      → replacements (deal_local full remaining users qs).dealt
          ++ map full (deal_local full remaining users qs).users
        ≡ map full users
  unfolding deal_local Queue.replace_accounts
  deal_local-split remaining users [] = refl
  deal_local-split remaining users (q ∷ qs) =
      append_assoc (map full (take n users)) _ _
      ∙ ap (λ x. map full (take n users) ++ x) (deal_local-split (remaining - 1) (drop n users) qs)
      ∙ map-take-drop full n users
    where
      n : ℕ
      n = length users / remaining

  -- With as many threads as queues, the last queue gets the rest.
  deal_local-all :
      (q : Queue) (qs : List Queue) (users : List Row)
      → (deal_local full (suc (length qs)) users (q ∷ qs)).users ≡ []
  unfolding deal_local
  deal_local-all q [] users = drop_all (length users / 1) users (omega arith)
  deal_local-all q (p ∷ qs) users =
      subst
        (λ k.
          (deal_local full k (drop (length users / suc (suc (length qs))) users) (p ∷ qs)).users
          ≡ [])
        {x = suc (length qs)} (omega arith)
        (deal_local-all p qs (drop (length users / suc (suc (length qs))) users))

  pub deal_local-replacements :
      (users : List Row) (q : Queue) (qs : List Queue)
      → replacements (deal_local full (suc (length qs)) users (q ∷ qs)).dealt ≡ map full users
  deal_local-replacements users q qs =
      sym (append-nil _)
      ∙ rw (deal_local-all q qs users) at (deal_local-split (suc (length qs)) users (q ∷ qs))

insert_at_bound-Perm {ℓ} :
    {A : Type ℓ} (before : A → Bool) (r : A) (rows : List A)
    → Perm (insert_at_bound before r rows) (r ∷ rows)
insert_at_bound-Perm before r [] = Perm.refl (r ∷ [])
insert_at_bound-Perm before r (x ∷ rows) = elim (Bool-cases (before x)) [
  | inl e ↦
      rw e (Perm.trans (Perm.cons x (insert_at_bound-Perm before r rows)) (Perm.swap r x rows))
  | inr e ↦ rw e (Perm.refl (r ∷ x ∷ rows))
]

pub sorted_ids-Perm :
    (ids : List ℕ) (rows : List Row) → Perm (sorted_ids ids rows) (ids ++ map (λ r. r.id) rows)
sorted_ids-Perm ids [] = rw (append-nil ids) (Perm.refl ids)
sorted_ids-Perm ids (r ∷ rows) = Perm.trans (sorted_ids-Perm (insert_sorted ltb r.id ids) rows) (
    Perm.trans
      (Perm.append_right (map (λ r. r.id) rows) (insert_at_bound-Perm (λ y. ltb y r.id) r.id ids))
      (Perm.symm (perm_middle ids (map (λ r. r.id) rows))))

sorted_users-Perm : (users rows : List Row) → Perm (sorted_users users rows) (users ++ rows)
sorted_users-Perm users [] = rw (append-nil users) (Perm.refl users)
sorted_users-Perm users (r ∷ rows) =
    Perm.trans (sorted_users-Perm (insert_sorted by_height r users) rows) (
      Perm.trans (Perm.append_right rows (insert_at_bound-Perm (λ y. by_height y r) r users))
        (Perm.symm (perm_middle users rows)))

-- The users as they are dealt: all active accounts, in some order.
pub users-Perm : (rows : List Row) → Perm (reverse (sorted_users [] rows)) rows
users-Perm rows = Perm.trans (reverse_perm (sorted_users [] rows)) (sorted_users-Perm [] rows)

length-sorted_users :
    (users rows : List Row) → length (sorted_users users rows) ≡ length users + length rows
length-sorted_users users [] = omega arith
length-sorted_users users (r ∷ rows) = omega (
  arith,
  length-sorted_users (insert_sorted by_height r users) rows,
  length-insert_at_bound (λ y. by_height y r) r users,
)

pub length-users : (rows : List Row) → length (reverse (sorted_users [] rows)) ≡ length rows
length-users rows =
    length-reverse (sorted_users [] rows) ∙ length-sorted_users [] rows ∙ omega arith

count_threads-ge : (total n : ℕ) (cs : List Connection) → count_threads total cs ≡ ok n → total ≤ n
unfolding count_threads
count_threads-ge total n [] h = ground arith
count_threads-ge total n (c ∷ cs) h =
    ground (arith, count_threads-ge (total + c.threads) n cs, count_threads-ge total n cs)

module _ (full : Row → Account) where
  -- What is left of `do_replace_users` where there are threads.
  pub do_replace_users-deal :
      (rows : List Row) (s : Server) (total : ℕ)
      → count_threads (length s.local) s.remote ≡ ok total
      → 0 < total
      → do_replace_users full rows s
        ≡ ok (deal full total rows (record s { remote = connected s.remote }))
  unfolding do_replace_users
  do_replace_users-deal rows s total h l = rw (h, not_zero) refl
    where
      not_zero : (total == 0) ≡ false
      not_zero = ground arith

  -- Where the threads cannot be counted, and where there are none.
  pub do_replace_users-err :
      (rows : List Row) (s : Server) (e : Error)
      → count_threads (length s.local) s.remote ≡ err e
      → do_replace_users full rows s ≡ err e
  unfolding do_replace_users
  do_replace_users-err rows s e h = rw h refl

  pub do_replace_users-none :
      (rows : List Row) (s : Server)
      → count_threads (length s.local) s.remote ≡ ok 0
      → do_replace_users full rows s ≡ ok (record s { remote = connected s.remote })
  unfolding do_replace_users
  do_replace_users-none rows s h = rw h refl

  deal-replacements :
      (rows : List Row) (q : Queue) (qs : List Queue) (s : Server) (total : ℕ)
      → threads_used total (suc (length qs)) (length rows) ≡ suc (length qs)
      → Perm
          (replacements (deal full total rows (record s { local = q ∷ qs })).local)
          (map full rows)
  unfolding deal
  deal-replacements rows q qs s total h =
      rw (length-users rows, h, deal_local-replacements full (reverse (sorted_users [] rows)) q qs)
        (Perm.map full (users-Perm rows))

  deal-active :
      (total : ℕ) (rows : List Row) (s : Server)
      → (deal full total rows s).active ≡ sorted_ids [] rows
  unfolding deal
  deal-active total rows s = refl

  used :
      (total others users : ℕ)
      → (total ≡ suc others) ⊎ (users / suc others < 100)
      → threads_used total (suc others) users ≡ suc others
  used total others users c = ground arith

  -- Where only the queues of this process are dealt to, since no connection has threads or there are fewer
  -- than a hundred accounts for each queue, every active account is in exactly one replacement, and they
  -- are the ones that `active_` has.
  pub do_replace_users-local :
      (rows : List Row) (q : Queue) (qs : List Queue) (s : Server) (total : ℕ)
      → count_threads (suc (length qs)) s.remote ≡ ok total
      → (total ≡ suc (length qs)) ⊎ (length rows / suc (length qs) < 100)
      → (t : Server) × ((do_replace_users full rows (record s { local = q ∷ qs }) ≡ ok t)
          × (Perm (replacements t.local) (map full rows) × (t.active ≡ sorted_ids [] rows)))
  do_replace_users-local rows q qs s total h c = (
    deal full total rows (record s { local = q ∷ qs; remote = connected s.remote }),
    (
      do_replace_users-deal rows (record s { local = q ∷ qs }) total h
          (omega (arith, count_threads-ge (suc (length qs)) total s.remote h)),
      (
        deal-replacements rows q qs (record s { remote = connected s.remote }) total
            (used total (length qs) (length rows) c),
        deal-active total rows (record s { local = q ∷ qs; remote = connected s.remote }),
      ),
    ),
  )

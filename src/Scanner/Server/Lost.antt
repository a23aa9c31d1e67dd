-- ===== src/Scanner/Server/Lost.antt =====
-- What `do_replace_users` of src/rpc/scanner/server.cpp sends to a single connection.
use mathlib.Core.List.{reverse, Perm}
use native.Mathlib.Nat.{div-add-mod', div-mul-le_self, mod-eq_of_lt, le-div_iff_mul-le}
use monero_lws.Base.{
  ℕ, ◌*◌, ◌/◌, ◌%◌, ◌^◌, ◌≤◌, ◌<◌, ◌≡◌, refl, subst, arith, max, true, List, [], ◌∷◌, map, length,
  ◌++◌, take, drop, take-append-drop, length-drop,
}
use monero_lws.Base.Results.{ok}
use monero_lws.Db.Account.{Account}
use monero_lws.Scanner.Server.{
  replace_command, Connection, Server, Row, write_command, count_threads, connected, sorted_users,
  deal_local, remote_count, deal_remote, deal, do_replace_users,
}
use monero_lws.Scanner.Server.Deal.{
  do_replace_users-deal, length-users, users-Perm, sorted_ids-Perm,
}

-- The number of users for the only connection.
remote_count_lem :
    (threads : ℕ) (users : List Row)
    → 0 < threads
    → threads ≤ length users
    → length users < 2 ^ 64
    → remote_count threads users threads ≡ length users / threads * threads
remote_count_lem threads users l h b = rw (one, each) (mod-eq_of_lt small)
  where
    one : max 1 threads ≡ threads
    one = omega arith

    each : max 1 (length users / threads) ≡ length users / threads
    each = omega (
      arith,
      (le-div_iff_mul-le {k = threads} {x = 1} {y = length users} l).1
          (subst (λ k. k ≤ length users) {x = threads} (omega arith) h),
    )

    small : length users / threads * threads < 2 ^ 64
    small = omega (arith, div-mul-le_self (length users) threads)

-- How many of the users, in the order they are dealt in, the connection gets.
abbrev dealt : List Row → ℕ → ℕ
dealt rows threads = remote_count threads (reverse (sorted_users [] rows)) threads

module _ (full : Row → Account) where
  -- A single connection and no queues: what is dealt to it.
  deal-single :
      (rows : List Row) (c : Connection) (s : Server) (threads : ℕ)
      → (deal full threads rows (record s { local = []; remote = c ∷ [] })).remote
        ≡ write_command
            (replace_command (
              map full (
                take
                  (remote_count threads (reverse (sorted_users [] rows)) c.threads)
                  (reverse (sorted_users [] rows)))))
            c
          ∷ []
  unfolding deal deal_local deal_remote
  deal-single rows c s threads = refl

  count_threads-single :
      (c : Connection)
      → c.alive ≡ true
      → c.threads < 2 ^ 64
      → count_threads 0 (c ∷ []) ≡ ok c.threads
  unfolding count_threads
  count_threads-single c a h = rw a (ground (arith, h))

  connected-single : (c : Connection) → c.alive ≡ true → connected (c ∷ []) ≡ c ∷ []
  connected-single c a = rw a refl

  -- The users that the connection does not get.
  length-left :
      (rows : List Row) (threads : ℕ)
      → 0 < threads
      → threads ≤ length rows
      → length rows < 2 ^ 64
      → length (drop (dealt rows threads) (reverse (sorted_users [] rows))) ≡ length rows % threads
  length-left rows threads l h b =
      rw
        (
          length-drop,
          remote_count_lem threads (reverse (sorted_users [] rows)) l
              (omega (arith, h, length-users rows)) (omega (arith, b, length-users rows)),
          length-users rows,
        )
        (omega (arith, div-mul-le_self (length rows) threads, div-add-mod' (length rows) threads))

  -- Without queues, a single live connection with threads, no more than there are active accounts, and these fewer
  -- than 2^64, is sent one replacement. Its accounts, together with as many as the remainder of the number of active
  -- accounts by the connection's threads, are all active accounts, each once. `active_` has the ids of all, each once.
  pub do_replace_users-single :
      (rows : List Row) (c : Connection) (s : Server)
      → c.alive ≡ true
      → 0 < c.threads
      → c.threads ≤ length rows
      → length rows < 2 ^ 64
      → (t : Server) × ((chosen : List Row) × ((left : List Row) × ((do_replace_users full rows
                  (record s { local = []; remote = c ∷ [] })
                ≡ ok t)
              × ((t.remote ≡ write_command (replace_command (map full chosen)) c ∷ [])
                  × (Perm (chosen ++ left) rows
                      × ((length left ≡ length rows % c.threads)
                          × Perm t.active (map (λ r. r.id) rows)))))))
  unfolding deal
  do_replace_users-single rows c s a l h b = (
    deal full c.threads rows (record s { local = []; remote = c ∷ [] }),
    (
      take (dealt rows c.threads) (reverse (sorted_users [] rows)),
      (
        drop (dealt rows c.threads) (reverse (sorted_users [] rows)),
        (
          subst
              (λ cs.
                do_replace_users full rows (record s { local = []; remote = c ∷ [] })
                ≡ ok (deal full c.threads rows (record s { local = []; remote = cs })))
              (connected-single c a)
              (do_replace_users-deal full rows (record s { local = []; remote = c ∷ [] }) c.threads
                (count_threads-single c a (omega arith)) l),
          (
            deal-single rows c s c.threads,
            (
              rw (take-append-drop (dealt rows c.threads) (reverse (sorted_users [] rows)))
                  (users-Perm rows),
              (length-left rows c.threads l h b, sorted_ids-Perm [] rows),
            ),
          ),
        ),
      ),
    ),
  )

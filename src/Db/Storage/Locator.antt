-- ===== src/Db/Storage/Locator.antt =====
-- The hashes of `get_chain_sync` in src/db/storage.cpp: from the last block back to the first one.
use monero_lws.Base.{
  ℕ, zero, suc, max, ◌⊎◌, ◌+◌, ◌-◌, ◌*◌, ◌^◌, ◌≤◌, ◌<◌, ◌≡◌, refl, sym, ap, subst, ◌∙◌, arith, inl,
  inr, Bool, Bool-cases, if_true, if_false, true, false, not, ◌||◌, ltb, ◌==◌, ==_iff, Option, none,
  some, List, [], ◌∷◌, ◌++◌, map, length, All, In, if◌then◌else◌,
}
use mathlib.Core.List.{append-nil, reverse}
use native.Mathlib.Nat.{one-le-pow, two-pow-succ, pow-le-pow_right, mod-eq_of_lt}
use native.Mathlib.Decide.{dec_lt}
use monero_lws.Base.Results.{Result, ok, err, ◌>>=◌}
use monero_lws.Db.Storage.{
  position, unzip, behind, seek, seek_back, back_dup, viewed-none, viewed-some, Error,
  bad_blockchain, found, require,
}
use monero_lws.Db.Storage.Rows.{BlockInfo, Tables, AreLawful, blocks_version}
use monero_lws.Db.Storage.Chain.{next, block_info}
use monero_lws.Db.Storage.Append.{records, IsBelow, row, next-suc}
use monero_lws.Db.Storage.Fork.{unzip-behind, seek_block}
use monero_lws.Db.Storage.Readers.{
  shifted, hash_of, do_get_block, add_block, back_id, add_offsets, add_if, add_sparse,
  get_blocks_tail, get_blocks, get_chain_sync,
}

-- Oldest first, each block above the one before.
abbrev pub IsRising : List BlockInfo → Type 0
IsRising [] = Unit
IsRising (b ∷ out) = All (λ c. b.id < c.id) out × IsRising out

above_back :
    (id : ℕ) (out : List BlockInfo) → id < back_id out → IsRising out → All (λ c. id < c.id) out
above_back id [] h r = tt
above_back id (b ∷ out) h (a, r) = (h, all_above out a)
  where
    all_above : (out : List BlockInfo) → All (λ c. b.id < c.id) out → All (λ c. id < c.id) out
    all_above [] a = tt
    all_above (c ∷ out) (l, a) = (omega (arith, h, l), all_above out a)

In-append : {A : Type 0} (x : A) (before r : List A) → In x (before ++ x ∷ r)
In-append x [] r = inl refl
In-append x (y ∷ before) r = inr (In-append x before r)

In-unzip : {K V : Type 0} (x : K × V) (l r : List (K × V)) → In x r → In x (unzip l r)
In-unzip x [] r h = h
In-unzip x (y ∷ l) r h = In-unzip x l (y ∷ r) (inr h)

-- The blocks before a height, the last one first, down to the first one.
abbrev IsDownTo : ℕ → List (ℕ × BlockInfo) → Type 0
IsDownTo n [] = n ≡ 0
IsDownTo n (x ∷ l) = (x.1.id < n) × ((x.0 ≡ blocks_version) × IsDownTo x.1.id l)

top_of :
    (n h : ℕ) (hashes : List ℕ) (l : List (ℕ × BlockInfo))
    → IsDownTo n l
    → n + length hashes < 2 ^ 64
    → (top : BlockInfo) × ((l' : List (ℕ × BlockInfo)) × ((behind l
              (map row (records block_info n (h ∷ hashes)))
            ≡ row top ∷ l')
          × (IsDownTo top.id l' × (top.id ≡ n + length hashes))))
top_of n h [] l d w = (block_info n h, (l, (refl, (d, omega arith))))
top_of n h (k ∷ hashes) l d w =
    let up = next-suc n (omega (arith, w)) in
    let (top, (l', (e, (d', t)))) =
      top_of (next n) k hashes (row (block_info n h) ∷ l) (omega (arith, up), (refl, d))
        (omega (arith, w, up)) in
    (top, (l', (e, (d', omega (arith, t, up)))))

-- The block of each height up to the last one.
block_at :
    (n id : ℕ) (hashes : List ℕ)
    → n ≤ id
    → id < n + length hashes
    → n + length hashes < 2 ^ 64
    → (stored : ℕ) × ((before : List (ℕ × BlockInfo)) × ((old : List ℕ) × ((map row
                (records block_info n hashes)
              ≡ before ++ row (block_info id stored) ∷ map row (records block_info (next id) old))
            × All (IsBelow id) before)))
block_at n id [] l h w = absurd (omega arith)
block_at n id (x ∷ hashes) l h w = elim (Bool-cases (n == id)) [
  | inl e ↦
      let same : n ≡ id = (==_iff n id).0 e in
      (
        x,
        (
          [],
          (
            hashes,
            (
              ap (λ m. row (block_info m x) ∷ map row (records block_info (next m) hashes)) same,
              tt,
            ),
          ),
        ),
      )
  | inr e ↦
      let up = next-suc n (omega (arith, w)) in
      let less : n < id = ground (arith, l, e) in
      let (stored, (before, (old, (q, b)))) =
        block_at (next n) id hashes (omega (arith, less, up)) (omega (arith, h, up))
          (omega (arith, w, up)) in
      (
        stored,
        (
          row (block_info n x) ∷ before,
          (old, (ap (λ r. row (block_info n x) ∷ r) q, ((refl, less), b))),
        ),
      )
]

shifted_below : (i : ℕ) → i < 30 → shifted i ≡ 2 * 2 ^ i
unfolding shifted
shifted_below i h =
    rw (mod-eq_of_lt {n = 2 * 2 ^ i} {m = 2 ^ 32} (omega (arith, bound))) (ground (arith, bound))
  where
    bound : 2 ^ i ≤ 2 ^ 29
    bound = pow-le-pow_right {n = 2} (omega arith) {i = i} {j = 29} (omega arith)

shifted_beyond : shifted 30 ≡ 2 ^ 64 - 2 ^ 31
unfolding shifted
shifted_beyond = refl

-- The stored chain is its first block, and the blocks of all heights from one height on.
module _ (T : Tables) (L : AreLawful T) (first start hash : ℕ) (hashes : List ℕ)
    (s : T.blocks.State)
    (rows : T.blocks.rows s
      ≡ row (block_info 0 first) ∷ map row (records block_info start (hash ∷ hashes)))
    (checkpoint : ℕ) (above : 0 < start) (reach : start ≤ max 1 checkpoint)
    (small : start + length hashes < 2 ^ 64 - 2 ^ 31) where
  -- The block of a height that the chain has.
  stored_block :
      (id : ℕ)
      → (checkpoint ≤ id) ⊎ (id ≡ 0)
      → id ≤ start + length hashes
      → (stored : ℕ) × ((before : List (ℕ × BlockInfo)) × ((r : List (ℕ × BlockInfo))
            × ((T.blocks.rows s ≡ before ++ row (block_info id stored) ∷ r)
                × All (IsBelow id) before)))
  stored_block zero c h = (first, ([], (_, (rows, tt))))
  stored_block (suc id) c h =
      let (stored, (before, (old, (q, lows)))) =
        block_at start (suc id) (hash ∷ hashes) (omega (arith, reach, c)) (omega (arith, h))
          (omega (arith, small)) in
      (
        stored,
        (
          row (block_info 0 first) ∷ before,
          (_, (rows ∙ ap (λ r. row (block_info 0 first) ∷ r) q, ((refl, omega arith), lows))),
        ),
      )

  -- A list of stored blocks, oldest first, that has the last one.
  abbrev IsPart : BlockInfo → List BlockInfo → Type 0
  IsPart top out =
      IsRising out
      × (All (λ b. In (row b) (T.blocks.rows s)) out
          × (In top out × (back_id out ≤ start + length hashes)))

  add_block_ok :
      (id : ℕ) (top : BlockInfo) (out : List BlockInfo)
      → (checkpoint ≤ id) ⊎ (id ≡ 0)
      → id < back_id out
      → IsPart top out
      → (more : List BlockInfo) × ((add_block T.blocks id out s ≡ ok more)
          × (IsPart top more × (back_id more ≡ id)))
  unfolding add_block do_get_block
  add_block_ok id top out w h (r, (a, (i, b))) =
      let (stored, (before, (r', (q, lows)))) = stored_block id w (omega (arith, h, b)) in
      let (d, (there, on)) =
        viewed-some T.blocks _ (row (block_info id stored)) (position (behind [] before) _ none) (
          L.blocks.get_both_lem _ _ _
          ∙ ap (seek _ []) q
          ∙ seek_block T L id (block_info id stored) before r' [] lows refl) in
      (
        block_info id stored ∷ out,
        (
          ap (λ o. (require o >>= λ x. ok x.0.1) >>= λ b. ok (block_info id b.hash ∷ out)) there,
          (
            (
              (above_back id out h r, r),
              (
                (subst (In (row (block_info id stored))) (sym q) (In-append _ before _), a),
                (inr i, omega (arith, h, b)),
              ),
            ),
            refl,
          ),
        ),
      )

  -- The offsets are powers of two until one is beyond the last block.
  offsets_ok :
      (n i anchor : ℕ) (top : BlockInfo) (out : List BlockInfo)
      → i ≤ 30
      → anchor ≤ start + length hashes
      → anchor < back_id out + 2 * 2 ^ i
      → IsPart top out
      → (more : List BlockInfo) × ((add_offsets T.blocks n i checkpoint anchor out s ≡ ok more)
          × IsPart top more)
  unfolding add_offsets
  offsets_ok zero i anchor top out few b h p = (out, (refl, p))
  offsets_ok (suc n) i anchor top out few b h p =
      elim (Bool-cases (ltb anchor (shifted i) || ltb (anchor - shifted i) checkpoint)) [
        | inl e ↦ (out, (if_true _ _ e, p))
        | inr e ↦
            let enough : shifted i ≤ anchor = ground (arith, e) in
            let late : checkpoint ≤ anchor - shifted i = ground (arith, e) in
            let more_left : i < 30 = elim (dec_lt i 30) [
              | yes z ↦ z
              | no z ↦
                  let last : i ≡ 30 = omega (arith, z, few) in
                  absurd (
                    omega (
                      arith,
                      subst (λ j. shifted j ≤ anchor) last enough,
                      shifted_beyond,
                      b,
                      small,
                    ))
            ] in
            let offset = shifted_below i more_left in
            let positive = one-le-pow i 2 (omega arith) in
            let (more, (run, (q, at_id))) =
              add_block_ok (anchor - shifted i) top out (inl late)
                (omega (arith, h, enough, positive, offset)) p in
            let (all, (run', q')) =
              offsets_ok n (suc i) anchor top more (omega (arith, more_left)) b
                (omega (arith, at_id, enough, positive, offset, two-pow-succ i)) q in
            (
              all,
              (
                if_false _ _ e
                    ∙ ap
                        (λ r. r >>= λ more. add_offsets T.blocks n (suc i) checkpoint anchor more s)
                        run
                    ∙ run',
                q',
              ),
            )
      ]

  add_if_ok :
      (b : Bool) (id : ℕ) (top : BlockInfo) (out : List BlockInfo)
      → (checkpoint ≤ id) ⊎ (id ≡ 0)
      → (b ≡ true → id < back_id out)
      → IsPart top out
      → (more : List BlockInfo) × ((add_if T.blocks b id s out ≡ ok more)
          × (IsPart top more × ((b ≡ true → back_id more ≡ id) × (b ≡ false → more ≡ out))))
  add_if_ok true id top out w h p =
      let (more, (run, (q, e))) = add_block_ok id top out w (h refl) p in
      (more, (run, (q, (λ z. e, λ z. absurd (ground (arith, z))))))
  add_if_ok false id top out w h p =
      (out, (refl, (p, (λ z. absurd (ground (arith, z)), λ z. refl))))

  sparse_ok :
      (n : ℕ) (top : BlockInfo) (out : List BlockInfo)
      → IsPart top out
      → (more : List BlockInfo) × ((add_sparse T.blocks n checkpoint out s ≡ ok more)
          × (IsPart top more × (back_id more ≡ 0)))
  unfolding add_sparse
  sparse_ok n top out p =
      let positive = one-le-pow 1 2 (omega arith) in
      let (a, (run_a, pa)) =
        offsets_ok n 1 (back_id out) top out (omega arith) (omega (arith, p.1.1.1))
          (omega (arith, positive)) p in
      let (b, (run_b, (pb, _))) =
        add_if_ok (ltb checkpoint (back_id a)) checkpoint top a (inl (omega arith))
          (λ e. ground (arith, e)) pa in
      let (c, (run_c, (pc, (at_zero, same)))) =
        add_if_ok (not (back_id b == 0)) 0 top b (inr refl) (λ e. ground (arith, e)) pb in
      (
        c,
        (
          ap
                (λ r. r >>= λ more.
                  add_if T.blocks (ltb checkpoint (back_id more)) checkpoint s more >>= λ all.
                  add_if T.blocks (not (back_id all == 0)) 0 s all)
                run_a
              ∙ ap (λ r. r >>= λ all. add_if T.blocks (not (back_id all == 0)) 0 s all) run_b
              ∙ run_c,
          (
            pc,
            elim (Bool-cases (not (back_id b == 0))) [
              | inl e ↦ at_zero e
              | inr e ↦ ap back_id (same e) ∙ (==_iff (back_id b) 0).0 (ground (arith, e))
            ],
          ),
        ),
      )

  stepped :
      (b : BlockInfo) (c : T.blocks.Cursor) (y : ℕ × BlockInfo) (l r : List (ℕ × BlockInfo))
      → T.blocks.view c ≡ position (y ∷ l) (row b ∷ r) none
      → y.0 ≡ blocks_version
      → (d : T.blocks.Cursor) × ((T.blocks.prev_dup c ≡ some (row y.1, d))
          × (T.blocks.view d ≡ position l (row y.1 ∷ row b ∷ r) none))
  stepped b c (k, y) l r e z =
      viewed-some T.blocks _ (row y) (position l (row y ∷ row b ∷ r) none) (
        L.blocks.prev_dup_lem c
        ∙ ap (back_dup T.blocks.same) e
        ∙ if_true _ _ (L.blocks_same k blocks_version ∙ (==_iff k blocks_version).1 z)
        ∙ ap (λ k. some ((k, y), position l ((k, y) ∷ row b ∷ r) none)) z)

  abbrev on_found :
      ℕ
      → ℕ
      → BlockInfo
      → List BlockInfo
      → Option ((ℕ × BlockInfo) × T.blocks.Cursor)
      → Result Error (List BlockInfo)
  on_found n sparse b out o =
      found o (if b.id == 0 then ok (b ∷ out) else err bad_blockchain)
        λ y. get_blocks_tail T.blocks n sparse checkpoint (b ∷ out) y s

  -- The cursor stands on a block whose predecessors are before it.
  tail_ok :
      (n sparse : ℕ) (top b : BlockInfo) (out : List BlockInfo) (c : T.blocks.Cursor)
      (l r : List (ℕ × BlockInfo))
      → T.blocks.view c ≡ position l (row b ∷ r) none
      → T.blocks.rows s ≡ unzip l (row b ∷ r)
      → IsDownTo b.id l
      → b.id ≤ start + length hashes
      → All (λ c. b.id < c.id) out
      → IsPart top (b ∷ out)
      → (more : List BlockInfo) × ((get_blocks_tail T.blocks
              (suc n)
              sparse
              checkpoint
              out
              (row b, c)
              s
            ≡ ok more)
          × (IsPart top more × (back_id more ≡ 0)))
  unfolding get_blocks_tail
  tail_ok n sparse top b out c [] r e w d le a p = (
    b ∷ out,
    (
      ap (on_found n sparse b out)
            (viewed-none T.blocks _ (L.blocks.prev_dup_lem c ∙ ap (back_dup T.blocks.same) e))
          ∙ if_true _ _ ((==_iff b.id 0).1 d),
      (p, d),
    ),
  )
  tail_ok zero sparse top b out c (y ∷ l) r e w (d, (k, ds)) le a p =
      let (c', (there, on)) = stepped b c y l r e k in
      let (more, (run, q)) = sparse_ok sparse top (b ∷ out) p in
      (more, (ap (on_found 0 sparse b out) there ∙ run, q))
  tail_ok (suc n) sparse top b out c (y ∷ l) r e w (d, (k, ds)) le a
        (rising, (stored, (has, low))) =
      let (c', (there, on)) = stepped b c y l r e k in
      let up : All (λ c. y.1.id < c.id) (b ∷ out) =
        above_back y.1.id (b ∷ out) (omega (arith, d)) rising in
      let w' : T.blocks.rows s ≡ unzip l (row y.1 ∷ row b ∷ r) =
        w ∙ ap (λ k. unzip l ((k, y.1) ∷ row b ∷ r)) k in
      let (more, (run, q)) =
        tail_ok n sparse top y.1 (b ∷ out) c' l (row b ∷ r) on w' ds (omega (arith, d, le)) up (
          (up, rising),
          (
            (
              subst (In (row y.1)) (sym w') (In-unzip (row y.1) l (row y.1 ∷ row b ∷ r) (inl refl)),
              stored,
            ),
            (inr has, omega (arith, d, le)),
          ),
        ) in
      (more, (ap (on_found (suc n) sparse b out) there ∙ run, q))

  -- Where the table has the first block of the chain and the blocks of all heights from some height on, which is 1 or at
  -- most that of the last checkpoint, and the last height is below 2 ^ 64 - 2 ^ 31, `get_chain_sync` answers. What it
  -- answers are the hashes of some stored blocks, each below the one before: the last block of the chain is among
  -- them, and the first block comes last.
  pub get_chain_sync-IsRising :
      (top : BlockInfo) × ((blocks : List BlockInfo) × ((get_chain_sync T.blocks checkpoint s
            ≡ ok (map hash_of (reverse blocks)))
          × ((IsRising blocks × (back_id blocks ≡ 0))
              × (All (λ b. In (row b) (T.blocks.rows s)) blocks
                  × (In top blocks × (top.id ≡ start + length hashes))))))
  unfolding get_chain_sync get_blocks
  get_chain_sync-IsRising =
      let (top, (l, (e, (d, at_end)))) =
        top_of start hash hashes (row (block_info 0 first) ∷ []) (above, (refl, refl))
          (omega (arith, small)) in
      let back : behind [] (T.blocks.rows s) ≡ row top ∷ l = ap (behind []) rows ∙ e in
      let (c, (there, on)) = viewed-some T.blocks _ (row top) (position l (row top ∷ []) none) (
        L.blocks.last_of_lem blocks_version s
        ∙ ap (λ b. seek_back (λ j. T.blocks.same j blocks_version) b []) back
        ∙ if_true _ _ (L.blocks_same blocks_version blocks_version)) in
      let whole : T.blocks.rows s ≡ unzip l (row top ∷ []) =
        sym (append-nil _)
        ∙ sym (unzip-behind [] (T.blocks.rows s) [])
        ∙ ap (λ b. unzip b []) back in
      let (more, (run, ((rising, (stored, (has, low))), zero_id))) =
        tail_ok 9 64 top top [] c l [] on whole d (omega (arith, at_end)) tt (
          (tt, tt),
          (
            (subst (In (row top)) (sym whole) (In-unzip (row top) l (row top ∷ []) (inl refl)), tt),
            (inl refl, omega (arith, at_end)),
          ),
        ) in
      (
        top,
        (
          more,
          (
            ap
                  (λ o.
                    (require o >>= λ x. get_blocks_tail T.blocks 10 64 checkpoint [] x s)
                    >>= λ blocks. ok (map hash_of (reverse blocks)))
                  there
                ∙ ap (λ r. r >>= λ blocks. ok (map hash_of (reverse blocks))) run,
            ((rising, zero_id), (stored, (has, omega (arith, at_end)))),
          ),
        ),
      )

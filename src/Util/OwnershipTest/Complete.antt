-- ===== src/Util/OwnershipTest/Complete.antt =====
-- That the test of src/util/ownership_test.cpp finds the outputs to the primary address.
use monero_lws.Base.{
  ℕ, zero, suc, ◌+◌, ◌≡◌, ◌<◌, refl, ap, sym, ◌∙◌, subst, arith, Bool, true, false, Bool-cases, inl,
  inr, ==_iff, Option, none, some, List, [], ◌∷◌, ◌++◌, All, if_true, some_inj, if_false, leb,
  get_elem?, In,
}
use monero_lws.Base.Results.{ok, ◌>>=◌, bind_ok, guard_ok, ok_inj}
use monero_lws.Db.Account.{Account, Immutable}
use monero_lws.Db.Data.{AddressIndex, Output}
use monero_lws.Util.OwnershipTest.{Crypto, TxOut, Call, World, Actions, unencrypted_id, elem_at}
use monero_lws.Util.OwnershipTest.Search.{primary, Owner, test_inputs, find_owner}
use monero_lws.Util.OwnershipTest.Run.{
  Outputs, amount_of, output_row, short_id, report_output, tried, test_owned, can_be, test_matched,
  test_key, test_outputs, additional_of, test_derived, test_keys, test_user,
}
use monero_lws.Util.OwnershipTest.Sound.{
  Report, received, noting, IsDerived, IsSound, find_owner-Searched, tried-IsDerived,
  additional_of-IsDerived, test_inputs-IsSound, test_key-IsSound,
}

In-snoc_left : (r s : Report) (xs : List Report) → In r xs → In r (xs ++ s ∷ [])
In-snoc_left r s [] h = absurd h
In-snoc_left r s (x ∷ xs) (inl e) = inl e
In-snoc_left r s (x ∷ xs) (inr h) = inr (In-snoc_left r s xs h)

In-snoc : (r : Report) (xs : List Report) → In r (xs ++ r ∷ [])
In-snoc r [] = inl refl
In-snoc r (x ∷ xs) = inr (In-snoc r xs)

-- The output of that index, with its key, is among the reports as one to the primary address.
abbrev pub IsNoted : ℕ → ℕ → List Report → Type 0
IsNoted key index reports =
    (o : Output) × (In (received o) reports
      × ((o.public_key ≡ key) × ((o.spend_meta.index ≡ index) × (o.recipient ≡ primary))))

module _ (c : Crypto) (subaddresses : Bool) (find : Account → ℕ → Option AddressIndex) (call : Call)
    (user : Account) (i : Immutable) where
  abbrev actions : Actions (List Report)
  actions = noting subaddresses find

  report_output-keeps :
      (r : Report) (index : ℕ) (out : TxOut) (key mixin : ℕ) (owner : Owner)
      (o p : Outputs (List Report)) (a : Option (ℕ × (ℕ × ℕ)))
      → report_output c actions call index out key mixin owner o.world o a ≡ ok p
      → In r o.world.rest
      → In r p.world.rest
  report_output-keeps r index out key mixin owner o p none h s =
      subst (λ x. In r x.world.rest) (ok_inj h) s
  report_output-keeps r index out key mixin owner o p (some a) h s =
      let (id, (e, g)) = bind_ok (elem_at call.out_ids index) _ p h in
      subst (λ x. In r x.world.rest) (ok_inj (guard_ok _ _ _ _ g)) (In-snoc_left r _ o.world.rest s)

  report_output-IsNoted :
      (index : ℕ) (out : TxOut) (key mixin : ℕ) (owner : Owner) (o p : Outputs (List Report))
      (a : ℕ × (ℕ × ℕ))
      → report_output c actions call index out key mixin owner o.world o (some a) ≡ ok p
      → owner.recipient ≡ primary
      → IsNoted key index p.world.rest
  report_output-IsNoted index out key mixin owner o p a h e =
      let (id, (f, g)) = bind_ok (elem_at call.out_ids index) _ p h in
      let row =
        output_row c actions call index out key mixin owner
          (short_id c actions call call.tx.nonce owner.derivation o.payment) a id in
      subst (λ x. IsNoted key index x.world.rest) (ok_inj (guard_ok _ _ _ _ g))
        (row, (In-snoc (received row) o.world.rest, (refl, (refl, e))))

  test_owned-keeps :
      (r : Report) (index : ℕ) (out : TxOut) (key mixin : ℕ) (o p : Outputs (List Report))
      (found : Option Owner × World (List Report))
      → found.1 ≡ o.world
      → test_owned c actions call index out key mixin o found ≡ ok p
      → In r o.world.rest
      → In r p.world.rest
  test_owned-keeps r index out key mixin o p (none, w) f h s =
      subst (λ x. In r x.world.rest) (ok_inj h) (subst (λ x. In r x.rest) (sym f) s)
  test_owned-keeps r index out key mixin o p (some owner, w) f h s =
      let (a, (e, g)) = bind_ok (amount_of c actions call index out owner.derivation o.ext) _ p h in
      report_output-keeps r index out key mixin owner o p a
        (subst (λ w. report_output c actions call index out key mixin owner w o a ≡ ok p) f g) s

  -- The output is the primary address's by that derivation, and its amount can be decrypted.
  abbrev pub IsPrimary : ℕ → ℕ → ℕ → TxOut → Type 0
  IsPrimary derived key index out =
      (out.key ≡ some key)
      × ((c.out_can_be_to_acc out.view_tag derived index ≡ true)
          × ((c.derive_subaddress_public_key key derived index ≡ some i.pubs.spend_public)
              × ((ext : ℕ)
                  → (a : ℕ × (ℕ × ℕ)) × (amount_of c actions call index out derived ext
                      ≡ ok (some a)))))

  module _ (derived tx_key : ℕ) (d : IsDerived c subaddresses find call user i (derived, tx_key))
      (ds : List (ℕ × ℕ)) (h : All (IsDerived c subaddresses find call user i) ds) (mixin : ℕ) where
    test_key-keeps :
        (r : Report) (index : ℕ) (out : TxOut) (o p : Outputs (List Report)) (key : Option ℕ)
        → test_key c actions call i.pubs.spend_public derived tx_key ds mixin index out o key ≡ ok p
        → o.world.user ≡ user
        → In r o.world.rest
        → In r p.world.rest
    test_key-keeps r index out o p none e u s = subst (λ x. In r x.world.rest) (ok_inj e) s
    test_key-keeps r index out o p (some key) e u s =
        let (t, (f, g)) = bind_ok (tried c actions call derived tx_key ds index) _ p e in
        elim (Bool-cases (can_be c actions call out.view_tag index t)) [
          | inl b ↦
              test_owned-keeps r index out key mixin o p _
                (find_owner-Searched c subaddresses find call user i key index t o.world u (
                  tried-IsDerived c subaddresses find call user i derived tx_key ds t index f d
                    h)).0
                (sym (if_true _ _ b) ∙ g) s
          | inr b ↦ subst (λ x. In r x.world.rest) (ok_inj (sym (if_false _ _ b) ∙ g)) s
        ]

    test_outputs-keeps :
        (r : Report) (index : ℕ) (vout : List TxOut) (o p : Outputs (List Report))
        → test_outputs c actions call i.pubs.spend_public derived tx_key ds mixin index vout o
          ≡ ok p
        → IsSound c subaddresses find call user i o.world
        → In r o.world.rest
        → In r p.world.rest
    unfolding test_outputs
    test_outputs-keeps r index [] o p e u s = subst (λ x. In r x.world.rest) (ok_inj e) s
    test_outputs-keeps r index (out ∷ vout) o p e u s =
        let (q, (f, g)) =
          bind_ok
            (test_key c actions call i.pubs.spend_public derived tx_key ds mixin index out o
              out.key)
            _ p e in
        test_outputs-keeps r (suc index) vout q p g
          (test_key-IsSound c subaddresses find call user i derived tx_key ds mixin index out o q
            out.key d h f u)
          (test_key-keeps r index out o q out.key f u.0 s)

    tried-head :
        (additional t : List (ℕ × ℕ)) (index : ℕ)
        → tried c actions call derived tx_key additional index ≡ ok t
        → (rest : List (ℕ × ℕ)) × (t ≡ (derived, tx_key) ∷ rest)
    tried-head [] t index e = ([], sym (ok_inj e))
    tried-head (x ∷ xs) t index e =
        let (y, (f, g)) = bind_ok (elem_at (x ∷ xs) index) _ t e in (y ∷ [], sym (ok_inj g))

    find_owner-primary :
        (key index : ℕ) (rest : List (ℕ × ℕ)) (w : World (List Report))
        → c.derive_subaddress_public_key key derived index ≡ some i.pubs.spend_public
        → find_owner c actions call i.pubs.spend_public key index ((derived, tx_key) ∷ rest) w
          ≡ (some (record { recipient = primary; derivation = derived; tx_public = tx_key }), w)
    unfolding find_owner
    find_owner-primary key index rest w e =
        rw (e, (==_iff i.pubs.spend_public i.pubs.spend_public).1 refl) refl

    test_matched-IsNoted :
        (key index : ℕ) (out : TxOut) (o p : Outputs (List Report)) (rest : List (ℕ × ℕ))
        → IsPrimary derived key index out
        → test_matched c actions call i.pubs.spend_public index out key mixin o
            ((derived, tx_key) ∷ rest)
          ≡ ok p
        → IsNoted key index p.world.rest
    test_matched-IsNoted key index out o p rest (k, (m, (e, a))) g =
        report_output-IsNoted index out key mixin
          (record { recipient = primary; derivation = derived; tx_public = tx_key }) o p (a o.ext).0
          (sym (
              ap
                (λ x.
                  x
                  >>= report_output c actions call index out key mixin
                      (record { recipient = primary; derivation = derived; tx_public = tx_key })
                      o.world o)
                (a o.ext).1)
            ∙ sym (
                ap (test_owned c actions call index out key mixin o)
                  (find_owner-primary key index rest o.world e))
            ∙ sym (if_true _ _ (matches m))
            ∙ g)
          refl
      where
        matches :
            c.out_can_be_to_acc out.view_tag derived index ≡ true
            → can_be c actions call out.view_tag index ((derived, tx_key) ∷ rest) ≡ true
        matches m = rw m refl

    test_key-IsNoted :
        (key index : ℕ) (out : TxOut) (o p : Outputs (List Report))
        → IsPrimary derived key index out
        → test_key c actions call i.pubs.spend_public derived tx_key ds mixin index out o out.key
          ≡ ok p
        → IsNoted key index p.world.rest
    test_key-IsNoted key index out o p a e =
        let (t, (f, g)) = bind_ok (tried c actions call derived tx_key ds index) _ p (
          sym (
            ap (test_key c actions call i.pubs.spend_public derived tx_key ds mixin index out o)
              a.0)
          ∙ e) in
        let (rest, r) = tried-head ds t index f in
        test_matched-IsNoted key index out o p rest a (
          subst
            (λ t. test_matched c actions call i.pubs.spend_public index out key mixin o t ≡ ok p) r
            g)

    test_outputs-IsNoted :
        (key m index n : ℕ) (out : TxOut) (vout : List TxOut) (o p : Outputs (List Report))
        → m ≡ index + n
        → get_elem? vout n ≡ some out
        → IsPrimary derived key m out
        → test_outputs c actions call i.pubs.spend_public derived tx_key ds mixin index vout o
          ≡ ok p
        → IsSound c subaddresses find call user i o.world
        → IsNoted key m p.world.rest
    unfolding test_outputs
    test_outputs-IsNoted key m index n out [] o p l e a g u = absurd (ground (arith, e))
    test_outputs-IsNoted key m index zero out (x ∷ vout) o p l e a g u =
        let (q, (f, k)) =
          bind_ok
            (test_key c actions call i.pubs.spend_public derived tx_key ds mixin index x o x.key) _
            p g in
        let (r, (t, j)) =
          subst (λ m. IsNoted key m q.world.rest) (at_index m index l)
            (test_key-IsNoted key index x o q
              (subst2 m index x out (at_index m index l) (some_inj e) a) f) in
        (
          r,
          (
            test_outputs-keeps (received r) (suc index) vout q p k
                (test_key-IsSound c subaddresses find call user i derived tx_key ds mixin index x o
                  q x.key d h f u)
                t,
            j,
          ),
        )
      where
        at_index : (m index : ℕ) → m ≡ index + 0 → index ≡ m
        at_index m index l = omega (arith, l)

        subst2 :
            (m index : ℕ) (x out : TxOut)
            → index ≡ m
            → x ≡ out
            → IsPrimary derived key m out
            → IsPrimary derived key index x
        subst2 m index x out l e a =
            subst (λ k. IsPrimary derived key k x) (sym l)
              (subst (IsPrimary derived key m) (sym e) a)
    test_outputs-IsNoted key m index (suc n) out (x ∷ vout) o p l e a g u =
        let (q, (f, k)) =
          bind_ok
            (test_key c actions call i.pubs.spend_public derived tx_key ds mixin index x o x.key) _
            p g in
        test_outputs-IsNoted key m (suc index) n out vout q p (omega (arith, l)) e a k (
          test_key-IsSound c subaddresses find call user i derived tx_key ds mixin index x o q x.key
            d h f u)

  test_derived-IsNoted :
      (tx_key derived : ℕ) (w v : World (List Report)) (key n : ℕ) (out : TxOut)
      → IsDerived c subaddresses find call user i (derived, tx_key)
      → get_elem? call.tx.vout n ≡ some out
      → IsPrimary derived key n out
      → test_derived c actions call tx_key i w (some derived) ≡ ok v
      → IsSound c subaddresses find call user i w
      → IsNoted key n v.rest
  test_derived-IsNoted tx_key derived w v key n out d e a g s =
      let (t, (f, k)) =
        bind_ok
          (test_inputs c actions call (unencrypted_id call.tx.nonce) call.tx.vin
            (record { ext = 0; mixin = 0; world = w }))
          _ v g in
      let (o, (l, m)) =
        bind_ok
          (test_outputs c actions call i.pubs.spend_public derived tx_key
            (additional_of c actions call i.view_key) t.mixin 0 call.tx.vout
            (record { ext = t.ext; payment = unencrypted_id call.tx.nonce; world = t.world }))
          _ v k in
      subst (λ v. IsNoted key n v.rest) (ok_inj m)
        (test_outputs-IsNoted derived tx_key d (additional_of c actions call i.view_key)
          (additional_of-IsDerived c subaddresses find call user i) t.mixin key n 0 n out
          call.tx.vout _ o (omega arith) e a l
          (test_inputs-IsSound c subaddresses find call user i (unencrypted_id call.tx.nonce)
            call.tx.vin _ t f s))

  -- Where the account was not scanned up to that height and the test ends, an output that the transaction's key derives from the primary address,
  -- with a fitting view tag and an amount that can be decrypted, is noted with its key and index.
  pub test_user-IsNoted :
      (tx_key derived key n : ℕ) (out : TxOut) (w : World (List Report))
      → user.height < call.height
      → user.immutable ≡ some i
      → IsDerived c subaddresses find call user i (derived, tx_key)
      → get_elem? call.tx.vout n ≡ some out
      → IsPrimary derived key n out
      → test_user c actions call tx_key (record { user = user; rest = [] }) ≡ ok w
      → IsNoted key n w.rest
  unfolding test_user
  test_user-IsNoted tx_key derived key n out w l m d e a h =
      test_derived-IsNoted tx_key derived (record { user = user; rest = [] }) w key n out d e a
        (sym (ap (test_derived c actions call tx_key i (record { user = user; rest = [] })) d)
          ∙ sym (ap (test_keys c actions call tx_key (record { user = user; rest = [] })) m)
          ∙ sym (if_false _ _ below)
          ∙ h)
        (refl, tt)
    where
      below : leb call.height user.height ≡ false
      below = ground (arith, l)

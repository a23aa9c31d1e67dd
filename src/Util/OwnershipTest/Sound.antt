-- ===== src/Util/OwnershipTest/Sound.antt =====
-- What the test of src/util/ownership_test.cpp reports, for callbacks that only note it down, as those of src/mempool.cpp do.
use monero_lws.Base.{
  ℕ, zero, suc, ◌+◌, ◌%◌, ◌^◌, ◌≡◌, refl, ap, sym, ◌∙◌, subst, arith, Bool, true, ◌&&◌, Bool-cases,
  inl, inr, ◌⊎◌, ==_iff, Option, none, some, List, [], ◌∷◌, ◌++◌, All, if_true, if_false, leb, ◌==◌,
  length,
}
use monero_lws.Base.Results.{ok, bind_ok, guard_ok, ok_inj}
use monero_lws.Db.Account.{Account, Immutable, get_spendable}
use monero_lws.Db.Data.{AddressIndex, OutputId, Output, Spend}
use monero_lws.Util.OwnershipTest.{
  Crypto, Input, to_key, gen, other, TxOut, Call, PaymentId, World, Actions, unencrypted_id,
  elem_at, both_derived, derive_each, or_none,
}
use monero_lws.Util.OwnershipTest.Search.{
  primary, Owner, report_spend, test_offsets, Tested, test_inputs, update_lookahead,
  found_subaddress, attempt, find_owner,
}
use monero_lws.Util.OwnershipTest.Run.{
  Outputs, amount_of, output_row, short_id, report_output, tried, test_owned, can_be, test_matched,
  test_key, test_outputs, additional_of, test_derived, test_keys, test_user,
}

pub data Report : Type 0 where
  spent : Spend → Report
  received : Output → Report

-- Callbacks that note the reports down, over a borrowed reader; the Boolean says whether subaddresses are looked up.
abbrev pub noting : Bool → (Account → ℕ → Option AddressIndex) → Actions (List Report)
noting subaddresses find = record {
  on_spend = λ s w. record w { rest = w.rest ++ spent s ∷ [] };
  on_output = λ o w. record w { rest = w.rest ++ received o ∷ [] };
  find_subaddress = λ user key reports. find user key;
  upsert_lookahead = λ user height match reports. reports;
  subaddresses = subaddresses;
  borrowed = true;
}

pub All-snoc :
    {A : Type 0} (P : A → Type 0) (xs : List A) (x : A) → All P xs → P x → All P (xs ++ x ∷ [])
All-snoc P [] x h p = (p, tt)
All-snoc P (y ∷ ys) x h p = (h.0, All-snoc P ys x h.1 p)

module _ (c : Crypto) (subaddresses : Bool) (find : Account → ℕ → Option AddressIndex) (call : Call)
    (user : Account) (i : Immutable) where
  -- The derivation comes from that key of the transaction.
  abbrev pub IsDerived : ℕ × ℕ → Type 0
  IsDerived d = c.generate_key_derivation d.1 i.view_key ≡ some d.0

  -- The key derived for an output is the account's, or that of the subaddress.
  abbrev pub IsOwner : ℕ → ℕ → Owner → Type 0
  IsOwner key index owner =
      IsDerived (owner.derivation, owner.tx_public)
      × ((derived_pub : ℕ) × ((c.derive_subaddress_public_key key owner.derivation index
              ≡ some derived_pub)
            × (((i.pubs.spend_public ≡ derived_pub) × (owner.recipient ≡ primary))
                ⊎ (find user derived_pub ≡ some owner.recipient))))

  abbrev pub IsOwned : ℕ → ℕ → Option Owner → Type 0
  IsOwned key index none = Unit {0}
  IsOwned key index (some owner) = IsOwner key index owner

  -- A spend is of an output that the account has; an output is the account's.
  abbrev pub IsTrue : Report → Type 0
  IsTrue (spent s) = get_spendable user s.source ≡ some s.sender
  IsTrue (received o) =
      (derivation : ℕ) × IsOwner o.public_key o.spend_meta.index (record {
        recipient = o.recipient;
        derivation = derivation;
        tx_public = o.spend_meta.tx_public;
      })

  -- The account is as it was, and what was noted down is true.
  abbrev pub IsSound : World (List Report) → Type 0
  IsSound w = (w.user ≡ user) × All IsTrue w.rest

  abbrev pub actions : Actions (List Report)
  actions = noting subaddresses find

  report_spend-IsSound :
      (id : OutputId) (image mixin : ℕ) (payment : PaymentId) (w : World (List Report))
      (index : Option AddressIndex)
      → get_spendable w.user id ≡ index
      → IsSound w
      → IsSound (report_spend c actions call id image mixin payment index w)
  report_spend-IsSound id image mixin payment w none e s = s
  report_spend-IsSound id image mixin payment w (some index) e s =
      (s.0, All-snoc IsTrue w.rest _ s.1 (rw s.0 at e))

  test_offsets-IsSound :
      (amount image mixin : ℕ) (payment : PaymentId) (goffset : ℕ) (offsets : List ℕ)
      (w : World (List Report))
      → IsSound w
      → IsSound (test_offsets c actions call amount image mixin payment goffset offsets w)
  unfolding test_offsets
  test_offsets-IsSound amount image mixin payment goffset [] w s = s
  test_offsets-IsSound amount image mixin payment goffset (o ∷ offsets) w s =
      test_offsets-IsSound amount image mixin payment ((goffset + o) % 2 ^ 64) offsets _
        (report_spend-IsSound _ image mixin payment w _ refl s)

  -- The search leaves the world as it is, and what it finds is the owner.
  abbrev pub Searched : ℕ → ℕ → World (List Report) → Option Owner × World (List Report) → Type 0
  Searched key index w r = (r.1 ≡ w) × IsOwned key index r.0

  update_lookahead-noting :
      (match : AddressIndex) (w : World (List Report)) → update_lookahead c actions call match w ≡ w
  unfolding update_lookahead
  update_lookahead-noting match w = ground arith

  found_subaddress-Searched :
      (key index derived_pub : ℕ) (d : ℕ × ℕ) (w : World (List Report))
      (match : Option AddressIndex) (next : Option Owner × World (List Report))
      → IsDerived d
      → c.derive_subaddress_public_key key d.0 index ≡ some derived_pub
      → find user derived_pub ≡ match
      → Searched key index w next
      → Searched key index w (found_subaddress c actions call d.0 d.1 match w next)
  found_subaddress-Searched key index derived_pub d w none next h e f s = s
  found_subaddress-Searched key index derived_pub d w (some match) next h e f s =
      (update_lookahead-noting match w, (h, (derived_pub, (e, inr f))))

  attempt-Searched :
      (key index : ℕ) (d : ℕ × ℕ) (w : World (List Report)) (derived_pub : Option ℕ)
      (next : Option Owner × World (List Report))
      → w.user ≡ user
      → IsDerived d
      → c.derive_subaddress_public_key key d.0 index ≡ derived_pub
      → Searched key index w next
      → Searched key index w (attempt c actions call i.pubs.spend_public d.0 d.1 derived_pub w next)
  attempt-Searched key index d w none next u h e s = s
  attempt-Searched key index d w (some derived_pub) next u h e s =
      elim (Bool-cases (i.pubs.spend_public == derived_pub)) [
        | inl b ↦ rw b (refl, (h, (derived_pub, (e, inl ((==_iff _ _).0 b, refl)))))
        | inr b ↦ elim (Bool-cases subaddresses) [
          | inl a ↦
              rw (b, a)
                (found_subaddress-Searched key index derived_pub d w _ next h e
                  (ap (λ x. find x derived_pub) (sym u)) s)
          | inr a ↦ rw (b, a) s
        ]
      ]

  pub find_owner-Searched :
      (key index : ℕ) (ds : List (ℕ × ℕ)) (w : World (List Report))
      → w.user ≡ user
      → All IsDerived ds
      → Searched key index w (find_owner c actions call i.pubs.spend_public key index ds w)
  unfolding find_owner
  find_owner-Searched key index [] w u h = (refl, tt)
  find_owner-Searched key index (d ∷ ds) w u h =
      attempt-Searched key index d w _ _ u h.0 refl (find_owner-Searched key index ds w u h.1)

  pub test_inputs-IsSound :
      (payment : PaymentId) (vin : List Input) (t u : Tested (List Report))
      → test_inputs c actions call payment vin t ≡ ok u
      → IsSound t.world
      → IsSound u.world
  unfolding test_inputs
  test_inputs-IsSound payment [] t u h s = subst IsSound (ap (λ x. x.world) (ok_inj h)) s
  test_inputs-IsSound payment (to_key amount offsets image ∷ vin) t u h s =
      test_inputs-IsSound payment vin _ u (guard_ok _ _ _ _ h)
        (test_offsets-IsSound amount image _ payment 0 offsets t.world s)
  test_inputs-IsSound payment (gen ∷ vin) t u h s = test_inputs-IsSound payment vin _ u h s
  test_inputs-IsSound payment (other ∷ vin) t u h s = test_inputs-IsSound payment vin t u h s

  -- What the additional derivations are.
  both_derived-IsDerived :
      (d : Option ℕ) (k : ℕ) (ds : Option (List (ℕ × ℕ)))
      → c.generate_key_derivation k i.view_key ≡ d
      → All IsDerived (or_none ds)
      → All IsDerived (or_none (both_derived d k ds))
  both_derived-IsDerived none k ds e h = tt
  both_derived-IsDerived (some d) k none e h = tt
  both_derived-IsDerived (some d) k (some ds) e h = (e, h)

  derive_each-IsDerived : (keys : List ℕ) → All IsDerived (or_none (derive_each c i.view_key keys))
  derive_each-IsDerived [] = tt
  derive_each-IsDerived (k ∷ keys) =
      both_derived-IsDerived _ k (derive_each c i.view_key keys) refl (derive_each-IsDerived keys)

  pub additional_of-IsDerived : All IsDerived (additional_of c actions call i.view_key)
  additional_of-IsDerived =
      elim (Bool-cases
        (subaddresses && length call.tx.additional_pub_keys == length call.tx.vout)) [
          | inl b ↦ rw b (derive_each-IsDerived call.tx.additional_pub_keys)
          | inr b ↦ rw b tt
        ]

  elem_at-All :
      {A : Type 0} (P : A → Type 0) (xs : List A) (n : ℕ) (x : A)
      → elem_at xs n ≡ ok x
      → All P xs
      → P x
  elem_at-All P [] n x h a = absurd (ground (arith, h))
  elem_at-All P (y ∷ ys) zero x h a = subst P (ok_inj h) a.0
  elem_at-All P (y ∷ ys) (suc n) x h a = elem_at-All P ys n x h a.1

  pub tried-IsDerived :
      (derived tx_key : ℕ) (ds tried_ones : List (ℕ × ℕ)) (index : ℕ)
      → tried c actions call derived tx_key ds index ≡ ok tried_ones
      → IsDerived (derived, tx_key)
      → All IsDerived ds
      → All IsDerived tried_ones
  tried-IsDerived derived tx_key [] r index h d a = subst (All IsDerived) (ok_inj h) (d, tt)
  tried-IsDerived derived tx_key (x ∷ xs) r index h d a =
      let (y, (e, g)) = bind_ok (elem_at (x ∷ xs) index) _ r h in
      subst (All IsDerived) (ok_inj g) (d, (elem_at-All IsDerived (x ∷ xs) index y e a, tt))

  report_output-IsSound :
      (index : ℕ) (out : TxOut) (key mixin : ℕ) (owner : Owner) (o p : Outputs (List Report))
      (a : Option (ℕ × (ℕ × ℕ)))
      → report_output c actions call index out key mixin owner o.world o a ≡ ok p
      → IsOwner key index owner
      → IsSound o.world
      → IsSound p.world
  report_output-IsSound index out key mixin owner o p none h w s =
      subst IsSound (ap (λ x. x.world) (ok_inj h)) s
  report_output-IsSound index out key mixin owner o p (some a) h w s =
      let (id, (e, g)) = bind_ok (elem_at call.out_ids index) _ p h in
      let row =
        output_row c actions call index out key mixin owner
          (short_id c actions call call.tx.nonce owner.derivation o.payment) a id in
      subst IsSound (ap (λ x. x.world) (ok_inj (guard_ok _ _ _ _ g)))
        (s.0, All-snoc IsTrue o.world.rest (received row) s.1 (owner.derivation, w))

  test_owned-IsSound :
      (index : ℕ) (out : TxOut) (key mixin : ℕ) (o p : Outputs (List Report))
      (found : Option Owner × World (List Report))
      → Searched key index o.world found
      → test_owned c actions call index out key mixin o found ≡ ok p
      → IsSound o.world
      → IsSound p.world
  test_owned-IsSound index out key mixin o p (none, w) f h s =
      subst IsSound (ap (λ x. x.world) (ok_inj h)) (subst IsSound (sym f.0) s)
  test_owned-IsSound index out key mixin o p (some owner, w) f h s =
      let (a, (e, g)) = bind_ok (amount_of c actions call index out owner.derivation o.ext) _ p h in
      report_output-IsSound index out key mixin owner o p a
        (subst (λ w. report_output c actions call index out key mixin owner w o a ≡ ok p) f.0 g) f.1
        s

  test_matched-IsSound :
      (index : ℕ) (out : TxOut) (key mixin : ℕ) (o p : Outputs (List Report)) (ds : List (ℕ × ℕ))
      → All IsDerived ds
      → test_matched c actions call i.pubs.spend_public index out key mixin o ds ≡ ok p
      → IsSound o.world
      → IsSound p.world
  test_matched-IsSound index out key mixin o p ds d h s =
      elim (Bool-cases (can_be c actions call out.view_tag index ds)) [
        | inl b ↦
            test_owned-IsSound index out key mixin o p _
              (find_owner-Searched key index ds o.world s.0 d) (sym (if_true _ _ b) ∙ h) s
        | inr b ↦ subst IsSound (ap (λ x. x.world) (ok_inj (sym (if_false _ _ b) ∙ h))) s
      ]

  pub test_key-IsSound :
      (derived tx_key : ℕ) (ds : List (ℕ × ℕ)) (mixin index : ℕ) (out : TxOut)
      (o p : Outputs (List Report)) (key : Option ℕ)
      → IsDerived (derived, tx_key)
      → All IsDerived ds
      → test_key c actions call i.pubs.spend_public derived tx_key ds mixin index out o key ≡ ok p
      → IsSound o.world
      → IsSound p.world
  test_key-IsSound derived tx_key ds mixin index out o p none d a h s =
      subst IsSound (ap (λ x. x.world) (ok_inj h)) s
  test_key-IsSound derived tx_key ds mixin index out o p (some key) d a h s =
      let (r, (e, g)) = bind_ok (tried c actions call derived tx_key ds index) _ p h in
      test_matched-IsSound index out key mixin o p r
        (tried-IsDerived derived tx_key ds r index e d a) g s

  test_outputs-IsSound :
      (derived tx_key : ℕ) (ds : List (ℕ × ℕ)) (mixin index : ℕ) (vout : List TxOut)
      (o p : Outputs (List Report))
      → IsDerived (derived, tx_key)
      → All IsDerived ds
      → test_outputs c actions call i.pubs.spend_public derived tx_key ds mixin index vout o ≡ ok p
      → IsSound o.world
      → IsSound p.world
  unfolding test_outputs
  test_outputs-IsSound derived tx_key ds mixin index [] o p d a h s =
      subst IsSound (ap (λ x. x.world) (ok_inj h)) s
  test_outputs-IsSound derived tx_key ds mixin index (out ∷ vout) o p d a h s =
      let (q, (e, g)) =
        bind_ok
          (test_key c actions call i.pubs.spend_public derived tx_key ds mixin index out o out.key)
          _ p h in
      test_outputs-IsSound derived tx_key ds mixin (suc index) vout q p d a g
        (test_key-IsSound derived tx_key ds mixin index out o q out.key d a e s)

  test_derived-IsSound :
      (tx_key : ℕ) (w v : World (List Report)) (derived : Option ℕ)
      → c.generate_key_derivation tx_key i.view_key ≡ derived
      → test_derived c actions call tx_key i w derived ≡ ok v
      → IsSound w
      → IsSound v
  test_derived-IsSound tx_key w v none d h s = subst IsSound (ok_inj h) s
  test_derived-IsSound tx_key w v (some derived) d h s =
      let (t, (e, g)) =
        bind_ok
          (test_inputs c actions call (unencrypted_id call.tx.nonce) call.tx.vin
            (record { ext = 0; mixin = 0; world = w }))
          _ v h in
      let (o, (f, k)) =
        bind_ok
          (test_outputs c actions call i.pubs.spend_public derived tx_key
            (additional_of c actions call i.view_key) t.mixin 0 call.tx.vout
            (record { ext = t.ext; payment = unencrypted_id call.tx.nonce; world = t.world }))
          _ v g in
      subst IsSound (ok_inj k) (
        test_outputs-IsSound derived tx_key (additional_of c actions call i.view_key) t.mixin 0
          call.tx.vout _ o d additional_of-IsDerived f
          (test_inputs-IsSound (unencrypted_id call.tx.nonce) call.tx.vin _ t e s))

  -- With callbacks that only note, a test that ends leaves the account as it is, and what it notes is true: a spend is of an output that the
  -- account has, and an output has a key that belongs to the account or to the subaddress that is noted, by a
  -- derivation from the key of the transaction that is noted.
  pub test_user-IsSound :
      (tx_key : ℕ) (w : World (List Report))
      → user.immutable ≡ some i
      → test_user c actions call tx_key (record { user = user; rest = [] }) ≡ ok w
      → IsSound w
  unfolding test_user
  test_user-IsSound tx_key w m h = elim (Bool-cases (leb call.height user.height)) [
    | inl b ↦ subst IsSound (ok_inj (sym (if_true _ _ b) ∙ h)) (refl, tt)
    | inr b ↦
        test_derived-IsSound tx_key (record { user = user; rest = [] }) w _ refl
          (ap (test_keys c actions call tx_key (record { user = user; rest = [] })) (sym m)
            ∙ sym (if_false _ _ b)
            ∙ h)
          (refl, tt)
  ]

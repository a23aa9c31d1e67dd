-- ===== src/Db/Subaddress/Reported.antt =====
-- What the lambda `add_out` of `do_upsert` leaves in `out`.
use mathlib.Core.List.{append-nil, append_assoc}
use monero_lws.Base.{ℕ, ◌≡◌, refl, sym, ap, ◌∙◌, List, [], ◌∷◌, ◌++◌, ◌==◌, if◌then◌else◌, arith}
use monero_lws.Db.Subaddress.{Range, Dict, add_out}
use monero_lws.Db.Subaddress.Merge.{report}

-- The ranges that stand under a major index, in order.
unfoldable pub ranges_under : ℕ → List Dict → List Range
ranges_under k [] = []
ranges_under k (d ∷ ds) = if d.major == k then d.ranges ++ ranges_under k ds else ranges_under k ds

ranges_under-add_out :
    (k major : ℕ) (r : Range) (out : List Dict)
    → ranges_under k (add_out out major r)
      ≡ ranges_under k out ++ (if major == k then r ∷ [] else [])
unfolding ranges_under add_out
ranges_under-add_out k major r [] = ground arith
ranges_under-add_out k major r (d ∷ []) =
    ground (arith, append-nil d.ranges, append-nil (d.ranges ++ r ∷ []))
ranges_under-add_out k major r (d ∷ e ∷ ds) = ground (
  arith,
  ranges_under-add_out k major r (e ∷ ds),
  append_assoc d.ranges (ranges_under k (e ∷ ds)) (if major == k then r ∷ [] else []),
)

-- Under its major index the reported ranges follow what was there.
pub ranges_under-report :
    (major : ℕ) (rs : List Range) (out : List Dict)
    → ranges_under major (report major rs out) ≡ ranges_under major out ++ rs
unfolding report
ranges_under-report major [] out = sym (append-nil (ranges_under major out))
ranges_under-report major (r ∷ rs) out =
    ranges_under-report major rs (add_out out major r)
    ∙ ap (λ x. x ++ rs) (ranges_under-add_out major major r out ∙ same)
    ∙ append_assoc (ranges_under major out) (r ∷ []) rs
  where
    same :
        ranges_under major out ++ (if major == major then r ∷ [] else [])
        ≡ ranges_under major out ++ r ∷ []
    same = ground arith

-- Under the other major indexes nothing changes.
pub ranges_under-report_other :
    (major k : ℕ) (rs : List Range) (out : List Dict)
    → ¬ k ≡ major
    → ranges_under k (report major rs out) ≡ ranges_under k out
unfolding report
ranges_under-report_other major k [] out other = refl
ranges_under-report_other major k (r ∷ rs) out other =
    ranges_under-report_other major k rs (add_out out major r) other
    ∙ ranges_under-add_out k major r out
    ∙ same
  where
    same : ranges_under k out ++ (if major == k then r ∷ [] else []) ≡ ranges_under k out
    same = ground (arith, append-nil (ranges_under k out))

-- ===== src/Db/Storage/Memory.antt =====
-- Tables that are lists, with cursors that are positions: they do what LMDB documents.
use mathlib.Core.Option
use monero_lws.Base.{Bool, ◌≡◌, refl, Option, none, some, List, [], if◌then◌else◌, ◌&&◌}
use monero_lws.Db.Storage.{
  LmdbTable, IsLawful, Found, Position, unzip, seek, seek_last, step, dup, nodup, back, back_nodup,
  behind, back_dup, seek_back, remove, replace, insert, has_equal, viewed,
}

module _ {K V : Type 0} (same : K → K → Bool) (less : K × V → K × V → Bool) where
  abbrev pub list_table : LmdbTable K V
  list_table = record {
    State = List (K × V);
    Cursor = Position K V;
    same = same;
    less = less;
    rows = λ s. s;
    table = λ c. unzip c.left c.right;
    view = λ c. c;
    get_both = λ k p s. seek (λ j v. same j k && p v) [] s;
    set_range = λ p s. seek (λ k v. p k) [] s;
    last = λ s. seek_last [] s;
    next_dup = λ c. step (dup same) c;
    next_nodup = λ c. step (nodup same) c;
    last_of = λ k s. seek_back (λ j. same j k) (behind [] s) [];
    prev_dup = λ c. back_dup same c;
    prev = λ c. back c;
    prev_nodup = λ c. back_nodup same c;
    del = λ c. remove c;
    put_current = λ v c. replace v c;
    put = λ k v s. insert less (k, v) s;
    put_new = λ k v s. if has_equal less (k, v) s then none else some (insert less (k, v) s);
  }

  viewed_lem : (o : Found K V) → viewed list_table o ≡ o
  viewed_lem none = refl
  viewed_lem (some x) = refl

  map_id : (o : Option (List (K × V))) → Option.map (λ s. s) o ≡ o
  map_id none = refl
  map_id (some s) = refl

  pub list_table-IsLawful : IsLawful list_table
  list_table-IsLawful = record {
    rows-table = λ c. refl;
    get_both_lem = λ k p s. viewed_lem _;
    set_range_lem = λ p s. viewed_lem _;
    last_lem = λ s. viewed_lem _;
    next_dup_lem = λ c. viewed_lem _;
    next_nodup_lem = λ c. viewed_lem _;
    last_of_lem = λ k s. viewed_lem _;
    prev_dup_lem = λ c. viewed_lem _;
    prev_lem = λ c. viewed_lem _;
    prev_nodup_lem = λ c. viewed_lem _;
    del_lem = λ c. refl;
    put_current_lem = λ v c. refl;
    rows-put = λ k v s. refl;
    rows-put_new = λ k v s. map_id _;
  }

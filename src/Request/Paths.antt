-- ===== src/Request/Paths.antt =====
-- The path index of a request state: it always stands behind whole characters of the path.
use myth.Prelude.{◌≡◌, some, [], ◌++◌, refl, sym, arith}
use mathlib.Core.List.{append-nil, append_assoc}
use myth.Text.{Str, len}
use myth.Text.Slices.{slice_from-append, slice_to-append, len-append}
use myth.Http.{Http}
use myth.Request.{
  Request, RequestState, full_path, current_path, previous_path, incr_current_path_index,
  end_current_path_index,
}

module _ {H : Http} where
  -- The path is `before ++ after`, and the index is the length of `before`.
  pub record InPath (r : Request H) (st : RequestState H) : Type 0 where
    pub before : Str
    pub after : Str
    pub whole : full_path r ≡ before ++ after
    pub at : st.current_path_index ≡ len before

  pub current_path-InPath :
      (r : Request H) (st : RequestState H) (p : InPath r st) → current_path st r ≡ some p.after
  unfolding current_path
  current_path-InPath r st p = rw (p.whole, p.at) (slice_from-append p.before p.after)

  pub previous_path-InPath :
      (r : Request H) (st : RequestState H) (p : InPath r st) → previous_path st r ≡ some p.before
  unfolding previous_path
  previous_path-InPath r st p = rw (p.whole, p.at) (slice_to-append p.before p.after)

  -- Consuming a prefix of what is left keeps the index in the path.
  pub incr_current_path_index-InPath :
      (r : Request H) (st : RequestState H) (p : InPath r st) (part rest : Str)
      → p.after ≡ part ++ rest
      → InPath r (incr_current_path_index (len part) st)
  unfolding incr_current_path_index
  incr_current_path_index-InPath r st p part rest e = record {
    before = p.before ++ part;
    after = rest;
    whole = rw (p.whole, e) (sym (append_assoc p.before part rest));
    at = omega (arith, p.at, len-append p.before part);
  }

  pub end_current_path_index-InPath :
      (r : Request H) (st : RequestState H) → InPath r (end_current_path_index r st)
  unfolding end_current_path_index
  end_current_path_index-InPath r st = record {
    before = full_path r;
    after = [];
    whole = sym (append-nil (full_path r));
    at = refl;
  }

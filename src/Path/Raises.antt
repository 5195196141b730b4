-- ===== src/Path/Raises.antt =====
-- The errors of the path filters: only `end` ends in one, a redirect to the path without its last slash.
use mathlib.Core.Path.{subst}
use myth.Prelude.{
  ℕ, ◌≡◌, ◌++◌, [], sym, Bool-cases, inl, inr, Option, none, some, Option-cases, ◌||◌,
}
use myth.Text.{Str, str, str_eq}
use myth.Text.Slices.{slice_to-prefix}
use myth.Http.{Http}
use myth.Request.{Request, RequestState, full_path, current_path, previous_path}
use myth.Errors.{BoxedFilterError, box, redirect}
use myth.Outcome.{RequestOutcome}
use myth.Future.{Completes, poll_ready}
use myth.Future.Sequence.{poll_ready-Completes}
use myth.Filter.Ready.{finish}
use myth.Filter.Raises.{Fine, AllFine, Raises}
use myth.Path.{
  segment, decoded_outcome, decoded_segment, param_str, literal_filter, end_outcome, end,
  tail_outcome, tail, sanitize_path, tail_path_outcome, tail_path,
}

module _ {H : Http} (P : BoxedFilterError H → Type 0) where
  pub ready-Fine :
      {I S : Type 0} (v o : Option (RequestOutcome H I S))
      → AllFine P v
      → Completes poll_ready v o
      → AllFine P o
  ready-Fine v o h c = subst (AllFine P) (sym (poll_ready-Completes v c)) h

  decoded_outcome-Fine :
      {S : Type 0} (st : RequestState H) (found : Option (Str × ℕ)) (func : Str → Option S)
      → Fine P (decoded_outcome st found func).1
  unfolding decoded_outcome
  decoded_outcome-Fine st none func = tt
  decoded_outcome-Fine st (some (found, length)) func =
      elim (Option-cases (func (H.decode_utf8_lossy found))) [
        | inl e ↦ rw (Fine, e) tt
        | inr (s, e) ↦ rw (Fine, e) tt
      ]

  decoded_segment-Fine :
      {S : Type 0} (func : Str → Option S) (r : Request H) (st : RequestState H)
      → AllFine P (finish (decoded_segment func r st))
  unfolding decoded_segment finish
  decoded_segment-Fine func r st = elim (Option-cases (segment r st)) [
    | inl e ↦ rw e tt
    | inr (found, e) ↦ rw e (decoded_outcome-Fine st found func)
  ]

  pub param_str-Raises : (r : Request H) → Raises P r param_str
  unfolding param_str
  param_str-Raises r st no_input o c = ready-Fine _ o (decoded_segment-Fine _ r st) c

  pub literal-Raises : (value : Str) (r : Request H) → Raises P r (literal_filter value)
  unfolding literal_filter
  literal-Raises value r st no_input o c = ready-Fine _ o (decoded_segment-Fine _ r st) c

  tail_outcome-Fine : (r : Request H) (st : RequestState H) → AllFine P (tail_outcome r st)
  unfolding tail_outcome
  tail_outcome-Fine r st = elim (Option-cases (current_path st r)) [
    | inl e ↦ rw e tt
    | inr (rest, e) ↦ rw e tt
  ]

  pub tail-Raises : (r : Request H) → Raises P r tail
  unfolding tail
  tail-Raises r st no_input o c = ready-Fine _ o (tail_outcome-Fine r st) c

  tail_path_outcome-Fine :
      (r : Request H) (st : RequestState H) → AllFine P (finish (tail_path_outcome r st))
  unfolding tail_path_outcome finish
  tail_path_outcome-Fine r st = elim (Option-cases (current_path st r)) [
    | inl e ↦ rw e tt
    | inr (rest, e) ↦ elim (Option-cases (sanitize_path H rest)) [
      | inl f ↦ rw (e, f) tt
      | inr (path, f) ↦ rw (e, f) tt
    ]
  ]

  pub tail_path-Raises : (r : Request H) → Raises P r tail_path
  unfolding tail_path
  tail_path-Raises r st no_input o c = ready-Fine _ o (tail_path_outcome-Fine r st) c

  -- A redirect to a part of the path, from its start, is one of those.
  abbrev pub Redirects : Request H → Type 0
  Redirects r =
      (before after : Str)
      → full_path r ≡ before ++ after
      → P (box redirect (record { location = before }))

  end_outcome-Fine :
      (r : Request H) (st : RequestState H) → Redirects r → AllFine P (finish (end_outcome r st))
  unfolding end_outcome finish previous_path
  end_outcome-Fine r st h =
      elim (Bool-cases (str_eq (full_path r) [] || str_eq (full_path r) (str "/"))) [
        | inl root ↦ rw root tt
        | inr root ↦ elim (Option-cases (current_path st r)) [
          | inl e ↦ rw (root, e) tt
          | inr (path, e) ↦ elim (Option-cases (previous_path st r)) [
            | inl f ↦ rw (root, e, f) tt
            | inr (previous, f) ↦ elim (Bool-cases (str_eq path [])) [
              | inl a ↦ rw (root, e, f, a) tt
              | inr a ↦ elim (Bool-cases (str_eq path (str "/"))) [
                | inl b ↦
                    let (rest, whole) =
                      slice_to-prefix (full_path r) st.current_path_index previous f in
                    rw (root, e, f, a, b) (h previous rest whole)
                | inr b ↦ rw (root, e, f, a, b) tt
              ]
            ]
          ]
        ]
      ]

  pub end-Raises : (r : Request H) → Redirects r → Raises P r end
  unfolding end
  end-Raises r h st no_input o c = ready-Fine _ o (end_outcome-Fine r st h) c

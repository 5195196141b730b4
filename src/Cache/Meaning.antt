-- ===== src/Cache/Meaning.antt =====
-- What `if_unmodified_since` comes to, alone and in front of another filter.
use mathlib.Core.Logic.{if_pos, if_neg}
use myth.Prelude.{
  ◌≡◌, refl, ap, ◌∙◌, ◌⊎◌, inl, inr, true, false, Bool-cases, Option, none, some, Option-cases,
  ◌>>=◌,
}
use myth.Http.{Http, get, head, if_modified_since}
use myth.Request.{Request, RequestState, header}
use myth.Response.{Response}
use myth.Errors.{box, invalid_if_unmodified_since}
use myth.Outcome.{Outcome, success, error, forward}
use myth.Forward.{not_found}
use myth.Future.Sequence.{Completes-poll_ready}
use myth.Tuple.{One, from_inner}
use myth.Filter.{Runs}
use myth.Filter.Run.{came_to}
use myth.Cache.{
  is_get_or_head, not_modified, dated, conditional, cache_outcome, if_unmodified_since,
}

module _ {H : Http} where
  -- The request is one for a representation, and has the header with this value.
  abbrev pub Asks : Request H → H.HeaderValue → Type 0
  Asks r value =
      ((r.method ≡ H.standard get) ⊎ (r.method ≡ H.standard head))
      × (header r (H.known if_modified_since) ≡ some value)

  -- It asks with a date that is later than the time of the last change.
  abbrev pub IsFresh : Request H → H.SystemTime → Type 0
  IsFresh r modified_time =
      (value : H.HeaderValue) × (date : H.SystemTime) × Asks r value
      × ((H.to_str value >>= H.parse_http_date) ≡ some date)
      × (H.later date modified_time ≡ true)

  -- It asks with something that is no date.
  abbrev pub IsInvalid : Request H → H.HeaderValue → Type 0
  IsInvalid r value = Asks r value × ((H.to_str value >>= H.parse_http_date) ≡ none)

  -- The three outcomes, each with what is so of the request.
  abbrev pub Decides :
      Request H → H.SystemTime → Outcome H (One H.SystemTime) (One (Response H)) → Type 0
  Decides r t o =
      (IsFresh r t
        × (o
            ≡ success
                (from_inner (record { status = 304; headers = H.new_map; body = H.empty_body }))))
      ⊎ (((value : H.HeaderValue) × IsInvalid r value
            × (o ≡ error (box invalid_if_unmodified_since value)))
          ⊎ ((¬ IsFresh r t) × (o ≡ forward (from_inner t) not_found)))

  get_or_head_cases :
      (r : Request H)
      → ((is_get_or_head r ≡ true) × ((r.method ≡ H.standard get) ⊎ (r.method ≡ H.standard head)))
        ⊎ ((is_get_or_head r ≡ false)
            × (¬ ((r.method ≡ H.standard get) ⊎ (r.method ≡ H.standard head))))
  get_or_head_cases r = elim (H.Method-discrete r.method (H.standard get)) [
    | yes g ↦ inl (if_pos (H.Method-discrete r.method (H.standard get)) g _ _, inl g)
    | no g ↦ elim (H.Method-discrete r.method (H.standard head)) [
      | yes h ↦ inl (
        if_neg (H.Method-discrete r.method (H.standard get)) g _ _
            ∙ if_pos (H.Method-discrete r.method (H.standard head)) h _ _,
        inr h,
      )
      | no h ↦ inr (
        if_neg (H.Method-discrete r.method (H.standard get)) g _ _
            ∙ if_neg (H.Method-discrete r.method (H.standard head)) h _ _,
        λ either. elim either [ inl x ↦ g x | inr x ↦ h x ],
      )
    ]
  ]

  stale :
      (r : Request H) (t : H.SystemTime) (value value' : H.HeaderValue) (date date' : H.SystemTime)
      → Asks r value
      → Asks r value'
      → (H.to_str value >>= H.parse_http_date) ≡ some date
      → (H.to_str value' >>= H.parse_http_date) ≡ some date'
      → H.later date t ≡ false
      → H.later date' t ≡ true
      → ⊥
  stale r t value value' date date' asks asks' e e' l l' =
      let same : value ≡ value' = cc (asks.1, asks'.1) in
      let parsed = ap (λ v. H.to_str v >>= H.parse_http_date) same in
      let dates : date ≡ date' = cc (e, e', parsed) in absurd (cc (dates, l, l'))

  not_modified_lem :
      not_modified {H = H} ≡ record { status = 304; headers = H.new_map; body = H.empty_body }
  unfolding not_modified
  not_modified_lem = refl

  dated-Decides :
      (r : Request H) (t : H.SystemTime) (value : H.HeaderValue)
      → Asks r value
      → Decides r t (dated t value (H.to_str value >>= H.parse_http_date))
  dated-Decides r t value asks = elim (Option-cases (H.to_str value >>= H.parse_http_date)) [
    | inl e ↦ inr (inl (value, (asks, e), rw e refl))
    | inr (date, e) ↦ elim (Bool-cases (H.later date t)) [
      | inl l ↦ inl (
        (value, date, asks, e, l),
        rw (e, l) (ap (λ response. success (from_inner response)) not_modified_lem),
      )
      | inr l ↦ inr (
          inr (
            λ (value', date', asks', e', l').
                stale r t value value' date date' asks asks' e e' l l',
            rw (e, l) refl,
          ))
    ]
  ]

  found-Decides :
      (r : Request H) (t : H.SystemTime) (found : Option H.HeaderValue)
      → (r.method ≡ H.standard get) ⊎ (r.method ≡ H.standard head)
      → header r (H.known if_modified_since) ≡ found
      → Decides r t (conditional t found)
  found-Decides r t none m e =
      inr (inr (λ (value, date, asks, parsed, l). absurd (cc (e, asks.1)), refl))
  found-Decides r t (some value) m e = dated-Decides r t value (m, e)

  cache_outcome-Decides : (r : Request H) (t : H.SystemTime) → Decides r t (cache_outcome r t)
  unfolding cache_outcome
  cache_outcome-Decides r t = elim (get_or_head_cases r) [
    | inr (e, n) ↦ rw e (inr (inr (λ (value, date, asks, parsed, l). n asks.0, refl)))
    | inl (e, m) ↦ rw e (found-Decides r t (header r (H.known if_modified_since)) m refl)
  ]

  pub if_unmodified_since-Runs :
      (r : Request H) (st : RequestState H) (t : H.SystemTime)
      → (o : Outcome H (One H.SystemTime) (One (Response H))) × Runs if_unmodified_since r st
          (from_inner t)
          (came_to st o)
        × Decides r t o
  unfolding if_unmodified_since
  if_unmodified_since-Runs r st t =
      (cache_outcome r t, Completes-poll_ready _, cache_outcome-Decides r t)

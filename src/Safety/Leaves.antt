-- ===== src/Safety/Leaves.antt =====
-- The filters of the headers and the body, and those that take a response or a time, keep the path index.
use myth.Prelude.{some, ◌∙◌}
use myth.Http.{Http}
use myth.Future.Sequence.{poll_ready-Completes, Completes-deterministic}
use myth.Filter.Keeps.{Keeps}
use myth.Header.{value_optional, require, value}
use myth.Header
use myth.Header.Meaning.{all-Runs, value_optional-Runs, value-Runs}
use myth.Body.Take.{all}
use myth.Body.Take.Halts.{all-Ends_of}
use myth.Cache.{if_unmodified_since}
use myth.Security.{nosniff}

module _ {H : Http} where
  pub all_headers-Keeps : Keeps (Header.all {H = H})
  all_headers-Keeps P r st no_input o p c =
      (_, Completes-deterministic (Header.all {H = H}).poll c (all-Runs r st), p)

  pub value_optional-Keeps : (name : H.HeaderName) → Keeps (value_optional {H = H} name)
  value_optional-Keeps name P r st no_input o p c = (
    _,
    Completes-deterministic (value_optional {H = H} name).poll c (value_optional-Runs r st name),
    p,
  )

  pub value-Keeps : (name : H.HeaderName) → Keeps (value {H = H} name)
  value-Keeps name P r st no_input o p c =
      (_, Completes-deterministic (value {H = H} name).poll c (value-Runs r st name), p)

  pub body-Keeps : Keeps (all {H = H})
  body-Keeps P r st no_input o (p, k) c =
      let (x, e, (i, shape, ends)) = all-Ends_of r st o c in
      (
        x,
        e,
        (
          record { before = p.before; after = p.after; whole = p.whole; at = i ∙ p.at },
          λ holds. ends,
        ),
      )

  pub cache-Keeps : Keeps (if_unmodified_since {H = H})
  unfolding if_unmodified_since
  cache-Keeps P r st input o p c = (_, poll_ready-Completes (some _) c, p)

  pub nosniff-Keeps : Keeps (nosniff {H = H})
  unfolding nosniff
  nosniff-Keeps P r st input o p c = (_, poll_ready-Completes (some _) c, p)

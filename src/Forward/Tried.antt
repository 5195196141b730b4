-- ===== src/Forward/Tried.antt =====
-- The forwards of several filters, combined in whatever way `or` is nested.
use mathlib.Core.List.{append-nil}
use myth.Prelude.{◌≡◌, ◌≢◌, refl, Option, none, some, List, [], ◌∷◌, ◌++◌}
use myth.Http.{StandardMethod}
use myth.Forward.{Forwarding, not_found, method_not_allowed, attempted, combine}
use myth.Forward.Allow.{Marks, attempted-Marks, attempted_or-Marks}

-- What was tried: one filter, which forwards as not found or because it asks for a method, or the filters
-- of the two sides of an `or`.
pub data Tried : Type 0 where
  one : Option StandardMethod → Tried
  either : Tried → Tried → Tried

-- The forward that this comes to; `or` combines those of its two sides.
unfoldable pub combined : Tried → Forwarding
unfolding combine
combined (one none) = not_found
combined (one (some m)) = method_not_allowed (attempted m)
combined (either a b) = combine (combined a) (combined b)

-- The methods that were asked for.
abbrev pub asked : Tried → List StandardMethod
asked (one none) = []
asked (one (some m)) = m ∷ []
asked (either a b) = asked a ++ asked b

-- The forward tells of just the methods of the list.
abbrev pub Tells : Forwarding → List StandardMethod → Type 0
Tells not_found ms = ms ≡ []
Tells (method_not_allowed self) ms = (ms ≢ []) × Marks self ms

combine-Tells :
    (v w : Forwarding) (ms ns : List StandardMethod)
    → Tells v ms
    → Tells w ns
    → Tells (combine v w) (ms ++ ns)
unfolding combine
combine-Tells not_found w ms ns h k = rw h k
combine-Tells (method_not_allowed a) not_found ms ns (n, h) k = rw (k, append-nil ms) (n, h)
combine-Tells (method_not_allowed a) (method_not_allowed b) [] ns (n, h) (o, k) = absurd (n refl)
combine-Tells (method_not_allowed a) (method_not_allowed b) (m ∷ ms) ns (n, h) (o, k) =
    ((λ e. cc), attempted_or-Marks a b (m ∷ ms) ns h k)

pub combined-Tells : (tried : Tried) → Tells (combined tried) (asked tried)
unfolding combined
combined-Tells (one none) = refl
combined-Tells (one (some m)) = ((λ e. cc), attempted-Marks m)
combined-Tells (either a b) =
    combine-Tells (combined a) (combined b) (asked a) (asked b) (combined-Tells a)
      (combined-Tells b)

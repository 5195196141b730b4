-- ===== src/Errors/Downcast.antt =====
-- Taking a boxed error out.
use mathlib.Core.Path.{subst, subst_refl, path_j}
use mathlib.Core.HLevel.{hedberg}
use myth.Prelude.{◌≡◌, ◌≢◌, ◌⊎◌, inl, inr, ok, err, refl, ap, sym}
use myth.Http.{Http}
use myth.Errors.{TypeId, TypeId-discrete, ErrorOf, BoxedFilterError, box, downcast, downcast_dec}

module _ {H : Http} where
  downcast_dec_same :
      (t : TypeId H) (v : ErrorOf H t) (d : Dec (t ≡ t)) → downcast_dec t t v d ≡ ok v
  unfolding downcast_dec
  downcast_dec_same t v (yes p) =
      ap ok (rw (hedberg (TypeId-discrete H) t t p refl) (subst_refl (ErrorOf H) v))
  downcast_dec_same t v (no n) = absurd (n refl)

  downcast_dec_ne :
      (t u : TypeId H) (v : ErrorOf H u) (d : Dec (u ≡ t))
      → u ≢ t
      → downcast_dec t u v d ≡ err (u, v)
  unfolding downcast_dec
  downcast_dec_ne t u v (yes p) n = absurd (n p)
  downcast_dec_ne t u v (no _) n = refl

  pub downcast-box : (t : TypeId H) (v : ErrorOf H t) → downcast t (box t v) ≡ ok v
  unfolding downcast
  downcast-box t v = downcast_dec_same t v (TypeId-discrete H t t)

  box-subst :
      (u t : TypeId H) (p : u ≡ t) (v : ErrorOf H u) → box u v ≡ box t (subst (ErrorOf H) p v)
  box-subst u t p v =
      path_j (λ t' q. box u v ≡ box t' (subst (ErrorOf H) q v))
        (ap (λ w. box u w) (sym (subst_refl (ErrorOf H) v))) p

  downcast_dec_cases :
      (t u : TypeId H) (v : ErrorOf H u) (d : Dec (u ≡ t))
      → ((w : ErrorOf H t) × (downcast_dec t u v d ≡ ok w) × (box u v ≡ box t w))
        ⊎ ((downcast_dec t u v d ≡ err (box u v)) × (u ≢ t))
  unfolding downcast_dec
  downcast_dec_cases t u v (yes p) = inl (subst (ErrorOf H) p v, refl, box-subst u t p v)
  downcast_dec_cases t u v (no n) = inr (refl, n)

  -- Taking a boxed error out at type `t` gives the value whose box it is, or the very same box if it
  -- holds a value of another type.
  pub downcast_cases :
      (t : TypeId H) (b : BoxedFilterError H)
      → ((w : ErrorOf H t) × (downcast t b ≡ ok w) × (b ≡ box t w))
        ⊎ ((downcast t b ≡ err b) × (b.0 ≢ t))
  unfolding downcast
  downcast_cases t (u, v) = downcast_dec_cases t u v (TypeId-discrete H u t)

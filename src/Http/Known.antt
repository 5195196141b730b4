-- ===== src/Http/Known.antt =====
-- Header maps at the names that the program knows.
use mathlib.Core.Logic.{if_pos, if_neg}
use myth.Prelude.{◌≡◌, ◌≢◌, refl, ◌∙◌, [], ◌∷◌, ◌++◌}
use myth.Http.{Http, KnownHeader}

module _ (H : Http) where
  pub get_all-insert_same :
      (n : H.HeaderName) (v : H.HeaderValue) (m : H.HeaderMap)
      → H.get_all n (H.insert n v m) ≡ v ∷ []
  get_all-insert_same n v m = H.get_all-insert n n v m ∙ if_pos (H.HeaderName-discrete n n) refl _ _

  pub get_all-append_same :
      (n : H.HeaderName) (v : H.HeaderValue) (m : H.HeaderMap)
      → H.get_all n (H.append n v m) ≡ H.get_all n m ++ v ∷ []
  get_all-append_same n v m = H.get_all-append n n v m ∙ if_pos (H.HeaderName-discrete n n) refl _ _

  pub get_all-insert_other :
      (a b : KnownHeader) (v : H.HeaderValue) (m : H.HeaderMap)
      → a ≢ b
      → H.get_all (H.known a) (H.insert (H.known b) v m) ≡ H.get_all (H.known a) m
  get_all-insert_other a b v m n =
      H.get_all-insert (H.known a) (H.known b) v m
      ∙ if_neg (H.HeaderName-discrete (H.known a) (H.known b)) (λ e. n (H.known-injective a b e)) _
          _

  pub get_all-append_other :
      (a b : KnownHeader) (v : H.HeaderValue) (m : H.HeaderMap)
      → a ≢ b
      → H.get_all (H.known a) (H.append (H.known b) v m) ≡ H.get_all (H.known a) m
  get_all-append_other a b v m n =
      H.get_all-append (H.known a) (H.known b) v m
      ∙ if_neg (H.HeaderName-discrete (H.known a) (H.known b)) (λ e. n (H.known-injective a b e)) _
          _

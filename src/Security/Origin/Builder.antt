-- ===== src/Security/Origin/Builder.antt =====
-- src/security/origin.rs: what every configuration that the builder gives has.
use mathlib.Core.Option.{some-injective}
use mathlib.Core.Path.{subst}
use myth.Prelude.{
  ◌≡◌, ◌≢◌, ◌⊎◌, inl, inr, refl, sym, ◌∙◌, false, not, Option, none, some, List, [], ◌∷◌, ◌++◌,
  Exists, Bool-cases, if◌then◌else◌,
}
use mathlib.Core.Logic.{if_pos, if_neg}
use myth.Text.{Str}
use myth.Http.{Http, options}
use myth.Security.Origin.{
  Duration, Config, new, contains, origin, any_origin, method, allow_header, expose_header, max_age,
  credentials,
}
use myth.Security.Origin.Cors.Permission.{contains_of_Exists}

-- No element twice.
abbrev pub IsDistinct : {A : Type 0} → List A → Type 0
IsDistinct [] = Unit
IsDistinct (x ∷ xs) = (¬ Exists (λ y. y ≡ x) xs) × IsDistinct xs

module _ {A : Type 0} where
  Exists-snoc : (P : A → Type 0) (xs : List A) (x : A) → Exists P (xs ++ x ∷ []) → Exists P xs ⊎ P x
  Exists-snoc P [] x (inl h) = inr h
  Exists-snoc P [] x (inr h) = elim h [ ]
  Exists-snoc P (y ∷ ys) x (inl h) = inl (inl h)
  Exists-snoc P (y ∷ ys) x (inr h) = elim (Exists-snoc P ys x h) [
    | inl k ↦ inl (inr k)
    | inr k ↦ inr k
  ]

  IsDistinct-snoc :
      (xs : List A) (x : A) → IsDistinct xs → (¬ Exists (λ y. y ≡ x) xs) → IsDistinct (xs ++ x ∷ [])
  IsDistinct-snoc [] x h n = (λ k. k, tt)
  IsDistinct-snoc (y ∷ ys) x (h, hs) n = (
    λ k. elim (Exists-snoc (λ z. z ≡ y) ys x k) [ inl e ↦ h e | inr e ↦ n (inl (sym e)) ],
    IsDistinct-snoc ys x hs (λ k. n (inr k)),
  )

-- `Vec::push` of a value that is not in it yet.
abbrev pushed : {A : Type 0} → Discrete A → A → List A → List A
pushed same x xs = if not (contains same x xs) then xs ++ x ∷ [] else xs

module _ {A : Type 0} (same : Discrete A) (x : A) (xs : List A) where
  not-Exists : contains same x xs ≡ false → ¬ Exists (λ y. y ≡ x) xs
  not-Exists e h = absurd (cc (e, contains_of_Exists same x xs h))

  pushed-IsDistinct : IsDistinct xs → IsDistinct (pushed same x xs)
  pushed-IsDistinct h = elim (Bool-cases (contains same x xs)) [
    | inl e ↦ rw e h
    | inr e ↦ rw e (IsDistinct-snoc xs x h (not-Exists e))
  ]

  Exists-pushed : (P : A → Type 0) → Exists P (pushed same x xs) → Exists P xs ⊎ P x
  Exists-pushed P h = elim (Bool-cases (contains same x xs)) [
    | inl e ↦ inl (rw e at h)
    | inr e ↦ Exists-snoc P xs x (rw e at h)
  ]

module _ {H : Http} where
  -- The configurations that the builder gives without a panic.
  pub data Configured : Config H → Type 0 where
    started : Configured (new H)
    with_origin : {c : Config H} (o : Str) → Configured c → Configured (origin o c)
    with_any_origin : {c : Config H} → Configured c → Configured (any_origin c)
    with_method :
        {c d : Config H} (m : Option H.Method) → Configured c → method m c ≡ some d → Configured d
    with_allow_header :
        {c d : Config H} (n : Option H.HeaderName)
        → Configured c
        → allow_header n c ≡ some d
        → Configured d
    with_expose_header :
        {c d : Config H} (n : Option H.HeaderName)
        → Configured c
        → expose_header n c ≡ some d
        → Configured d
    with_max_age : {c : Config H} (age : Duration) → Configured c → Configured (max_age age c)
    with_credentials : {c : Config H} → Configured c → Configured (credentials c)

  pub record IsWellFormed (c : Config H) : Type 0 where
    pub no_options : ¬ Exists (λ m. m ≡ H.standard options) c.methods
    pub methods : IsDistinct c.methods
    pub allow_headers : IsDistinct c.allow_headers
    pub expose_headers : IsDistinct c.expose_headers

  method-options : (m : H.Method) (c : Config H) → m ≡ H.standard options → method (some m) c ≡ none
  unfolding method
  method-options m c same = if_pos (H.Method-discrete m (H.standard options)) same _ _

  method-pushed :
      (m : H.Method) (c : Config H)
      → m ≢ H.standard options
      → method (some m) c ≡ some (record c { methods = pushed H.Method-discrete m c.methods })
  unfolding method
  method-pushed m c n =
      if_neg (H.Method-discrete m (H.standard options)) n _ _
      ∙ elim (Bool-cases (contains H.Method-discrete m c.methods)) [ inl e ↦ rw e | inr e ↦ rw e ]

  method-IsWellFormed :
      (m : Option H.Method) (c d : Config H) → IsWellFormed c → method m c ≡ some d → IsWellFormed d
  unfolding method
  method-IsWellFormed none c d w e = absurd (cc e)
  method-IsWellFormed (some m) c d w e = elim (H.Method-discrete m (H.standard options)) [
    | yes same ↦ absurd (cc (e, method-options m c same))
    | no n ↦ subst IsWellFormed (some-injective _ _ (sym (method-pushed m c n) ∙ e)) (record {
      no_options = λ h. elim (Exists-pushed H.Method-discrete m c.methods _ h) [
        | inl k ↦ w.no_options k
        | inr k ↦ n k
      ];
      methods = pushed-IsDistinct H.Method-discrete m c.methods w.methods;
      allow_headers = w.allow_headers;
      expose_headers = w.expose_headers;
    })
  ]

  allow_header-IsWellFormed :
      (name : Option H.HeaderName) (c d : Config H)
      → IsWellFormed c
      → allow_header name c ≡ some d
      → IsWellFormed d
  unfolding allow_header
  allow_header-IsWellFormed none c d w e = absurd (cc e)
  allow_header-IsWellFormed (some name) c d w e =
      let same : some
            (record c { allow_headers = pushed H.HeaderName-discrete name c.allow_headers })
          ≡ some d =
        (elim (Bool-cases (contains H.HeaderName-discrete name c.allow_headers)) [
          | inl k ↦ rw k
          | inr k ↦ rw k
        ])
        ∙ e in
      subst IsWellFormed (some-injective _ _ same) (record {
        no_options = w.no_options;
        methods = w.methods;
        allow_headers =
            pushed-IsDistinct H.HeaderName-discrete name c.allow_headers w.allow_headers;
        expose_headers = w.expose_headers;
      })

  expose_header-IsWellFormed :
      (name : Option H.HeaderName) (c d : Config H)
      → IsWellFormed c
      → expose_header name c ≡ some d
      → IsWellFormed d
  unfolding expose_header
  expose_header-IsWellFormed none c d w e = absurd (cc e)
  expose_header-IsWellFormed (some name) c d w e =
      let same : some
            (record c { expose_headers = pushed H.HeaderName-discrete name c.expose_headers })
          ≡ some d =
        (elim (Bool-cases (contains H.HeaderName-discrete name c.expose_headers)) [
          | inl k ↦ rw k
          | inr k ↦ rw k
        ])
        ∙ e in
      subst IsWellFormed (some-injective _ _ same) (record {
        no_options = w.no_options;
        methods = w.methods;
        allow_headers = w.allow_headers;
        expose_headers =
            pushed-IsDistinct H.HeaderName-discrete name c.expose_headers w.expose_headers;
      })

  -- A change of what the invariant does not speak of.
  same-IsWellFormed :
      (c d : Config H)
      → c.methods ≡ d.methods
      → c.allow_headers ≡ d.allow_headers
      → c.expose_headers ≡ d.expose_headers
      → IsWellFormed c
      → IsWellFormed d
  same-IsWellFormed c d m a x w = record {
    no_options = subst (λ l. ¬ Exists (λ k. k ≡ H.standard options) l) m w.no_options;
    methods = subst IsDistinct m w.methods;
    allow_headers = subst IsDistinct a w.allow_headers;
    expose_headers = subst IsDistinct x w.expose_headers;
  }

  -- A configuration that the builder gives without a panic never holds the method OPTIONS, and lists
  -- no method, no allowed header and no exposed header twice.
  pub Configured-IsWellFormed : (c : Config H) → Configured c → IsWellFormed c
  unfolding new origin any_origin max_age credentials
  Configured-IsWellFormed c started = record {
    no_options = λ h. elim h [ ];
    methods = tt;
    allow_headers = tt;
    expose_headers = tt;
  }
  Configured-IsWellFormed c (with_origin {c = b} o h) =
      same-IsWellFormed b c refl refl refl (Configured-IsWellFormed b h)
  Configured-IsWellFormed c (with_any_origin {c = b} h) =
      same-IsWellFormed b c refl refl refl (Configured-IsWellFormed b h)
  Configured-IsWellFormed c (with_max_age {c = b} age h) =
      same-IsWellFormed b c refl refl refl (Configured-IsWellFormed b h)
  Configured-IsWellFormed c (with_credentials {c = b} h) =
      same-IsWellFormed b c refl refl refl (Configured-IsWellFormed b h)
  Configured-IsWellFormed c (with_method {c = b} m h e) =
      method-IsWellFormed m b c (Configured-IsWellFormed b h) e
  Configured-IsWellFormed c (with_allow_header {c = b} n h e) =
      allow_header-IsWellFormed n b c (Configured-IsWellFormed b h) e
  Configured-IsWellFormed c (with_expose_header {c = b} n h e) =
      expose_header-IsWellFormed n b c (Configured-IsWellFormed b h) e

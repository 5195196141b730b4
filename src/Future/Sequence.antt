-- ===== src/Future/Sequence.antt =====
-- One future that runs another one first: what it completes with, by one step of simulation.
use myth.Prelude.{ℕ, zero, suc, ◌≡◌, ◌↔◌, Option, none, some, refl, ◌∙◌, ap, sym, ◌>>=◌, arith}
use mathlib.Core.Option
use myth.Future.{
  Poll, ready, waiting, panicked, Completes, now, panics, later, After, drive, resume, poll_ready,
  continue,
}

module _ {S A : Type 0} (poll : S → Poll S A) where
  After-poll :
      (s : S) (r : Option A) (p : Poll S A) → poll s ≡ p → After poll p r → Completes poll s r
  After-poll s r (ready a) e h = rw h (now e)
  After-poll s r panicked e h = rw h (panics e)
  After-poll s r (waiting s') e h = later e h

  pub Completes-of_After : (s : S) (r : Option A) → After poll (poll s) r → Completes poll s r
  Completes-of_After s r h = After-poll s r (poll s) refl h

  pub After-of_Completes : {s : S} {r : Option A} → Completes poll s r → After poll (poll s) r
  After-of_Completes (now e) = rw e refl
  After-of_Completes (panics e) = rw e refl
  After-of_Completes (later e c) = rw e c

  -- A future has at most one result.
  pub Completes-deterministic :
      {s : S} {r r' : Option A} → Completes poll s r → Completes poll s r' → r ≡ r'
  Completes-deterministic (now e) c' = sym (rw e at (After-of_Completes c'))
  Completes-deterministic (panics e) c' = sym (rw e at (After-of_Completes c'))
  Completes-deterministic (later e c) c' =
      Completes-deterministic c (rw e at (After-of_Completes c'))

  After-drive :
      (n : ℕ) (p : Poll S A) (r : Option A)
      → ((s : S) → drive poll n s ≡ some r → Completes poll s r)
      → resume (drive poll n) p ≡ some r
      → After poll p r
  After-drive n (ready a) r ih h = cc
  After-drive n panicked r ih h = cc
  After-drive n (waiting s) r ih h = ih s h

  -- What an executor sees is what the future completes with.
  pub drive_sound : (n : ℕ) (s : S) (r : Option A) → drive poll n s ≡ some r → Completes poll s r
  unfolding drive
  drive_sound zero s r h = absurd (cc)
  drive_sound (suc n) s r h =
      Completes-of_After s r (After-drive n (poll s) r (λ s' h'. drive_sound n s' r h') h)

module _ {S T A B : Type 0} (embed : S → T) (next : A → Poll T B) where
  -- A poll of the outer future while the inner one runs.
  abbrev pub step : Poll S A → Poll T B
  step (ready a) = next a
  step (waiting s) = waiting (embed s)
  step panicked = panicked

module _ {S T A B : Type 0} (poll : S → Poll S A) (poll' : T → Poll T B) (embed : S → T)
    (next : A → Poll T B) (same : (s : S) → poll' (embed s) ≡ step embed next (poll s)) where
  -- What follows the inner future's result.
  abbrev pub Follows : Option A → Option B → Type 0
  Follows none r = r ≡ none
  Follows (some a) r = After poll' (next a) r

  sequence_to :
      {s : S} {r₁ : Option A} {r : Option B}
      → Completes poll s r₁
      → Follows r₁ r
      → Completes poll' (embed s) r
  sequence_to {s} (now e) h = Completes-of_After poll' (embed s) _ (rw (same s, e) h)
  sequence_to {s} (panics e) h = Completes-of_After poll' (embed s) _ (rw (same s, e) h)
  sequence_to {s} (later {s' = s'} e c) h =
      later (same s ∙ ap (step embed next) e) (sequence_to c h)

  -- The first poll of the outer future, with the induction hypothesis for the later ones.
  sequence_from_poll :
      (s : S) (p : Poll S A) (q : Poll T B) (r : Option B)
      → poll s ≡ p
      → step embed next p ≡ q
      → After poll' q r
      → ((s' : S) → q ≡ waiting (embed s') → (r₁ : Option A) × Completes poll s' r₁ × Follows r₁ r)
      → (r₁ : Option A) × Completes poll s r₁ × Follows r₁ r
  sequence_from_poll s (ready a) q r ep eq h ih = (some a, now ep, rw eq h)
  sequence_from_poll s panicked q r ep eq h ih = (none, panics ep, rw (← eq) at h)
  sequence_from_poll s (waiting s') q r ep eq h ih =
      let (r₁, c, f) = ih s' (sym eq) in (r₁, later ep c, f)

  sequence_from :
      {t : T} {r : Option B}
      → Completes poll' t r
      → (s : S) → t ≡ embed s
      → (r₁ : Option A) × Completes poll s r₁ × Follows r₁ r
  sequence_from (now e') s e =
      sequence_from_poll s (poll s) _ _ refl (sym (same s) ∙ ap poll' (sym e) ∙ e') refl
        (λ s' bad. absurd (cc))
  sequence_from (panics e') s e =
      sequence_from_poll s (poll s) _ _ refl (sym (same s) ∙ ap poll' (sym e) ∙ e') refl
        (λ s' bad. absurd (cc))
  sequence_from (later e' c) s e =
      sequence_from_poll s (poll s) _ _ refl (sym (same s) ∙ ap poll' (sym e) ∙ e') c
        (λ s' e2. sequence_from c s' (cc))

  -- The outer future completes with `r` exactly when the inner one completes, and what follows that
  -- result comes to `r`.
  pub sequence_iff :
      (s : S) (r : Option B)
      → Completes poll' (embed s) r ↔ ((r₁ : Option A) × Completes poll s r₁ × Follows r₁ r)
  sequence_iff s r = (λ c. sequence_from c s refl, λ (r₁, c, h). sequence_to c h)

  -- The same with what follows stated in other words.
  pub sequence_lem :
      (s : S) (r : Option B) (Spec : Option A → Type 0)
      → ((r₁ : Option A) → Follows r₁ r ↔ Spec r₁)
      → Completes poll' (embed s) r ↔ ((r₁ : Option A) × Completes poll s r₁ × Spec r₁)
  sequence_lem s r Spec same_spec =
      let (to, from) = sequence_iff s r in
      (
        λ c. let (r₁, c₁, f) = to c in (r₁, c₁, (same_spec r₁).0 f),
        λ (r₁, c₁, f). from (r₁, c₁, (same_spec r₁).1 f),
      )

-- An outer future that only maps the inner one's result.
pub map_iff :
    {S T A B : Type 0} (poll : S → Poll S A) (poll' : T → Poll T B) (embed : S → T) (f : A → B)
    → ((s : S) → poll' (embed s) ≡ step embed (λ a. ready (f a)) (poll s))
    → (s : S) (r : Option B)
    → Completes poll' (embed s) r ↔ ((r₁ : Option A) × Completes poll s r₁ × (r ≡ Option.map f r₁))
map_iff {A} poll poll' embed f same s r =
    sequence_lem poll poll' embed (λ a. ready (f a)) same s r (λ r₁. r ≡ Option.map f r₁) same_spec
  where
    same_spec :
        (r₁ : Option A)
        → Follows poll poll' embed (λ a. ready (f a)) same r₁ r ↔ (r ≡ Option.map f r₁)
    same_spec none = (λ h. h, λ h. h)
    same_spec (some a) = (λ h. h, λ h. h)

-- A future that is ready completes with its value, and with nothing else.
pub poll_ready-Completes :
    {A : Type 0} (v : Option A) {o : Option A} → Completes poll_ready v o → o ≡ v
unfolding poll_ready
poll_ready-Completes (some a) c = After-of_Completes poll_ready c
poll_ready-Completes none c = After-of_Completes poll_ready c

pub Completes-poll_ready : {A : Type 0} (v : Option A) → Completes poll_ready v v
unfolding poll_ready
Completes-poll_ready (some a) = now refl
Completes-poll_ready none = panics refl

module _ {S A B : Type 0} (poll : S → Poll S A) (next : A → Option B) where
  continued : A → Poll S B
  continued a = continue next (ready a)

  poll-continue : (s : S) → continue next (poll s) ≡ step (λ s'. s') continued (poll s)
  unfolding continue continued
  poll-continue s = ground arith

  After-next :
      (b o : Option B)
      → After (λ s. continue next (poll s)) (elim b [ none ↦ panicked | some x ↦ ready x ]) o
        ↔ (o ≡ b)
  After-next none o = (λ h. h, λ h. h)
  After-next (some x) o = (λ h. h, λ h. h)

  Next-iff :
      (a : Option A) (o : Option B)
      → Follows poll (λ s. continue next (poll s)) (λ s'. s') continued poll-continue a o
        ↔ (o ≡ (a >>= next))
  unfolding continue continued
  Next-iff none o = (λ h. h, λ h. h)
  Next-iff (some a) o = After-next (next a) o

  -- The block completes with what is made of the value of the future.
  pub continue-Completes :
      (s : S) (o : Option B)
      → Completes (λ s'. continue next (poll s')) s o
        ↔ ((a : Option A) × Completes poll s a × (o ≡ (a >>= next)))
  continue-Completes s o =
      sequence_lem poll (λ s'. continue next (poll s')) (λ s'. s') continued poll-continue s o
        (λ a. o ≡ (a >>= next)) (λ a. Next-iff a o)

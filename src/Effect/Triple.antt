-- ===== src/Effect/Triple.antt =====
-- Actions by what holds before and after them: of the state alone where they raise, of the state and
-- the value where they return.
use rails.Prelude.{Bool, true, false, if◌then◌else◌, ◌≡◌, refl, Bool-cases, inl, inr}
use rails.Effect.{Result, ok, err, Action, pure, raise, lift, attempt, continue, ◌>>=◌}

module _ {S Er : Type 0} where
  abbrev pub Outcome : {A : Type 0} → (S → Type 0) → (A → S → Type 0) → Result Er A × S → Type 0
  Outcome F Q (ok a, s) = Q a s
  Outcome F Q (err e, s) = F s

  -- From a state with `P` the action raises in one with `F`, or returns with `Q`.
  pub record Triple {A : Type 0} (F P : S → Type 0) (m : Action S Er A) (Q : A → S → Type 0)
      : Type 0 where
    pub at : (s : S) → P s → Outcome F Q (m s)

  bind-Outcome :
      {A B : Type 0} {F : S → Type 0} (Q : A → S → Type 0) (R : B → S → Type 0)
      (f : A → Action S Er B)
      → ((a : A) → Triple F (Q a) (f a) R)
      → (o : Result Er A × S) → Outcome F Q o
      → Outcome F R (continue f o)
  bind-Outcome Q R f t (ok a, s) q = (t a).at s q
  bind-Outcome Q R f t (err e, s) q = q

  pub bind_rule :
      {A B : Type 0} {F P : S → Type 0} {m : Action S Er A} {f : A → Action S Er B}
      {Q : A → S → Type 0} {R : B → S → Type 0}
      → Triple F P m Q
      → ((a : A) → Triple F (Q a) (f a) R)
      → Triple F P (m >>= f) R
  bind_rule {m} {f} {Q} {R} t u = record { at = λ s p. bind-Outcome Q R f u (m s) (t.at s p) }

  attempt-Outcome :
      {A : Type 0} (R : S → Type 0) (o : Result Er A × S) → Outcome R (λ _. R) o → R o.1
  attempt-Outcome R (ok a, s) q = q
  attempt-Outcome R (err e, s) q = q

  -- `try:` around an action of which only the state matters.
  pub attempt_rule :
      {A : Type 0} {F P R : S → Type 0} {m : Action S Er A}
      → Triple R P m (λ _. R)
      → Triple F P (attempt m) (λ _. R)
  attempt_rule {R} {m} t = record { at = λ s p. attempt-Outcome R (m s) (t.at s p) }

  -- What is known behind a `try:`, by what the action did.
  abbrev pub Tried : {A : Type 0} → (S → Type 0) → (A → S → Type 0) → Result Er A → S → Type 0
  Tried R Q (ok a) = Q a
  Tried R Q (err e) = R

  Tried-Outcome :
      {A : Type 0} (R : S → Type 0) (Q : A → S → Type 0) (o : Result Er A × S)
      → Outcome R Q o
      → Tried R Q o.0 o.1
  Tried-Outcome R Q (ok a, s) q = q
  Tried-Outcome R Q (err e, s) q = q

  pub try_rule :
      {A : Type 0} {F P R : S → Type 0} {m : Action S Er A} {Q : A → S → Type 0}
      → Triple R P m Q
      → Triple F P (attempt m) (Tried R Q)
  try_rule {R} {m} {Q} t = record { at = λ s p. Tried-Outcome R Q (m s) (t.at s p) }

  pub pure_rule :
      {A : Type 0} {F P : S → Type 0} (Q : A → S → Type 0) (a : A)
      → ((s : S) → P s → Q a s)
      → Triple F P (pure a) Q
  pure_rule Q a h = record { at = h }

  pub raise_rule :
      {A : Type 0} {F P : S → Type 0} (Q : A → S → Type 0) (e : Er)
      → ((s : S) → P s → F s)
      → Triple F P (raise e) Q
  raise_rule Q e h = record { at = h }

  pub lift_rule : {A : Type 0} {F : S → Type 0} (r : Result Er A) → Triple F F (lift r) (λ _. F)
  lift_rule (ok a) = record { at = λ s p. p }
  lift_rule (err e) = record { at = λ s p. p }

  -- A raise in a state of which more is known than is claimed.
  pub lift_rule_in :
      {A : Type 0} {F P : S → Type 0} (r : Result Er A)
      → ((s : S) → P s → F s)
      → Triple F P (lift r) (λ _. P)
  lift_rule_in (ok a) h = record { at = λ s p. p }
  lift_rule_in (err e) h = record { at = h }

  lift-Outcome :
      {A : Type 0} (F P : S → Type 0) (r : Result Er A) (s : S)
      → F s
      → P s
      → Outcome F (λ a s. P s × (r ≡ ok a)) (r, s)
  lift-Outcome F P (ok a) s f p = (p, refl)
  lift-Outcome F P (err e) s f p = f

  -- What is computed, with the fact that it was.
  pub lift_rule_with :
      {A : Type 0} {F P : S → Type 0} (r : Result Er A)
      → ((s : S) → P s → F s)
      → Triple F P (lift r) (λ a s. P s × (r ≡ ok a))
  lift_rule_with {F} {P} r h = record { at = λ s p. lift-Outcome F P r s (h s p) p }

  -- What holds whatever the state is may be taken out of the precondition.
  pub given_rule :
      {A X : Type 0} {F P : S → Type 0} {m : Action S Er A} {Q : A → S → Type 0}
      → (X → Triple F P m Q)
      → Triple F (λ s. P s × X) m Q
  given_rule t = record { at = λ s p. (t p.1).at s p.0 }

  pub if_rule :
      {A : Type 0} {F P : S → Type 0} {Q : A → S → Type 0} (b : Bool) (m n : Action S Er A)
      → (b ≡ true → Triple F P m Q)
      → (b ≡ false → Triple F P n Q)
      → Triple F P (if b then m else n) Q
  if_rule b m n t u = elim (Bool-cases b) [ inl e ↦ rw e (t e) | inr e ↦ rw e (u e) ]

  pub weaken_rule :
      {A : Type 0} {F P P' : S → Type 0} {m : Action S Er A} {Q : A → S → Type 0}
      → Triple F P m Q
      → ((s : S) → P' s → P s)
      → Triple F P' m Q
  weaken_rule t h = record { at = λ s p. t.at s (h s p) }

  relax-Outcome :
      {A : Type 0} (F G : S → Type 0) (Q : A → S → Type 0) (o : Result Er A × S)
      → ((s : S) → G s → F s)
      → Outcome G Q o
      → Outcome F Q o
  relax-Outcome F G Q (ok a, s) h q = q
  relax-Outcome F G Q (err e, s) h q = h s q

  pub relax_rule :
      {A : Type 0} {F G P : S → Type 0} {m : Action S Er A} {Q : A → S → Type 0}
      → Triple G P m Q
      → ((s : S) → G s → F s)
      → Triple F P m Q
  relax_rule {F} {G} {m} {Q} t h = record { at = λ s p. relax-Outcome F G Q (m s) h (t.at s p) }

  strengthen-Outcome :
      {A : Type 0} (F : S → Type 0) (Q R : A → S → Type 0) (o : Result Er A × S)
      → ((a : A) (s : S) → Q a s → R a s)
      → Outcome F Q o
      → Outcome F R o
  strengthen-Outcome F Q R (ok a, s) h q = h a s q
  strengthen-Outcome F Q R (err e, s) h q = q

  pub strengthen_rule :
      {A : Type 0} {F P : S → Type 0} {m : Action S Er A} {Q R : A → S → Type 0}
      → Triple F P m Q
      → ((a : A) (s : S) → Q a s → R a s)
      → Triple F P m R
  strengthen_rule {F} {m} {Q} {R} t h = record {
    at = λ s p. strengthen-Outcome F Q R (m s) h (t.at s p);
  }

-- ===== src/Effect.antt =====
-- Python code that raises, and code that also works on a database: a result, and an action that
-- returns the state it reached beside its result. `atomic` is a transaction with ROLLBACK.
pub mod Triple
use rails.Prelude.{◌≡◌, refl, ◌⊎◌, inl, inr, Bool, true, false}

pub data Result {ℓ} (E A : Type ℓ) : Type ℓ where
  ok : A → Result E A
  err : E → Result E A

abbrev pub is_ok {ℓ} : {E A : Type ℓ} → Result E A → Bool
is_ok (ok a) = true
is_ok (err e) = false

-- What follows code that may raise.
abbrev pub and_then {ℓ} : {E A B : Type ℓ} → Result E A → (A → Result E B) → Result E B
and_then (ok a) f = f a
and_then (err e) f = err e

-- A statement that returns has returned nothing but that.
pub is_ok_lem : {E : Type 0} (x : Result E Unit) → is_ok x ≡ true → x ≡ ok tt
is_ok_lem (ok tt) h = refl
is_ok_lem (err e) h = absurd (cc)

pub Result-cases {ℓ} :
    {E A : Type ℓ} (x : Result E A) → ((a : A) × (x ≡ ok a)) ⊎ ((e : E) × (x ≡ err e))
Result-cases (ok a) = inl (a, refl)
Result-cases (err e) = inr (e, refl)

pub ok-inj : {E A : Type 0} {x : Result E A} {a b : A} → x ≡ ok a → x ≡ ok b → a ≡ b
ok-inj e e' = cc

-- Code that has returned has had each of its parts return.
pub and_then-ok :
    {E A B : Type 0} (x : Result E A) (f : A → Result E B) {b : B}
    → and_then x f ≡ ok b
    → (a : A) × (x ≡ ok a) × (f a ≡ ok b)
and_then-ok (ok a) f done = (a, refl, done)
and_then-ok (err e) f done = absurd (cc)

abbrev pub Action {ℓ} : Type ℓ → Type ℓ → Type ℓ → Type ℓ
Action S E A = S → Result E A × S

module _ {ℓ} {S E A : Type ℓ} where
  abbrev pub pure : A → Action S E A
  pure a s = (ok a, s)

  abbrev pub raise : E → Action S E A
  raise e s = (err e, s)

  abbrev pub lift : Result E A → Action S E A
  lift r s = (r, s)

  abbrev pub gets : (S → A) → Action S E A
  gets f s = (ok (f s), s)

  -- `try:` around an action, with its exception as a value.
  abbrev pub attempt : Action S E A → Action S E (Result E A)
  attempt m s = (ok (m s).0, (m s).1)

  abbrev settle : S → Result E A × S → Result E A × S
  settle s (ok a, s') = (ok a, s')
  settle s (err e, s') = (err e, s)

  -- `BEGIN IMMEDIATE … COMMIT`, with `ROLLBACK` and a re-raise on any exception.
  abbrev pub atomic : Action S E A → Action S E A
  atomic m s = settle s (m s)

module _ {ℓ} {S E A B : Type ℓ} where
  abbrev pub continue : (A → Action S E B) → Result E A × S → Result E B × S
  continue f (ok a, s) = f a s
  continue f (err e, s) = (err e, s)

  infixl 5 ◌>>=◌ ◌>>◌
  abbrev pub ◌>>=◌ : Action S E A → (A → Action S E B) → Action S E B
  ◌>>=◌ m f s = continue f (m s)

  abbrev pub ◌>>◌ : Action S E A → Action S E B → Action S E B
  m >> k = m >>= λ _. k

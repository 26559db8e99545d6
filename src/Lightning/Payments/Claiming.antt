-- ===== src/Lightning/Payments/Claiming.antt =====
-- The claim of a payment in lightning_flask/src/api/app.py: it brings a token, under which what is returned is
-- settled.
use rails.Prelude.{
  ℕ, String, string_eq, ◌≡◌, refl, true, ◌==◌, not, [], Option, none, some, inl, inr, Bool-cases,
}
use mathlib.Core.Path.{subst}
use Prim.Native.String.append
use Prim.Native.String.{[] as empty, ◌∷◌ as text_cons, ◌++◌ as text_append}
use rails.Text.{truthy}
use rails.Effect.{Result, ok, err, and_then-ok, ok-inj}
use rails.Effect.Triple.{
  Outcome, Triple, bind_rule, pure_rule, raise_rule, given_rule, if_rule, relax_rule,
}
use rails.Lightning.Errors.{ApiError}
use rails.Lightning.Config.{Settings}
use rails.Lightning.Security.{validate_idempotency_key_payment}
use rails.Lightning.Store.Rows.{
  is_final, Idempotency, ClaimOutcome, claim, replay, Db, find_key, HasKeys,
}
use rails.Lightning.Store.Claim.{claim_idempotent, is_leased, may_take}
use rails.Lightning.Store.Owner.{decided, claim_idempotent_lem}
use rails.Lightning.Store.Events.{query_payment_by_hash}
use rails.Lightning.Store.Calls.{Call, run, step}
use rails.Lightning.Store.Keys.{run-HasKeys}
use rails.Lightning.Host.{Host, World, as_failure, stored}
use rails.Lightning.Api.{Request, checked_key}
use rails.Lightning.Payments.{is_duplicate, duplicate, on_claim, claim_and_pay}
use rails.Lightning.Payments.Checks.{Plan, payment_key, unsafe_key}
use rails.Lightning.Payments.Bounded.{IsHistory}
use rails.Lightning.Payments.Accepting.{
  IsAccepted, Any, Keyed, Named, stored-Named, set_key-Named, set_claim_token-Claimed,
}
use rails.Lightning.Payments.Settling.{one_call, pay_or_reconcile-IsAccepted}

-- A claim brings a token that is a text with letters.
abbrev HasToken : ClaimOutcome → Type 0
HasToken (claim c) = truthy c.token ≡ true
HasToken (replay r) = Unit

abbrev Brings : Result ApiError ClaimOutcome → Type 0
Brings (ok o) = HasToken o
Brings (err e) = Unit

module _ (lease now : ℕ) (token key fingerprint : String) (hash : Option String) (network : String)
    (db : Db) (t : truthy token ≡ true) where
  decided-Brings :
      (o : Option Idempotency)
      → Brings (decided lease now token key fingerprint hash network db o).0
  decided-Brings none = t
  decided-Brings (some r) = elim (Bool-cases (not (r.fingerprint == fingerprint))) [
    | inl e ↦ rw e tt
    | inr e₁ ↦ elim (Bool-cases (is_final r.state)) [
      | inl e ↦ rw (e₁, e) tt
      | inr e₂ ↦ elim (Bool-cases (is_leased now r)) [
        | inl e ↦ rw (e₁, e₂, e) tt
        | inr e₃ ↦ elim (Bool-cases (may_take now fingerprint r)) [
          | inr e ↦ rw (e₁, e₂, e₃, e) tt
          | inl e ↦ rw (e₁, e₂, e₃, e) t
        ]
      ]
    ]
  ]

  claim-Brings :
      HasKeys db → Brings (claim_idempotent lease now token key fingerprint hash network db).0
  claim-Brings u =
      rw (claim_idempotent_lem lease now token key fingerprint hash network db u)
        (decided-Brings (find_key key db))

append-truthy_left : (s t : String) → truthy s ≡ true → truthy (text_append s t) ≡ true
append-truthy_left empty t h = absurd (cc)
append-truthy_left (text_cons c s) t h = rw (append.cons c s t) refl

append-truthy_right : (s t : String) → truthy t ≡ true → truthy (text_append s t) ≡ true
append-truthy_right empty t h = rw (append.nil t) h
append-truthy_right (text_cons c s) t h = rw (append.cons c s t) refl

pub payment_key-truthy : (r : Request) (key : String) → payment_key r ≡ ok key → truthy key ≡ true
unfolding payment_key
payment_key-truthy r key done =
    let (k, checked, e) =
      and_then-ok (checked_key validate_idempotency_key_payment unsafe_key r) _ done in
    subst (λ x. truthy x ≡ true) (ok-inj refl e)
      (append-truthy_right r.principal_id (text_append ":" k) (append-truthy_left ":" k refl))

module _ {Node : Type 0} (s : Settings) (h : Host Node) (r : Request)
    (tokens : (n : ℕ) → truthy (h.uuid n) ≡ true) where
  module _ (key : String) (named : truthy key ≡ true) where
    abbrev N : World Node → Type 0
    N = Named key

    abbrev F : World Node → Type 0
    F = Any

    claims-IsHistory :
        (hash : Option String)
        → IsHistory h.lower h.lease
            (λ now uuid. claim_idempotent h.lease now uuid key r.fingerprint hash s.network)
    unfolding step
    claims-IsHistory hash =
        one_call s h key named r _ (λ now uuid. Call.claims uuid key r.fingerprint hash s.network)
          (λ now uuid db. refl)

    with_token :
        (o : Result ApiError ClaimOutcome × Db) (w : World Node)
        → Outcome N (λ _. N) (as_failure o.0, w)
        → Brings o.0
        → Outcome F (λ o w. N w × HasToken o) (as_failure o.0, w)
    with_token (ok o, db) w n t = (n, t)
    with_token (err e, db) w n t = record {}

    claimed :
        (hash : Option String)
        → Triple F N
            (stored h
              (λ now uuid. claim_idempotent h.lease now uuid key r.fingerprint hash s.network))
            (λ o w. N w × HasToken o)
    unfolding stored
    claimed hash = record {
      at = λ w k.
          let db = run h.lower h.lease (h.others w.tick) w.db in
          with_token
            (claim_idempotent h.lease (h.clock w.tick) (h.uuid w.tick) key r.fingerprint hash
              s.network db)
            _ ((stored-Named h key _ (claims-IsHistory hash)).at w k)
            (claim-Brings h.lease (h.clock w.tick) (h.uuid w.tick) key r.fingerprint hash s.network
              db (tokens w.tick) (run-HasKeys h.lower h.lease (h.others w.tick) w.db k.keys));
    }

    on_claim-IsAccepted :
        (payment_request payment_hash : String) (plan : Plan) (o : ClaimOutcome)
        → HasToken o
        → Triple F N
            (on_claim s h r payment_request payment_hash plan key o)
            (λ a w. IsAccepted h key a w)
    unfolding on_claim
    on_claim-IsAccepted payment_request payment_hash plan (replay old) t =
        raise_rule _ _ (λ w k. record {})
    on_claim-IsAccepted payment_request payment_hash plan (claim c) t =
        bind_rule (set_claim_token-Claimed h key c.token t) (λ u.
          pay_or_reconcile-IsAccepted s h key named r
            (record {
              payment_request = payment_request;
              payment_hash = payment_hash;
              plan = plan;
              key = key;
              token = c.token;
            })
            c.state)

    pub claim_and_pay-IsAccepted :
        (payment_request payment_hash : String) (plan : Plan)
        → Triple F Keyed
            (claim_and_pay s h r payment_request payment_hash plan key)
            (λ a w. IsAccepted h key a w)
    unfolding claim_and_pay query_payment_by_hash run
    claim_and_pay-IsAccepted payment_request payment_hash plan =
        bind_rule (set_key-Named h key) (λ u.
          bind_rule
            (relax_rule
              (stored-Named h key (λ now uuid. query_payment_by_hash payment_hash)
                (record { calls = λ now uuid db. []; runs = λ now uuid db. refl }))
              (λ w k. record {}))
            (λ existing.
              bind_rule
                (if_rule (is_duplicate key existing) _ _
                  (λ _. raise_rule (λ _. N) duplicate (λ w k. record {}))
                  (λ _. pure_rule (λ _. N) tt (λ w k. k)))
                (λ v.
                  bind_rule (claimed (some payment_hash))
                    (λ o. given_rule (on_claim-IsAccepted payment_request payment_hash plan o)))))

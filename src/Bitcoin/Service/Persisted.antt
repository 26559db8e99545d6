-- ===== src/Bitcoin/Service/Persisted.antt =====
-- `create_sign_and_send` sends only what is kept, and returns only what is broadcast.
use rails.Prelude.{
  String, ◌≡◌, ◌≢◌, refl, true, not, ◌||◌, Option, none, some, [], arith, inl, inr, Bool-cases,
}
use rails.Json.{Json, null, bool, int, float, str, arr, obj, Fields, get_or_null}
use rails.Text.{truthy_column}
use rails.Effect.{Result, ok, err}
use rails.Effect.Triple.{Outcome, Triple, bind_rule, raise_rule, if_rule}
use rails.Bitcoin.Errors.{Error}
use rails.Bitcoin.Config.{AppConfig}
use rails.Bitcoin.Store.Invariant.{IsWellFormed}
use rails.Bitcoin.Service.World.{Host, World, Service}
use rails.Bitcoin.Service.Broadcast.{
  broadcast_disabled, idempotency_required, confirmation_required, is_true, text_or_empty,
  prepare_and_broadcast, create_sign_and_send,
}
use rails.Bitcoin.Service.Sent.{AllKept, Keeps}
use rails.Bitcoin.Service.Preparing.{load_rule, prepare-Prepared}
use rails.Bitcoin.Service.Submitting.{IsSettled, broadcast-Settled}

module _ {Node : Type 0} (config : AppConfig) (h : Host Node) (wallet_name : String) (body : Fields)
    (key : Option String) (request_hash : String) (token : Option String) where
  abbrev create : Service Node Fields
  create = create_sign_and_send config h wallet_name body key request_hash token

  create-Settled :
      Triple
        (Keeps request_hash)
        (Keeps request_hash)
        create
        (IsSettled request_hash (text_or_empty key))
  unfolding create_sign_and_send prepare_and_broadcast
  create-Settled =
      if_rule (not config.allow_broadcast) _ _ (λ e. raise_rule _ broadcast_disabled (λ s k. k))
        (λ e.
          if_rule (not (truthy_column key) || not (truthy_column token)) _ _
            (λ e. raise_rule _ idempotency_required (λ s k. k))
            (λ e.
              if_rule (not (is_true (get_or_null "confirmBroadcast" body))) _ _
                (λ e. raise_rule _ confirmation_required (λ s k. k))
                (λ e. bind_rule (load_rule h request_hash (text_or_empty key)) (λ o.
                  bind_rule
                    (prepare-Prepared config h request_hash wallet_name body (text_or_empty key)
                      (text_or_empty token) o)
                    (λ p.
                      broadcast-Settled h request_hash (text_or_empty key) (text_or_empty token)
                        p)))))

  fresh-Keeps : (w : World Node) → IsWellFormed w.db → w.calls ≡ [] → Keeps request_hash w
  fresh-Keeps w wf fresh = record { wf = wf; sent = rw fresh tt }

  sent-Outcome :
      (o : Result Error Fields × World Node)
      → Outcome (Keeps request_hash) (IsSettled request_hash (text_or_empty key)) o
      → AllKept request_hash o.1.db o.1.calls
  sent-Outcome (ok result, w) q = q.keeps.sent
  sent-Outcome (err e, w) q = q.sent

  IsSettled-Outcome :
      (o : Result Error Fields × World Node) (result : Fields)
      → Outcome (Keeps request_hash) (IsSettled request_hash (text_or_empty key)) o
      → o.0 ≡ ok result
      → IsSettled request_hash (text_or_empty key) result o.1
  IsSettled-Outcome (ok r, w) result q done = let same : r ≡ result = cc in rw same at q
  IsSettled-Outcome (err e, w) result q done = absurd (cc)

  -- Whatever Bitcoin Core answers and whatever the other workers call in between, every transaction that the
  -- request hands to `sendrawtransaction` was, before that call, a raw transaction with its txid in a broadcast
  -- record of the store under the hash of this request, and it still is when the request ends, with an error or
  -- without. The request starts from a well-formed database, with no calls made.
  pub sent_is_kept :
      (w : World Node)
      → IsWellFormed w.db
      → w.calls ≡ []
      → AllKept request_hash (create w).1.db (create w).1.calls
  sent_is_kept w wf fresh = sent-Outcome (create w) (create-Settled.at w (fresh-Keeps w wf fresh))

  -- If the request returns a result, it is that of a prepared transaction which the store keeps under the hash of
  -- the request, and the row of the key is BROADCAST under the txid of the result.
  -- The request starts from a well-formed database, with no calls made.
  pub result_is_broadcast :
      (w : World Node) (result : Fields)
      → IsWellFormed w.db
      → w.calls ≡ []
      → (create w).0 ≡ ok result
      → IsSettled request_hash (text_or_empty key) result (create w).1
  result_is_broadcast w result wf fresh =
      IsSettled-Outcome (create w) result (create-Settled.at w (fresh-Keeps w wf fresh))

  -- The literal `true` and no other document.
  is_true-true : (j : Json) → is_true j ≡ true → j ≡ bool true
  is_true-true (bool b) h = rw h
  is_true-true null h = absurd (cc)
  is_true-true (int z) h = absurd (cc)
  is_true-true (float x) h = absurd (cc)
  is_true-true (str s) h = absurd (cc)
  is_true-true (arr i) h = absurd (cc)
  is_true-true (obj f) h = absurd (cc)

  filled : (o : Option String) → truthy_column o ≡ true → (s : String) × (o ≡ some s) × (s ≢ "")
  filled none h = absurd (cc)
  filled (some s) h = (s, refl, λ e. absurd (cc (rw e at h)))

  -- A request that does anything but raise an error and leave the world as it is, the store and the calls of
  -- Bitcoin Core with it, is made where the configuration allows to broadcast, under a key and with a claim
  -- token that are not empty, and its body says `true` for `confirmBroadcast`: no text, no number, only the
  -- literal.
  pub only_confirmed_acts :
      (w : World Node)
      → ((e : Error) → create w ≢ (err e, w))
      → (config.allow_broadcast ≡ true)
        × ((k : String) × (key ≡ some k) × (k ≢ ""))
        × ((t : String) × (token ≡ some t) × (t ≢ ""))
        × (get_or_null "confirmBroadcast" body ≡ bool true)
  unfolding create_sign_and_send
  only_confirmed_acts w acts = elim (Bool-cases config.allow_broadcast) [
    | inr off ↦ absurd (acts broadcast_disabled (rw off))
    | inl on ↦ elim (Bool-cases (not (truthy_column key) || not (truthy_column token))) [
      | inl missing ↦ absurd (acts idempotency_required (rw (on, missing)))
      | inr given ↦ elim (Bool-cases (is_true (get_or_null "confirmBroadcast" body))) [
        | inr unconfirmed ↦ absurd (acts confirmation_required (rw (on, given, unconfirmed)))
        | inl confirmed ↦ (
          on,
          filled key (ground arith),
          filled token (ground arith),
          is_true-true (get_or_null "confirmBroadcast" body) confirmed,
        )
      ]
    ]
  ]

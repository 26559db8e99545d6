-- ===== src/Bitcoin/Service/Submitting.antt =====
-- What the steps of `create_sign_and_send` from the prepared transaction on keep, and what they reach.
use rails.Prelude.{
  ℕ, String, string_eq, ◌≡◌, refl, true, false, not, ◌==◌, Bool, Option, none, some, inl, inr,
  eq_iff, arith, Bool-cases, Option-cases,
}
use rails.Prelude.Int.{pos}
use rails.Json.{Json, Items, Fields, is_truthy}
use rails.Effect.{Result, ok, err, raise, lift, attempt, ◌>>◌}
use rails.Effect.Triple.{
  Triple, bind_rule, attempt_rule, pure_rule, raise_rule, lift_rule, lift_rule_in, if_rule,
  weaken_rule, relax_rule,
}
use rails.Bitcoin.Errors.{Error, RpcError, api, rpc, crash, rpc_text}
use rails.Bitcoin.Store.Rows.{State, IdempotencyRecord, Db, Settings, PreparedBroadcast, find_key}
use rails.Bitcoin.Store.Claim.{heartbeat_claim}
use rails.Bitcoin.Store.Settle.{
  may_send, sent, mark_broadcast, mark_prepared_failed, mark_unknown, set_status,
}
use rails.Bitcoin.Store.Owner.{HasKeys, update_claimed_lem, find_key-after_update}
use rails.Bitcoin.Validation.Text.{validate_txid}
use rails.Bitcoin.Service.World.{Host, World, get, call, stored}
use rails.Bitcoin.Service.Submit.{
  broadcast_result, answered, transaction_known, wallet_knows, require_claim_heartbeat, settle,
  reject, doubt, returned_txid, send, confirm, unknown_transaction, broadcast, first_of,
  mempool_rejected, txid_mismatch,
}
use rails.Bitcoin.Service.Sent.{
  IsKept, Keeps, Holds, stored_rule, stored_rule-Holds, stored_rule-Holds_with, call_rule-Holds,
  send_rule,
}
use rails.Bitcoin.Service.Saving.{
  heartbeat-IsHistory, broadcast-IsHistory, unknown-IsHistory, failed-IsHistory,
}
use rails.Bitcoin.Service.Preparing.{unlock_psbt_inputs-Keeping}

-- The row of a key says that its transaction was broadcast, under this txid.
pub record IsBroadcast (key txid : String) (db : Db) : Type 0 where
  pub row : IdempotencyRecord
  pub found : find_key key db ≡ some row
  pub state : row.state ≡ State.broadcast
  pub payment_hash : row.payment_hash ≡ some txid

mark_broadcast-IsBroadcast :
    (c : Settings) (now : ℕ) (key token txid : String) (db : Db)
    → HasKeys db
    → (mark_broadcast c now key token txid db).0 ≡ ok tt
    → IsBroadcast key txid (mark_broadcast c now key token txid db).1
unfolding mark_broadcast set_status
mark_broadcast-IsBroadcast c now key token txid db u =
    rw (update_claimed_lem key (may_send token txid) (sent c now txid) db u)
      (elim (Option-cases (find_key key db)) [
        | inl missing ↦ rw missing (λ done. absurd (cc))
        | inr (r, found) ↦ elim (Bool-cases (may_send token txid r)) [
          | inr miss ↦ rw (found, miss) (λ done. absurd (cc))
          | inl hit ↦
              rw (found, hit)
                (λ done. record {
                  row = sent c now txid r;
                  found =
                      rw
                        (
                          find_key-after_update key (may_send token txid) (sent c now txid) db
                              (λ x. refl) key,
                          found,
                          hit,
                        )
                        (ground (arith, eq_iff key key));
                  state = refl;
                  payment_hash = refl;
                })
        ]
      ])

-- What a request has reached that returns: the key is BROADCAST under the txid of the result, and the
-- transaction with that txid is kept.
pub record IsSettled {Node : Type 0} (of_hash key : String) (result : Fields) (w : World Node)
    : Type 0 where
  pub keeps : Keeps of_hash w
  pub prepared : PreparedBroadcast
  pub shown : result ≡ broadcast_result prepared
  pub kept : IsKept of_hash prepared.raw_tx prepared.expected_txid w.db
  pub done : IsBroadcast key prepared.expected_txid w.db

module _ {Node : Type 0} (h : Host Node) (request_hash key token : String)
    (p : PreparedBroadcast) where
  abbrev K : World Node → Type 0
  K = Keeps request_hash

  abbrev H : World Node → Type 0
  H = Holds request_hash p.raw_tx p.expected_txid

  abbrev Settled : Fields → World Node → Type 0
  Settled = IsSettled request_hash key

  try-H :
      (method : String) (params : Items) (wallet : Option String)
      → method == "sendrawtransaction" ≡ false
      → Triple K H (attempt (call h method params wallet)) (λ _. H)
  try-H method params wallet other =
      attempt_rule
        (call_rule-Holds h request_hash p.raw_tx p.expected_txid method params wallet other)

  call-H :
      (method : String) (params : Items) (wallet : Option String)
      → method == "sendrawtransaction" ≡ false
      → Triple K H (call h method params wallet) (λ _. H)
  call-H method params wallet other =
      relax_rule
        (call_rule-Holds h request_hash p.raw_tx p.expected_txid method params wallet other)
        (λ s k. k.keeps)

  lift-H : {A : Type 0} (r : Result Error A) → Triple K H (lift r) (λ _. H)
  lift-H r = lift_rule_in r (λ s k. k.keeps)

  wallet_knows-H :
      (known : Bool) → Triple K H (wallet_knows h p.wallet p.expected_txid known) (λ _. H)
  unfolding wallet_knows
  wallet_knows-H true = pure_rule _ true (λ s k. k)
  wallet_knows-H false = bind_rule (try-H "gettransaction" _ _ refl) (λ r. lift-H (answered r))

  known-H : Triple K H (transaction_known h p.wallet p.expected_txid) (λ _. H)
  unfolding transaction_known
  known-H =
      bind_rule (try-H "getmempoolentry" _ none refl)
        (λ r. bind_rule (lift-H (answered r)) (λ pooled. wallet_knows-H pooled))

  heartbeat-H : Triple K H (require_claim_heartbeat h key token) (λ _. H)
  unfolding require_claim_heartbeat
  heartbeat-H =
      bind_rule
        (stored_rule-Holds h request_hash (λ now. heartbeat_claim h.settings now key token) p.raw_tx
          p.expected_txid (heartbeat-IsHistory h.settings key token))
        (λ held.
          if_rule held _ _ (λ e. pure_rule _ tt (λ s k. k)) (λ e. raise_rule _ _ (λ s k. k.keeps)))

  settle-Settled :
      (txid : String) → txid ≡ p.expected_txid → Triple K H (settle h key token p txid) Settled
  unfolding settle
  settle-Settled txid same =
      bind_rule
        (stored_rule-Holds_with h request_hash (λ now. mark_broadcast h.settings now key token txid)
          p.raw_tx p.expected_txid (λ _ db. IsBroadcast key txid db)
          (broadcast-IsHistory h.settings key token txid)
          (λ now db wf u done.
            mark_broadcast-IsBroadcast h.settings now key token txid db wf.keys done))
        (λ u. pure_rule _ (broadcast_result p) (λ s k. record {
          keeps = k.0.keeps;
          prepared = p;
          shown = refl;
          kept = k.0.kept;
          done = rw same at (k.1);
        }))

  reject-Settled :
      (first : Json) (known : Bool) → Triple K H (reject h key token p first known) Settled
  unfolding reject
  reject-Settled first true = settle-Settled p.expected_txid refl
  reject-Settled first false =
      weaken_rule
        (bind_rule
          (stored_rule h request_hash
            (λ now.
              mark_prepared_failed now key token (pos 409) "MEMPOOL_REJECTED"
                "Bitcoin Core rejected the prepared transaction.")
            (failed-IsHistory h.settings key token (pos 409) "MEMPOOL_REJECTED"
              "Bitcoin Core rejected the prepared transaction."))
          (λ u. bind_rule (unlock_psbt_inputs-Keeping h request_hash p.wallet p.psbt) (λ v.
            bind_rule (lift_rule (get "reject-reason" first))
              (λ reason. raise_rule _ (mempool_rejected reason) (λ s k. k)))))
        (λ s k. k.keeps)

  -- A broadcast that is in doubt is left to the next worker.
  unknown-H :
      {A : Type 0} (error : String) (e : Error) (Q : A → World Node → Type 0)
      → Triple K H
          (do
            stored h (λ now. mark_unknown h.settings now key token p.expected_txid error)
            raise e)
          Q
  unknown-H error e Q =
      bind_rule
        (stored_rule-Holds h request_hash
          (λ now. mark_unknown h.settings now key token p.expected_txid error) p.raw_tx
          p.expected_txid (unknown-IsHistory h.settings key token p.expected_txid error))
        (λ u. raise_rule Q e (λ s k. k.keeps))

  doubt-H : (e : RpcError) (known : Bool) → Triple K H (doubt h key token p e known) (λ _. H)
  unfolding doubt
  doubt-H e true = pure_rule _ p.expected_txid (λ s k. k)
  doubt-H e false = unknown-H (rpc_text e) _ (λ _. H)

  returned-H : (r : Result Error String) → Triple K H (returned_txid h key token p r) (λ _. H)
  unfolding returned_txid
  returned-H (ok txid) = pure_rule _ txid (λ s k. k)
  returned-H (err (rpc e)) = bind_rule known-H (λ known. doubt-H e known)
  returned-H (err (api e)) = raise_rule _ (api e) (λ s k. k.keeps)
  returned-H (err (crash e)) = raise_rule _ (crash e) (λ s k. k.keeps)

  send-H : Triple K H (send h key token p) (λ _. H)
  unfolding send
  send-H =
      bind_rule
        (attempt_rule (
          bind_rule (send_rule h request_hash p.raw_tx p.expected_txid)
            (λ j. lift_rule (validate_txid j))))
        returned-H

  confirm-Settled : (txid : String) → Triple K H (confirm h key token p txid) Settled
  unfolding confirm
  confirm-Settled txid =
      if_rule (not (txid == p.expected_txid)) _ _
        (λ e. unknown-H "Bitcoin Core returned a different txid" txid_mismatch Settled)
        (λ e. settle-Settled txid (ground (arith, eq_iff txid p.expected_txid)))

  unknown_transaction-Settled : Triple K H (unknown_transaction h key token p) Settled
  unfolding unknown_transaction
  unknown_transaction-Settled = bind_rule (call-H "testmempoolaccept" _ none refl) (λ mempool.
      bind_rule (lift-H (first_of mempool)) (λ first.
        bind_rule (lift-H (get "allowed" first)) (λ allowed.
          if_rule (not (is_truthy allowed)) _ _
            (λ e. bind_rule known-H (λ known. reject-Settled first known))
            (λ e. bind_rule send-H confirm-Settled))))

  -- From a kept transaction on, whatever is sent is kept, and a result comes of a settled key only.
  pub broadcast-Settled : Triple K H (broadcast h key token p) Settled
  unfolding broadcast
  broadcast-Settled = bind_rule heartbeat-H (λ u. bind_rule known-H (λ known.
      if_rule known _ _ (λ e. settle-Settled p.expected_txid refl)
        (λ e. unknown_transaction-Settled)))

-- ===== src/Bitcoin/Service/Only.antt =====
-- Which calls of Bitcoin Core a request makes: rules for a predicate on every one of them.
use rails.Prelude.{ℕ, String, Option, List, [], ◌∷◌}
use rails.Json.{Items}
use rails.Effect.{Result, ok, err}
use rails.Effect.Triple.{Outcome, Triple}
use rails.Bitcoin.Errors.{Error}
use rails.Bitcoin.Store.Rows.{Db, Store}
use rails.Bitcoin.Service.World.{Host, World, RpcCall, call, stored}

abbrev pub AllCalls : (RpcCall → Type 0) → List RpcCall → Type 0
AllCalls P [] = Unit
AllCalls P (x ∷ calls) = P x × AllCalls P calls

module _ {Node : Type 0} (h : Host Node) (P : RpcCall → Type 0) where
  pub record Only (w : World Node) : Type 0 where
    pub calls : AllCalls P w.calls

  both :
      {A : Type 0} (F : World Node → Type 0) (o : Result Error A × World Node)
      → F o.1
      → Outcome F (λ _. F) o
  both F (ok a, w) k = k
  both F (err e, w) k = k

  pub stored-Only : {A : Type 0} (m : ℕ → Store A) → Triple Only Only (stored h m) (λ _. Only)
  unfolding stored
  stored-Only m = record { at = λ w k. both Only (stored h m w) (record { calls = k.calls }) }

  pub call-Only :
      (method : String) (params : Items) (wallet : Option String)
      → ((db : Db) → P (record { method = method; params = params; wallet = wallet; seen = db }))
      → Triple Only Only (call h method params wallet) (λ _. Only)
  unfolding call
  call-Only method params wallet fits = record {
    at = λ w k. both Only (call h method params wallet w) (record { calls = (fits w.db, k.calls) });
  }

-- ===== src/Bitcoin/Store/Invariant/Keeps.antt =====
-- Every call, and so every history, keeps the database well formed.
use rails.Prelude.{ℕ, String, string_eq, nat_eq, refl, List, [], ◌∷◌}
use rails.Table.{select}
use rails.Bitcoin.Store.Rows.{Db, Settings, find_key}
use rails.Bitcoin.Store.Calls.{Call, step, run}
use rails.Bitcoin.Store.Keys.{step-HasKeys}
use rails.Bitcoin.Store.Machine.Refines.{label, step-Moves}
use rails.Bitcoin.Store.Ledger.{step-Writes}
use rails.Bitcoin.Store.Invariant.{Sound, Backed, IsWellFormed, empty_db}
use rails.Bitcoin.Store.Invariant.Sound.{Moves-Sound}
use rails.Bitcoin.Store.Invariant.Backed.{Writes-fresh, Moves-Backed}

module _ (c : Settings) (now : ℕ) (call : Call) (db : Db) (wf : IsWellFormed db) (j : String) where
  step-Sound : Sound (find_key j (step c now call db))
  step-Sound =
      Moves-Sound c now (label db call) (find_key j db) (find_key j (step c now call db))
        (wf.sound j) (step-Moves c now j call db wf.keys)

  step-Backed : Backed (step c now call db) (find_key j (step c now call db))
  step-Backed =
      Moves-Backed c now call db wf j (find_key j db) (find_key j (step c now call db)) refl refl
        (step-Moves c now j call db wf.keys)

-- Every call keeps the database well formed.
pub step-IsWellFormed :
    (c : Settings) (now : ℕ) (call : Call) (db : Db)
    → IsWellFormed db
    → IsWellFormed (step c now call db)
step-IsWellFormed c now call db wf = record {
  keys = step-HasKeys c now call db wf.keys;
  fresh = Writes-fresh db _ _ wf.fresh (step-Writes c now db wf.keys call);
  sound = step-Sound c now call db wf;
  backed = step-Backed c now call db wf;
}

pub empty_db-IsWellFormed : IsWellFormed empty_db
unfolding select
empty_db-IsWellFormed = record {
  keys = tt;
  fresh = λ i h. refl;
  sound = λ key. tt;
  backed = λ key. tt;
}

pub run-IsWellFormed :
    (c : Settings) (calls : List (ℕ × Call)) (db : Db)
    → IsWellFormed db
    → IsWellFormed (run c calls db)
unfolding run
run-IsWellFormed c [] db wf = wf
run-IsWellFormed c ((now, call) ∷ calls) db wf =
    run-IsWellFormed c calls (step c now call db) (step-IsWellFormed c now call db wf)

-- In every history of a new database the database is well formed: the keys are distinct, every row is
-- sound for its state, and the transaction that a row names is stored, under the row's request hash
-- and txid.
pub history-IsWellFormed :
    (c : Settings) (calls : List (ℕ × Call)) → IsWellFormed (run c calls empty_db)
history-IsWellFormed c calls = run-IsWellFormed c calls empty_db empty_db-IsWellFormed

-- ===== src/Bitcoin/Store/Invariant/Sound.antt =====
-- Every move of the state machine keeps a row sound.
use rails.Prelude.{ℕ, string_eq, nat_eq, ◌≡◌, refl, false, Option, arith}
use rails.Bitcoin.Store.Rows.{is_final, IdempotencyRecord, Settings}
use rails.Bitcoin.Store.Machine.{
  Label, Moves, stays, begins, takes, beats, prepares, sends, doubts, responds, fails, rejects,
  vanishes,
}
use rails.Bitcoin.Store.Invariant.{IsSound, Sound}

pub Moves-Sound :
    (c : Settings) (now : ℕ) (who : Label) (o o' : Option IdempotencyRecord)
    → Sound o
    → Moves c now who o o'
    → Sound o'
Moves-Sound c now who o o' s (stays e) = rw e s
Moves-Sound c now who o o' s (begins t _ _ _ mine vacant e) = rw e (record {
  released = λ h. cc;
  held = λ h. (refl, refl, refl, refl);
  unprepared = λ h. (refl, refl);
  prepared = λ h. cc;
})
Moves-Sound c now who o o' s (vanishes vacant e) = rw e tt
Moves-Sound c now who o o' s (takes t x mine e vacant open_row free e') =
    let v : IsSound x = rw e at s in
    rw e' (record {
      released = λ h. absurd (cc (h, open_row));
      held = λ h. (refl, refl, (v.held h).2, (v.held h).3);
      unprepared = v.unprepared;
      prepared = v.prepared;
    })
Moves-Sound c now who o o' s (beats _ x _ e held open_row e') =
    let v : IsSound x = rw e at s in
    rw e' (record {
      released = λ h. ground arith;
      held = λ h. ((v.held h).0, refl, (v.held h).2, (v.held h).3);
      unprepared = v.unprepared;
      prepared = v.prepared;
    })
Moves-Sound c now who o o' s (prepares _ _ _ x _ e held state fresh e') =
    let v : IsSound x = rw e at s in
    let open_row : is_final x.state ≡ false = rw state in
    rw e' (record {
      released = λ h. cc;
      held = λ h. ((v.held open_row).0, refl, (v.held open_row).2, (v.held open_row).3);
      unprepared = λ h. absurd (cc);
      prepared = λ h. (refl, refl);
    })
Moves-Sound c now who o o' s (sends _ txid x _ e held hash state e') =
    let v : IsSound x = rw e at s in
    let open_row : is_final x.state ≡ false = ground arith in
    rw e' (record {
      released = λ h. cc;
      held = λ h. ((v.held open_row).0, refl, (v.held open_row).2, (v.held open_row).3);
      unprepared = λ h. absurd (cc);
      prepared = λ h. ((v.prepared state).0, refl);
    })
Moves-Sound c now who o o' s (doubts _ txid _ x _ e held hash state e') =
    let v : IsSound x = rw e at s in
    let open_row : is_final x.state ≡ false = ground arith in
    rw e' (record {
      released = λ h. cc;
      held = λ h. ((v.held open_row).0, refl, (v.held open_row).2, (v.held open_row).3);
      unprepared = λ h. absurd (cc);
      prepared = λ h. ((v.prepared state).0, refl);
    })
Moves-Sound c now who o o' s (responds _ _ _ x _ e held state e') = rw e' (record {
  released = λ h. (refl, refl, refl);
  held = λ h. absurd (cc);
  unprepared = λ h. absurd (cc);
  prepared = λ h. absurd (cc);
})
Moves-Sound c now who o o' s (fails _ _ _ _ x _ e held state e') = rw e' (record {
  released = λ h. (refl, refl, refl);
  held = λ h. absurd (cc);
  unprepared = λ h. absurd (cc);
  prepared = λ h. absurd (cc);
})
Moves-Sound c now who o o' s (rejects _ _ _ _ x _ e held state e') = rw e' (record {
  released = λ h. (refl, refl, refl);
  held = λ h. absurd (cc);
  unprepared = λ h. absurd (cc);
  prepared = λ h. absurd (cc);
})

-- ===== src/Storage/Db/Effects.antt =====
-- What a statement without a result leaves in the database.
use binance_oi_square_trader.Prelude.{
  some, ◌+◌, if-elim, Option, refl, ◌≡◌, ap, ◌∙◌, ◌⊎◌, inl, inr, true, false, arith,
}
use binance_oi_square_trader.Storage.Db.{select, Db, Session, exec, query}

module _ {D : Type 0} where
  pub exec-db :
      (f : Db D → Db D) (s : Session D)
      → (((exec f s).0 ≡ false) × ((exec f s).1.db ≡ s.db))
        ⊎ (((exec f s).0 ≡ true) × ((exec f s).1.db ≡ f s.db))
  unfolding exec
  exec-db f s = ground arith

  -- A statement that leaves a part of the database alone, whether it fails or not.
  pub exec-keeps :
      {A : Type 0} (part : Db D → A) (f : Db D → Db D) (s : Session D)
      → ((db : Db D) → part (f db) ≡ part db)
      → part (exec f s).1.db ≡ part s.db
  exec-keeps part f s keeps = elim (exec-db f s) [
    | inl (failed, same) ↦ ap part same
    | inr (done, wrote) ↦ ap part wrote ∙ keeps s.db
  ]

  pub query-keeps :
      {A B : Type 0} (part : Db D → B) (f : Db D → Option A × Db D) (s : Session D)
      → part (f s.db).1 ≡ part s.db
      → part (query f s).1.db ≡ part s.db
  unfolding query
  query-keeps {A = A} part f s keeps =
      if-elim (λ (r : Option A × Session D). part r.1.db ≡ part s.db) (s.faults s.clock) _ _ refl
        keeps

  pub select-db : {A : Type 0} (f : Db D → A) (s : Session D) → (select f s).1.db ≡ s.db
  unfolding select
  select-db f s = ground arith

  pub exec-faults : (f : Db D → Db D) (s : Session D) → (exec f s).1.faults ≡ s.faults
  unfolding exec
  exec-faults f s = ground arith

  pub exec-done :
      (f : Db D → Db D) (s : Session D)
      → s.faults s.clock ≡ false
      → ((exec f s).0 ≡ true) × ((exec f s).1.db ≡ f s.db)
  unfolding exec
  exec-done f s h = ground arith

  pub select-done :
      {A : Type 0} (f : Db D → A) (s : Session D)
      → s.faults s.clock ≡ false
      → select f s ≡ (some (f s.db), record s { clock = s.clock + 1 })
  unfolding select query
  select-done f s h = rw h refl

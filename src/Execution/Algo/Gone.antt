-- ===== src/Execution/Algo/Gone.antt =====
-- Algos that the exchange no longer knows.
use mathlib.Core.Option.{some-injective}
use binance_oi_square_trader.Prelude.{
  ℕ, ◌+◌, ◌≡◌, refl, ap, ◌∙◌, ◌⊎◌, inl, inr, true, false, some, List, arith, Bool-cases,
  Option-cases,
}
use binance_oi_square_trader.Decimal.{Decimal}
use binance_oi_square_trader.Binance.Errors.{Failure}
use binance_oi_square_trader.Binance.Retry.{Outcome, ok, err}
use binance_oi_square_trader.Storage.Trades.{algo}
use binance_oi_square_trader.Storage.Db.{Session, outside}
use binance_oi_square_trader.Execution.Algo.{
  AlgoQuery, AlgoWorld, algo_status_gone, is_order_not_found_err, is_listed, is_pollable, polled,
  is_algo_still_open, confirm_gone, query_algo,
}

pub Outcome-cases :
    {B : Type 0} (o : Outcome B) → ((b : B) × (o ≡ ok b)) ⊎ ((f : Failure) × (o ≡ err f))
Outcome-cases (ok b) = inl (b, refl)
Outcome-cases (err f) = inr (f, refl)

module _ {D : Type 0} ⦃d : Decimal D⦄ (world : AlgoWorld D) (id : ℕ) where
  -- The exchange said that the order does not exist, and then listed the open ones without it.
  abbrev pub Confirmed : ℕ → Type 0
  Confirmed n =
      (f : Failure) × (ids : List ℕ) × (world.query_algo_order n id ≡ err f)
      × (is_order_not_found_err f ≡ true)
      × (world.list_open_algo_orders (n + 1) ≡ some ids)
      × (is_listed ids id ≡ false)

  polled-not_gone : (q p : AlgoQuery D) → polled q ≡ some p → p.algo_status ≡ algo_status_gone → ⊥
  unfolding polled is_pollable
  polled-not_gone q p found at = elim (Bool-cases (is_pollable q.algo_status)) [
    | inl e ↦
        let same : q ≡ p = some-injective _ _ (rw e at found) in
        let status : q.algo_status ≡ algo_status_gone =
          ap (λ (r : AlgoQuery D). r.algo_status) same ∙ at in
        absurd (ground (arith, (rw status at e)))
    | inr e ↦ absurd (ground (arith, (rw e at found)))
  ]

  -- An algo is taken for gone only if the exchange answers the query about it with -2011 or -2013
  -- and right after lists the open algos without it.
  pub query_algo-Confirmed :
      (s : Session D) (q : AlgoQuery D)
      → (query_algo world (algo id) s).0 ≡ some q
      → q.algo_status ≡ algo_status_gone
      → Confirmed s.clock
  unfolding query_algo outside confirm_gone is_algo_still_open
  query_algo-Confirmed s q found at =
      let n = s.clock + 1 in
      elim (Outcome-cases (world.query_algo_order s.clock id)) [
        | inl (p, e) ↦ absurd (polled-not_gone p q (rw e at found) at)
        | inr (f, e) ↦ elim (Bool-cases (is_order_not_found_err f)) [
          | inr known ↦ absurd (ground (arith, (rw (e, known) at found)))
          | inl missing ↦ elim (Option-cases (world.list_open_algo_orders n)) [
            | inl failed ↦ absurd (ground (arith, (rw (e, missing, failed) at found)))
            | inr (ids, listed) ↦ elim (Bool-cases (is_listed ids id)) [
              | inl there ↦ absurd (ground (arith, (rw (e, missing, listed, there) at found)))
              | inr absent ↦ (f, ids, e, missing, listed, absent)
            ]
          ]
        ]
      ]

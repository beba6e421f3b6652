-- ===== src/Storage/Breaker/Losses.antt =====
-- The daily result and the losing streak over a sequence of closes.
use binance_oi_square_trader.Prelude.{
  ℕ, suc, ◌+◌, ◌≡◌, ap, ◌∙◌, ◌≢◌, inl, inr, true, false, Option, none, some, List, [], ◌∷◌, arith,
  Time, All, Option-cases,
}
use binance_oi_square_trader.Decimal.{Decimal, zero_dec}
use binance_oi_square_trader.Storage.Breaker.{
  BreakerState, Date, update_after_trade_close, update_daily_pnl_partial,
}

-- A position is closed for good, or a take-profit closes a part of it.
pub data Roll (D : Type 0) : Type 0 where
  terminal : D → Date → Time → Roll D
  partly : D → Date → Roll D

module _ {D : Type 0} ⦃d : Decimal D⦄ where
  unfoldable pub roll : Roll D → BreakerState D → Option (BreakerState D)
  roll (terminal pnl day now) s = update_after_trade_close pnl day now s
  roll (partly pnl day) s = some (update_daily_pnl_partial pnl day s)

  unfoldable pub roll_all : List (Roll D) → BreakerState D → Option (BreakerState D)
  roll_all [] s = some s
  roll_all (r ∷ rs) s = elim (roll r s) [ none ↦ none | some s' ↦ roll_all rs s' ]

  -- how many of the rolls are terminal
  unfoldable pub terminals : List (Roll D) → ℕ
  terminals [] = 0
  terminals (terminal _ _ _ ∷ rs) = suc (terminals rs)
  terminals (partly _ _ ∷ rs) = terminals rs

  -- a terminal roll that is a loss, or any partial one
  abbrev pub LosesIfTerminal : Roll D → Type 0
  LosesIfTerminal (terminal pnl day now) = d.less_than pnl zero_dec ≡ true
  LosesIfTerminal (partly pnl day) = Unit

  abbrev pub pnl_of : Roll D → D
  pnl_of (terminal pnl day now) = pnl
  pnl_of (partly pnl day) = pnl

  abbrev pub OnDay : Date → Roll D → Type 0
  OnDay day (terminal _ day' _) = day' ≡ day
  OnDay day (partly _ day') = day' ≡ day

  abbrev pub total : D → List (Roll D) → D
  total sum [] = sum
  total sum (r ∷ rs) = total (d.add sum (pnl_of r)) rs

  roll_all-cons :
      (r : Roll D) (rs : List (Roll D)) (s s' : BreakerState D)
      → roll_all (r ∷ rs) s ≡ some s'
      → (t : BreakerState D) × (roll r s ≡ some t) × (roll_all rs t ≡ some s')
  unfolding roll_all
  roll_all-cons r rs s s' h = elim (Option-cases (roll r s)) [
    | inl e ↦ absurd (ground arith)
    | inr (t, e) ↦ (t, e, ground arith)
  ]

  roll-streak :
      (r : Roll D) (s t : BreakerState D)
      → LosesIfTerminal r
      → roll r s ≡ some t
      → t.consecutive_losses ≡ s.consecutive_losses + terminals (r ∷ [])
  unfolding roll terminals update_after_trade_close update_daily_pnl_partial
  roll-streak (terminal pnl day now) s t l e = ground arith
  roll-streak (partly pnl day) s t l e = ground arith

  terminals-cons :
      (r : Roll D) (rs : List (Roll D)) → terminals (r ∷ rs) ≡ terminals (r ∷ []) + terminals rs
  unfolding terminals
  terminals-cons (terminal pnl day now) rs = omega arith
  terminals-cons (partly pnl day) rs = omega arith

  roll_all-streak :
      (rs : List (Roll D)) (s s' : BreakerState D)
      → All LosesIfTerminal rs
      → roll_all rs s ≡ some s'
      → s'.consecutive_losses ≡ s.consecutive_losses + terminals rs
  unfolding roll_all terminals
  roll_all-streak [] s s' a h = ground arith
  roll_all-streak (r ∷ rs) s s' (l, a) h =
      let (t, e, h') = roll_all-cons r rs s s' h in
      omega (arith, roll_all-streak rs t s' a h', roll-streak r s t l e, terminals-cons r rs)

  -- After a close that is no loss, and then any closes that are losses with any take-profits among
  -- them, the counter is the number of those closes: a take-profit neither counts nor resets it.
  pub roll_all-losing_streak :
      (pnl : D) (day : Date) (now : Time) (rs : List (Roll D)) (s s' : BreakerState D)
      → d.less_than pnl zero_dec ≡ false
      → All LosesIfTerminal rs
      → roll_all (terminal pnl day now ∷ rs) s ≡ some s'
      → s'.consecutive_losses ≡ terminals rs
  unfolding roll update_after_trade_close
  roll_all-losing_streak pnl day now rs s s' win a h =
      let (t, e, h') = roll_all-cons (terminal pnl day now) rs s s' h in
      let z : t.consecutive_losses ≡ 0 = ground arith in omega (arith, roll_all-streak rs t s' a h')

  roll-total :
      (r : Roll D) (day : Date) (s t : BreakerState D)
      → OnDay day r
      → s.daily_pnl_date ≡ some day
      → roll r s ≡ some t
      → (t.daily_pnl_date ≡ some day) × (t.daily_pnl ≡ d.add s.daily_pnl (pnl_of r))
  unfolding roll update_after_trade_close update_daily_pnl_partial
  roll-total (terminal pnl day' now) day s t o e p = ground arith
  roll-total (partly pnl day') day s t o e p = ground arith

  roll_all-total :
      (rs : List (Roll D)) (day : Date) (s s' : BreakerState D)
      → All (OnDay day) rs
      → s.daily_pnl_date ≡ some day
      → roll_all rs s ≡ some s'
      → s'.daily_pnl ≡ total s.daily_pnl rs
  unfolding roll_all
  roll_all-total [] day s s' a e h = ground arith
  roll_all-total (r ∷ rs) day s s' (o, a) e h =
      let (t, p, h') = roll_all-cons r rs s s' h in
      let (e', sum) = roll-total r day s t o e p in
      roll_all-total rs day t s' a e' h' ∙ ap (λ x. total x rs) sum

  roll-fresh :
      (r : Roll D) (day : Date) (s t : BreakerState D)
      → OnDay day r
      → s.daily_pnl_date ≢ some day
      → roll r s ≡ some t
      → (t.daily_pnl_date ≡ some day) × (t.daily_pnl ≡ pnl_of r)
  unfolding roll update_after_trade_close update_daily_pnl_partial
  roll-fresh (terminal pnl day' now) day s t o e p = ground arith
  roll-fresh (partly pnl day') day s t o e p = ground arith

  -- The first close or take-profit of a day starts the daily result afresh, and after the others of
  -- that day it is the sum of all of them, in their order.
  pub roll_all-daily_pnl :
      (r : Roll D) (rs : List (Roll D)) (day : Date) (s s' : BreakerState D)
      → s.daily_pnl_date ≢ some day
      → All (OnDay day) (r ∷ rs)
      → roll_all (r ∷ rs) s ≡ some s'
      → s'.daily_pnl ≡ total (pnl_of r) rs
  roll_all-daily_pnl r rs day s s' fresh (o, a) h =
      let (t, p, h') = roll_all-cons r rs s s' h in
      let (e', sum) = roll-fresh r day s t o fresh p in
      roll_all-total rs day t s' a e' h' ∙ ap (λ x. total x rs) sum

-- ===== src/Execution/OrphanAlgo.antt =====
-- internal/execution/orphan_algo_cleaner.go: algos that close a position which is no longer there.
-- The row that each cancel writes to admin_audit_log is left out.
use mathlib.Core.List.{Memᴰ}
use mathlib.Core.List.Memᴰ
use binance_oi_square_trader.Prelude.{
  if-elim_eq, if-elim, ℕ, ◌+◌, String, ◌≡◌, ◌↔◌, refl, eq_iff, arith, sym, ap, ◌∙◌, ◌⊎◌, inl, inr,
  Bool, true, false, not, ◌&&◌, ◌||◌, Option, none, some, List, [], ◌∷◌, str_eq, All, if◌then◌else◌,
  Bool-cases,
}
use binance_oi_square_trader.Decimal.{Decimal}
use binance_oi_square_trader.Execution.Entry.{PositionRisk}

pub record AlgoOpenOrder : Type 0 where
  pub algo_id : ℕ
  pub symbol : String
  pub side : String
  pub status : String
  pub reduce_only : Bool
  pub close_position : Bool

All-map {ℓ κ ι} :
    {A : Type ℓ} {P : A → Type κ} {Q : A → Type ι} (f : (a : A) → P a → Q a) (xs : List A)
    → All P xs
    → All Q xs
All-map f [] all = tt
All-map f (x ∷ xs) (p, all) = (f x p, All-map f xs all)

pub record CleanerWorld (D : Type 0) : Type 0 where
  pub list_open_algo_orders : ℕ → Option (List AlgoOpenOrder)
  pub get_position_risk : ℕ → Option (List (PositionRisk D))

-- The cancels that were asked for, the newest first, on a clock of calls.
pub record Cleaner : Type 0 where
  pub clock : ℕ
  pub asked : List AlgoOpenOrder

-- The answer only decides what is logged.
unfoldable pub cancel_orphan : AlgoOpenOrder → Cleaner → Cleaner
cancel_orphan a c = record { clock = c.clock + 1; asked = a ∷ c.asked }

module _ {D : Type 0} ⦃d : Decimal D⦄ where
  unfoldable pub has_pos : List (PositionRisk D) → String → Bool
  has_pos [] symbol = false
  has_pos (p ∷ ps) symbol =
      (not (d.is_zero p.position_amt) && str_eq p.symbol symbol) || has_pos ps symbol

  unfoldable pub is_orphan : List (PositionRisk D) → AlgoOpenOrder → Bool
  is_orphan ps a =
      if not (str_eq a.status "NEW") && not (str_eq a.status "WORKING")
      then false
      else if not (str_eq a.side "SELL")
      then false
      else if not a.reduce_only && not a.close_position
      then false
      else not (has_pos ps a.symbol)

  unfoldable pub cancel_orphans : List (PositionRisk D) → List AlgoOpenOrder → Cleaner → Cleaner
  cancel_orphans ps [] c = c
  cancel_orphans ps (a ∷ algos) c =
      cancel_orphans ps algos (if is_orphan ps a then cancel_orphan a c else c)

  module _ (world : CleanerWorld D) where
    clean : List AlgoOpenOrder → Option (List (PositionRisk D)) → Cleaner → Cleaner
    clean algos none c = c
    clean algos (some ps) c = cancel_orphans ps algos c

    clean_listed : Option (List AlgoOpenOrder) → Cleaner → Cleaner
    clean_listed none c = c
    clean_listed (some algos) c =
        clean algos (world.get_position_risk c.clock) (record c { clock = c.clock + 1 })

    unfoldable pub clean_tick : Cleaner → Cleaner
    unfolding clean_listed clean
    clean_tick c =
        clean_listed (world.list_open_algo_orders c.clock) (record c { clock = c.clock + 1 })

  cancel_orphans_sound :
      (ps : List (PositionRisk D)) (algos : List AlgoOpenOrder) (c : Cleaner)
      → All (λ a. is_orphan ps a ≡ true) c.asked
      → All (λ a. is_orphan ps a ≡ true) (cancel_orphans ps algos c).asked
  unfolding cancel_orphans cancel_orphan
  cancel_orphans_sound ps [] c all = all
  cancel_orphans_sound ps (a ∷ algos) c all =
      cancel_orphans_sound ps algos (if is_orphan ps a then cancel_orphan a c else c) (
        if-elim_eq (λ (x : Cleaner). All (λ a. is_orphan ps a ≡ true) x.asked) (is_orphan ps a)
          (cancel_orphan a c) c (λ e. (e, all)) (λ _. all))

  cancel_orphans_keeps :
      (ps : List (PositionRisk D)) (algos : List AlgoOpenOrder) (c : Cleaner) (a : AlgoOpenOrder)
      → Memᴰ a c.asked
      → Memᴰ a (cancel_orphans ps algos c).asked
  unfolding cancel_orphans cancel_orphan
  cancel_orphans_keeps ps [] c a m = m
  cancel_orphans_keeps ps (b ∷ algos) c a m =
      cancel_orphans_keeps ps algos (if is_orphan ps b then cancel_orphan b c else c) a (
        if-elim (λ (x : Cleaner). Memᴰ a x.asked) (is_orphan ps b) (cancel_orphan b c) c
          (Memᴰ.tail m) m)

  cancel_orphans_complete :
      (ps : List (PositionRisk D)) (algos : List AlgoOpenOrder) (c : Cleaner) (a : AlgoOpenOrder)
      → Memᴰ a algos
      → is_orphan ps a ≡ true
      → Memᴰ a (cancel_orphans ps algos c).asked
  unfolding cancel_orphans cancel_orphan
  cancel_orphans_complete ps [] c a m orphan = absurd (Memᴰ.not-nil m)
  cancel_orphans_complete ps (b ∷ algos) c a m orphan = elim (Memᴰ.cases_cons m) [
    | inl e ↦
        let found : is_orphan ps b ≡ true = ap (is_orphan ps) (sym e) ∙ orphan in
        rw (found, cancel_orphans)
          (cancel_orphans_keeps ps algos (cancel_orphan b c) a (Memᴰ.head e))
    | inr later ↦ cancel_orphans_complete ps algos _ a later orphan
  ]

  -- An algo that can still fire, that sells, that only closes, and whose symbol has no position
  -- with an amount.
  pub record ClosesNothing (ps : List (PositionRisk D)) (a : AlgoOpenOrder) : Type 0 where
    pub live : (a.status ≡ "NEW") ⊎ (a.status ≡ "WORKING")
    pub sells : a.side ≡ "SELL"
    pub only_closes : (a.reduce_only ≡ true) ⊎ (a.close_position ≡ true)
    pub no_position : All (λ p. p.symbol ≡ a.symbol → d.is_zero p.position_amt ≡ true) ps

  has_pos-All :
      (ps : List (PositionRisk D)) (symbol : String)
      → (has_pos ps symbol ≡ false)
        ↔ All (λ p. p.symbol ≡ symbol → d.is_zero p.position_amt ≡ true) ps
  unfolding has_pos
  has_pos-All [] symbol = ((λ _. tt), (λ _. refl))
  has_pos-All (p ∷ ps) symbol =
      let (out, back) = has_pos-All ps symbol in
      (
        (λ h. ((λ same. ground (arith, eq_iff p.symbol symbol)), out (ground arith))),
        (λ (none_here, later).
            let clear : has_pos ps symbol ≡ false = back later in
            elim (Bool-cases (str_eq p.symbol symbol)) [
              | inl e ↦ ground (arith, none_here ((eq_iff p.symbol symbol).0 e))
              | inr e ↦ ground arith
            ]),
      )

  is_orphan-ClosesNothing :
      (ps : List (PositionRisk D)) (a : AlgoOpenOrder)
      → (is_orphan ps a ≡ true) ↔ ClosesNothing ps a
  unfolding is_orphan
  is_orphan-ClosesNothing ps a =
      let (out, back) = has_pos-All ps a.symbol in
      let new = eq_iff a.status "NEW" in
      let working = eq_iff a.status "WORKING" in
      let sell = eq_iff a.side "SELL" in
      (
        (λ h. record {
          live = ground (arith, new, working);
          sells = ground (arith, sell);
          only_closes = ground arith;
          no_position = out (ground arith);
        }),
        (λ c.
            ground (arith, new, working, sell, back c.no_position, c.live, c.sells, c.only_closes)),
      )

  -- A sweep over the listed algos asks for a cancel of every one that can still fire, sells, only
  -- closes and has no position of its symbol with an amount, and of no other one.
  pub cancel_orphans_exact :
      (ps : List (PositionRisk D)) (algos : List AlgoOpenOrder) (c : Cleaner)
      → c.asked ≡ []
      → All (ClosesNothing ps) (cancel_orphans ps algos c).asked
        × ((a : AlgoOpenOrder)
            → Memᴰ a algos
            → ClosesNothing ps a
            → Memᴰ a (cancel_orphans ps algos c).asked)
  cancel_orphans_exact ps algos c empty = (
    All-map (λ a. (is_orphan-ClosesNothing ps a).0) (cancel_orphans ps algos c).asked
        (cancel_orphans_sound ps algos c (rw empty tt)),
    (λ a m closes.
        cancel_orphans_complete ps algos c a m ((is_orphan-ClosesNothing ps a).1 closes)),
  )

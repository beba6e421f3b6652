-- ===== src/Market/Indicators/Bounds.antt =====
-- How many values each indicator needs.
use binance_oi_square_trader.Prelude.{
  ℕ, suc, ◌+◌, ◌-◌, ◌*◌, ◌≤◌, ◌<◌, ◌≡◌, ◌≢◌, refl, Option, none, some, List, [], ◌∷◌, map, arith,
  length, take, drop, window, length-drop, length-window, pos, ap,
}
use binance_oi_square_trader.Market.Float.{Float64}
use binance_oi_square_trader.Market.Indicators.{
  Move, sma, ema, rma, rsi, changes, gain, loss, moves, dx_series, dmi, highest, enough, mean_move,
  one, largest,
}

enough-some {ℓ κ} :
    {A : Type ℓ} {B : Type κ} (n least : ℕ) (vs : List A) (answer : Option B)
    → 0 < n
    → least ≤ length vs
    → answer ≢ none
    → enough (pos n) least vs answer ≢ none
enough-some n least vs answer h k e = ground arith

length-map {ℓ κ} :
    {A : Type ℓ} {B : Type κ} (g : A → B) (xs : List A) → length (map g xs) ≡ length xs
length-map g [] = refl
length-map g (x ∷ xs) = ap suc (length-map g xs)

filled-some :
    {A B : Type 0} (g : A → List A → B) (w : List A)
    → 0 < length w
    → (elim w [ [] ↦ none | v ∷ vs ↦ some (g v vs) ]) ≢ none
filled-some g [] h e = absurd (omega arith)
filled-some g (v ∷ vs) h e = ground arith

module _ {F : Type 0} ⦃f : Float64 F⦄ where
  pub sma-some : (vs : List F) (n : ℕ) → 0 < n → n ≤ length vs → sma vs (pos n) ≢ none
  unfolding sma
  sma-some vs n h k = enough-some n n vs _ h k (λ e. ground arith)

  pub ema-some : (vs : List F) (n : ℕ) → 0 < n → n ≤ length vs → ema vs (pos n) ≢ none
  unfolding ema
  ema-some vs n h k = enough-some n n vs _ h k (λ e. ground arith)

  rma-some : (vs : List F) (n : ℕ) → 0 < n → n ≤ length vs → rma vs (pos n) ≢ none
  unfolding rma
  rma-some vs n h k = enough-some n n vs _ h k (λ e. ground arith)

  length-changes : (c : F) (cs : List F) → length (changes (c ∷ cs)) ≡ length cs
  unfolding changes
  length-changes c [] = refl
  length-changes c (c' ∷ cs) = ap suc (length-changes c' cs)

  changes-enough :
      (n : ℕ) (g : F → F) (cs : List F) → n + 1 ≤ length cs → n ≤ length (map g (changes cs))
  changes-enough n g [] k = absurd (omega arith)
  changes-enough n g (c ∷ cs) k =
      omega (arith, length-map g (changes (c ∷ cs)), length-changes c cs)

  pub rsi-some : (cs : List F) (n : ℕ) → 0 < n → n + 1 ≤ length cs → rsi cs (pos n) ≢ none
  unfolding rsi
  rsi-some cs n h k = enough-some n (n + 1) cs _ h k (λ e. ground (
    arith,
    rma-some (map gain (changes cs)) n h (changes-enough n gain cs k),
    rma-some (map loss (changes cs)) n h (changes-enough n loss cs k),
  ))

  length-dx_series :
      (alpha : F) (ms : List (Move F)) (s : Move F)
      → length (dx_series alpha s ms) ≡ suc (length ms)
  unfolding dx_series
  length-dx_series alpha [] s = refl
  length-dx_series alpha (m ∷ ms) s = ap suc (length-dx_series alpha ms _)

  length-moves :
      (hs ls cs : List F)
      → length ls ≡ length hs
      → length cs ≡ length hs
      → length (moves hs ls cs) ≡ length hs - 1
  unfolding moves
  length-moves [] ls cs e g = refl
  length-moves (h ∷ []) ls cs e g = refl
  length-moves (h ∷ h' ∷ hs) [] cs e g = absurd (omega arith)
  length-moves (h ∷ h' ∷ hs) (l ∷ []) cs e g = absurd (omega arith)
  length-moves (h ∷ h' ∷ hs) (l ∷ l' ∷ ls) [] e g = absurd (omega arith)
  length-moves (h ∷ h' ∷ hs) (l ∷ l' ∷ ls) (c ∷ cs) e g =
      omega (arith, length-moves (h' ∷ hs) (l' ∷ ls) cs (omega arith) (omega arith))

  -- The test on the length of the series of DX values never refuses.
  pub dmi-some :
      (hs ls cs : List F) (n : ℕ)
      → 0 < n
      → length ls ≡ length hs
      → length cs ≡ length hs
      → 2 * n + 1 ≤ length hs
      → dmi hs ls cs (pos n) ≢ none
  unfolding dmi
  dmi-some hs ls cs n h e g k answer =
      let ms = moves hs ls cs in
      let all = length-moves hs ls cs e g in
      let seed = mean_move (take n ms) (pos n) in
      let alpha = f.div one (f.float64 (pos n)) in
      let series = dx_series alpha seed (drop n ms) in
      let long : n ≤ length series =
        omega (arith, length-dx_series alpha (drop n ms) seed, length-drop n ms) in
      ground (arith, rma-some series n h long)

  pub highest-some : (vs : List F) (n : ℕ) → 0 < n → n ≤ length vs → highest vs (pos n) ≢ none
  unfolding highest
  highest-some vs n h k =
      enough-some n n vs _ h k
        (filled-some largest (window n vs) (omega (arith, length-window n vs)))

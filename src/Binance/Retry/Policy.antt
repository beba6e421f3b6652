-- ===== src/Binance/Retry/Policy.antt =====
-- The retry policy of retry.go: how often a request is sent, after which errors, and what comes
-- back.
use binance_oi_square_trader.Prelude.{
  ℕ, zero, suc, ◌+◌, ◌≤◌, ◌<◌, ◌≡◌, refl, ap, ◌∙◌, ◌⊎◌, inl, inr, Bool, true, false, List, [], ◌∷◌,
  arith, Duration, length, ◌==◌, ==_iff, Bool-cases,
}
use binance_oi_square_trader.Binance.Errors.{
  Action, retry_now, retry_backoff, Failure, api, transport, action_of,
}
use binance_oi_square_trader.Binance.Retry.{
  Outcome, ok, err, Server, Verdict, again, stop, verdict, attempts, do_write_retry, retry_backoffs,
}

abbrev transient_action : Action → Bool
transient_action retry_backoff = true
transient_action retry_now = true
transient_action _ = false

abbrev pub is_transient : Failure → Bool
is_transient (api e) = transient_action (action_of e)
is_transient _ = true

abbrev freely_retried_action : Action → Bool
freely_retried_action retry_backoff = true
freely_retried_action _ = false

-- an error that does not use up the one retry of -1021
abbrev pub is_retried_freely : Failure → Bool
is_retried_freely (api e) = freely_retried_action (action_of e)
is_retried_freely _ = true

abbrev now_action : Action → Bool
now_action retry_now = true
now_action _ = false

-- -1021: the timestamp is outside recvWindow
abbrev pub is_clock_error : {B : Type 0} → Outcome B → Bool
is_clock_error (err (api e)) = now_action (action_of e)
is_clock_error _ = false

abbrev pub Transient : {B : Type 0} → Outcome B → Type 0
Transient (ok b) = ⊥
Transient (err e) = is_transient e ≡ true

verdict-cases :
    (e : Failure) (r : Bool)
    → (verdict e r ≡ stop) ⊎ ((r' : Bool) × (verdict e r ≡ again r') × (is_transient e ≡ true))
unfolding verdict
verdict-cases e r = elim (Verdict-cases (verdict e r)) [
  | inl p ↦ inl p
  | inr (r', p) ↦ inr (r', p, ground arith)
]
  where
    Verdict-cases : (v : Verdict) → (v ≡ stop) ⊎ ((r' : Bool) × (v ≡ again r'))
    Verdict-cases stop = inl refl
    Verdict-cases (again r') = inr (r', refl)

-- After -1021 was retried the mark stays, and -1021 stops the loop.
verdict-true :
    (e : Failure) (r' : Bool)
    → verdict e true ≡ again r'
    → (r' ≡ true) × (is_clock_error {B = Unit} (err e) ≡ false)
unfolding verdict
verdict-true e r' h = ground arith

-- A retried -1021 sets the mark.
verdict-clock :
    (e : Failure) (r r' : Bool)
    → verdict e r ≡ again r'
    → is_clock_error {B = Unit} (err e) ≡ true
    → r' ≡ true
unfolding verdict
verdict-clock e r r' h c = ground arith

verdict-again : (e : Failure) (r : Bool) → is_retried_freely e ≡ true → verdict e r ≡ again r
unfolding verdict
verdict-again e r h = ground arith

shift : (n i : ℕ) → n + 1 + i ≡ n + suc i
shift n i = omega arith

Outcome-cases :
    {B : Type 0} (o : Outcome B) → ((b : B) × (o ≡ ok b)) ⊎ ((e : Failure) × (o ≡ err e))
Outcome-cases (ok b) = inl (b, refl)
Outcome-cases (err e) = inr (e, refl)

module _ {B : Type 0} (srv : Server B) where
  -- Every attempt of the loop is within the backoffs that are left.
  attempts-calls :
      (n : ℕ) (waits : List Duration) (r : Bool) (last : Failure)
      → (n ≤ (attempts srv n waits r last).calls)
        × ((attempts srv n waits r last).calls ≤ n + length waits)
  unfolding attempts
  attempts-calls n [] r last = omega arith
  attempts-calls n (w ∷ ws) r last = elim (Outcome-cases (srv.reply n)) [
    | inl (b, p) ↦ ground arith
    | inr (e, p) ↦ elim (verdict-cases e r) [
      | inl q ↦ ground arith
      | inr (r', q, _) ↦ ground (arith, attempts-calls (n + 1) ws r' e)
    ]
  ]

  attempts-Transient :
      (n : ℕ) (waits : List Duration) (r : Bool) (last : Failure) (i : ℕ)
      → n ≤ i
      → i + 1 < (attempts srv n waits r last).calls
      → Transient (srv.reply i)
  unfolding attempts
  attempts-Transient n [] r last i low high = absurd (omega arith)
  attempts-Transient n (w ∷ ws) r last i low high = elim (Outcome-cases (srv.reply n)) [
    | inl (b, p) ↦ ground arith
    | inr (e, p) ↦ elim (verdict-cases e r) [
      | inl q ↦ ground arith
      | inr (r', q, t) ↦ elim (Bool-cases (i == n)) [
        | inl here ↦ rw ((==_iff i n).0 here, p) t
        | inr later ↦
            attempts-Transient (n + 1) ws r' e i (ground arith)
              (ground (arith, attempts-calls (n + 1) ws r' e))
      ]
    ]
  ]

  attempts-ok :
      (n : ℕ) (waits : List Duration) (r : Bool) (last : Failure) (body : B)
      → (attempts srv n waits r last).outcome ≡ ok body
      → (k : ℕ) × ((attempts srv n waits r last).calls ≡ suc k)
        × (srv.reply k ≡ ok body)
        × ((attempts srv n waits r last).recorded ≡ [])
  unfolding attempts
  attempts-ok n [] r last body h = absurd (ground arith)
  attempts-ok n (w ∷ ws) r last body h = elim (Outcome-cases (srv.reply n)) [
    | inl (b, p) ↦ (n, ground arith, ground arith, ground arith)
    | inr (e, p) ↦ elim (verdict-cases e r) [
      | inl q ↦ absurd (ground arith)
      | inr (r', q, t) ↦
          let (k, x, y, z) = attempts-ok (n + 1) ws r' e body (ground arith) in
          (k, ground arith, y, ground arith)
    ]
  ]

  attempts-deliver :
      (k n : ℕ) (waits : List Duration) (r : Bool) (last : Failure) (body : B)
      → k < length waits
      → ((i : ℕ) (w : Duration) → srv.done_waiting i w ≡ false)
      → ((i : ℕ)
          → i < k
          → (e : Failure) × (srv.reply (n + i) ≡ err e) × (is_retried_freely e ≡ true))
      → srv.reply (n + k) ≡ ok body
      → attempts srv n waits r last ≡ record { outcome = ok body; calls = n + k + 1; recorded = [] }
  unfolding attempts
  attempts-deliver k n [] r last body short patient fails good = absurd (omega arith)
  attempts-deliver zero n (w ∷ ws) r last body short patient fails good =
      let e : n + 0 ≡ n = omega arith in
      let good' : srv.reply n ≡ ok body = rw e at good in ground (arith, patient n w)
  attempts-deliver (suc k) n (w ∷ ws) r last body short patient fails good =
      let (f, p, t) = fails 0 (omega arith) in
      let e : n + 0 ≡ n = omega arith in
      let p' : srv.reply n ≡ err f = rw e at p in
      let q = verdict-again f r t in
      let ih =
        attempts-deliver k (n + 1) ws r f body (omega arith) patient
          (λ i h. rw (shift n i) (fails (suc i) (omega arith))) (rw (shift n k) good) in
      ground (arith, patient n w)

  attempts-first :
      (w : Duration) (ws : List Duration) (r : Bool) (last : Failure)
      → 1 ≤ (attempts srv 0 (w ∷ ws) r last).calls
  unfolding attempts
  attempts-first w ws r last = elim (Outcome-cases (srv.reply 0)) [
    | inl (b, p) ↦ ground arith
    | inr (e, p) ↦ elim (verdict-cases e r) [
      | inl q ↦ ground arith
      | inr (r', q, _) ↦ ground (arith, attempts-calls 1 ws r' e)
    ]
  ]

  -- A request is sent at least once and at most four times, whatever the server answers.
  pub do_write_retry-bounded : (1 ≤ (do_write_retry srv).calls) × ((do_write_retry srv).calls ≤ 4)
  unfolding do_write_retry
  do_write_retry-bounded =
      (attempts-first _ _ _ _, (attempts-calls 0 retry_backoffs false transport).1)

  -- A request is sent again only after a transient error of the attempt before: a transport error,
  -- HTTP 429 or 5xx, or -1021.
  pub do_write_retry-Transient :
      (i : ℕ) → i + 1 < (do_write_retry srv).calls → Transient (srv.reply i)
  unfolding do_write_retry
  do_write_retry-Transient i h =
      attempts-Transient 0 retry_backoffs false transport i (omega arith) h

  -- A reply that comes after fewer than four transport errors, 429s or 5xxs is delivered, if the
  -- context lives: the retries stop there, and nothing is written to api_errors.
  pub do_write_retry-delivers :
      (k : ℕ) (body : B)
      → k < 4
      → ((i : ℕ) (w : Duration) → srv.done_waiting i w ≡ false)
      → ((i : ℕ) → i < k → (e : Failure) × (srv.reply i ≡ err e) × (is_retried_freely e ≡ true))
      → srv.reply k ≡ ok body
      → do_write_retry srv ≡ record { outcome = ok body; calls = k + 1; recorded = [] }
  unfolding do_write_retry
  do_write_retry-delivers k body short patient fails good =
      attempts-deliver k 0 retry_backoffs false transport body short patient
        (λ i h. let z : 0 + i ≡ i = omega arith in rw z (fails i h))
        (let z : 0 + k ≡ k = omega arith in rw z good)
      ∙ ap (λ c. record { outcome = ok body; calls = c; recorded = [] }) (omega arith)

  -- A result is the body of the last reply, and then nothing is written to api_errors.
  pub do_write_retry-ok :
      (body : B)
      → (do_write_retry srv).outcome ≡ ok body
      → (k : ℕ) × ((do_write_retry srv).calls ≡ suc k)
        × (srv.reply k ≡ ok body)
        × ((do_write_retry srv).recorded ≡ [])
  unfolding do_write_retry
  do_write_retry-ok body h = attempts-ok 0 retry_backoffs false transport body h

  -- Once -1021 was retried, no reply that is retried after it is another.
  attempts-no_clock :
      (n : ℕ) (waits : List Duration) (last : Failure) (j : ℕ)
      → n ≤ j
      → j + 1 < (attempts srv n waits true last).calls
      → is_clock_error (srv.reply j) ≡ false
  unfolding attempts
  attempts-no_clock n [] last j low high = absurd (omega arith)
  attempts-no_clock n (w ∷ ws) last j low high = elim (Outcome-cases (srv.reply n)) [
    | inl (b, p) ↦ absurd (ground arith)
    | inr (e, p) ↦ elim (verdict-cases e true) [
      | inl q ↦ absurd (ground arith)
      | inr (r', q, t) ↦
          let (set, other) = verdict-true e r' q in
          elim (Bool-cases (j == n)) [
            | inl here ↦ rw ((==_iff j n).0 here, p) other
            | inr later ↦
                let more : j + 1 < (attempts srv (n + 1) ws r' e).calls =
                  ground (arith, attempts-calls (n + 1) ws r' e) in
                attempts-no_clock (n + 1) ws e j (ground arith) (rw set at more)
          ]
    ]
  ]

  attempts-clock_once :
      (n : ℕ) (waits : List Duration) (r : Bool) (last : Failure) (i j : ℕ)
      → n ≤ i
      → i < j
      → j + 1 < (attempts srv n waits r last).calls
      → is_clock_error (srv.reply i) ≡ true
      → is_clock_error (srv.reply j) ≡ false
  unfolding attempts
  attempts-clock_once n [] r last i j low lt high c = absurd (omega arith)
  attempts-clock_once n (w ∷ ws) r last i j low lt high c = elim (Outcome-cases (srv.reply n)) [
    | inl (b, p) ↦ absurd (ground arith)
    | inr (e, p) ↦ elim (verdict-cases e r) [
      | inl q ↦ absurd (ground arith)
      | inr (r', q, t) ↦
          let more : j + 1 < (attempts srv (n + 1) ws r' e).calls =
            ground (arith, attempts-calls (n + 1) ws r' e) in
          elim (Bool-cases (i == n)) [
            | inl here ↦
                let c' : is_clock_error {B = Unit} (err e) ≡ true =
                  rw ((==_iff i n).0 here, p) at c in
                let set = verdict-clock e r r' q c' in
                attempts-no_clock (n + 1) ws e j (ground arith) (rw set at more)
            | inr later ↦ attempts-clock_once (n + 1) ws r' e i j (ground arith) lt more c
          ]
    ]
  ]

  -- -1021 is retried once at most: of two attempts that both were followed by another, not both
  -- failed with it.
  pub do_write_retry-clock_once :
      (i j : ℕ)
      → i < j
      → j + 1 < (do_write_retry srv).calls
      → is_clock_error (srv.reply i) ≡ true
      → is_clock_error (srv.reply j) ≡ false
  unfolding do_write_retry
  do_write_retry-clock_once i j lt high c =
      attempts-clock_once 0 retry_backoffs false transport i j (omega arith) lt high c

-- ===== src/Examples/Requests.antt =====
-- Requests to servers that fail first.
use binance_oi_square_trader.Prelude.{ℕ, zero, suc, ◌<◌, ◌≡◌, refl, true, false, [], arith, pos}
use binance_oi_square_trader.Binance.Errors.{Failure, api, transport, minus, classify_error}
use binance_oi_square_trader.Binance.Retry.{
  Outcome, ok, err, Server, attempts, verdict, do_write_retry,
}
use binance_oi_square_trader.Binance.Retry.Policy.{
  Transient, is_retried_freely, do_write_retry-Transient, do_write_retry-delivers,
}

answers : Outcome ℕ → Outcome ℕ → ℕ → Outcome ℕ
answers a b zero = a
answers a b (suc zero) = b
answers a b _ = ok 7

abbrev server : Outcome ℕ → Outcome ℕ → Server ℕ
server a b = record { reply = answers a b; done_waiting = λ i w. false }

abbrev too_many : Outcome ℕ
too_many = err (api (record { http_code = 429; biz_code = pos 0 }))

abbrev clock_skew : Outcome ℕ
clock_skew = err (api (record { http_code = 400; biz_code = minus 1021 }))

abbrev busy : Server ℕ
busy = server (err transport) too_many

do_write_retry-Transient_example : Transient (busy.reply 1)
unfolding do_write_retry attempts verdict classify_error answers
do_write_retry-Transient_example = do_write_retry-Transient busy 1 (omega arith)

busy_fails : (i : ℕ) → i < 2 → (e : Failure) × (busy.reply i ≡ err e) × (is_retried_freely e ≡ true)
unfolding answers classify_error
busy_fails zero h = (transport, refl, refl)
busy_fails (suc zero) h = (api (record { http_code = 429; biz_code = pos 0 }), refl, refl)
busy_fails (suc (suc i)) h = absurd (omega arith)

do_write_retry-delivers_example :
    do_write_retry busy ≡ record { outcome = ok 7; calls = 3; recorded = [] }
unfolding answers
do_write_retry-delivers_example =
    do_write_retry-delivers busy 2 7 (omega arith) (λ i w. refl) busy_fails refl

abbrev gone : Outcome ℕ
gone = err (api (record { http_code = 400; biz_code = minus 2011 }))

-- ===== src/SriovCni/Utils/Time.antt =====
-- How long `retry` takes.
use ipu_opi_plugins.Prelude.{ℕ, zero, suc, ◌+◌, ◌*◌, ◌≤◌, arith}
use ipu_opi_plugins.Outcome.{Outcome, ok, err, panic}
use ipu_opi_plugins.SriovCni.Host.{Host, CniError}
use ipu_opi_plugins.SriovCni.Utils.{Cni, retry, retry_behind}

module _ {K : Type 0} (host : Host K) (clock : K → ℕ) (f : Cni host (Unit {0})) (a b : ℕ)
    (attempts : (k : K) → clock (f k).1 ≤ clock k + a)
    (sleeps : (k : K) → clock (host.sleep k) ≤ clock k + b) where
  -- The rounds behind an attempt that took its time.
  behind_by :
      (n t : ℕ) (q : Outcome CniError (Unit {0}) × K)
      → clock q.1 ≤ t + a
      → ((e : CniError) (k : K) → clock (retry_behind host (err e) n f k).1 ≤ clock k + n * (a + b))
      → let r = elim q.0 as (λ _. Outcome CniError (Unit {0}) × K) [
        | ok _ ↦ (ok tt, q.1)
        | err e ↦ retry_behind host (err e) n f (host.sleep q.1)
        | panic ↦ (panic, q.1)
      ] in
        clock r.1 ≤ t + suc n * (a + b)
  behind_by n t (ok u, k) h rest = grind arith
  behind_by n t (err e, k) h rest =
      let later = rest e (host.sleep k) in let slept = sleeps k in grind arith
  behind_by n t (panic, k) h rest = grind arith

  retry_behind_bounded :
      (last : Outcome CniError (Unit {0})) (n : ℕ) (k : K)
      → clock (retry_behind host last n f k).1 ≤ clock k + n * (a + b)
  unfolding retry_behind
  retry_behind_bounded last zero k = omega arith
  retry_behind_bounded last (suc n) k =
      behind_by n (clock k) (f k) (attempts k) (λ e. retry_behind_bounded (err e) n)

  -- Where an attempt takes at most a time `a` and a sleep at most a time `b`, `Retry` with `n`
  -- attempts has ended after the time `n * (a + b)`, whatever the outcome.
  pub retry_bounded : (n : ℕ) (k : K) → clock (retry host n f k).1 ≤ clock k + n * (a + b)
  unfolding retry
  retry_bounded n k = retry_behind_bounded (ok tt) n k

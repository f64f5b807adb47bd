-- ===== src/Client/Timeout.antt =====
-- The bounds of the timeout of a list, a watch or the deletion of a collection.
use pluma_opeartor.Base.{ℕ, ◌*◌, ◌%◌, ◌^◌, ◌≤◌, ◌<◌, ◌≡◌, ◌↔◌, some, arith}
use pluma_opeartor.Constants.{second}
use pluma_opeartor.Client.{ListOptions, list_timeout}

exact :
    (seconds : ℕ)
    → let t = (seconds * second) % 2 ^ 64 in
      ((t ≡ seconds * second) × (t < 2 ^ 63)) ↔ (seconds ≤ 9_223_372_036)
exact seconds = (λ e. omega (arith, e.0, e.1), λ m. (omega (arith, m), omega (arith, m)))

-- A number of seconds that is not negative: the timeout is the duration of as many seconds, and
-- is not negative, exactly if there are at most 9223372036 of them, about 292 years: beyond that
-- the int64 of nanoseconds wraps around.
pub list_timeout-exact :
    (opts : ListOptions) (seconds : ℕ)
    → opts.timeout_seconds ≡ some seconds
    → seconds < 2 ^ 63
    → ((list_timeout opts ≡ seconds * second) × (list_timeout opts < 2 ^ 63))
      ↔ (seconds ≤ 9_223_372_036)
unfolding list_timeout
list_timeout-exact opts seconds e l = rw e (exact seconds)

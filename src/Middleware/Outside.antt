-- ===== src/Middleware/Outside.antt =====
-- What the middlewares use of code that is not in the repository.
use tdiscuss.Base.{ℕ, Bool, Option, ℤ}
use tdiscuss.Text.{Text}
use tdiscuss.Web.{Request}

-- golang.org/x/time/rate at an instant: `new_limiter` is given a rate in thousandths of a request
-- each second and a burst; `allow` is `Allow`; `tokens` is `Tokens` cut to an integer; `policy` is
-- the text of the limit; `retry_after` is the delay in whole seconds of a reservation that is then
-- cancelled, which is taken to leave the limiter as it was.
pub record RateLibrary (L : Type 0) : Type 0 where
  pub new_limiter : ℕ → ℕ → ℕ → L
  pub allow : ℕ → L → Bool × L
  pub burst : L → ℕ
  pub tokens : ℕ → L → ℤ
  pub policy : L → Text
  pub retry_after : ℕ → L → Option ℕ

-- `who_is` is Tailscale's answer for an address: no answer, or a profile if there is one, by its
-- login name. `lower` is PostgreSQL's. `is_same_origin` is whether `CrossOriginProtection.Check`
-- lets a request pass. `equal_fold` is `strings.EqualFold`.
pub record Outside (L : Type 0) : Type 0 where
  pub rate : RateLibrary L
  pub who_is : Text → Option (Option Text)
  pub lower : Text → Text
  pub is_same_origin : Request → Bool
  pub equal_fold : Text → Text → Bool

-- ===== src/Api/Rate.antt =====
-- na_sso/api_contract.py: the sliding window of the rate limit. A time counts the ticks of the monotonic
-- clock, of which a second has `per_second`.
use na_sso.Prelude.{ℕ, ◌+◌, ◌-◌, ◌*◌, ◌/◌, List, [], ◌∷◌, ◌++◌, length, leb, if◌then◌else◌}
use Prim.Native.Nat.{max}

-- The headers of an admitted request, with what is left, and those of a refused one.
pub data Verdict : Type 0 where
  admitted limited : ℕ → Verdict

module _ (per_second requests_per_minute : ℕ) where
  -- Of the times on the left, those that are at least a minute old go.
  unfoldable pub drop_old : ℕ → List ℕ → List ℕ
  drop_old now [] = []
  drop_old now (t ∷ rest) =
      let later = drop_old now rest in if leb (t + 60 * per_second) now then later else t ∷ rest

  abbrev retry_after : ℕ → List ℕ → ℕ
  retry_after now [] = 0
  retry_after now (t ∷ rest) = max 1 ((60 * per_second - (now - t)) / per_second)

  abbrev pub decided : ℕ → List ℕ → Verdict × List ℕ
  decided now window =
      if leb requests_per_minute (length window)
      then (limited (retry_after now window), window)
      else (admitted (requests_per_minute - (length window + 1)), window ++ now ∷ [])

  -- The window of one identity.
  unfoldable pub rate_limit : ℕ → List ℕ → Verdict × List ℕ
  rate_limit now window = decided now (drop_old now window)

  unfoldable pub reset_api_rate_limits : List ℕ → List ℕ
  reset_api_rate_limits window = []

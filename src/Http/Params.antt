-- ===== src/Http/Params.antt =====
-- The numbers of a request: the parameters `limit` and `offset` of
-- `handleTraffic` in internal/http/http.go.
pub mod Laws
use wlt_traffic.Base.{
  ℕ, zero, suc, ◌+◌, ◌-◌, ◌*◌, ◌^◌, Bool, true, false, ◌&&◌, Option, none, some, List, [], ◌∷◌, ltb,
  leb, ◌==◌, if◌then◌else◌, arith,
}
use wlt_traffic.Storage.Types.{GoString}
use wlt_traffic.Go.Strconv.{ℤ, pos, negsuc, atoi}

-- the value of a parameter that is an integer in the range, or the default
abbrev in_bounds : (ℕ → Bool) → ℕ → Option ℤ → ℕ
in_bounds valid default none = default
in_bounds valid default (some (pos n)) = if valid n then n else default
in_bounds valid default (some (negsuc n)) = default

-- `l > 0 && l <= 1000`
unfoldable pub limit_of : GoString → ℕ
unfolding atoi
limit_of s = in_bounds (λ l. ltb 0 l && leb l 1000) 100 (atoi s)

-- `o >= 0`
unfoldable pub offset_of : GoString → ℕ
unfolding atoi
offset_of s = in_bounds (λ o. true) 0 (atoi s)

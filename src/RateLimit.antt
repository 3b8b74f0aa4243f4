-- ===== src/RateLimit.antt =====
-- src/mailfallback/middleware/rate_limit.py: the limits on POST requests. `time.monotonic()` is the
-- argument `now`, in any unit in which the window is given; the requests come one at a time.
pub mod Window
mod Tests
use mailfallback.Prelude.{
  ℕ, ◌+◌, ◌*◌, Bool, true, false, not, Option, none, some, List, [], ◌∷◌, ◌++◌, keep, length, ltb,
  leb, if◌then◌else◌,
}
use mailfallback.Prelude.Text.{Text, codes, text_eq, starts_with}

-- `(max_requests, window)`.
pub record Limit : Type 0 where
  pub max_requests : ℕ
  pub window : ℕ

abbrev minute_of : ℕ → ℕ → Limit
minute_of second max = record { max_requests = max; window = 60 * second }

-- `_RATE_LIMITED_PATHS.get(path)`; `second` is one second.
unfoldable pub path_limit : ℕ → Text → Option Limit
path_limit second path =
    if text_eq path (codes "/api/auth/login")
    then some (minute_of second 10)
    else if text_eq path (codes "/login")
    then some (minute_of second 10)
    else if text_eq path (codes "/profile/password")
    then some (minute_of second 5)
    else if text_eq path (codes "/profile/tokens")
    then some (minute_of second 5)
    else if text_eq path (codes "/api/sync/all")
    then some (minute_of second 3)
    else if text_eq path (codes "/api/accounts")
    then some (minute_of second 5)
    else if text_eq path (codes "/api/restore")
    then some (minute_of second 3)
    else none

abbrev prefix_limit : ℕ → Text → Option Limit
prefix_limit second path =
    if starts_with path (codes "/api/sync/") then some (minute_of second 5) else none

abbrev or_limit : Option Limit → Option Limit → Option Limit
or_limit none l = l
or_limit (some l) _ = some l

unfoldable pub limit_of : ℕ → Text → Option Limit
unfolding path_limit starts_with
limit_of second path = or_limit (path_limit second path) (prefix_limit second path)

abbrev pub Counters : Type 0
Counters = List (Text × List ℕ)

unfoldable pub get_counter : Text → Counters → List ℕ
get_counter key [] = []
get_counter key (c ∷ counters) = if text_eq c.0 key then c.1 else get_counter key counters

unfoldable pub set_counter : Text → List ℕ → Counters → Counters
set_counter key times [] = (key, times) ∷ []
set_counter key times (c ∷ counters) =
    if text_eq c.0 key then (key, times) ∷ counters else c ∷ set_counter key times counters

-- `now - t < window`.
abbrev pub is_recent : ℕ → ℕ → ℕ → Bool
is_recent now window t = ltb now (t + window)

abbrev client_key : Option Text → Text → Text
client_key none path = codes "unknown" ++ b':' ∷ path
client_key (some ip) path = ip ++ b':' ∷ path

-- The counter after the request, and whether it goes on.
unfoldable pub count_request : Limit → ℕ → List ℕ → List ℕ × Bool
count_request l now times =
    let recent = keep (is_recent now l.window) times in
    if leb l.max_requests (length recent) then (recent, false) else (recent ++ now ∷ [], true)

abbrev store : Text → Counters → List ℕ × Bool → Counters × Bool
store key counters (times, passed) = (set_counter key times counters, passed)

abbrev limited : Option Limit → Text → ℕ → Counters → Counters × Bool
limited none key now counters = (counters, true)
limited (some l) key now counters =
    store key counters (count_request l now (get_counter key counters))

-- `dispatch`: the counters after the request, and `false` for a 429.
unfoldable pub dispatch : ℕ → Text → Option Text → Text → ℕ → Counters → Counters × Bool
unfolding limit_of get_counter set_counter count_request
dispatch second method client path now counters =
    if not (text_eq method (codes "POST"))
    then (counters, true)
    else limited (limit_of second path) (client_key client path) now counters

-- ===== src/RateLimit/Tests.antt =====
-- Three requests against a limit of two in ten.
use mailfallback.Prelude.{ℕ, ◌≤◌, Bool, false, List, [], ◌≡◌, refl, arith}
use mailfallback.RateLimit.{Limit, count_request}
use mailfallback.RateLimit.Window.{Served, start, request, admit, count_recent, Served_bound}

abbrev two_in_ten : Limit
two_in_ten = record { max_requests = 2; window = 10 }

abbrev first : List ℕ × Bool
first = count_request two_in_ten 1 []

abbrev second : List ℕ × Bool
second = count_request two_in_ten 5 first.0

second_served : Served two_in_ten 5 second.0 (admit 5 second.1 (admit 1 first.1 []))
second_served = request 5 (omega arith) (request 1 (omega arith) start)

Served_bound_example :
    count_recent 5 two_in_ten.window (admit 5 second.1 (admit 1 first.1 []))
    ≤ two_in_ten.max_requests
Served_bound_example =
    Served_bound two_in_ten 5 second.0 (admit 5 second.1 (admit 1 first.1 [])) second_served

third_refused : (count_request two_in_ten 9 second.0).1 ≡ false
unfolding count_request
third_refused = refl

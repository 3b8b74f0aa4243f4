-- ===== src/RateLimit/Window.antt =====
-- The window of one counter: how many requests it lets through.
use mailfallback.Prelude.{
  ℕ, suc, ◌+◌, ◌≤◌, Bool, true, false, List, [], ◌∷◌, ◌++◌, keep, length, ltb, if◌then◌else◌, ◌≡◌,
  refl, arith,
}
use mailfallback.RateLimit.{Limit, is_recent, count_request}

-- A run of requests on one counter, the oldest first: the counter at the end, and the times at
-- which a request was let through, the newest first.
abbrev pub admit : ℕ → Bool → List ℕ → List ℕ
admit now true log = now ∷ log
admit now false log = log

pub data Served (l : Limit) : ℕ → List ℕ → List ℕ → Type 0 where
  start : Served l 0 [] []
  request :
      {before : ℕ} {times log : List ℕ} (now : ℕ)
      → before ≤ now
      → Served l before times log
      → Served l now (count_request l now times).0 (admit now (count_request l now times).1 log)

abbrev pub count_recent : ℕ → ℕ → List ℕ → ℕ
count_recent now window [] = 0
count_recent now window (t ∷ ts) =
    if is_recent now window t then suc (count_recent now window ts) else count_recent now window ts

count_recent-append :
    (now window : ℕ) (xs ys : List ℕ)
    → count_recent now window (xs ++ ys) ≡ count_recent now window xs + count_recent now window ys
count_recent-append now window [] ys = omega arith
count_recent-append now window (x ∷ xs) ys = ground (arith, count_recent-append now window xs ys)

length-keep_recent :
    (now window : ℕ) (ts : List ℕ)
    → length (keep (is_recent now window) ts) ≡ count_recent now window ts
length-keep_recent now window [] = refl
length-keep_recent now window (t ∷ ts) = ground (arith, length-keep_recent now window ts)

-- What has left the window at one time stays out of it.
count_recent-keep :
    (now later window : ℕ) (ts : List ℕ)
    → now ≤ later
    → count_recent later window (keep (is_recent now window) ts) ≡ count_recent later window ts
count_recent-keep now later window [] h = refl
count_recent-keep now later window (t ∷ ts) h =
    ground (arith, count_recent-keep now later window ts)

count_recent_mono :
    (before now window : ℕ) (ts : List ℕ)
    → before ≤ now
    → count_recent now window ts ≤ count_recent before window ts
count_recent_mono before now window [] h = omega arith
count_recent_mono before now window (t ∷ ts) h =
    ground (arith, count_recent_mono before now window ts)

-- The counter agrees with the log from its own time on, and is within the limit.
record IsWindow (l : Limit) (now : ℕ) (times log : List ℕ) : Type 0 where
  agrees :
      (later : ℕ)
      → now ≤ later
      → count_recent later l.window times ≡ count_recent later l.window log
  small : count_recent now l.window log ≤ l.max_requests

count_request-IsWindow :
    (l : Limit) (before now : ℕ) (times log : List ℕ)
    → before ≤ now
    → IsWindow l before times log
    → IsWindow l now (count_request l now times).0 (admit now (count_request l now times).1 log)
unfolding count_request
count_request-IsWindow l before now times log h w =
    let recent = keep (is_recent now l.window) times in
    record {
      agrees = λ later on. ground (
        arith,
        w.agrees later,
        count_recent-keep now later l.window times,
        count_recent-append later l.window recent (now ∷ []),
      );
      small = ground (
        arith,
        w.agrees now,
        w.small,
        length-keep_recent now l.window times,
        count_recent_mono before now l.window log,
      );
    }

Served-IsWindow :
    (l : Limit) (now : ℕ) (times log : List ℕ) → Served l now times log → IsWindow l now times log
Served-IsWindow l _ _ _ start = record { agrees = λ later on. refl; small = omega arith }
Served-IsWindow l _ _ _ (request {before} {times} {log} now h s) =
    count_request-IsWindow l before now times log h (Served-IsWindow l before times log s)

-- However many requests come, at whatever times that never go back, the requests that one counter
-- has let through in the window that ends at the last of them are at most the limit.
pub Served_bound :
    (l : Limit) (now : ℕ) (times log : List ℕ)
    → Served l now times log
    → count_recent now l.window log ≤ l.max_requests
Served_bound l now times log s = (Served-IsWindow l now times log s).small

-- After any requests on one counter, at times that never go back, a request at the time of the
-- last one or later is let through exactly when fewer than the limit were let through in the
-- window that ends then: a refused one does not count.
pub Served_passes :
    (l : Limit) (before now : ℕ) (times log : List ℕ)
    → Served l before times log
    → before ≤ now
    → (count_request l now times).1 ≡ ltb (count_recent now l.window log) l.max_requests
unfolding count_request
Served_passes l before now times log s h = ground (
  arith,
  (Served-IsWindow l before times log s).agrees now,
  length-keep_recent now l.window times,
)

-- ===== src/SyncFailures.antt =====
-- src/mailfallback/services/sync_failures.py: is a failed sync a throttle, a network blip, or a
-- real error?
pub mod Precedence
mod Tests
use mailfallback.Prelude.{
  Bool, true, false, Option, none, some, List, [], ◌∷◌, ◌++◌, any, if◌then◌else◌,
}
use mailfallback.Prelude.Text.{Text, codes, text_eq, starts_with, contains, lower}

pub data Failure : Type 0 where
  throttled : Failure
  transient : Failure

abbrev pub transient_signatures : List Text
transient_signatures =
    codes "Connection reset"
    ∷ codes "unexpected EOF"
    ∷ codes "Broken pipe"
    ∷ codes "timed out"
    ∷ codes ": timeout"
    ∷ []

-- `THROTTLE_SIGNATURES.get(provider, ())`.
unfoldable pub throttle_signatures : Text → List Text
throttle_signatures provider =
    if text_eq provider (codes "google")
    then codes "[OVERQUOTA]" ∷ codes "Too many simultaneous connections" ∷ []
    else if text_eq provider (codes "microsoft")
    then codes "Request is throttled" ∷ codes "[THROTTLED]" ∷ codes "server busy" ∷ []
    else []

abbrev pub generic_throttle : List Text
generic_throttle = codes "[OVERQUOTA]" ∷ codes "[THROTTLED]" ∷ []

-- `_matches`: bracketed codes as they stand, prose in lower case.
unfoldable pub matches : Text → Text → Bool
unfolding starts_with contains lower
matches log_tail signature =
    if starts_with signature (codes "[")
    then contains log_tail signature
    else contains (lower log_tail) (lower signature)

unfoldable pub classify_failure : Text → Text → Option Failure
classify_failure [] provider = none
classify_failure (c ∷ s) provider =
    if any (matches (c ∷ s)) (throttle_signatures provider ++ generic_throttle)
    then some throttled
    else if any (matches (c ∷ s)) transient_signatures
    then some transient
    else none

-- ===== src/Semver.antt =====
-- v4/semver/semver.go: when the version of a server serves a required version.
mod Tests
pub mod Compatible
use hc_data.Base.{ℕ, Bool, true, false, not, ◌&&◌, List, [], ◌∷◌, ltb, ◌==◌, if◌then◌else◌}

pub record Semver : Type 0 where
  pub major : ℕ
  pub minor : ℕ
  pub patch : ℕ

-- Compatible
unfoldable pub compatible : Semver → Semver → Bool
compatible required actual =
    if not (required.major == actual.major)
    then false
    else if ltb actual.minor required.minor
    then false
    else if required.minor == actual.minor && ltb actual.patch required.patch
    then false
    else true

-- AnyCompatible stops at the first version that is compatible.
unfoldable pub any_compatible : List Semver → Semver → Bool
unfolding compatible
any_compatible [] actual = false
any_compatible (v ∷ rest) actual =
    let later = any_compatible rest actual in if compatible v actual then true else later

-- ===== src/Semver/Tests.antt =====
-- Tests of the theorems on v4/semver/semver.go.
use hc_data.Base.{◌≡◌, refl, true}
use hc_data.Semver.{Semver, compatible}

abbrev five : Semver
five = record { major = 5; minor = 0; patch = 1 }

abbrev five_one : Semver
five_one = record { major = 5; minor = 1; patch = 0 }

abbrev five_two : Semver
five_two = record { major = 5; minor = 2; patch = 3 }

five_serves : compatible five five_one ≡ true
unfolding compatible
five_serves = refl

five_one_serves : compatible five_one five_two ≡ true
unfolding compatible
five_one_serves = refl

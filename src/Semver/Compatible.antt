-- ===== src/Semver/Compatible.antt =====
-- What Compatible and AnyCompatible (v4/semver/semver.go) decide.
use hc_data.Base.{
  ◌∙◌, ◌≡◌, ◌≤◌, ◌<◌, ◌↔◌, ◌⊎◌, refl, true, Bool-cases, inl, inr, List, [], ◌∷◌, arith,
}
use hc_data.Semver.{Semver, compatible, any_compatible}

-- The actual version has the required major version and, from its minor version on, is no earlier.
abbrev pub Serves : Semver → Semver → Type 0
Serves required actual =
    (required.major ≡ actual.major)
    × ((required.minor < actual.minor)
        ⊎ ((required.minor ≡ actual.minor) × (required.patch ≤ actual.patch)))

abbrev pub AnyServes : List Semver → Semver → Type 0
AnyServes [] actual = ⊥
AnyServes (v ∷ rest) actual = Serves v actual ⊎ AnyServes rest actual

pub compatible_iff :
    (required actual : Semver) → (compatible required actual ≡ true) ↔ Serves required actual
unfolding compatible
compatible_iff required actual = ground arith

-- AnyCompatible holds exactly where one of the versions has the major version of the actual one and is not
-- later than it in the minor version or, at the same minor version, in the patch.
pub any_compatible_iff :
    (versions : List Semver) (actual : Semver)
    → (any_compatible versions actual ≡ true) ↔ AnyServes versions actual
unfolding any_compatible
any_compatible_iff [] actual = (λ h. absurd (ground arith), λ h. elim h [ ])
any_compatible_iff (v ∷ rest) actual =
    let (first_to, first_from) = compatible_iff v actual in
    let (later_to, later_from) = any_compatible_iff rest actual in
    elim (Bool-cases (compatible v actual)) [
      | inl serves ↦ rw serves (λ _. inl (first_to serves), λ _. refl)
      | inr fails ↦ rw fails (
        λ h. inr (later_to h),
        λ h. elim h [ inl now ↦ let p = first_from now in cc | inr later ↦ later_from later ],
      )
    ]

-- Compatibility is transitive: a version that serves one that serves a requirement serves the requirement.
pub compatible_trans :
    (a b c : Semver) → compatible a b ≡ true → compatible b c ≡ true → compatible a c ≡ true
compatible_trans a b c p q =
    let (same, after) = (compatible_iff a b).0 p in
    let (same_too, after_too) = (compatible_iff b c).0 q in
    (compatible_iff a c).1 (same ∙ same_too, later after after_too)
  where
    later :
        (a.minor < b.minor) ⊎ ((a.minor ≡ b.minor) × (a.patch ≤ b.patch))
        → (b.minor < c.minor) ⊎ ((b.minor ≡ c.minor) × (b.patch ≤ c.patch))
        → (a.minor < c.minor) ⊎ ((a.minor ≡ c.minor) × (a.patch ≤ c.patch))
    later l m = ground arith

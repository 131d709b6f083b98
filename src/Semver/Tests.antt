-- ===== src/Semver/Tests.antt =====
-- Concrete versions and ranges.
use coretools.Prelude.{◌≡◌, refl, true, not, ◌&&◌}
use coretools.Semver
use coretools.Semver.{
  SemanticVersion, Prerelease, ReleaseType, released, inc_first_nonzero, dec_first_nonzero,
  is_release, is_prerelease, check, caret, lt, same_release,
}
use coretools.Semver.Caret.{same_class, caret-release}

-- `1.0.0-alpha1`, `1.4.2` and `2.0.0-alpha1`.
abbrev alpha_one : SemanticVersion
alpha_one = record (released 1 0 0) { release_type = ReleaseType.prerelease Prerelease.alpha 1 }

abbrev minor_four : SemanticVersion
minor_four = released 1 4 2

abbrev next_alpha : SemanticVersion
next_alpha = record (released 2 0 0) { release_type = ReleaseType.prerelease Prerelease.alpha 1 }

minor_four_released : is_release minor_four ≡ true
unfolding is_release
minor_four_released = refl

next_alpha_prerelease : is_prerelease next_alpha ≡ true
unfolding is_prerelease is_release
next_alpha_prerelease = refl

-- The range of `^1.0.0-alpha1` holds a prerelease of the next major version.
next_alpha_held : check (caret alpha_one) next_alpha ≡ true
unfolding check Semver.check_intersection Semver.check_ver_range lt Semver.ge is_prerelease
    is_release same_release inc_first_nonzero
next_alpha_held = refl

caret-release_example :
    check (caret alpha_one) minor_four
    ≡ (same_class alpha_one minor_four && not (lt minor_four alpha_one))
caret-release_example = caret-release alpha_one minor_four minor_four_released

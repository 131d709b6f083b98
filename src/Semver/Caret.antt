-- ===== src/Semver/Caret.antt =====
-- Which versions the range `^X.Y.Z` holds.
use coretools.Prelude.{◌≡◌, Bool, true, not, ◌&&◌, ◌||◌, ◌==◌, arith}
use coretools.Semver.Order.{release_order, order_at_most, prerelease_order_lt}
use coretools.Semver.{
  SemanticVersion, inc_first_nonzero, coexistence_class, is_release, is_prerelease, lt, ge, check,
  check_intersection, check_ver_range, caret, same_release,
}

abbrev pub same_class : SemanticVersion → SemanticVersion → Bool
same_class v w =
    let (a, b, c) = coexistence_class v in
    let (a', b', c') = coexistence_class w in a == a' && b == b' && c == c'

-- A release is in the range `^` of a version exactly where it is of the version's coexistence class and
-- not less than the version.
pub caret-release :
    (v w : SemanticVersion)
    → is_release w ≡ true
    → check (caret v) w ≡ (same_class v w && not (lt w v))
unfolding check check_intersection check_ver_range lt ge is_release is_prerelease same_release
    inc_first_nonzero coexistence_class
caret-release v w r = ground (arith, release_order w r, order_at_most v.release_type)

-- A prerelease is in the range `^` of a version exactly where the version is a prerelease too, and the
-- release it precedes is that of the version, which is not greater, or is the release behind the range.
pub caret-prerelease :
    (v w : SemanticVersion)
    → is_prerelease w ≡ true
    → check (caret v) w ≡ (
        is_prerelease v
        && ((same_release w v && not (lt w v)) || same_release w (inc_first_nonzero v)))
unfolding check check_intersection check_ver_range lt ge is_release is_prerelease same_release
    inc_first_nonzero coexistence_class
caret-prerelease v w r = ground (arith, order_at_most v.release_type, prerelease_order_lt w)

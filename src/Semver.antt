-- ===== src/Semver.antt =====
-- `SemanticVersion` and `SemanticVersionRange` of iotilecore/iotile/core/dev/semver.py, behind the
-- parsing of their strings.
pub mod Order
pub mod Caret
mod Tests
use coretools.Prelude.{
  ℕ, ◌+◌, ◌-◌, Bool, true, false, not, ◌&&◌, ◌||◌, ◌==◌, ltb, if◌then◌else◌, Option, none, some,
  List, [], ◌∷◌,
}
use coretools.Errors.{Error, Result, ok, err}

-- The release types of a prerelease.
pub data Prerelease : Type 0 where
  build alpha beta rc : Prerelease

-- The fields `release_type` and `prerelease_number` together: a release has no number, and a
-- prerelease has one.
pub data ReleaseType : Type 0 where
  prerelease : Prerelease → ℕ → ReleaseType
  release : ReleaseType

pub record SemanticVersion : Type 0 where
  pub major : ℕ
  pub minor : ℕ
  pub patch : ℕ
  pub release_type : ReleaseType

-- A version with the default arguments of `__init__`.
abbrev pub released : ℕ → ℕ → ℕ → SemanticVersion
released major minor patch = record {
  major = major;
  minor = minor;
  patch = patch;
  release_type = ReleaseType.release;
}

unfoldable pub inc_first_nonzero : SemanticVersion → SemanticVersion
inc_first_nonzero v =
    if v.major == 0 && v.minor == 0
    then released v.major v.minor (v.patch + 1)
    else if v.major == 0
    then released v.major (v.minor + 1) 0
    else released (v.major + 1) 0 0

-- A bare `Exception` is raised where there is nothing to decrement.
unfoldable pub dec_first_nonzero : SemanticVersion → Result SemanticVersion
dec_first_nonzero v =
    if v.major == 0 && v.minor == 0 && v.patch == 0
    then err Error.exception
    else if v.major == 0 && v.minor == 0
    then ok (released v.major v.minor (v.patch - 1))
    else if v.major == 0
    then ok (released v.major (v.minor - 1) 0)
    else ok (released (v.major - 1) 0 0)

unfoldable pub coexistence_class : SemanticVersion → ℕ × ℕ × ℕ
coexistence_class v =
    if v.major == 0 && v.minor == 0
    then (v.major, v.minor, v.patch)
    else if v.major == 0
    then (v.major, v.minor, 0)
    else (v.major, 0, 0)

unfoldable pub inc_release : SemanticVersion → SemanticVersion
inc_release v = released v.major v.minor (v.patch + 1)

unfoldable pub is_release : SemanticVersion → Bool
is_release v = elim v.release_type [
  | ReleaseType.prerelease _ _ ↦ false
  | ReleaseType.release ↦ true
]

unfoldable pub is_prerelease : SemanticVersion → Bool
unfolding is_release
is_prerelease v = not (is_release v)

-- The table `prerelease_order`.
abbrev pub order : ReleaseType → ℕ
order (ReleaseType.prerelease Prerelease.build _) = 0
order (ReleaseType.prerelease Prerelease.alpha _) = 1
order (ReleaseType.prerelease Prerelease.beta _) = 2
order (ReleaseType.prerelease Prerelease.rc _) = 3
order ReleaseType.release = 4

-- The number of a prerelease. Two releases both have `None`, which are equal.
abbrev pub number : ReleaseType → ℕ
number (ReleaseType.prerelease _ n) = n
number ReleaseType.release = 0

-- `__eq__` and `__lt__`, which compare the ordering tuples from the left.
unfoldable pub eq : SemanticVersion → SemanticVersion → Bool
eq v w =
    v.major == w.major
    && v.minor == w.minor
    && v.patch == w.patch
    && order v.release_type == order w.release_type
    && number v.release_type == number w.release_type

unfoldable pub lt : SemanticVersion → SemanticVersion → Bool
lt v w =
    if not (v.major == w.major)
    then ltb v.major w.major
    else if not (v.minor == w.minor)
    then ltb v.minor w.minor
    else if not (v.patch == w.patch)
    then ltb v.patch w.patch
    else if not (order v.release_type == order w.release_type)
    then ltb (order v.release_type) (order w.release_type)
    else ltb (number v.release_type) (number w.release_type)

-- `__gt__`, and the operators that `total_ordering` makes of `__lt__`.
unfoldable pub gt : SemanticVersion → SemanticVersion → Bool
unfolding lt
gt v w = lt w v

unfoldable pub le : SemanticVersion → SemanticVersion → Bool
unfolding lt eq
le v w = lt v w || eq v w

unfoldable pub ge : SemanticVersion → SemanticVersion → Bool
unfolding lt
ge v w = not (lt v w)

-- One range: its ends, and whether they are in it.
pub record VersionRange : Type 0 where
  pub lower : Option SemanticVersion
  pub upper : Option SemanticVersion
  pub lower_inc : Bool
  pub upper_inc : Bool

unfoldable pub same_release : SemanticVersion → SemanticVersion → Bool
same_release v w = v.major == w.major && v.minor == w.minor && v.patch == w.patch

-- The tests of `_check_ver_range` on one end of the range, where it has this end.
abbrev pub below : Option SemanticVersion → Bool → SemanticVersion → Bool
below none inc version = false
below (some lower) inc version = if inc then lt version lower else le version lower

abbrev pub above : Option SemanticVersion → Bool → SemanticVersion → Bool
above none inc version = false
above (some upper) inc version = if inc then gt version upper else ge version upper

abbrev pub no_prerelease : Option SemanticVersion → Bool
no_prerelease none = true
no_prerelease (some v) = not (is_prerelease v)

abbrev pub other_release : Option SemanticVersion → SemanticVersion → Bool
other_release none version = false
other_release (some v) version = not (same_release version v)

abbrev pub is_unbounded : VersionRange → Bool
is_unbounded r = elim r.lower [
  | none ↦ (elim r.upper [ none ↦ true | some _ ↦ false ])
  | some _ ↦ false
]

unfoldable pub check_ver_range : SemanticVersion → VersionRange → Bool
check_ver_range version r =
    if is_unbounded r
    then true
    else if below r.lower r.lower_inc version
    then false
    else if above r.upper r.upper_inc version
    then false
    else if is_prerelease version && (no_prerelease r.lower && no_prerelease r.upper)
    then false
    else if is_prerelease version
        && (other_release r.lower version && other_release r.upper version)
    then false
    else true

unfoldable pub check_intersection : SemanticVersion → List VersionRange → Bool
check_intersection version [] = true
check_intersection version (r ∷ ranges) =
    let rest = check_intersection version ranges in
    if not (check_ver_range version r) then false else rest

-- A `SemanticVersionRange` is the list of its disjuncts.
unfoldable pub check : List (List VersionRange) → SemanticVersion → Bool
check [] version = false
check (disjunct ∷ disjuncts) version =
    let rest = check disjuncts version in if check_intersection version disjunct then true else rest

-- `filter`, with its `key`.
unfoldable pub filter {ℓ} :
    {A : Type ℓ} → List (List VersionRange) → List A → (A → SemanticVersion) → List A
filter range [] key = []
filter range (x ∷ versions) key =
    let rest = filter range versions key in if check range (key x) then x ∷ rest else rest

-- What `FromString` makes of `*`, of `^X.Y.Z` and of `=X.Y.Z`.
abbrev pub any_version : List (List VersionRange)
any_version = (record { lower = none; upper = none; lower_inc = true; upper_inc = true } ∷ []) ∷ []

abbrev pub caret : SemanticVersion → List (List VersionRange)
caret v =
    (record {
      lower = some v;
      upper = some (inc_first_nonzero v);
      lower_inc = true;
      upper_inc = false;
    }
      ∷ [])
    ∷ []

abbrev pub exactly : SemanticVersion → List (List VersionRange)
exactly v =
    (record { lower = some v; upper = some v; lower_inc = true; upper_inc = true } ∷ []) ∷ []

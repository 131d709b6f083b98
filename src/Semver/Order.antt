-- ===== src/Semver/Order.antt =====
-- The order of versions, and the versions that the incrementing methods make.
use coretools.Prelude.{ℕ, ◌<◌, ◌≤◌, ◌≡◌, ◌⊎◌, inl, inr, refl, true, false, not, arith}
use coretools.Errors.{ok}
use coretools.Semver.{
  SemanticVersion, Prerelease, ReleaseType, released, inc_first_nonzero, dec_first_nonzero,
  coexistence_class, inc_release, is_release, eq, lt, gt, le, order, number,
}

pub order_below : (a : Prerelease) (n : ℕ) → order (ReleaseType.prerelease a n) < 4
order_below Prerelease.build n = omega arith
order_below Prerelease.alpha n = omega arith
order_below Prerelease.beta n = omega arith
order_below Prerelease.rc n = omega arith

kind_eq :
    (a b : Prerelease) (n m : ℕ)
    → order (ReleaseType.prerelease a n) ≡ order (ReleaseType.prerelease b m)
    → a ≡ b
kind_eq a b n m h = ground arith

prerelease_eq :
    {a b : Prerelease} {n m : ℕ}
    → a ≡ b
    → n ≡ m
    → ReleaseType.prerelease a n ≡ ReleaseType.prerelease b m
prerelease_eq h k = rw (h, k) refl

-- Versions that compare equal are equal.
release_type_eq : (a b : ReleaseType) → order a ≡ order b → number a ≡ number b → a ≡ b
release_type_eq (ReleaseType.prerelease a n) (ReleaseType.prerelease b m) h k =
    prerelease_eq (kind_eq a b n m h) k
release_type_eq (ReleaseType.prerelease a n) ReleaseType.release h k =
    absurd (omega (arith, h, order_below a n))
release_type_eq ReleaseType.release (ReleaseType.prerelease b m) h k =
    absurd (omega (arith, h, order_below b m))
release_type_eq ReleaseType.release ReleaseType.release h k = refl

-- Of two versions, either they are the same, or one and not the other is less.
pub lt-trichotomy :
    (v w : SemanticVersion)
    → ((v ≡ w) × (lt v w ≡ false) × (lt w v ≡ false))
      ⊎ (((lt v w ≡ true) × (lt w v ≡ false)) ⊎ ((lt v w ≡ false) × (lt w v ≡ true)))
unfolding lt
lt-trichotomy v w = ground (arith, release_type_eq v.release_type w.release_type)

pub order_at_most : (t : ReleaseType) → order t ≤ 4
order_at_most (ReleaseType.prerelease a n) = omega (arith, order_below a n)
order_at_most ReleaseType.release = omega arith

-- The order is transitive.
pub lt_trans : (u v w : SemanticVersion) → lt u v ≡ true → lt v w ≡ true → lt u w ≡ true
unfolding lt
lt_trans u v w h k = ground arith

-- `<=` says the same as `not >`, and equality of versions is equality of all their fields.
pub le-gt : (v w : SemanticVersion) → le v w ≡ not (gt v w)
unfolding le gt lt eq
le-gt v w = ground arith

-- Decrementing behind incrementing never raises, and gives the first version of the coexistence class.
pub dec-inc :
    (v : SemanticVersion)
    → let (major, minor, patch) = coexistence_class v in
      dec_first_nonzero (inc_first_nonzero v) ≡ ok (released major minor patch)
unfolding dec_first_nonzero inc_first_nonzero coexistence_class
dec-inc v = ground arith

pub release_order :
    (w : SemanticVersion) → is_release w ≡ true → w.release_type ≡ ReleaseType.release
unfolding is_release
release_order w r = ground arith

release_or_below : (t : ReleaseType) → (t ≡ ReleaseType.release) ⊎ (order t < 4)
release_or_below (ReleaseType.prerelease a n) = inr (order_below a n)
release_or_below ReleaseType.release = inl refl

pub prerelease_order_lt : (w : SemanticVersion) → is_release w ≡ false → order w.release_type < 4
unfolding is_release
prerelease_order_lt w r = ground (arith, release_or_below w.release_type)

-- `inc_release` makes a release that is greater than the version, and no release lies between them
-- but the version's own.
pub inc_release-next :
    (v w : SemanticVersion)
    → is_release w ≡ true
    → lt v w ≡ true
    → lt w (inc_release v) ≡ true
    → w ≡ released v.major v.minor v.patch
unfolding lt inc_release is_release
inc_release-next v w r h k = ground (arith, order_at_most v.release_type, release_order w r)

-- ===== src/Selector/Matching.antt =====
-- What a selector matches, and the selectors that stand for one stream.
use coretools.Prelude.{ℕ, ◌≡◌, ◌↔◌, ◌⊎◌, none, some, true, false, arith}
use coretools.Errors.{ok}
use coretools.Stream.{DataStream, buffered_type, output_type}
use coretools.Stream
use coretools.Selector.{
  DataStreamSelector, MatchSpec, matches, from_stream, as_stream, buffered, output,
}

-- The streams that a wildcard of each specifier is meant to take in: every one, the user's, the
-- system's, or the user's with the device reboots of the system.
abbrev pub InScope : MatchSpec → DataStream → Type 0
InScope MatchSpec.combined s = Unit {0}
InScope MatchSpec.user_only s = s.system ≡ false
InScope MatchSpec.system_only s = s.system ≡ true
InScope MatchSpec.user_and_breaks s = (s.system ≡ false) ⊎ (s.stream_id ≡ 1024)

-- A wildcard selector matches exactly the streams of its type that its specifier takes in.
pub wildcard-matches_iff :
    (t : ℕ) (spec : MatchSpec) (s : DataStream)
    → (matches (record { match_type = t; match_id = none; match_spec = spec }) s ≡ true)
      ↔ ((t ≡ s.stream_type) × InScope spec s)
unfolding matches
wildcard-matches_iff t MatchSpec.combined s = ground arith
wildcard-matches_iff t MatchSpec.user_only s = ground arith
wildcard-matches_iff t MatchSpec.system_only s = ground arith
wildcard-matches_iff t MatchSpec.user_and_breaks s = ground arith

-- A selector with an id matches exactly the streams of its type with that id: the user's stream and
-- the system's alike, whatever its specifier is.
pub singular-matches_iff :
    (t id : ℕ) (spec : MatchSpec) (s : DataStream)
    → (matches (record { match_type = t; match_id = some id; match_spec = spec }) s ≡ true)
      ↔ ((t ≡ s.stream_type) × (id ≡ s.stream_id))
unfolding matches
singular-matches_iff t id spec s = ground arith

-- The selector made from a stream converts back to that stream, matches it, and matches another
-- stream exactly if type and id agree, also where the other stream is the user's and this one the
-- system's.
pub from_stream_lem :
    (s u : DataStream)
    → (as_stream (from_stream s) ≡ ok s)
      × (matches (from_stream s) s ≡ true)
      × ((matches (from_stream s) u ≡ true)
          ↔ ((s.stream_type ≡ u.stream_type) × (s.stream_id ≡ u.stream_id)))
unfolding as_stream from_stream matches
from_stream_lem s u = ground arith

-- A selector and every stream that it matches agree on being persistently stored, and in which area.
pub matches-area :
    (sel : DataStreamSelector) (s : DataStream)
    → matches sel s ≡ true
    → (buffered sel ≡ Stream.buffered s) × (output sel ≡ Stream.output s)
unfolding matches buffered output Stream.buffered Stream.output
matches-area sel s h = ground arith

-- ===== src/Selector/Tests.antt =====
-- The packed forms of concrete selectors, and what they match.
use coretools.Prelude.{◌≡◌, ◌↔◌, true, false, none, arith}
use coretools.Errors.{ok}
use coretools.Stream.{DataStream}
use coretools.Selector
use coretools.Selector.{DataStreamSelector, MatchSpec}
use coretools.Selector.Encoding.{selector_from_encoded-encode}
use coretools.Selector.Matching.{from_stream_lem}

-- `all system outputs`.
abbrev system_outputs : DataStreamSelector
system_outputs = record { match_type = 5; match_id = none; match_spec = MatchSpec.system_only }

abbrev user_stream : DataStream
user_stream = record { stream_type = 5; stream_id = 1; system = false }

abbrev system_stream : DataStream
system_stream = record user_stream { system = true }

selector_from_encoded-encode_example :
    Selector.from_encoded (Selector.encode system_outputs) ≡ ok system_outputs
selector_from_encoded-encode_example =
    selector_from_encoded-encode system_outputs (omega arith, omega arith, ground arith)

from_stream_lem_example :
    (Selector.as_stream (Selector.from_stream user_stream) ≡ ok user_stream)
    × (Selector.matches (Selector.from_stream user_stream) user_stream ≡ true)
    × ((Selector.matches (Selector.from_stream user_stream) system_stream ≡ true) ↔ (
        (user_stream.stream_type ≡ system_stream.stream_type)
        × (user_stream.stream_id ≡ system_stream.stream_id)))
from_stream_lem_example = from_stream_lem user_stream system_stream

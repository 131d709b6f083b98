-- ===== src/Stream/Tests.antt =====
-- The packed forms of concrete streams.
use coretools.Prelude.{◌≡◌, refl, true, arith}
use coretools.Stream
use coretools.Stream.{DataStream}
use coretools.Stream.Encoding.{from_encoded-encode}

-- `system output 1024`, and the input that is copied to it.
abbrev reboots : DataStream
reboots = record { stream_type = 5; stream_id = 1024; system = true }

abbrev important_input : DataStream
important_input = record { stream_type = 3; stream_id = 1024; system = true }

reboots_packed : Stream.encode reboots ≡ 0x5C00
unfolding Stream.encode
reboots_packed = refl

from_encoded-encode_example : Stream.from_encoded (Stream.encode reboots) ≡ reboots
from_encoded-encode_example =
    from_encoded-encode reboots (record { type_fits = omega arith; id_fits = omega arith })

important_input_lem : Stream.important important_input ≡ true
unfolding Stream.important
important_input_lem = refl

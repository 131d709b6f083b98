-- ===== src/Processors/Tests.antt =====
-- The processing functions on concrete inputs.
use coretools.Prelude.{ℕ, ◌≡◌, ◌+◌, refl, pos, false}
use coretools.Errors.{Error, ok, err}
use coretools.Selector
use coretools.Selector.{DataStreamSelector, MatchSpec}
use coretools.Samples.{select_one, r1, engine, walker, counter_walker, constant_walker}
use coretools.Walker.Any.{StreamWalker}
use coretools.Processors.{Actions, drain}
use coretools.Processors.Copying.{drain_constant_diverges}

abbrev input_a : StreamWalker
input_a = StreamWalker.buffered walker

abbrev input_b : StreamWalker
input_b = StreamWalker.counter counter_walker

one_exhaustible : Selector.inexhaustible select_one ≡ false
unfolding Selector.inexhaustible
one_exhaustible = refl

drain_constant_diverges_example :
    (drain 100 engine (StreamWalker.virtual constant_walker)).0 ≡ err Error.diverged
drain_constant_diverges_example = drain_constant_diverges 100 engine constant_walker r1 refl refl

-- A device that counts its calls and answers with their number, and that has one streamer.
abbrev device : Actions
device = record {
  State = ℕ;
  rpc = λ addr id n. (ok (pos n), n + 1);
  mark_streamer = λ index n. (err Error.argument_error, n);
}

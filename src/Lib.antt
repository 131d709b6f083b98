-- ===== src/Lib.antt =====
-- A model of parts of CoreTools, with proofs about them: the sensor graph engine
-- (iotilesensorgraph/iotile/sg), the config database and the remote bridge of the emulated
-- controller, the connection manager
-- of the native BLE adapter, and from the core package the parser of report streams, the sparse memory
-- map of its debugging tools and the semantic versions.
--
-- The program and its parts
--
-- A sensor graph processes the readings of a device. A reading is pushed under a data stream into
-- the sensor log. The log gives it an id, stores it in the storage engine if its stream is buffered,
-- erases old readings where the engine is full, and notifies the stream walkers, which are the
-- cursors over the stored readings or hold the last reading themselves. Graph nodes look at their
-- input walkers to decide whether they are triggered, and their processing functions pop readings
-- from these walkers. Streamers own walkers too and turn what these have left into reports; the
-- sensor graph checks which streamers are due. Streams, selectors, slots and streamers have packed
-- forms for embedded devices.
--
-- The files
--
-- - Stream: `DataStream` of stream.py, with its packed form (Stream/Encoding) and the streams that
--   important inputs are copied to (Stream/Important).
-- - Selector: `DataStreamSelector` of stream.py, with matching (Selector/Matching) and the packed form
--   (Selector/Encoding).
-- - Slot: `SlotIdentifier` of slot.py and its descriptor.
-- - Reading: what the engine reads of `IOTileReading` (iotilecore/iotile/core/hw/reports/report.py).
-- - Engine: `InMemoryStorageEngine` of engine/in_memory.py. `push`, `popn`, `get`, `scan_storage`,
--   `count_matching`, `dump`, `restore` and `clear` have the names of the methods.
-- - Walker/Buffered: `BufferedStreamWalker` of walker.py. Queue states the abstract view, the queue of
--   matching readings from the walker's offset on; Loop the ends of the loops of `pop` and `peek`; Seek
--   the two forms of `seek`; Rollover what becomes of the view when readings are erased.
-- - Walker/Virtual, Walker/Counter: the walkers that hold their reading. Walker/Any: a walker of any
--   class, `InvalidStreamWalker` included, with the dispatch of the methods.
-- - SensorLog: `SensorLog` of sensor_log.py, and Push its `push`, `watch` and `inspect_last`. A walker
--   is a shared object: it has a number and its state is in the log. Sync, Room, Full, Rollover and
--   CaughtUp are about the ways that a push can go.
-- - Node: the triggers and connections of node.py. Processors: the functions of processors.py; the
--   executor of remote procedure calls is a parameter.
-- - Streamer: `DataStreamer` of streamer.py, Packing what fits the fields of the reports
--   (iotilecore/iotile/core/hw/reports), Reporting the reports of a streamer, and Descriptor the packed
--   form of streamer_descriptor.py.
-- - NodeDescriptor: the packed form of graph nodes of node_descriptor.py, with the triggers and the
--   numbers (Triggers) and the whole descriptor (RoundTrip).
-- - Graph: the databases of `SensorGraph` (graph.py), and Streamers its `mark_streamer` and
--   `check_streamers`.
-- - Allocator: `StreamAllocator` of parser/stream_allocator.py, which the compiler asks for streams of
--   its own and which splits a stream where its node has no output left. `add_node` of the sensor graph
--   is an argument. Fresh is about the ids, Outputs about one call, Repeated about many.
-- - ConfigDatabase: `ConfigEntry` and `ConfigDatabase` of the emulated controller
--   (iotileemulate/iotile/emulate/reference/controller_features/config_database.py), and Rpcs the RPCs
--   of its mixin. View is about the map from variables to values, Accounting and Space about the data
--   area, Streaming about the chunks that are sent to tiles.
-- - RemoteBridge: the update scripts of the emulated controller
--   (iotileemulate/iotile/emulate/reference/controller_features/remote_bridge.py); the parser of scripts is
--   an argument. Scripts is about a script that cannot be parsed.
-- - ConnectionManager: `ConnectionAction` and `ConnectionManager` of the native BLE adapter
--   (transport_plugins/native_ble/iotile_transport_native_ble/connection_manager.py): the tables, the
--   objects that they share and the queue. Requests are the calls that fill the queue, Handlers the
--   worker, Dict the tables. What a callback raises when it is called with arguments is an argument of
--   `init`. Linked, Lookups and Waiting are about the tables and what they share, Changes, Finishing and
--   Handling about one action, Runs, Transitions, Callbacks, Outcomes, Timeouts and Unanswered about what
--   follows for runs.
-- - ReportParser: `IOTileReportParser` (iotilecore/iotile/core/hw/reports/parser.py); the report formats
--   and the callback for reports are arguments. Moves and Appending are about the parts of
--   `process_data`, Settling about its loop, Chunks and Packets about streams.
-- - SparseMemory: `SparseMemory` (iotilecore/iotile/core/hw/debug/sparse_memory.py); Reading is about what
--   is read after a change.
-- - Semver: `SemanticVersion` and `SemanticVersionRange` behind the parsing of their strings.
-- - Prelude: the names of the libraries that the others use, Boolean tests, lists, integers, and the
--   bitwise operations in terms of quotients and remainders. Errors: the exceptions. Samples: the
--   readings, walkers and logs of the tests.
--
-- How the source is modelled
--
-- Python's integers are natural numbers where the source keeps them so, and integers where they may
-- be negative: values of readings, offsets of walkers, free outputs. A method that changes its
-- object returns the new state beside its result. Where an exception is raised the state is that
-- with the changes that the source has made by then; a method that returns its state inside its
-- result has made none where it raises. A dict is a list of pairs with no key twice. Bytes are lists
-- of numbers.
--
-- Loops are recursive on the lists that they walk, but for those that call `pop`. The loops of `pop`
-- and `peek` of a buffered walker are recursive on a number of rounds, one more than there are
-- offsets from the walker's to the end of its area; the offset moves up in each round, so that the
-- engine has no reading at it in the last one at the latest. The loop of a processing function has
-- one round more than the first input's count says, which each `pop` lowers; a constant input's
-- count does not go down. The loop that fills a report is recursive on the number of readings that
-- the report may still take. The loop of `add_data` of the report parser
-- has one round more than a measure that each round lowers: four for each byte, and up to three for the
-- state. The error `diverged` stands for a loop that has no rounds left, and is no
-- exception of the program.
--
-- What is not modelled
--
-- The text forms of streams, selectors, slots, versions and nodes, and the dumps of walkers and config
-- entries that hold them; the part of the sensor graph that adds nodes and processes inputs; the parser
-- but for its stream allocator, the optimizer, the simulator and the output formats of sensor graphs; the
-- packed reports, which the report parser takes as an argument; keys of the connection manager and of
-- the memory map that are of no documented type; and the rest of the repository: device manager, the
-- radio drivers of the transports, gateway, the other parts of the emulator, build and shipping tools.
-- Most of the latter is input and output. Logging is left out.
pub mod Prelude
pub mod Errors
pub mod Stream
pub mod Selector
pub mod Slot
pub mod Reading
pub mod Engine
pub mod Walker
pub mod Processors
pub mod SensorLog
pub mod Samples
pub mod Semver
pub mod Node
pub mod Streamer
pub mod Graph
pub mod NodeDescriptor
pub mod Allocator
pub mod ConfigDatabase
pub mod ConnectionManager
pub mod ReportParser
pub mod SparseMemory
pub mod RemoteBridge

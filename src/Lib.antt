-- ===== src/Lib.antt =====
-- A verification library for esphome-dspi, the ESPHome component that drives a DSPi audio
-- processor over a UART.
--
-- The program. components/dspi/crc16.h computes the checksum of every frame. protocol.h names
-- the opcodes and parses the device's structures. framing.h builds request frames and parses
-- what comes back, a byte at a time. dspi.h and dspi.cpp are the hub: a queue of requests, of
-- which one is in flight at a time, retries with a backoff, a probe that identifies the device,
-- debounced refreshes, presets whose load is confirmed by polling, and the state machine of the
-- spectrum analyser. Entities listen to the states that the hub publishes.
--
-- The model. Prelude holds the shared names, the lemmas on lists, and Prelude/Bits those on
-- bits. Crc16 is crc16.h. Protocol/Wire, Opcode, Toggle, Preset, Rta and Notify are the parts of
-- protocol.h. Framing/Build is `build_request_frame` and Framing/Parser the class `FrameParser`.
-- Hub/State holds the fields of `DSPiHub` in groups. Hub/Transaction and Hub/Queue are the
-- request queue, Hub/Requests the common requests, Hub/Control the public setters, Hub/Readback
-- and Hub/Probe the replies about values and about the device, Hub/Sources the list of
-- selectable sources that is logged, Hub/Dump `dump_config`, Hub/Configure what the generated
-- code sets, Hub/Presets the presets, Hub/Rta and Hub/RtaReplies the analyser, Hub/Transport
-- responses and retries, Hub/Receive the bytes that arrive and the notifications, and Hub/Loop
-- `setup` and `loop`. A function keeps its name without the trailing underscore; `enqueue_` on
-- the whole hub is `enqueue_txn`. Hub/Reach is the step relation of the hubs that can be
-- reached; Hub/Told, Hub/Live and Hub/Shown hold invariants of what was told to listeners,
-- Hub/Probe/Selectable what the set of selectable sources holds, Hub/Progress what a pass does
-- for what waits, and Hub/Transport/Unanswered the passes over a request that no one answers.
-- Entities/Number, Switch, Select, Sensor and TextSensor are the listeners of
-- components/dspi/number and its siblings, Entities/Listener what a listener promises,
-- Entities/Registered the listeners as its instances, Entities/Current the entities beside the
-- hub, Hub/Sync a device that answers every request, the exchanges with it and the passes that
-- make them up, Hub/Sync/Written a write and its acknowledgement, Entities/Synced what the
-- entities show after it, Entities/Wish a volume until it is shown, Entities/Echo a volume and
-- Entities/Chosen an option of a select there and back. Hub/Update is a band update and the
-- trigger of automation.h, Entities/Dump the entities' `dump_config`, Hub/RtaReplies/Asked and
-- BringUp what the phases of the analyser ask for and how it comes up, Hub/Wrap the deadlines on
-- a clock that wraps around. Protocol/Rta/Level holds the level helpers. Witnesses applies the
-- theorems to concrete inputs.
--
-- How state is modelled. A handler takes the hub and returns it. What leaves the hub, frames
-- written, states published, band updates and the log line of the selectable sources, is a list,
-- newest first. The bytes that wait in the UART are the argument of a pass, and `millis()`
-- answers one value throughout it, the time at which the pass began: that `millis()` may have
-- moved on when `go_offline_` stores it, after `loop` took `now`, is not seen. Pointers to
-- handlers are the constructors of `OnOk` and `OnFail`. Unsigned integers are native numbers
-- with their wrap-around written out; a float is its bit pattern, and ESPHome's `clamp` is a
-- parameter. Loops are structural: over the slots of the queue, over the bytes of a budget, and
-- sixteen rounds over a 16-bit mask, which is enough for every mask. A refresh is given 24
-- passes of `loop`: twelve slots, each of whose requests asks for one more at most. The analyser
-- comes up in 42 answers: one for its capabilities, one for each of 37 bands and one spare, and
-- three for the configuration.
--
-- The text of names and of log lines is bytes or strings; a log call of `dump_config` is a
-- constructor with the values that it shows. An entity keeps what it published, oldest first.
-- The device, where a theorem needs one, is a parameter: a function from opcodes to the bytes
-- that it answers, which in Entities/Wish depends on the frame that the hub has written.
-- Equality of floats is written on bit patterns; the arithmetic of the level helpers, and the
-- conversion of a rate to a float, are parameters. A slot number has three decimal digits at
-- most, which is the fuel of its printing.
--
-- Not modelled: an automation or listener that calls a setter of the hub from within its
-- callback, as publications are recorded and heard after the pass; other log lines, the
-- formatting of log lines, the UART driver, the Python that generates code, and the tests and
-- tools.
pub mod Prelude
pub mod Crc16
pub mod Protocol
pub mod Framing
pub mod Hub
pub mod Entities
pub mod Witnesses

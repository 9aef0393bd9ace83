-- ===== src/Lib.antt =====
-- Verification library of anolis, the runtime that supervises device providers and routes calls to
-- them (C++, under core/). The parts modelled, and where each stands:
--
-- Base        what the files share: Boolean tests, lists over the native numbers, texts as lists of
--             bytes, the maps and sets of the C++ library as lists of entries, integers.
-- Protocol    the names used of the generated protocol messages: status codes, values, ArgSpec. C++
--             `double` is a parameter (Doubles): a type, a conversion from integers, an order, a zero.
-- Supervisor  core/provider/provider_supervisor.{hpp,cpp}: restart budget, back-off, circuit, probes and
--             recovery of crashed providers, one function per method; Supervisor/Loop is the health part
--             of Runtime::run (core/runtime/runtime.cpp) that drives it, with at most one restart in
--             flight.
-- Mode        core/automation/mode_manager.{hpp,cpp}: set_mode as begin_change, run_before and commit, its
--             two critical sections and the callbacks between them; Mode/Gates adds the e-stop gate of
--             core/runtime/actuation_gate.cpp, Mode/Threads any interleaving of concurrent changes.
-- LossLatch   core/control/device_loss_latch.{hpp,cpp}: edges of device reachability, in any order of
--             arrival, and the latch on devices that were lost.
-- Reissue     core/control/reissue_worker.{hpp,cpp}: the thread that makes the re-assertion calls, as a
--             machine over its events.
-- Registry    core/registry/device_registry.{hpp,cpp}: the published inventory and its index by handle.
-- Router      core/control/call_router.{hpp,cpp}: Arguments (coercion and validation), Selector (device
--             handles and function selectors), Checks (each check of execute_call), Execute (the chain
--             of them, latch_refuses, validate_call). It reads the mode of Mode, the two latches and the
--             inventory of Registry.
-- StateCache  core/state/state_cache.{hpp,cpp}: cached readings, polls (Polling), rebuilds (Rebuild), the
--             events and getters (Publish). Edges, Carry, Reconcile, Polls and History follow the edges
--             that the cache sends over any history; Latching composes them with LossLatch, in any order
--             of arrival; Told watches the availability events.
-- Framing     core/provider/framed_stdio_client.{hpp,cpp}: the length-prefixed frames over pipes, each
--             round of a loop with what its system calls give.
-- SafeState   core/control/safe_state.{hpp,cpp} and provider_value_bridge.hpp: the plan, the ladder
--             (Ladder) that calls the Router, and the controller of the software stop (Controller); Stop
--             and Restart run it with its disk over restarts of the process.
-- LatchStore  core/control/latch_store.{hpp,cpp}: the record of the stop on disk, with a save that fails
--             or is cut off at any of its calls.
-- StopChain   core/control/stop_chain.{hpp,cpp} and Runtime::update_stop_chain: the emergency stop that a
--             signal of the StateCache reports, and the devices that contradict it; Released and Held
--             relate it to the clear and the hold of the software stop.
-- Config      core/runtime/config.{hpp,cpp} and core/provider/provider_config.hpp: validate_config, with
--             the first check that fails as its error; Http, Providers, Automation and Accepted state
--             what it accepts, and Providers that its policies suit the Supervisor.
-- Parameters  core/automation/parameter_{types,value_bridge,manager}.{hpp,cpp}: typed parameters with their
--             checks and listeners; Threads lets threads write between the calls of a listener.
-- Journal     core/runs/run_types.hpp and core/runs/run_journal.{hpp,cpp}: the journal of runs. JSON is a
--             parameter (Json), with what the journal relies on; Codec is to_json and the readers, Files
--             the files as bytes with appends that fail or are cut off, Lines what those do to the lines,
--             Log the replay of the log, Records the state, Stream the events of a run, Operations the
--             other methods of RunJournal and its restart. Settled and Closing follow a closed run through
--             a history, Single and Open the one that is open, Streams and Kept an event into its stream.
-- Events      core/events/{event_types.hpp,event_emitter.hpp,event_emitter.cpp}: a subscriber's bounded
--             queue, filters, and the emitter with its queues as a store.
-- Tests       the theorems at concrete inputs.
--
-- How state and time are modelled. Each method that holds one lock from start to end is one function
-- on the state. Where the source gives a lock up or takes none, other threads may act in between: the
-- mode manager's change is three steps over a system of pending changes, and a call of the router
-- takes every value that it reads of other parts from a record of readings, one reading for each read.
-- An aliased object is a store: the emitter's queues, which it shares with the subscriptions. Times
-- are nanoseconds of the steady clock, milliseconds where the source counts those; C++ `int`s that are
-- never negative are natural numbers without a bound; signed values that may be negative are integers;
-- the wrap of the 64-bit counters is written out. A read out of bounds and `front()` of an empty queue
-- are `none`. The only fuel is that of to_string, one more than the number, which each step divides by
-- ten. A loop over system calls recurses on the list of what they give; a list that ends leaves it
-- blocked, and what lists are enough is stated with the theorems. A poll and a rebuild of the state
-- cache are the chains of their sections, and a history may hold single sections as well, as they fall
-- between those of another thread. What a part sends to others is a list of notices or effects, in
-- order. A crash of the machine may cut a save of the latch record off at each of its calls, and leaves
-- any content in the file that is being written; a rename happens as a whole or not at all.
--
-- Not modelled: what only logs; the text of most errors, which are values with the same parts; the
-- processes of the providers and the protocol calls, which are what a provider answers; the Windows
-- branches; the threads that only repeat a modelled step (the poll loop); the expected losses
-- of the stop chain; the minting of run ids, the sync calls of the journal by themselves (a failure of
-- one is a value) and a machine that loses bytes which were not synced; the behaviour-tree engine
-- (BehaviorTree.CPP runs it), HTTP, telemetry and the reading of YAML.
pub mod Base
pub mod Config
pub mod Events
pub mod Framing
pub mod Journal
pub mod LatchStore
pub mod LossLatch
pub mod Mode
pub mod Parameters
pub mod Protocol
pub mod Registry
pub mod Reissue
pub mod Router
pub mod SafeState
pub mod StateCache
pub mod StopChain
pub mod Supervisor
pub mod Tests

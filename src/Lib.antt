-- ===== src/Lib.antt =====
-- Phynned keeps games on the right cores of a machine with unequal ones. An agent observes the
-- processes, a policy engine decides which of them to pin and where, an executor carries the
-- decisions out and takes them back, and a journal on the disk is there so that a crash leaves no
-- process pinned for good. This library models that core and proves what holds of it.
--
-- The parts, and the files that model them:
--   * Action.Journal models action/src/RevertJournal.cpp: Codec the bytes of a slot, Disk the file
--     as a sequence of slots, State the journal and its operations, Process (in Action) the test
--     whether a live process is the recorded one. Refine relates the bytes to a list of slots,
--     Recover, Lifecycle, Lasting, Stale and Torn state what a restart finds.
--   * Action.Executor models action/src/ActionExecutor.cpp: the tables, Revert the ways back, Apply
--     the ways to place a process and the constructor, each operation with its calls of the journal,
--     of the log and of the operating system. Steps has the operations as steps and their runs,
--     Start what the constructor does with what a crash left.
--   * Action.AcProbe models action/src/AcProbe.cpp, the probe that opens a process once to learn
--     whether its affinity may be set: Closed and Opens state when it opens a process and what it
--     writes down, Stamp, Label and Once what it remembers, NoOp what it changes.
--   * Policy models policy/: Condition the conditions and rules, Protected the list of programs that
--     are never moved, Engine the table of rules, Engine.Evaluate the cycle of the engine, and
--     Engine.Defaults the rules for a topology.
--   * Core.UserPin models core/include/phynned/core/UserPinRule.hpp, the decision for a user's pin.
--   * Core.AutoRevertGuard models core/src/AutoRevertGuard.cpp, which reverts through the executor
--     and marks a program bad in the memory when its frames get worse.
--   * Learn.PerGameMemory models the tables of learn/src/PerGameMemory.cpp, with the expiry of old
--     entries in its Age and Days, and Learn.RouteAdvisor the advice of learn/src/RouteAdvisor.cpp.
--   * Observer.AcDriverOracle models the verdicts on anti-cheats of observer/src/AcDriverOracle.cpp,
--     and Core.UserRuleLookup the lookup of a user's rule for a process, of
--     core/include/phynned/core/UserRuleLookup.hpp, which asks the oracle and the configuration.
--   * Config models config/src/ConfigStore.cpp: its data and its lookups, Numbers and Toml the parts
--     of a line, Load the reader of the file, Save the text that is written, and RoundTrip what the
--     reader makes of that text, in modules from the fields of a line to the whole file.
--   * Policy.AutoPolicySelector models policy/include/phynned/policy/AutoPolicySelector.hpp: the class
--     of the processor and the cores for a kind of program, with Masks the bits of the masks,
--     Table the documented table and Remembered the entries of the memory that go before it.
--   * Core.AgentRuntime models parts of core/src/AgentRuntime.cpp: Commands the commands from the
--     shared memory, Scan the quiet mode, and Corral the pass that moves processes of the background;
--     Gate, Pause, Quiet, Rules and Reload state what they do.
--   * Bench models bench/: Baseline a recording, and AbRunner the runner of A/B tests, with Protocol
--     its state machine as a relation, Runs its invariant, and Feeds and Report a whole test.
--   * Observer has the data on processes that the parts exchange (observer/), Hw the calls of the
--     operating system, and Prelude the names, tests and lists that all share.
--
-- How the code is rendered. A method that changes its object is a function from the record of its
-- fields to the new record; the world that the operating system holds is a field of the executor,
-- and a call of framework/ or Win32 a function of the parameter Hw, with the laws of HwLaws where a
-- theorem needs them, and Accepts for a process that takes a certain mask. Fixed arrays with a
-- count are lists, and their capacities are tests as in the code. Masks, pids and times are natural
-- numbers; a field of the disk has its width as a bound (IsPlacement), and the differences of times
-- of the guard wrap at 64 bits. Strings end at their NUL. float is a parameter (Floats); std::sort
-- is an insertion sort. The readers of the journal and of the configuration run on fuel, one unit
-- for each byte of the file; each step takes 112 bytes of the journal, and at least one byte of the
-- configuration, so that it never runs out.
--
-- Not modelled: framework/, a copy of the Phyriad library, whose calls are parameters; the rest of
-- the agent's loop, with the passes that place the user's pins and the decisions of the policy; the
-- paths, directories and opening of the files of the configuration; the observation of processes, the
-- perceptual metrics, ipc/ and the tools; messages to the console; failing reads, seeks and writes of
-- an open journal.
pub mod Prelude
pub mod Action
pub mod Bench
pub mod Config
pub mod Core
pub mod Hw
pub mod Learn
pub mod Observer
pub mod Policy

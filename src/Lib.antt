-- ===== src/Lib.antt =====
-- The decisions of the protected daemon (protected-daemon/src), as a library of definitions that run
-- and theorems about them.
--
-- The daemon watches the processes of a machine, keeps the protected ones from being disturbed, and
-- moves those that disturb them into a cgroup with little CPU time. A detector gives one list of
-- scored candidates per interval; the throttle controller keeps one record per pid and decides, with
-- hysteresis, a minimum duration and a cooldown, when a pid is moved; the moves are writes of
-- cgroup.procs below a base path.
--
-- Prelude: what the modules share. `Tests` has the Boolean tests on numbers, `Signed` the pids,
--   `Word` the 64-bit arithmetic with its wrap-around and C strings in their buffers, `Double` the
--   floating-point operations that the program uses, which are a parameter: no law is assumed of
--   them, so that the theorems hold of IEEE arithmetic with its rounding and its NaN; `fixed_point`
--   is an instance for runs.
-- Cgroup: protected-daemon/src/cgroup.c. `Control` has its functions, one by one, with the kernel's
--   answer to each write as a parameter and every attempt in a log; `Tree` reads the log as the group
--   of each pid and fills `Interface`, which is all that the controller knows of it.
-- Controller: protected-daemon/src/throttle_controller.c. `Types` has the structures of its header,
--   `Config` the configuration and the clock, `Candidates` the checks of a candidate list and the
--   lookup of records, `Record` what happens to one record, `Apply` the operations on the controller
--   (throttle_controller_init, _apply_candidates, _release_all, _destroy and _get_record). The array of
--   records is the list of its first record_count elements, record_cap its allocated size; a pointer
--   to a record is its pid, by which the array is written. The other modules hold the proofs:
--   `Transitions` the state machine of one record, `Room` the checks, `Loops` and `Cases` the rules for
--   the loops and the ways of a call, `Counted` what the statistics count, `Invariant`, `Membership`,
--   `Persistence`, `Counting`, `Atomic` and `Release` the theorems of the whole operations.
--
-- DramMapping: protected-daemon/src/dram_mapping.c. `Mapping` has its functions, `Bits` the operations
--   on the bits of a word that they use; `Install` and `Classes` hold the proofs. The array of masks is
--   the list of its first mask_count elements.
-- BankProfile: protected-daemon/src/bank_profile.c. `Profile` has the histogram of bank classes: additions,
--   bank_profile_merge with profile_finalize, and bank_profile_overlap_score; `Sampling` which regions are
--   sampled, sample_region over the answers of the address translation; `Build` is
--   bank_profile_build over the parsed lines of the maps file. `Sums`, `Overlap`, `Histogram`,
--   `Merge` and `Accounting` hold the proofs. The array of entries is the list of its first entry_count
--   elements.
--
-- ProcessTable: protected-daemon/src/process.c. `Table` has the slots and the operations on them, with the
--   two probe loops. `Search`, `Claims`, `Writes`, `Refine`, `Forks`, `Removal` and `Snapshot` hold the proofs: the chains of probes, the
--   effect of one write, each operation against a map from pids to processes, and the snapshot; `Entries`
--   says field by field what entry an event asks for.
-- Daemon: protected-daemon/src/policy.c, and handle_event and init_dram_bank_mapping of
--   protected-daemon/src/protected_daemon.c.
--   `Policy` has the configuration file and the group decision, `Events` the handler on a table and a
--   cgroup tree, which it knows through `Cgroup.Interface` only. `Asked`, `Spec` and `Handling` say what each
--   kind of event does, `Shield` and `Persistence` what lasts over runs of events. `Banks` is the
--   start of the DRAM mapping from Calibration and DramMapping, and `Readiness` when it succeeds.
-- AddrTranslate: protected-daemon/src/addr_translate.c. `Pagemap` reads entries, `Translate` has the
--   contexts and the translation, with the descriptors that are open as a list. `Words`, `Exact` and
--   `Descriptors` hold the proofs.
-- CandidateFilter: protected-daemon/src/candidate_filter.c. `Filter` has its functions, `Kinds` the proofs.
-- Activity: protected-daemon/src/proc_activity.c and protected-daemon/src/activity_prefilter.c. `Stat` parses
--   the line of a stat file, `Sampler` is proc_activity_sample_now over the answers of the system, `Delta`
--   is proc_activity_compute_delta, `Prefilter` the selection of the most active observations, with the
--   order that qsort gives as a parameter; `StatNumbers`, `StatLine`, `Sampled`, `Differences` and
--   `Selection` hold the proofs.
-- Detector: protected-daemon/src/interference_detector.c. `Types` has its data, `Collect` the profile of the
--   protected processes and the active normal ones, `Detect` the run that joins both into candidates for
--   the controller; it calls the functions of BankProfile and Activity. `Found`, `Examination`, `Output`
--   and `Handover` hold the proofs.
-- Calibration: protected-daemon/src/calibration.c. `Json` searches the result file for keys, and reads its
--   strings, objects and arrays, `Masks` its numbers and masks, `Result` is calibration_load_result, `Worker`
--   the wait for the worker and its end by signals, and `Run` is calibration_run. `Waits`, `Scanned`,
--   `Accepted`, `Taken`, `Runs` and `Strings` hold the proofs; the result goes to DramMapping.
--
-- The process table has a capacity as its parameter, which stands for PROC_MAX; the theorems hold for
-- every capacity from one up to 2^64. A pointer into the table is the index of its slot.
--
-- A clock reading is an argument of the operation that asks for it, and the success of an allocation
-- one of init. The loops are structural recursion on their lists or
-- on the number of turns that are left, but for five that have fuel. That of
-- the decimal digits of a pid is one more than the pid, which is enough since each digit divides by
-- ten; that of the sampling of a region is its number of pages, which is enough since the stride is at
-- least one and no index wraps; the loops of the wait for the calibration worker and of its end have fuel for
-- their turns: where the clock goes on by the sleep of a turn, ten for each second of the limit and twenty
-- for the grace are enough, and the loop after SIGKILL needs one for each call of waitpid. That call
-- blocks, and may never return; then the run has no result. A
-- word has 64 bits, so the bit operations go through 64.
--
-- Not modelled: the text of messages (a message is a constructor with the values printed into it), null
-- pointers that a caller inside the daemon never passes, the parsing of the maps file of /proc, the steps of
-- the calibration worker between fork and exec, main with its ring buffer, the BPF program and the
-- experiments.
pub mod Prelude
pub mod Cgroup
pub mod Controller
pub mod DramMapping
pub mod BankProfile
pub mod ProcessTable
pub mod Daemon
pub mod AddrTranslate
pub mod CandidateFilter
pub mod Activity
pub mod Detector
pub mod Calibration

-- ===== src/Lib.antt =====
-- fio.chronicle: the receiver of a chain's state history, and what it keeps and passes on.
--
-- The receiver plugin (chronicle-receiver/receiver_plugin.cpp) reads blocks from a node, keeps its
-- position, the recent blocks and the contracts' ABIs in a database with undo sessions, and
-- publishes events on channels (chronicle-receiver/receiver_plugin.hpp). An exporter plugin
-- subscribes to these, acknowledges blocks and may slow the receiver down.
--
-- Files and code:
--   Prelude          Boolean tests and uint32_t arithmetic (Tests), lists and sets (Lists), calls
--                    that change an object and may throw (Action), and rules for what they keep
--                    (Keeps) and ensure (Ensures).
--   Store            The tables and the orders of their indices (Tables), what the code uses of
--                    a unique index (Index), chainbase and abieos as interfaces with laws
--                    (Chainbase, Abieos), and a database that meets them (Sample).
--   Receiver.State   The fields of receiver_plugin_impl in four parts: the position (Chain),
--                    acknowledgements and pauses (Flow), interactive requests (Requests), and the
--                    database, the ABI cache and what was published (World).
--   Receiver.Message get_type, check_variant, and messages as they are decoded.
--   Receiver.Abi     init_contract_abi_ctxt to get_contract_abi_ready.
--   Receiver.Deltas, Receiver.Traces
--                    receive_deltas, receive_traces.
--   Receiver.Flow    continue_read, check_pause, check_stale_head, commit_db, close, on_fail,
--                    callback, and ack_block, slowdown, exporter_will_ack_blocks, abort_receiver.
--   Receiver.Interactive
--                    request_blocks, on_block_req, process_interactive_reqs.
--   Receiver.Prepare what receive_result does with a block before it becomes the head: the
--                    revision, forks, the order of blocks.
--   Receiver.Blocks  receive_result, receive_block and save_state: the handler of a message is
--                    cut where it branches, and put together by receive_this.
--   Receiver.Startup revert_uncommitted_revisions, load_state, start_read and its first message.
--   Receiver.Options set_program_options, plugin_initialize, init, is_noexport_opt.
--   Receiver.Launch  add_dependency, start_after_dependencies, start, plugin_shutdown.
--   Receiver.Snapshot
--                    write_snapshot and read_snapshot, with chronicle_portable_state.hpp.
--   Exporter.Timestamp
--                    The correction of expiration timestamps in exp_relic_plugin.cpp.
--   Exporter.Text    Texts as lists of bytes, with std::stoul, atoi and std::to_string (Numbers).
--   Exporter.Json    rapidjson's values, and getjsonstring of exp_relic_plugin.hpp.
--   Exporter.Relic   exp_relic_plugin.cpp: its state and statements; the actions it handles
--                    (Domains, Handles, Requests, Transfers) and the choice among them (Choice);
--                    traces (Actions); the other messages (Blocks); the queue (Queue); its
--                    options, the connection and the subscriptions (Setup).
--   Exporter.Ws      exp_ws_plugin.cpp: its state and callbacks; its messages, with
--                    chronicle_msgtypes.h (Messages).
--   Exporter.Decoder decoder_plugin.cpp: events as JSON, and the way of a block's end to the relic
--                    exporter (Relic).
--   Exporter.Dummy   examples/exp-dummy-plugin, and that there is only one exporter.
--   Exporter.Keys    keyops.hpp: from a public key to an account's name; name.hpp (Name).
--   The child modules of each part have its theorems; Receiver.Tests and Exporter.Tests have runs.
--
-- A call of the program takes the state and gives its result, or the exception, with the new
-- state: what was written before a throw stays written. A callback of the event loop is one such
-- call, so any order of callbacks is a sequence of calls. Published events, requests to the node,
-- timers and the closing of the stream are appended to `out` in their order. The exporters have
-- states of their own; they meet the receiver in the acknowledgements (Exporter.Relic.EndBlock).
--
-- Fuel: the loop that undoes sessions at a fork has one round more than the revision counts, and
-- the one at the start one more than there are sessions; the error does_not_return stands for
-- running out. A round undoes a session, so this is enough wherever the sessions are, as the
-- theorems on the fork and on the start show. Printing a number has 20 rounds, as many as a
-- uint64_t has digits, and the carry of DecodeBase58 four, as many as 32 bits have bytes. All other
-- loops run over lists.
--
-- Numbers: block numbers are uint32_t, and subtraction on them wraps around (sub32); names,
-- checksums and payloads that are only passed on are plain numbers.
--
-- Not modelled: chainbase, abieos, appbase, fc and boost (external; the first two are interfaces);
-- the decoding of bytes, where `none` stands for a decoder that throws; log lines; asserts; locks
-- between processes; the wrappers of struct name in name.hpp; main.cpp, which registers the
-- receiver and runs appbase. Boost's options and eosio's strict name parser are the records
-- Options and Names of Receiver.Options, with whether the lock file and the database can be
-- opened; the states of the other plugins and the error codes of the connection are arguments of
-- the callbacks in Receiver.Launch. libpq and rapidjson are the record Services of Exporter.Relic,
-- with key_to_account as a total function, which Exporter.Keys shows it is not; the printers of
-- abieos, eosio and fc are the record Printers of Exporter.Decoder; the socket of Exporter.Ws is
-- effects and arguments of callbacks.
pub mod Prelude
pub mod Store
pub mod Receiver
pub mod Exporter

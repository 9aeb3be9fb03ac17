-- ===== src/Lib.antt =====
-- sipbot is a SIP call robot: it registers accounts, answers and places calls, plays or echoes audio,
-- sends and receives DTMF, and shows the calls on a web page. This library models the parts of it
-- that carry its own logic, and proves what they guarantee.
--
-- The parts, and how they work together:
--   Stats (src/stats.rs) holds the counters that every part of a call adds to. The atomic counters are
--     numbers that wrap at 32 or 64 bits; one operation is one step. Report is what is printed of them.
--   CsvStats (src/csv_stats.rs) is the CSV file of a load test and its final summary, from Stats.
--   AudioQuality (src/audio_quality.rs) is the analysis of decoded frames, with its counters.
--   Recorder (src/recorder.rs) is the task that writes both sides of a call into one file.
--   Dtmf (src/dtmf.rs): Digit has the tables between digits and events, Packet the RFC 4733 payload,
--     Sdp the telephone events of an SDP document, with `pick_telephone_event` and, in Inject,
--     `inject_telephone_event_sdp` of src/media.rs; Caps is `inject_telephone_event_caps`.
--   Media (src/media.rs): Frame builds the two frames of a digit. Sequence, Timestamp and Sample follow
--     a received packet through `record_seq_gap`, `record_ts_jump` and `process_sample`, the echo path,
--     or `process_recorded_sample`, which only records;
--     Nack is `sync_nack_stats`. Playback is the loop of `play_samples`, one step for a tick of its
--     timer, and SendDtmf is `send_dtmf` on the RTP timeline that both share. Counters go to Stats,
--     telephone events through Dtmf. Receive is the loop of `spawn_audio_loop_into` over the samples,
--     which chooses the decoder for Sample; Codecs has the codecs of a session and their order,
--     and Answer what an answer of the other side changes.
--   Web (src/web/state.rs, src/web/inspector.rs): Record is the record of a call, Registry the list of
--     the records, newest first, and Inspector what each SIP message that passes does to them. Json
--     (src/web/state.rs) is a record as JSON and back, Api (src/web/api.rs) the edits of strategies and
--     accounts (Config), Request (src/web/api.rs) the account of a test call from a request and a
--     profile, Control (src/web/api.rs) the end of a call, its DTMF, its deletion and the list of the
--     calls, Files (src/web/media.rs) the sound files, and Serve (src/web/mod.rs) the bots of the serve
--     mode and their ports.
--   Config (src/config.rs): Account and Strategy are the configuration and the merge of a strategy into
--     an account, Hangup the effective hangup mode, Transport the transport names, Flows the parsers
--     of the timed flows.
--   Sip (src/sip.rs): Caller is the filter on callers, Address the SIP and WebSocket addresses. Call is
--     an incoming call, `handle_invite`: Early has its stages up to the answer, Answer those from the
--     answer on, and Task the record of the call (Web, in serve mode), the stages put together, the
--     guard and the counters (Stats). Phases has the order of requests that a server dialog allows and
--     the facts that hold between the stages; Stages proves them of each stage, Outcome of the stages
--     together, Results of the whole task, and Serving of its record. Health is the check of a call
--     that is over. Outbound is an outgoing call, `make_call`, with its loop over the INVITE. Dispatch
--     is `handle_incoming_transaction` and the handling of a re-INVITE and a REFER. Flows has the timed
--     requests of an established call, Runner the runs of a bot (`run_call`, the end of `run_wait`,
--     single requests), Registration the registration loop, which reports to Status, and Endpoint the
--     transport, the contact and the addresses of a bot.
--   Cli (src/main.rs) is the command line: the configuration where there is no file, and in Run the
--     overrides of the accounts and the bots that are started.
--   Status (src/status.rs) is the board of registration statuses.
--   Prelude has the shared helpers: tests on numbers, lists, text as a list of code points, and the
--     printing and parsing of decimal numbers. Tests holds runs on concrete inputs.
--
-- Bounds and fuel: an unsigned word of w bits is a number, and its wrap-around is written out. The
-- loop that trims the registry has one round more than there are records, and each round removes
-- one; the loops that strip a prefix and replace a part of a text have a round for each character;
-- printing a number n has n + 1 rounds, more than it has digits. The loop over an INVITE runs on the
-- list of the events that it sees, the registration loop on the list of its results. The search for
-- a payload type has a round for each one that is there and one more, the wait for the calls to end
-- 51 rounds. The search for a free name tries as often as the source does, 99
-- or 999 times.
--
-- Not modelled: the rustrtc and rsipstack crates (peer connections, dialogs, transactions) and the
-- codecs and resamplers, which are parameters where they are used, a call's `World` and `Network`
-- among them; how long a stage of a call waits; floats, which are a parameter (Prelude/Floats) of the
-- audio analysis and the averages, and the resampling; files but the sound files, the recordings
-- and the CSV file, the text of JSON,
-- TOML and HTTP; the scheduling of tasks, of which a theorem sees one sequence of steps; logging.
-- `to_lowercase` changes the letters of ASCII only, and other alphabets are left as they are.
mod Prelude
pub mod Status
pub mod Stats
pub mod Dtmf
pub mod Media
pub mod Web
pub mod Sip
pub mod Config
pub mod Recorder
pub mod CsvStats
pub mod AudioQuality
pub mod Cli
mod Tests

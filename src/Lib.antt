-- ===== src/Lib.antt =====
-- The telemetry scripts of the cluster size operator for disconnected clusters
-- (telemetry_receiver/*.py). Clusters send their nodes in UDP datagrams. The receiver puts messages
-- together from frames, checks their signature, decodes them, and appends them to the log of the
-- day. A second script reduces a range of these logs to the newest snapshot of each cluster, and a
-- third one evaluates that file: which subscriptions the nodes need, which are available, and the
-- gaps. A record of a log is a line with a tag: `H` for a cluster, `N` for a node, `R` for a lookup
-- table, `T` for the signature.
--
-- Modules:
--   Prelude: names of the library, lists, integers, equality. Text: `str`. Dict: `dict`, in the order
--     of insertion. Dates: `date`, `strptime` and `fromtimestamp`. Base64: base64 and UTF-8.
--   Receiver: telemetry_receiver/telemetry_receiver.py. Receiver/Assembly is the loop of `main`
--     (`receive` is a round of it), Receiver/Message is `process_completed_message`, and
--     Receiver/Decode has `decode_epoch`, `extract_lookup_table` and the decoding of a line.
--     Receiver/ClusterIds is the file of cluster ids at the end of `process_completed_message`,
--     Receiver/Retention `run_retention_cleanup`, Receiver/Serve the loop with the retention, and
--     Receiver/Salt `load_encrypted_salt`.
--   Dedup: telemetry_receiver/deduplicate_telemetry.py. Dedup/Files has `get_file_date` and the
--     choice of the log files, Dedup/Backups `rotate_old_file`, Dedup/Records the reading of logs
--     (`Snapshot` is the four dictionaries, `read_line` the body of the loop) and the output,
--     Dedup/Run `parse_telemetry`.
--   Subscriptions, Lifecycle, Compliance: telemetry_receiver/evaluate_compliance.py.
--     `load_subscriptions`, `load_lifecycle` and `evaluate_term` under their names; `run_evaluation`
--     in parts: Compliance/Ingest is the reading loop (`Latest` is the three dictionaries),
--     Compliance/Rows the loop over clusters and nodes, Compliance/Groups the totals, the available
--     subscriptions and the gaps, Compliance/Report the records that are written, Compliance/Run the whole.
--   Sender: the senders for tests in telemetry_receiver/load_integrity_tets. `send_segmented_payload` of
--     telemetry_traffic_emulator.py, which telemetry_attack_simulator.py beside it repeats;
--     Sender/Payload is `build_cluster_payload` of the first, Sender/Attack `build_corrupted_payload` of
--     the second (`mutate` has its 11 scenarios). Sender/Packet is `build_ip_udp_header` and
--     Sender/Salt `load_verification_salt`, which both have.
--   WorkInProgress: the earlier variants in telemetry_receiver/WorkInProgress-deduplication-compliance:
--     WorkInProgress/Deduplicate is deduplicate_telemetry.py, WorkInProgress/Evaluate
--     evaluate_compliance.py, both as far as they differ from the scripts that replaced them.
--   TestLogs: generate_test_logs.py (TestLogs/Recent) and generate_historical_test_logs.py
--     (TestLogs/Historical) of telemetry_receiver/load_integrity_tets.
--   Pipeline: the output of the deduplication, read by the evaluation.
--   Tests: the theorems at concrete inputs.
--
-- State is passed on explicitly. `none` is an exception where a function can raise one, and an
-- `Outcome` says how a script ends. A file is its text or the list of its lines, a folder a
-- dictionary of texts. The input of the evaluation is bytes, which are decoded; the file of cluster ids
-- is its lines and the text behind the last newline.
--
-- Parameters: `late` says what `fromtimestamp` raises for a moment after the year 9999, which depends
-- on the platform; `Crypto` has gzip and HMAC-SHA256; `removable` says which files `os.remove` removes;
-- `arrange` is the order of a set, `wide_word` says which characters beyond ASCII are letters or digits,
-- and `inet_aton` gives the bytes of an address.
--
-- Bounds: numbers have no upper bound, as in Python. `int` raises an exception for more than 4300 digits
-- and for a digit such as `²` that `isdigit` accepts: `count_raises` says so where the evaluation reads a
-- count. Elsewhere a `ValueError` of `int` is caught, and the model's `int` has no limit there.
-- `math.ceil(n / 2)` and
-- `math.ceil(n / 4)` are exact for numbers below 2^53, and the model has the exact value; for a quotient
-- that is no finite float they raise an exception, as in the source (`load_overflows`). Letters and
-- digits are otherwise those of ASCII, white space is that of Unicode. `find_date` has fuel for a year a
-- round and `n` rounds for the day `n`, and each year that is passed takes more than a day off, so it
-- ends before the fuel does. All else is structural recursion.
--
-- Not modelled: sockets, processes, prints, the arguments' parsing and the run of openssl; the
-- quoting of CSV (the records of a CSV file are the input or the output); the random choices and the
-- raw sockets of the senders for tests (what is chosen is an argument); the Go controller in
-- clustersize-operator.
pub mod Prelude
pub mod Text
pub mod Dict
pub mod Dates
pub mod Base64
pub mod Subscriptions
pub mod Lifecycle
pub mod Compliance
pub mod Dedup
pub mod Receiver
pub mod Sender
pub mod TestLogs
pub mod Pipeline
pub mod WorkInProgress
pub mod Tests

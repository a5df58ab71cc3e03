-- ===== src/Tests/Service.antt =====
-- The service of the receiver at concrete inputs: the ids of clusters, the retention, the salt, and the
-- packets that reach it.
use cluster_size_operator_fo.Prelude.{
  ℕ, ◌+◌, ◌*◌, ◌≤◌, ◌<◌, ◌≡◌, ◌↔◌, refl, Bool, true, false, ◌||◌, Option, none, some, List, [], ◌∷◌,
  contains, nat_eq, list_eq, arith, All, map,
}
use cluster_size_operator_fo.Prelude.Int.{pos, ◌-ℤ◌}
use cluster_size_operator_fo.Text.{Text, codes, strip, is_space, lstrip, rstrip}
use cluster_size_operator_fo.Base64.{Bytes}
use cluster_size_operator_fo.Sender.{total_frames, send_segmented_payload}
use cluster_size_operator_fo.Sender.Packet.{target_ip, packets}
use cluster_size_operator_fo.Sender.Packet.Fields.{HasAddress}
use cluster_size_operator_fo.Sender.Packet.Sent.{ArePackets, packets-send_segmented_payload}
use cluster_size_operator_fo.Sender.Salt.{load_verification_salt}
use cluster_size_operator_fo.Sender.Salt.Agree.{IsTrimmed, load_verification_salt-agrees}
use cluster_size_operator_fo.Receiver.Salt.{SaltFiles, load_encrypted_salt, hmac_salt}
use cluster_size_operator_fo.Receiver.ClusterIds.{
  existing_ids, discovered_ids, find_ids, fits, is_id_at, unique, minus, stripped, new_ids, CidFile,
  append_ids, log_ids, Pool, Event, reads, writes, pool_step, pool_steps,
}
use cluster_size_operator_fo.Receiver.ClusterIds.Union.{IsArrangement, IsIdFile, log_ids_exact}
use cluster_size_operator_fo.Receiver.ClusterIds.Race.{is_known, is_read, pool_steps-union}
use cluster_size_operator_fo.Receiver.Retention.{
  LogEntry, is_obsolete, clean_entry, run_retention_cleanup, retention_seconds,
}
use cluster_size_operator_fo.Receiver.Retention.Exact.{
  HasTime, IsCleaned, run_retention_cleanup_exact,
}
use cluster_size_operator_fo.Receiver.Assembly.{receive_all}
use cluster_size_operator_fo.Receiver.Serve.{Arrival, Server, serve_all}
use cluster_size_operator_fo.Receiver.Serve.Separate.{datagram, completed, serve_all_separate}

abbrev first_id : Text
first_id = codes "3f2a7c10-5b1e-4d7e-9a61-0c2f4e8d9b77"

abbrev second_id : Text
second_id = codes "91b0d3ce-77aa-4f06-8c35-d2e1f0a94b58"

-- An order of a set of ids: as they stand.
abbrev as_is : List Text → List Text
as_is ids = ids

as_is-IsArrangement : IsArrangement as_is
as_is-IsArrangement = record { same = λ xs x. refl; distinct = λ xs h. h }

abbrev no_wide_word : ℕ → Bool
no_wide_word c = false

abbrev raw_text : Text
raw_text =
    codes "H,91b0d3ce-77aa-4f06-8c35-d2e1f0a94b58,1\nN,91b0d3ce-77aa-4f06-8c35-d2e1f0a94b58,001"

abbrev id_file : Option CidFile
id_file = some (record { lines = first_id ∷ []; tail = [] })

id_file-IsIdFile : IsIdFile id_file
unfolding fits nat_eq
id_file-IsIdFile = (refl, (record { long = refl; shape = refl }, tt), (refl, tt))

find_ids-raw_text : find_ids no_wide_word false 0 raw_text ≡ second_id ∷ second_id ∷ []
unfolding find_ids is_id_at fits nat_eq
find_ids-raw_text = refl

find_ids_behind_word : find_ids no_wide_word false 0 (b'z' ∷ first_id) ≡ []
unfolding find_ids is_id_at fits nat_eq
find_ids_behind_word = refl

log_ids_new :
    log_ids as_is no_wide_word raw_text id_file
    ≡ some (record { lines = first_id ∷ second_id ∷ []; tail = [] })
unfolding log_ids new_ids discovered_ids existing_ids append_ids find_ids is_id_at fits unique minus
    stripped strip lstrip rstrip is_space nat_eq list_eq
log_ids_new = refl

-- Behind a last line that no newline ends, the id becomes a part of that line.
glued :
    append_ids (second_id ∷ []) (some (record { lines = []; tail = codes "x" }))
    ≡ some (record { lines = (b'x' ∷ second_id) ∷ []; tail = [] })
unfolding append_ids
glued = refl

log_ids_exact_example :
    IsIdFile (log_ids as_is no_wide_word raw_text id_file)
    × ((x : Text)
        → contains (existing_ids (log_ids as_is no_wide_word raw_text id_file)) x ≡ (
            contains (existing_ids id_file) x || contains (discovered_ids no_wide_word raw_text) x))
log_ids_exact_example =
    log_ids_exact as_is no_wide_word raw_text id_file as_is-IsArrangement id_file-IsIdFile

abbrev idle : Pool
idle = record { cid_file = none; running = [] }

-- Two workers read the file before one of them writes.
abbrev race : List Event
race = reads raw_text ∷ reads raw_text ∷ writes 0 ∷ writes 0 ∷ []

-- Then the id stands twice.
race_repeats :
    (pool_steps as_is no_wide_word race idle).cid_file
    ≡ some (record { lines = second_id ∷ second_id ∷ []; tail = [] })
unfolding pool_steps pool_step new_ids discovered_ids existing_ids append_ids find_ids is_id_at fits
    unique minus nat_eq list_eq
race_repeats = refl

pool_steps-union_example :
    is_known (pool_steps as_is no_wide_word race idle) second_id
    ≡ (is_known idle second_id || is_read no_wide_word race second_id)
pool_steps-union_example =
    pool_steps-union as_is no_wide_word as_is-IsArrangement race idle second_id tt tt

abbrev log_folder : List LogEntry
log_folder =
    record { filename = codes "telemetry_2026-01-01.log"; is_file = true; mtime = some 1767300000 }
    ∷ record {
      filename = codes "telemetry_2026-03-01.log";
      is_file = true;
      mtime = some 1772400000;
    }
    ∷ record { filename = codes "archive"; is_file = false; mtime = none }
    ∷ []

abbrev all_removable : Text → Bool
all_removable filename = true

log_folder-HasTime : All HasTime log_folder
log_folder-HasTime = (λ h. (1767300000, refl), (λ h. (1772400000, refl), (λ h. absurd (cc), tt)))

deleted_one :
    (run_retention_cleanup all_removable 1772500000
      (retention_seconds (pos 30))
      log_folder).deleted_count
    ≡ 1
unfolding run_retention_cleanup clean_entry is_obsolete ◌-ℤ◌
deleted_one = refl

run_retention_cleanup_exact_example :
    IsCleaned all_removable 1772500000
      (retention_seconds (pos 30))
      log_folder
      (run_retention_cleanup all_removable 1772500000 (retention_seconds (pos 30)) log_folder)
run_retention_cleanup_exact_example =
    run_retention_cleanup_exact all_removable 1772500000 (retention_seconds (pos 30)) log_folder
      log_folder-HasTime

abbrev server : Server
server = record { assembly_buffer = []; last_cleanup_time = 1772499000 }

abbrev arrivals : List Arrival
arrivals =
    record {
      source_ip = codes "10.0.0.1";
      content = codes "m1,1,1|ab";
      folder = log_folder;
      checked_at = 1772500000;
      cleaned_at = 1772500000;
      ended_at = 1772500001;
    }
    ∷ []

serve_all_separate_example :
    (receive_all server.assembly_buffer (map datagram arrivals) ≡ (
      (serve_all all_removable (pos 2592000) server arrivals).0.assembly_buffer,
      (serve_all all_removable (pos 2592000) server arrivals).1,
    ))
    × (server.last_cleanup_time
          + 301 * completed (serve_all all_removable (pos 2592000) server arrivals).2
        ≤ (serve_all all_removable (pos 2592000) server arrivals).0.last_cleanup_time)
serve_all_separate_example =
    serve_all_separate all_removable (pos 2592000) server arrivals (omega arith)

-- A stand-in for the addresses of the network library.
abbrev inet_aton : Text → Option Bytes
inet_aton ip = some (10 ∷ 0 ∷ 0 ∷ 1 ∷ [])

inet_aton-HasAddress : (ip : Text) → HasAddress inet_aton ip
inet_aton-HasAddress ip = record { a = 10; b = 0; c = 0; d = 1; known = refl }

abbrev random : ℕ → ℕ × ℕ
random i = (1000, 30000)

few_frames : total_frames (codes "ab") < 1000000
unfolding total_frames
few_frames = omega arith

packets-send_segmented_payload_example :
    (ps : List Bytes) × (packets inet_aton
        (codes "10.0.0.1")
        random
        0
        (send_segmented_payload 123456 (codes "ab"))
      ≡ some ps)
    × ArePackets ps (send_segmented_payload 123456 (codes "ab"))
packets-send_segmented_payload_example =
    packets-send_segmented_payload inet_aton (codes "10.0.0.1") random 123456 (codes "ab")
      (inet_aton-HasAddress (codes "10.0.0.1")) (inet_aton-HasAddress target_ip)
      (λ j. (omega arith, omega arith)) (omega arith) few_frames

abbrev salt_with_newline : SaltFiles
salt_with_newline = record {
  salt_file = true;
  key_file = true;
  decrypted = some (codes "secret\n");
}

receiver_salt : hmac_salt (load_encrypted_salt salt_with_newline) ≡ some (codes "secret\n")
unfolding load_encrypted_salt
receiver_salt = refl

load_verification_salt-agrees_example :
    (load_verification_salt salt_with_newline ≡ codes "secret\n") ↔ IsTrimmed (codes "secret\n")
load_verification_salt-agrees_example =
    load_verification_salt-agrees salt_with_newline (codes "secret\n") receiver_salt

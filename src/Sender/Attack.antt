-- ===== src/Sender/Attack.antt =====
-- `build_corrupted_payload` of
-- telemetry_receiver/load_integrity_tets/telemetry_attack_simulator.py: a payload is signed and then
-- changed. The description of a scenario is left out.
pub mod Replace
pub mod Changed
pub mod Ids
pub mod Scenarios
pub mod Detected
use cluster_size_operator_fo.Prelude.{
  ℕ, zero, suc, ◌+◌, ◌-◌, List, [], ◌∷◌, ◌++◌, length, get_or, set, take, ◌==◌, nat_eq,
  if◌then◌else◌,
}
use cluster_size_operator_fo.Text.{Text, codes, join, starts_with}
use cluster_size_operator_fo.Text.Number.{show}
use cluster_size_operator_fo.Base64.{Bytes, utf8_encode}
use cluster_size_operator_fo.Receiver.Message.{Crypto}
use cluster_size_operator_fo.Sender.Payload.{
  header_row, node_rows, always, lookup_row, signed_text, signature,
}

-- `s.replace(old, new)` for a text `old` that is not empty: `skip` characters of a hit are passed over.
unfoldable pub replace_from : Text → Text → ℕ → Text → Text
replace_from old new skip [] = []
replace_from old new (suc skip) (c ∷ s) = replace_from old new skip s
replace_from old new zero (c ∷ s) =
    let hit = replace_from old new (length old - 1) s in
    let miss = replace_from old new 0 s in if starts_with old (c ∷ s) then new ++ hit else c ∷ miss

abbrev pub replace : Text → Text → Text → Text
replace old new s = replace_from old new 0 s

-- `lines.pop(i)`
abbrev pub pop : ℕ → List Text → List Text
pop i [] = []
pop zero (line ∷ lines) = lines
pop (suc i) (line ∷ lines) = line ∷ pop i lines

-- `lines.insert(i, new)`
abbrev pub insert_at : ℕ → Text → List Text → List Text
insert_at i new [] = new ∷ []
insert_at zero new (line ∷ lines) = new ∷ line ∷ lines
insert_at (suc i) new (line ∷ lines) = line ∷ insert_at i new lines

-- `lines[i] = f(lines[i])`, for an index in range
abbrev pub change : ℕ → (Text → Text) → List Text → List Text
change i f lines = set lines i (f (get_or lines i []))

abbrev pub node_count : ℕ
node_count = 40

abbrev pub attack_lookup_str : Text
attack_lookup_str =
    codes "1=4.20.27,2=4.19.30,3=control-plane#master,4=worker#infra-odf,5=worker#application01"

-- The lines that are signed.
unfoldable pub pristine_lines : Text → ℕ → List Text
pristine_lines cluster_id now_epoch =
    header_row cluster_id node_count now_epoch 100000
    ∷ (node_rows cluster_id (always (codes "3")) (codes "40") 1 3
        ++ (node_rows cluster_id (always (codes "4")) (codes "40") 4 6
            ++ (node_rows cluster_id (always (codes "5")) (codes "50") 10 31
                ++ lookup_row attack_lookup_str ∷ [])))

-- `line[:-4] + "AAAA"`
abbrev pub corrupt_end : Text → Text
corrupt_end line = take (length line - 4) line ++ codes "AAAA"

-- The change of a scenario; `other_id` is `str(uuid.uuid4())`.
unfoldable pub mutate : ℕ → Text → Text → List Text → List Text
mutate scenario_idx cluster_id other_id lines =
    if scenario_idx == 1
    then pop 15 lines
    else if scenario_idx == 2
    then insert_at 5 (join b',' (codes "N" ∷ cluster_id ∷ codes "999,5,50,true" ∷ [])) lines
    else if scenario_idx == 3
    then change 1 (replace (codes ",40,") (codes ",2,")) lines
    else if scenario_idx == 4
    then change 11 (replace (codes ",true") (codes ",false")) lines
    else if scenario_idx == 5
    then change 2 (replace (codes ",3,40,") (codes ",5,40,")) lines
    else if scenario_idx == 6
    then change (length lines - 1) corrupt_end lines
    else if scenario_idx == 7
    then pop (length lines - 1) lines
    else if scenario_idx == 8
    then change 8 (replace cluster_id other_id) lines
    else if scenario_idx == 9
    then set lines 12 (join b',' (codes "N" ∷ cluster_id ∷ codes ",5,50,true" ∷ []))
    else if scenario_idx == 10
    then take 5 lines
    else if scenario_idx == 11
    then change 0 (replace (codes ",40,") (codes ",CORRUPTED_COUNT,")) lines
    else lines

unfoldable pub corrupted_payload_text : Crypto → Text → Text → ℕ → Bytes → ℕ → Text
corrupted_payload_text c cluster_id other_id scenario_idx salt_bytes now_epoch =
    signed_text (mutate scenario_idx cluster_id other_id (pristine_lines cluster_id now_epoch))
      (signature c salt_bytes (pristine_lines cluster_id now_epoch))

unfoldable pub build_corrupted_payload :
    Crypto → (Bytes → Bytes) → Text → Text → ℕ → Bytes → ℕ → Bytes
build_corrupted_payload c gzip cluster_id other_id scenario_idx salt_bytes now_epoch =
    gzip
      (utf8_encode (corrupted_payload_text c cluster_id other_id scenario_idx salt_bytes now_epoch))

-- ===== src/Receiver/ClusterIds.antt =====
-- The end of `process_completed_message`: the ids of clusters that a message names go to a file of the
-- day. The file is the lines that end in
-- a newline, and the text behind the last of these. A set of texts is a list without repetitions; `arrange` is
-- the order in which Python goes over it. `wide_word` says which characters beyond ASCII are letters
-- or digits. Workers run at the same time: `start` is the reading of the file, `finish` the writing.
pub mod Sets
pub mod Found
pub mod Union
pub mod Race
pub mod Handler
use cluster_size_operator_fo.Prelude.{
  ℕ, zero, suc, ◌+◌, Bool, true, false, ◌&&◌, ◌||◌, not, Option, none, some, List, [], ◌∷◌, ◌++◌,
  ◌==◌, contains, nat_eq, list_eq, ltb, leb, take, drop, get_or, if◌then◌else◌,
}
use cluster_size_operator_fo.Text.{Text, codes, strip, is_nil}

abbrev pub is_hex : ℕ → Bool
is_hex c = (leb b'0' c && leb c b'9') || (leb b'a' c && leb c b'f') || (leb b'A' c && leb c b'F')

-- `\w`
abbrev pub is_word : (ℕ → Bool) → ℕ → Bool
is_word wide_word c =
    if ltb c 128
    then (leb b'0' c && leb c b'9')
      || (leb b'a' c && leb c b'z')
      || (leb b'A' c && leb c b'Z')
      || c == b'_'
    else wide_word c

-- The pattern between its `\b`: a hyphen stands for itself, and any other character for a hexadecimal digit.
abbrev pub id_shape : Text
id_shape = codes "xxxxxxxx-xxxx-xxxx-xxxx-xxxxxxxxxxxx"

unfoldable pub fits : Text → Text → Bool
fits [] s = true
fits (p ∷ ps) [] = false
fits (p ∷ ps) (c ∷ s) = (if p == b'-' then c == b'-' else is_hex c) && fits ps s

-- There is no letter or digit at the start of a text.
abbrev pub ends_word : (ℕ → Bool) → Text → Bool
ends_word wide_word [] = true
ends_word wide_word (c ∷ s) = not (is_word wide_word c)

-- An id starts here; the flag says that a letter or digit stands in front.
unfoldable pub is_id_at : (ℕ → Bool) → Bool → Text → Bool
is_id_at wide_word behind_word s =
    not behind_word && fits id_shape s && ends_word wide_word (drop 36 s)

-- `CLUSTER_ID_PATTERN.findall`; `skip` characters of a hit are passed over.
unfoldable pub find_ids : (ℕ → Bool) → Bool → ℕ → Text → List Text
find_ids wide_word behind_word skip [] = []
find_ids wide_word behind_word (suc skip) (c ∷ s) = find_ids wide_word (is_word wide_word c) skip s
find_ids wide_word behind_word zero (c ∷ s) =
    let hit = find_ids wide_word (is_word wide_word c) 35 s in
    let miss = find_ids wide_word (is_word wide_word c) 0 s in
    if is_id_at wide_word behind_word (c ∷ s) then take 36 (c ∷ s) ∷ hit else miss

-- `set(texts)`
unfoldable pub unique : List Text → List Text
unique [] = []
unique (x ∷ xs) = let rest = unique xs in if contains rest x then rest else x ∷ rest

-- `xs - ys`
unfoldable pub minus : List Text → List Text → List Text
minus [] ys = []
minus (x ∷ xs) ys = let rest = minus xs ys in if contains ys x then rest else x ∷ rest

unfoldable pub discovered_ids : (ℕ → Bool) → Text → List Text
discovered_ids wide_word raw_text = unique (find_ids wide_word false 0 raw_text)

unfoldable pub stripped : List Text → List Text
stripped [] = []
stripped (line ∷ lines) =
    let rest = stripped lines in if is_nil (strip line) then rest else strip line ∷ rest

-- The lines that end in a newline, without it, and the text behind the last of them.
pub record CidFile : Type 0 where
  pub lines : List Text
  pub tail : Text

-- `none` where there is no file.
unfoldable pub existing_ids : Option CidFile → List Text
existing_ids none = []
existing_ids (some f) = unique (stripped (f.lines ++ f.tail ∷ []))

unfoldable pub new_ids : (ℕ → Bool) → Text → Option CidFile → List Text
new_ids wide_word raw_text cid_file =
    minus (discovered_ids wide_word raw_text) (existing_ids cid_file)

-- Opened for appending, a file that is not there is empty.
abbrev opened : Option CidFile → CidFile
opened none = record { lines = []; tail = [] }
opened (some f) = f

-- Without new ids the file is not opened. The first id is written behind the text that no newline ends.
unfoldable pub append_ids : List Text → Option CidFile → Option CidFile
append_ids [] cid_file = cid_file
append_ids (id ∷ ids) cid_file =
    let f = opened cid_file in some (record { lines = f.lines ++ (f.tail ++ id) ∷ ids; tail = [] })

-- A worker that has read the file: the ids it is going to write.
abbrev pub start : (List Text → List Text) → (ℕ → Bool) → Text → Option CidFile → List Text
start arrange wide_word raw_text cid_file = arrange (new_ids wide_word raw_text cid_file)

-- One message, with no other worker in between.
unfoldable pub log_ids :
    (List Text → List Text) → (ℕ → Bool) → Text → Option CidFile → Option CidFile
log_ids arrange wide_word raw_text cid_file =
    append_ids (start arrange wide_word raw_text cid_file) cid_file

-- The file, and for each running worker the ids that it is going to write.
pub record Pool : Type 0 where
  pub cid_file : Option CidFile
  pub running : List (List Text)

pub data Event : Type 0 where
  reads : Text → Event
  writes : ℕ → Event

abbrev pub remove_at : ℕ → List (List Text) → List (List Text)
remove_at i [] = []
remove_at zero (ids ∷ running) = running
remove_at (suc i) (ids ∷ running) = ids ∷ remove_at i running

-- A worker has looked at its message and reads the file, or the worker at a place writes and ends.
unfoldable pub pool_step : (List Text → List Text) → (ℕ → Bool) → Event → Pool → Pool
pool_step arrange wide_word (reads raw_text) p = record {
  cid_file = p.cid_file;
  running = start arrange wide_word raw_text p.cid_file ∷ p.running;
}
pool_step arrange wide_word (writes i) p = record {
  cid_file = append_ids (get_or p.running i []) p.cid_file;
  running = remove_at i p.running;
}

unfoldable pub pool_steps : (List Text → List Text) → (ℕ → Bool) → List Event → Pool → Pool
pool_steps arrange wide_word [] p = p
pool_steps arrange wide_word (e ∷ events) p =
    pool_steps arrange wide_word events (pool_step arrange wide_word e p)

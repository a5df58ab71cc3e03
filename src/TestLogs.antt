-- ===== src/TestLogs.antt =====
-- The generators of logs for tests in telemetry_receiver/load_integrity_tets. The log folder is a
-- dictionary of texts.
pub mod Recent
pub mod Historical
pub mod Written
use cluster_size_operator_fo.Prelude.{String, List, [], ◌∷◌, ◌++◌, list_eq, nat_eq}
use cluster_size_operator_fo.Text.{Text, codes}
use cluster_size_operator_fo.Dict.{Dict, lookup, insert, or_else}

-- A record of a cluster: its tag, the id, and the rest of the line.
abbrev pub of_cluster : String → Text → String → Text
of_cluster tag uuid rest = codes tag ++ (uuid ++ codes rest)

-- The text of a log, with a newline behind each line.
abbrev pub lines_text : List Text → Text
lines_text [] = []
lines_text (line ∷ lines) = line ++ b'\n' ∷ lines_text lines

-- Each file is written anew.
unfoldable pub write_files : List (Text × Text) → Dict Text Text → Dict Text Text
write_files [] dir = dir
write_files ((filename, content) ∷ files) dir = write_files files (insert filename content dir)

-- What is written stands behind what a file has, if there is such a file.
unfoldable pub append_files : List (Text × Text) → Dict Text Text → Dict Text Text
append_files [] dir = dir
append_files ((filename, content) ∷ files) dir =
    append_files files (insert filename (or_else (lookup filename dir) [] ++ content) dir)

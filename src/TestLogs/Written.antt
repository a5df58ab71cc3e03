-- ===== src/TestLogs/Written.antt =====
-- What the generators leave in the log folder.
use cluster_size_operator_fo.Prelude.{
  ◌≡◌, ◌∙◌, List, [], ◌∷◌, ◌++◌, append_assoc, append-nil, ◌==◌, list_eq, nat_eq, if◌then◌else◌,
  arith,
}
use cluster_size_operator_fo.Text.{Text}
use cluster_size_operator_fo.Dict.{Dict, lookup, insert, or_else}
use cluster_size_operator_fo.Dict.Laws.{lookup-insert}
use cluster_size_operator_fo.TestLogs.{append_files}

-- All that is written to the file `name`, in order.
abbrev pub written_to : Text → List (Text × Text) → Text
written_to name [] = []
written_to name ((filename, content) ∷ files) =
    let rest = written_to name files in if name == filename then content ++ rest else rest

-- A file has behind its old text all that is appended to it, in order.
pub lookup-append_files :
    (name : Text) (files : List (Text × Text)) (dir : Dict Text Text)
    → or_else (lookup name (append_files files dir)) []
      ≡ or_else (lookup name dir) [] ++ written_to name files
unfolding append_files
lookup-append_files name [] dir = simp append-nil
lookup-append_files name ((filename, content) ∷ files) dir =
    lookup-append_files name files
      (insert filename (or_else (lookup filename dir) [] ++ content) dir)
    ∙ ground (
      arith,
      lookup-insert name filename (or_else (lookup filename dir) [] ++ content) dir,
      append_assoc (or_else (lookup filename dir) []) content (written_to name files),
    )

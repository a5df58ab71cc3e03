-- ===== src/Subscriptions/Laws.antt =====
-- What `load_subscriptions` returns for any file.
use cluster_size_operator_fo.Prelude.{
  ◌≡◌, refl, ◌∙◌, true, Option, none, some, List, [], ◌∷◌, list_eq, nat_eq, ◌==◌, if◌then◌else◌,
  arith,
}
use cluster_size_operator_fo.Prelude.Int.{ℤ, pos}
use cluster_size_operator_fo.Text.{Text, strip, read_lines}
use cluster_size_operator_fo.Text.Number.{int_of}
use cluster_size_operator_fo.Dict.{lookup, has_key, keys, or_else}
use cluster_size_operator_fo.Dict.Laws.{lookup-insert, keys-insert, contains-keys}
use cluster_size_operator_fo.Subscriptions.{
  Subs, initial_subs, assign, assignment, perform, load_line, load_lines, load_subscriptions,
}

keys-assign : (k : Text) (o : Option ℤ) (subs : Subs) → keys (assign k o subs) ≡ keys subs
unfolding assign
keys-assign k none subs = refl
keys-assign k (some n) subs = ground (arith, keys-insert k n subs, contains-keys k subs)

keys-load_line : (subs : Subs) (line : Text) → keys (load_line subs line) ≡ keys subs
unfolding load_line
keys-load_line subs line = grind (arith, keys-assign)

keys-load_lines : (lines : List Text) (subs : Subs) → keys (load_lines lines subs) ≡ keys subs
unfolding load_lines
keys-load_lines [] subs = refl
keys-load_lines (line ∷ lines) subs =
    keys-load_lines lines (load_line subs line) ∙ keys-load_line subs line

-- Whatever the file holds, or if there is none, the result has the nine keys, in their order.
pub keys-load_subscriptions :
    (file : Option Text) → keys (load_subscriptions file) ≡ keys initial_subs
unfolding load_subscriptions
keys-load_subscriptions none = refl
keys-load_subscriptions (some file) = keys-load_lines (read_lines file) initial_subs

abbrev value_for : Text → Option (Text × Text) → Option ℤ
value_for k none = none
value_for k (some (j, v)) = if strip j == k then int_of (strip v) else none

-- What a line assigns to the key `k`: an integer, if the line is an assignment to it with one.
abbrev line_value : Text → Text → Option ℤ
line_value k line = value_for k (assignment (strip line))

-- The last value that the lines assign to `k`.
abbrev pub last_value : Text → List Text → Option ℤ
last_value k [] = none
last_value k (line ∷ lines) = elim (last_value k lines) [
  | some n ↦ some n
  | none ↦ line_value k line
]

lookup-assign :
    (k j : Text) (o : Option ℤ) (subs : Subs) (n : ℤ)
    → lookup k subs ≡ some n
    → lookup k (assign j o subs) ≡ some (if j == k then or_else o n else n)
unfolding assign
lookup-assign k j none subs n h = ground arith
lookup-assign k j (some m) subs n h = ground (arith, lookup-insert k j m subs)

lookup-perform :
    (k : Text) (o : Option (Text × Text)) (subs : Subs) (n : ℤ)
    → lookup k subs ≡ some n
    → lookup k (perform o subs) ≡ some (or_else (value_for k o) n)
lookup-perform k none subs n h = h
lookup-perform k (some (j, v)) subs n h =
    ground (arith, lookup-assign k (strip j) (int_of (strip v)) subs n h)

initial_zero : (k : Text) → has_key k initial_subs ≡ true → lookup k initial_subs ≡ some (pos 0)
unfolding lookup
initial_zero k h = ground arith

lookup-load_line :
    (k line : Text) (subs : Subs) (n : ℤ)
    → lookup k subs ≡ some n
    → lookup k (load_line subs line) ≡ some (or_else (line_value k line) n)
unfolding load_line
lookup-load_line k line subs n h = lookup-perform k (assignment (strip line)) subs n h

lookup-load_lines :
    (k : Text) (lines : List Text) (subs : Subs) (n : ℤ)
    → lookup k subs ≡ some n
    → lookup k (load_lines lines subs) ≡ some (or_else (last_value k lines) n)
unfolding load_lines
lookup-load_lines k [] subs n h = h
lookup-load_lines k (line ∷ lines) subs n h = ground (
  arith,
  lookup-load_line k line subs n h,
  lookup-load_lines k lines (load_line subs line) (or_else (line_value k line) n),
)

-- Each of the nine keys has the last integer that a line of the file assigns to it, and 0 if no line
-- does: comments, other keys and values that are no integers change nothing.
pub lookup-load_subscriptions :
    (k file : Text)
    → has_key k initial_subs ≡ true
    → lookup k (load_subscriptions (some file))
      ≡ some (or_else (last_value k (read_lines file)) (pos 0))
unfolding load_subscriptions
lookup-load_subscriptions k file h =
    lookup-load_lines k (read_lines file) initial_subs (pos 0) (initial_zero k h)

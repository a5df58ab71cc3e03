-- ===== src/Text.antt =====
-- Python's `str`, as far as the scripts use it: a text is the list of its code points.
-- `strip` knows all of Unicode's white space; letters and digits are those of ASCII.
pub mod Strip
pub mod Split
pub mod Number
pub mod Order
pub mod Distinct
pub mod Printed
use Prim.Native.Char.{code}
use cluster_size_operator_fo.Prelude.{
  ℕ, ◌+◌, ◌-◌, String, Bool, true, false, ◌&&◌, ◌||◌, Option, none, some, List, [], ◌∷◌, ◌++◌, map,
  ◌==◌, contains, nat_eq, list_eq, leb, ltb, if◌then◌else◌,
}

abbrev pub Text : Type 0
Text = List ℕ

-- The code points of a literal.
abbrev pub codes : String → Text
codes String.[] = []
codes (String.◌∷◌ c s) = code c ∷ codes s

-- White space beyond ASCII.
abbrev wide_spaces : List ℕ
wide_spaces = 0x85 ∷ 0xa0 ∷ 0x1680 ∷ 0x2028 ∷ 0x2029 ∷ 0x202f ∷ 0x205f ∷ 0x3000 ∷ []

-- `str.isspace` of one character
unfoldable pub is_space : ℕ → Bool
is_space c =
    (leb 9 c && leb c 13)
    || (leb 28 c && leb c 32)
    || (leb 0x2000 c && leb c 0x200a)
    || contains wide_spaces c

unfoldable pub lstrip : Text → Text
unfolding is_space
lstrip [] = []
lstrip (c ∷ s) = let rest = lstrip s in if is_space c then rest else c ∷ s

-- A character goes if it is white space and nothing is left behind it.
abbrev keep : ℕ → Text → Text
keep c [] = if is_space c then [] else c ∷ []
keep c (d ∷ s) = c ∷ d ∷ s

unfoldable pub rstrip : Text → Text
unfolding is_space
rstrip [] = []
rstrip (c ∷ s) = keep c (rstrip s)

-- `str.strip()`
unfoldable pub strip : Text → Text
unfolding lstrip rstrip
strip s = rstrip (lstrip s)

abbrev cons_head : ℕ → List Text → List Text
cons_head c [] = (c ∷ []) ∷ []
cons_head c (p ∷ ps) = (c ∷ p) ∷ ps

-- `s.split(sep)` at a separator of one character
unfoldable pub split : ℕ → Text → List Text
split sep [] = [] ∷ []
split sep (c ∷ s) = let rest = split sep s in if c == sep then [] ∷ rest else cons_head c rest

-- `sep.join(parts)` for a separator of one character
unfoldable pub join : ℕ → List Text → Text
join sep [] = []
join sep (p ∷ []) = p
join sep (p ∷ q ∷ ps) = p ++ sep ∷ join sep (q ∷ ps)

abbrev cons_fst : ℕ → Option (Text × Text) → Option (Text × Text)
cons_fst c none = none
cons_fst c (some (p, q)) = some (c ∷ p, q)

-- `s.split(sep, 1)`; `none` if `sep` is not in `s`.
unfoldable pub split_once : ℕ → Text → Option (Text × Text)
split_once sep [] = none
split_once sep (c ∷ s) =
    let rest = split_once sep s in if c == sep then some ([], s) else cons_fst c rest

-- Python's universal newlines; the flag says that a carriage return was read before.
unfoldable pub unify_newlines : Bool → Text → Text
unify_newlines after [] = []
unify_newlines after (c ∷ s) =
    let feed = unify_newlines true s in
    let rest = unify_newlines false s in
    if c == b'\r' then b'\n' ∷ feed else if c == b'\n' && after then rest else c ∷ rest

abbrev drop_end : List Text → List Text
drop_end [] = []
drop_end ([] ∷ []) = []
drop_end (p ∷ ps) = p ∷ drop_end ps

-- `for line in f`, each line without the newline that ends it.
unfoldable pub read_lines : Text → List Text
unfolding unify_newlines split
read_lines s = drop_end (split b'\n' (unify_newlines false s))

-- `s.startswith(prefix)`
unfoldable pub starts_with : Text → Text → Bool
starts_with [] s = true
starts_with (p ∷ ps) [] = false
starts_with (p ∷ ps) (c ∷ s) = p == c && starts_with ps s

-- `sub in s`
unfoldable pub has_infix : Text → Text → Bool
unfolding starts_with
has_infix sub [] = starts_with sub []
has_infix sub (c ∷ s) = starts_with sub (c ∷ s) || has_infix sub s

abbrev lower_code : ℕ → ℕ
lower_code c = if leb b'A' c && leb c b'Z' then c + 32 else c

abbrev upper_code : ℕ → ℕ
upper_code c = if leb b'a' c && leb c b'z' then c - 32 else c

-- `s.lower()` and `s.upper()`
unfoldable pub lower : Text → Text
lower s = map lower_code s

unfoldable pub upper : Text → Text
upper s = map upper_code s

abbrev pub is_nil : Text → Bool
is_nil [] = true
is_nil (c ∷ s) = false

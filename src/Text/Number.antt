-- ===== src/Text/Number.antt =====
-- `int(s)`, `s.isdigit()` and `str(n)`, over ASCII digits.
use cluster_size_operator_fo.Prelude.{
  ℕ, zero, suc, ◌+◌, ◌-◌, ◌*◌, ◌/◌, ◌%◌, ◌≡◌, ◌≢◌, refl, Bool, true, false, ◌&&◌, ◌||◌, List,
  length, Option, none, some, [], ◌∷◌, arith, leb, ltb, ◌==◌, nat_eq, if◌then◌else◌, ap, ◌∙◌,
}
use cluster_size_operator_fo.Prelude.Int.{ℤ, pos, negsuc}
use cluster_size_operator_fo.Text.{Text, is_space, lstrip, rstrip, strip}
use cluster_size_operator_fo.Text.Strip.{keep_solid}

unfoldable pub is_digit : ℕ → Bool
is_digit c = leb b'0' c && leb c b'9'

abbrev pub all_digits : Text → Bool
all_digits [] = true
all_digits (c ∷ s) = is_digit c && all_digits s

-- `s.isdigit()`
unfoldable pub isdigit : Text → Bool
isdigit [] = false
isdigit (c ∷ s) = all_digits (c ∷ s)

-- The digits behind `n`; a `_` may stand between two of them. The flag says that a digit was last.
unfoldable pub read_digits : ℕ → Bool → Text → Option ℕ
unfolding is_digit
read_digits n true [] = some n
read_digits n false [] = none
read_digits n seen (c ∷ s) =
    let digit = read_digits (n * 10 + (c - b'0')) true s in
    let gap = read_digits n false s in
    if is_digit c then digit else if seen && c == b'_' then gap else none

abbrev negate : ℕ → ℤ
negate zero = pos 0
negate (suc n) = negsuc n

abbrev positive : Option ℕ → Option ℤ
positive none = none
positive (some n) = some (pos n)

abbrev pub negative : Option ℕ → Option ℤ
negative none = none
negative (some n) = some (negate n)

abbrev pub signed : Text → Option ℤ
signed [] = none
signed (c ∷ s) =
    if c == b'-'
    then negative (read_digits 0 false s)
    else if c == b'+'
    then positive (read_digits 0 false s)
    else positive (read_digits 0 false (c ∷ s))

-- `int(s)`, without its limit of 4300 digits; `none` is the `ValueError`.
unfoldable pub int_of : Text → Option ℤ
int_of s = signed (strip s)

abbrev nonnegative : Option ℤ → ℕ
nonnegative (some (pos n)) = n
nonnegative _ = 0

-- `int(s) if s.isdigit() else 0`
unfoldable pub count_of : Text → ℕ
unfolding isdigit int_of
count_of s = if isdigit s then nonnegative (int_of s) else 0

-- The code points that are digits to `isdigit` but not to `int`, by the first and the last of each range.
abbrev odd_digits : List (ℕ × ℕ)
odd_digits =
    (178, 179)
    ∷ (185, 185)
    ∷ (4969, 4977)
    ∷ (6618, 6618)
    ∷ (8304, 8304)
    ∷ (8308, 8313)
    ∷ (8320, 8329)
    ∷ (9312, 9320)
    ∷ (9332, 9340)
    ∷ (9352, 9360)
    ∷ (9450, 9450)
    ∷ (9461, 9469)
    ∷ (9471, 9471)
    ∷ (10102, 10110)
    ∷ (10112, 10120)
    ∷ (10122, 10130)
    ∷ (68160, 68163)
    ∷ (69216, 69224)
    ∷ (69714, 69722)
    ∷ (127232, 127242)
    ∷ []

abbrev in_ranges : List (ℕ × ℕ) → ℕ → Bool
in_ranges [] c = false
in_ranges ((first, end) ∷ ranges) c = (leb first c && leb c end) || in_ranges ranges c

abbrev is_odd_digit : ℕ → Bool
is_odd_digit c = in_ranges odd_digits c

abbrev all_numeral : Text → Bool
all_numeral [] = true
all_numeral (c ∷ s) = (is_digit c || is_odd_digit c) && all_numeral s

abbrev any_odd : Text → Bool
any_odd [] = false
any_odd (c ∷ s) = is_odd_digit c || any_odd s

-- Whether `int(s) if s.isdigit() else 0` raises a `ValueError`: a digit such as `²`, or more than 4300
-- digits, the limit of `int`.
unfoldable pub count_raises : Text → Bool
count_raises s = (all_numeral s && any_odd s) || (isdigit s && ltb 4300 (length s))

-- The number that digits spell behind `n`.
abbrev pub digits_value : ℕ → Text → ℕ
digits_value n [] = n
digits_value n (c ∷ s) = digits_value (n * 10 + (c - b'0')) s

read_digits_all :
    (s : Text) (n : ℕ) → all_digits s ≡ true → read_digits n true s ≡ some (digits_value n s)
unfolding read_digits
read_digits_all [] n h = refl
read_digits_all (c ∷ s) n h = ground (arith, read_digits_all s (n * 10 + (c - b'0')))

pub digit-not-space : (c : ℕ) → is_digit c ≡ true → is_space c ≡ false
unfolding is_digit is_space
digit-not-space c h = ground arith

rstrip_digits : (s : Text) → all_digits s ≡ true → rstrip s ≡ s
unfolding rstrip
rstrip_digits [] h = refl
rstrip_digits (c ∷ s) h = ground (arith, rstrip_digits s, digit-not-space c, keep_solid c s)

pub strip_digits : (s : Text) → all_digits s ≡ true → strip s ≡ s
unfolding strip lstrip
strip_digits [] h = unfold rstrip in refl
strip_digits (c ∷ s) h = ground (arith, rstrip_digits (c ∷ s), digit-not-space c)

sign_free : (c : ℕ) → is_digit c ≡ true → (c ≢ b'-') × (c ≢ b'+')
unfolding is_digit
sign_free c h = ground arith

read_digits_start :
    (c : ℕ) (s : Text)
    → all_digits (c ∷ s) ≡ true
    → read_digits 0 false (c ∷ s) ≡ some (digits_value 0 (c ∷ s))
unfolding read_digits
read_digits_start c s h = ground (arith, read_digits_all s (0 * 10 + (c - b'0')))

signed_digits :
    (c : ℕ) (s : Text)
    → all_digits (c ∷ s) ≡ true
    → signed (c ∷ s) ≡ some (pos (digits_value 0 (c ∷ s)))
signed_digits c s h = ground (arith, sign_free c, read_digits_start c s)

signed-strip : (s : Text) → strip s ≡ s → int_of s ≡ signed s
unfolding int_of
signed-strip s h = ap signed h

-- Of ASCII digits, `int` returns the number that they spell. Its limit of 4300 digits is in `count_raises`.
pub int_of-isdigit : (s : Text) → isdigit s ≡ true → int_of s ≡ some (pos (digits_value 0 s))
unfolding isdigit
int_of-isdigit [] h = cc
int_of-isdigit (c ∷ s) h = signed-strip (c ∷ s) (strip_digits (c ∷ s) h) ∙ signed_digits c s h

unfoldable pub show_digits : ℕ → ℕ → Text → Text
show_digits zero n out = out
show_digits (suc f) n out =
    let rest = show_digits f (n / 10) ((b'0' + n % 10) ∷ out) in
    if ltb n 10 then (b'0' + n) ∷ out else rest

-- `str(n)`; `n + 1` rounds are enough, as each of them divides by ten.
unfoldable pub show : ℕ → Text
unfolding show_digits
show n = show_digits (suc n) n []

-- `str(n)` for an integer
unfoldable pub show_int : ℤ → Text
unfolding show
show_int (pos n) = show n
show_int (negsuc n) = b'-' ∷ show (suc n)

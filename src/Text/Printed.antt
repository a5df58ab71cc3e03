-- ===== src/Text/Printed.antt =====
-- A number is read back from its print.
use cluster_size_operator_fo.Prelude.{
  ℕ, zero, suc, ◌+◌, ◌*◌, ◌-◌, ◌/◌, ◌%◌, ◌<◌, ◌≡◌, refl, true, some, [], ◌∷◌, arith, ap, ◌∙◌, All,
  nat_eq,
}
use cluster_size_operator_fo.Prelude.Int.{pos}
use cluster_size_operator_fo.Text.{Text}
use cluster_size_operator_fo.Text.Number.{
  is_digit, all_digits, isdigit, digits_value, show_digits, show, int_of, int_of-isdigit,
}

last_digit :
    (n : ℕ) (out : Text) → digits_value (n / 10) ((b'0' + n % 10) ∷ out) ≡ digits_value n out
last_digit n out =
    let e : n / 10 * 10 + (b'0' + n % 10 - b'0') ≡ n = omega arith in ap (λ m. digits_value m out) e

only_digit : (n : ℕ) (out : Text) → digits_value 0 ((b'0' + n) ∷ out) ≡ digits_value n out
only_digit n out =
    let e : 0 * 10 + (b'0' + n - b'0') ≡ n = omega arith in ap (λ m. digits_value m out) e

show_digits_value :
    (f n : ℕ) (out : Text) → n < f → digits_value 0 (show_digits f n out) ≡ digits_value n out
unfolding show_digits
show_digits_value zero n out h = absurd (omega arith)
show_digits_value (suc f) n out h = ground (
  arith,
  show_digits_value f (n / 10) ((b'0' + n % 10) ∷ out),
  last_digit n out,
  only_digit n out,
)

show_digits_digits :
    (f n : ℕ) (out : Text) → n < f → all_digits out ≡ true → isdigit (show_digits f n out) ≡ true
unfolding show_digits isdigit is_digit
show_digits_digits zero n out h k = absurd (omega arith)
show_digits_digits (suc f) n out h k =
    ground (arith, show_digits_digits f (n / 10) ((b'0' + n % 10) ∷ out))

pub isdigit-show : (n : ℕ) → isdigit (show n) ≡ true
unfolding show
isdigit-show n = show_digits_digits (suc n) n [] (omega arith) refl

pub int_of-show : (n : ℕ) → int_of (show n) ≡ some (pos n)
unfolding show
int_of-show n =
    int_of-isdigit (show n) (isdigit-show n)
    ∙ ap (λ m. some (pos m)) (show_digits_value (suc n) n [] (omega arith))

-- What holds of each digit holds of each character of a number.
All-digits :
    (P : ℕ → Type 0) (s : Text)
    → ((c : ℕ) → is_digit c ≡ true → P c)
    → all_digits s ≡ true
    → All P s
All-digits P [] p h = tt
All-digits P (c ∷ s) p h =
    let d : is_digit c ≡ true = ground arith in
    let ds : all_digits s ≡ true = ground arith in (p c d, All-digits P s p ds)

All-isdigit :
    (P : ℕ → Type 0) (s : Text) → ((c : ℕ) → is_digit c ≡ true → P c) → isdigit s ≡ true → All P s
unfolding isdigit
All-isdigit P [] p h = tt
All-isdigit P (c ∷ s) p h = All-digits P (c ∷ s) p h

pub All-show : (P : ℕ → Type 0) (n : ℕ) → ((c : ℕ) → is_digit c ≡ true → P c) → All P (show n)
All-show P n p = All-isdigit P (show n) p (isdigit-show n)

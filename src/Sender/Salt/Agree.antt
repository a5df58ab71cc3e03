-- ===== src/Sender/Salt/Agree.antt =====
-- When the senders and the receiver have the same salt.
use cluster_size_operator_fo.Prelude.{
  ℕ, suc, ◌-◌, ◌≤◌, ◌≡◌, ◌↔◌, refl, ◌∙◌, ap, sym, subst, inl, inr, Bool, true, false, Bool-cases,
  Option, none, some, [], ◌∷◌, length, get_or, nat_eq, arith,
}
use cluster_size_operator_fo.Base64.{Bytes}
use cluster_size_operator_fo.Receiver.Salt.{SaltFiles, load_encrypted_salt, hmac_salt}
use cluster_size_operator_fo.Sender.Salt.{
  is_white, lstrip_bytes, rstrip_bytes, strip_bytes, load_verification_salt,
}

-- There is no white space at either end.
pub record IsTrimmed (s : Bytes) : Type 0 where
  pub first : is_white (get_or s 0 0) ≡ false
  pub last : is_white (get_or s (length s - 1) 0) ≡ false

length-lstrip_bytes : (s : Bytes) → length (lstrip_bytes s) ≤ length s
unfolding lstrip_bytes
length-lstrip_bytes [] = omega arith
length-lstrip_bytes (b ∷ s) = ground (arith, length-lstrip_bytes s)

length-rstrip_bytes : (s : Bytes) → length (rstrip_bytes s) ≤ length s
unfolding rstrip_bytes
length-rstrip_bytes [] = omega arith
length-rstrip_bytes (b ∷ s) = ground (arith, length-rstrip_bytes s)

lstrip_first : (b : ℕ) (s : Bytes) → is_white b ≡ false → lstrip_bytes (b ∷ s) ≡ b ∷ s
unfolding lstrip_bytes
lstrip_first b s h = rw h refl

rstrip_last :
    (b : ℕ) (s : Bytes)
    → is_white (get_or (b ∷ s) (length s) 0) ≡ false
    → rstrip_bytes (b ∷ s) ≡ b ∷ s
unfolding rstrip_bytes
rstrip_last b [] h = rw h refl
rstrip_last b (c ∷ s) h = rw (rstrip_last c s h) refl

rstrip_white :
    (b : ℕ) (s : Bytes)
    → is_white (get_or (b ∷ s) (length s) 0) ≡ true
    → length (rstrip_bytes (b ∷ s)) ≤ length s
unfolding rstrip_bytes
rstrip_white b [] h = rw h (omega arith)
rstrip_white b (c ∷ s) h = ground (arith, rstrip_white c s h)

at_end :
    (b : ℕ) (s : Bytes)
    → is_white (get_or (b ∷ s) (suc (length s) - 1) 0) ≡ is_white (get_or (b ∷ s) (length s) 0)
at_end b s =
    let e : suc (length s) - 1 ≡ length s = omega arith in ap (λ i. is_white (get_or (b ∷ s) i 0)) e

strip_trimmed : (b : ℕ) (s : Bytes) → IsTrimmed (b ∷ s) → strip_bytes (b ∷ s) ≡ b ∷ s
unfolding strip_bytes
strip_trimmed b s h = rw (lstrip_first b s h.first) (rstrip_last b s (sym (at_end b s) ∙ h.last))

first_solid : (b : ℕ) (s : Bytes) → strip_bytes (b ∷ s) ≡ b ∷ s → is_white b ≡ false
unfolding strip_bytes lstrip_bytes
first_solid b s e = ground (
  arith,
  ap (λ (t : Bytes). length t) e,
  length-rstrip_bytes (lstrip_bytes s),
  length-lstrip_bytes s,
)

last_solid :
    (b : ℕ) (s : Bytes)
    → strip_bytes (b ∷ s) ≡ b ∷ s
    → is_white (get_or (b ∷ s) (length s) 0) ≡ false
unfolding strip_bytes
last_solid b s e = elim (Bool-cases (is_white (get_or (b ∷ s) (length s) 0))) [
  | inr h ↦ h
  | inl h ↦ absurd (
      omega (
        arith,
        rstrip_white b s h,
        ap (λ (t : Bytes). length t)
            (ap (λ (t : Bytes). rstrip_bytes t) (sym (lstrip_first b s (first_solid b s e))) ∙ e),
      ))
]

stripped_same : (b : ℕ) (s : Bytes) → (strip_bytes (b ∷ s) ≡ b ∷ s) ↔ IsTrimmed (b ∷ s)
stripped_same b s = (
  λ e. record { first = first_solid b s e; last = at_end b s ∙ last_solid b s e },
  strip_trimmed b s,
)

agrees :
    (salt_file key_file : Bool) (decrypted : Option Bytes) (s : Bytes)
    → hmac_salt (
        load_encrypted_salt
          (record { salt_file = salt_file; key_file = key_file; decrypted = decrypted }))
      ≡ some s
    → (load_verification_salt
          (record { salt_file = salt_file; key_file = key_file; decrypted = decrypted })
        ≡ s)
      ↔ IsTrimmed s
unfolding load_encrypted_salt load_verification_salt
agrees false key_file decrypted s h = absurd (cc)
agrees true false decrypted s h = absurd (cc)
agrees true true none s h = absurd (cc)
agrees true true (some []) s h = absurd (cc)
agrees true true (some (b ∷ t)) [] h = absurd (cc)
agrees true true (some (b ∷ t)) (c ∷ s) h =
    let e : b ∷ t ≡ c ∷ s = cc in
    subst (λ u. (strip_bytes (b ∷ t) ≡ u) ↔ IsTrimmed u) e (stripped_same b t)

-- If the receiver starts with a salt, then the senders for tests sign with the same salt exactly if it has no white space
-- at either end: the senders remove it, the receiver does not.
pub load_verification_salt-agrees :
    (e : SaltFiles) (s : Bytes)
    → hmac_salt (load_encrypted_salt e) ≡ some s
    → (load_verification_salt e ≡ s) ↔ IsTrimmed s
load_verification_salt-agrees e s h = agrees e.salt_file e.key_file e.decrypted s h

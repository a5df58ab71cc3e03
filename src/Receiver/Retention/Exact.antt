-- ===== src/Receiver/Retention/Exact.antt =====
-- Which files the cleanup removes.
use cluster_size_operator_fo.Prelude.{
  ℕ, ◌+◌, ◌≡◌, refl, sym, subst, inl, inr, Bool, true, false, Option, none, some, List, [], ◌∷◌,
  if◌then◌else◌, arith, All, length,
}
use cluster_size_operator_fo.Prelude.Int.{ℤ, pos, ◌+ℤ◌, ◌≤ℤ◌, +ℤ_parts, -ℤ_parts}
use mathlib.Core.List.Memᴰ
use mathlib.Core.List.{Memᴰ}
use cluster_size_operator_fo.Text.{Text}
use cluster_size_operator_fo.Receiver.Retention.{
  LogEntry, Cleaned, is_obsolete, clean_entry, keep_entry, count_deleted, run_retention_cleanup,
}

-- `getmtime` raises no exception for a regular file.
abbrev pub HasTime : LogEntry → Type 0
HasTime f = f.is_file ≡ true → (mtime : ℕ) × (f.mtime ≡ some mtime)

-- A regular file that was changed more than `seconds` before, and that can be removed.
pub record IsExpired (removable : Text → Bool) (now : ℕ) (seconds : ℤ) (f : LogEntry) : Type 0 where
  pub regular : f.is_file ≡ true
  pub mtime : ℕ
  pub changed : f.mtime ≡ some mtime
  pub old : ¬ (pos now ≤ℤ pos mtime +ℤ seconds)
  pub can_be_removed : removable f.filename ≡ true

obsolete_old :
    (now : ℕ) (seconds : ℤ) (mtime : ℕ)
    → is_obsolete now seconds mtime ≡ true
    → ¬ (pos now ≤ℤ pos mtime +ℤ seconds)
unfolding is_obsolete
obsolete_old now seconds mtime h k =
    ground (arith, +ℤ_parts (pos mtime) seconds, -ℤ_parts (pos now) (pos mtime))

recent :
    (now : ℕ) (seconds : ℤ) (mtime : ℕ)
    → is_obsolete now seconds mtime ≡ false
    → pos now ≤ℤ pos mtime +ℤ seconds
unfolding is_obsolete
recent now seconds mtime h =
    ground (arith, +ℤ_parts (pos mtime) seconds, -ℤ_parts (pos now) (pos mtime))

-- What the cleanup of entries is meant to do.
pub record IsCleaned (removable : Text → Bool) (now : ℕ) (seconds : ℤ) (files : List LogEntry)
    (c : Cleaned) : Type 0 where
  pub not_raised : c.raised ≡ false
  pub counted : c.deleted_count + length c.remaining ≡ length files
  pub left_over :
      (f : LogEntry) → Memᴰ f c.remaining → Memᴰ f files × (¬ IsExpired removable now seconds f)
  pub kept :
      (f : LogEntry) → Memᴰ f files → ¬ IsExpired removable now seconds f → Memᴰ f c.remaining

module _ (removable : Text → Bool) (now : ℕ) (seconds : ℤ) where
  goes :
      (f : LogEntry) (files : List LogEntry) (c : Cleaned)
      → IsExpired removable now seconds f
      → IsCleaned removable now seconds files c
      → IsCleaned removable now seconds (f ∷ files) (count_deleted c)
  goes f files c h r = record {
    not_raised = r.not_raised;
    counted = omega (arith, r.counted);
    left_over = λ g m. (Memᴰ.tail (r.left_over g m).0, (r.left_over g m).1);
    kept = λ g m k. elim (Memᴰ.cases_cons m) [
      | inl e ↦ absurd (k (subst (λ x. IsExpired removable now seconds x) (sym e) h))
      | inr n ↦ r.kept g n k
    ];
  }

  stays :
      (f : LogEntry) (files : List LogEntry) (c : Cleaned)
      → ¬ IsExpired removable now seconds f
      → IsCleaned removable now seconds files c
      → IsCleaned removable now seconds (f ∷ files) (keep_entry f c)
  stays f files c h r = record {
    not_raised = r.not_raised;
    counted = omega (arith, r.counted);
    left_over = λ g m. elim (Memᴰ.cases_cons m) [
      | inl e ↦ (Memᴰ.head e, subst (λ x. ¬ IsExpired removable now seconds x) (sym e) h)
      | inr n ↦ (Memᴰ.tail (r.left_over g n).0, (r.left_over g n).1)
    ];
    kept = λ g m k. elim (Memᴰ.cases_cons m) [
      | inl e ↦ Memᴰ.head e
      | inr n ↦ Memᴰ.tail (r.kept g n k)
    ];
  }

  old_entry :
      (f : LogEntry) (files : List LogEntry) (mtime : ℕ) (rest : Cleaned) (b d : Bool)
      → f.is_file ≡ true
      → f.mtime ≡ some mtime
      → is_obsolete now seconds mtime ≡ b
      → removable f.filename ≡ d
      → IsCleaned removable now seconds files rest
      → IsCleaned removable now seconds
          (f ∷ files)
          (if b then if d then count_deleted rest else keep_entry f rest else keep_entry f rest)
  old_entry f files mtime rest true true regular changed old can r =
      goes f files rest
        (record {
          regular = regular;
          mtime = mtime;
          changed = changed;
          old = obsolete_old now seconds mtime old;
          can_be_removed = can;
        })
        r
  old_entry f files mtime rest true false regular changed old can r =
      stays f files rest (λ x. ground (arith, x.can_be_removed)) r
  old_entry f files mtime rest false d regular changed old can r =
      stays f files rest
        (λ x. x.old (subst (λ t. pos now ≤ℤ pos t +ℤ seconds) (cc) (recent now seconds mtime old)))
        r

  entry :
      (f : LogEntry) (files : List LogEntry) (rest : Cleaned) (mtime : Option ℕ) (b : Bool)
      → f.mtime ≡ mtime
      → f.is_file ≡ b
      → HasTime f
      → IsCleaned removable now seconds files rest
      → IsCleaned removable now seconds
          (f ∷ files)
          (clean_entry removable now seconds f files mtime rest)
  unfolding clean_entry
  entry f files rest none true e regular h r = let (t, k) = h regular in absurd (cc)
  entry f files rest none false e regular h r =
      simp regular (stays f files rest (λ x. ground (arith, x.regular)) r)
  entry f files rest (some mtime) true e regular h r =
      simp regular (old_entry f files mtime rest _ _ regular e refl refl r)
  entry f files rest (some mtime) false e regular h r =
      simp regular (stays f files rest (λ x. ground (arith, x.regular)) r)

-- If `getmtime` raises no exception for a regular file, then the cleanup removes the regular files that were changed more
-- than the retention before and that can be removed, and no other entry; it counts those that it removes.
pub run_retention_cleanup_exact :
    (removable : Text → Bool) (now : ℕ) (seconds : ℤ) (files : List LogEntry)
    → All HasTime files
    → IsCleaned removable now seconds files (run_retention_cleanup removable now seconds files)
unfolding run_retention_cleanup
run_retention_cleanup_exact removable now seconds [] h = record {
  not_raised = refl;
  counted = refl;
  left_over = λ f m. absurd (Memᴰ.not-nil m);
  kept = λ f m k. m;
}
run_retention_cleanup_exact removable now seconds (f ∷ files) (h, hs) =
    entry removable now seconds f files (run_retention_cleanup removable now seconds files) f.mtime
      f.is_file refl refl h (run_retention_cleanup_exact removable now seconds files hs)

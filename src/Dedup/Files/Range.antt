-- ===== src/Dedup/Files/Range.antt =====
-- The day in a file's name is read back, and the files of a range of days are selected.
use cluster_size_operator_fo.Prelude.{
  ℕ, ◌⊎◌, subst, sym, ◌≡◌, ◌≢◌, refl, ap, ◌↔◌, Bool, true, false, Option, some, List, [], ◌∷◌, ◌++◌,
  arith, nat_eq, list_eq, inl, inr, if◌then◌else◌, ◌<◌, ◌≤◌, ◌&&◌, Option-cases, none,
}
use mathlib.Core.List.Memᴰ
use mathlib.Core.List.{Memᴰ}
use cluster_size_operator_fo.Text.{Text, codes, split, join, starts_with}
use cluster_size_operator_fo.Text.Split.{split-join, Lacks}
use cluster_size_operator_fo.Dates.{Date, iso, date_leb}
use cluster_size_operator_fo.Dates.Iso.{IsDate, strptime-iso, days_in_month-le}
use cluster_size_operator_fo.Dedup.Files.{
  without, get_file_date, in_range, files_in_range, select_files, from_start, to_end,
}

-- The name that the receiver gives to the log file of a day.
abbrev pub log_name : Date → Text
log_name d = codes "telemetry_" ++ (iso d ++ codes ".log")

split_name :
    (day : Text)
    → Lacks b'_' day
    → split b'_' (codes "telemetry_" ++ day) ≡ codes "telemetry" ∷ day ∷ []
unfolding join
split_name day h = split-join b'_' (codes "telemetry") (day ∷ []) (omega arith) (h, tt)

iso_log-Lacks : (d : Date) → IsDate d → Lacks b'_' (iso d ++ codes ".log")
unfolding iso join
iso_log-Lacks d v = omega (arith, days_in_month-le d.year d.month)

iso-Lacks_dot : (d : Date) → IsDate d → Lacks b'.' (iso d)
unfolding iso join
iso-Lacks_dot d v = omega (arith, days_in_month-le d.year d.month)

not_dot : (c : ℕ) (s : Text) → c ≢ b'.' → starts_with (codes ".log") (c ∷ s) ≡ false
unfolding starts_with
not_dot c s h = ground arith

without_log : (s : Text) → Lacks b'.' s → without (codes ".log") 0 (s ++ codes ".log") ≡ s
unfolding without
without_log [] h = unfold starts_with nat_eq in refl
without_log (c ∷ s) (h, hs) =
    rw (not_dot c (s ++ codes ".log") h) (ap (λ r. c ∷ r) (without_log s hs))

-- The receiver's name for the log file of a day between the years 1000 and 9999 gives the day back.
pub get_file_date-log_name : (d : Date) → IsDate d → get_file_date (log_name d) ≡ some d
unfolding get_file_date
get_file_date-log_name d v =
    rw
      (
        split_name (iso d ++ codes ".log") (iso_log-Lacks d v),
        without_log (iso d) (iso-Lacks_dot d v),
      )
      (strptime-iso d v)

kept_file :
    (b : Bool) (f g : Text) (gs : List Text)
    → Memᴰ f (if b then g ∷ gs else gs)
    → ((f ≡ g) × (b ≡ true)) ⊎ Memᴰ f gs
kept_file true f g gs m = elim (Memᴰ.cases_cons m) [ inl e ↦ inl (e, refl) | inr k ↦ inr k ]
kept_file false f g gs m = inr m

in_kept : (b : Bool) (f g : Text) (gs : List Text) → Memᴰ f gs → Memᴰ f (if b then g ∷ gs else gs)
in_kept true f g gs m = Memᴰ.tail m
in_kept false f g gs m = m

-- `a` is no later than `b`.
abbrev pub NoLater : Date → Date → Type 0
NoLater a b =
    (a.year < b.year)
    ⊎ ((a.year ≡ b.year) × ((a.month < b.month) ⊎ ((a.month ≡ b.month) × (a.day ≤ b.day))))

date_leb-NoLater : (a b : Date) → date_leb a b ≡ true ↔ NoLater a b
unfolding date_leb
date_leb-NoLater a b = (λ h. ground arith, λ h. ground arith)

-- The file has a date in its name, no earlier than `start_date` and no later than `end_date`, if there
-- are such.
pub record IsInRange (start_date end_date : Option Date) (f : Text) : Type 0 where
  pub day : Date
  pub dated : get_file_date f ≡ some day
  pub from_start_on : (s : Date) → start_date ≡ some s → NoLater s day
  pub up_to_end : (e : Date) → end_date ≡ some e → NoLater day e

from_start-NoLater :
    (start_date : Option Date) (d s : Date)
    → from_start start_date d ≡ true
    → start_date ≡ some s
    → NoLater s d
from_start-NoLater none d s h e = absurd (cc)
from_start-NoLater (some r) d s h e = (date_leb-NoLater s d).0 (ground arith)

from_start_intro :
    (start_date : Option Date) (d : Date)
    → ((s : Date) → start_date ≡ some s → NoLater s d)
    → from_start start_date d ≡ true
from_start_intro none d h = refl
from_start_intro (some s) d h = (date_leb-NoLater s d).1 (h s refl)

to_end-NoLater :
    (end_date : Option Date) (d e : Date)
    → to_end end_date d ≡ true
    → end_date ≡ some e
    → NoLater d e
to_end-NoLater none d e h k = absurd (cc)
to_end-NoLater (some r) d e h k = (date_leb-NoLater d e).0 (ground arith)

to_end_intro :
    (end_date : Option Date) (d : Date)
    → ((e : Date) → end_date ≡ some e → NoLater d e)
    → to_end end_date d ≡ true
to_end_intro none d h = refl
to_end_intro (some e) d h = (date_leb-NoLater d e).1 (h e refl)

both : (a b : Bool) → (a && b) ≡ true → (a ≡ true) × (b ≡ true)
both a b h = ground arith

module _ (start_date end_date : Option Date) where
  abbrev Chosen : Text → Type 0
  Chosen f = in_range start_date end_date (get_file_date f) ≡ true

  files_sound :
      (fs : List Text) (f : Text)
      → Memᴰ f (files_in_range start_date end_date fs)
      → Memᴰ f fs × Chosen f
  unfolding files_in_range
  files_sound [] f m = absurd (Memᴰ.not-nil m)
  files_sound (g ∷ fs) f m =
      elim (kept_file (in_range start_date end_date (get_file_date g)) f g
        (files_in_range start_date end_date fs) m) [
          | inl (e, k) ↦ (Memᴰ.head e, subst Chosen (sym e) k)
          | inr k ↦ let (i, c) = files_sound fs f k in (Memᴰ.tail i, c)
        ]

  files_complete :
      (fs : List Text) (f : Text)
      → Memᴰ f fs
      → Chosen f
      → Memᴰ f (files_in_range start_date end_date fs)
  unfolding files_in_range
  files_complete [] f m c = absurd (Memᴰ.not-nil m)
  files_complete (g ∷ fs) f (Memᴰ.head e) c = rw (subst Chosen e c) (Memᴰ.head e)
  files_complete (g ∷ fs) f (Memᴰ.tail m) c =
      in_kept (in_range start_date end_date (get_file_date g)) f g
        (files_in_range start_date end_date fs) (files_complete fs f m c)

  not_dated : in_range start_date end_date none ≢ true
  unfolding in_range
  not_dated h = cc

  Chosen-IsInRange : (f : Text) → Chosen f → IsInRange start_date end_date f
  unfolding in_range
  Chosen-IsInRange f c = elim (Option-cases (get_file_date f)) [
    | inl e ↦ absurd (not_dated (subst (λ o. in_range start_date end_date o ≡ true) e c))
    | inr (d, e) ↦
        let k : in_range start_date end_date (some d) ≡ true =
          subst (λ o. in_range start_date end_date o ≡ true) e c in
        let (l, r) = both (from_start start_date d) (to_end end_date d) k in
        record {
          day = d;
          dated = e;
          from_start_on = λ s p. from_start-NoLater start_date d s l p;
          up_to_end = λ b p. to_end-NoLater end_date d b r p;
        }
  ]

  IsInRange-Chosen : (f : Text) → IsInRange start_date end_date f → Chosen f
  unfolding in_range
  IsInRange-Chosen f w =
      rw
        (
          w.dated,
          from_start_intro start_date w.day w.from_start_on,
          to_end_intro end_date w.day w.up_to_end,
        )
        refl

  -- Without `--last-day`, the files that are read are those whose name has a date that is no earlier than
  -- the start date and no later than the end date, where these are given.
  pub select_files_range :
      (fs : List Text) (f : Text)
      → Memᴰ f (select_files start_date end_date false fs)
        ↔ (Memᴰ f fs × IsInRange start_date end_date f)
  unfolding select_files
  select_files_range fs f = (
    λ m. let (i, c) = files_sound fs f m in (i, Chosen-IsInRange f c),
    λ (m, w). files_complete fs f m (IsInRange-Chosen f w),
  )

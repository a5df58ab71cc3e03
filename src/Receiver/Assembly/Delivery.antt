-- ===== src/Receiver/Assembly/Delivery.antt =====
-- A message whose frames all come in is handed over.
use cluster_size_operator_fo.Prelude.{
  ℕ, suc, ◌+◌, ◌≡◌, refl, false, Option, none, some, List, [], ◌∷◌, ◌++◌, length, length-append,
  list_eq, nat_eq, arith, ◌∙◌, sym, ap, All, append_assoc, subst,
}
use cluster_size_operator_fo.Prelude.Int.{ℤ, pos, int_eq}
use cluster_size_operator_fo.Text.{Text}
use cluster_size_operator_fo.Base64.{Bytes}
use cluster_size_operator_fo.Dict.{Dict, lookup, insert, has_key}
use cluster_size_operator_fo.Lifecycle.{◌>>=◌}
use cluster_size_operator_fo.Receiver.Message.{join_frames}
use cluster_size_operator_fo.Receiver.Assembly.{
  Datagram, Entry, Submission, Buffer, new_entry, add_frame, submission, receive_all,
}
use cluster_size_operator_fo.Receiver.Assembly.Track.{
  track_one, track, mine, about, receive_all-Tracks,
}

-- No frame number comes twice, nor does one that is in `frames`.
abbrev pub NewFrames : Dict ℤ Bytes → List (Text × Datagram) → Type 0
NewFrames frames [] = Unit
NewFrames frames ((source_ip, d) ∷ ds) =
    (has_key d.frame_num frames ≡ false) × NewFrames (frames ++ (d.frame_num, d.bin_part) ∷ []) ds

abbrev pub frames_of : List (Text × Datagram) → Dict ℤ Bytes
frames_of [] = []
frames_of ((source_ip, d) ∷ ds) = (d.frame_num, d.bin_part) ∷ frames_of ds

-- The frames with the numbers from `i` on are `fs`.
abbrev pub Numbered : ℕ → List Bytes → Dict ℤ Bytes → Type 0
Numbered i [] frames = Unit
Numbered i (f ∷ fs) frames = (lookup (pos i) frames ≡ some f) × Numbered (suc i) fs frames

-- The datagrams bring the payload that is cut into `fs`, in any order.
pub record IsMessage (fs : List Bytes) (ds : List (Text × Datagram)) : Type 0 where
  pub totals : All (λ p. p.1.total_frames ≡ pos (length fs)) ds
  pub count : length ds ≡ length fs
  pub no_repeat : NewFrames [] ds
  pub numbered : Numbered 1 fs (frames_of ds)

abbrev pub concat : List Bytes → Bytes
concat [] = []
concat (f ∷ fs) = f ++ concat fs

insert_fresh :
    (k : ℤ) (v : Bytes) (frames : Dict ℤ Bytes)
    → has_key k frames ≡ false
    → insert k v frames ≡ frames ++ (k, v) ∷ []
unfolding insert lookup
insert_fresh k v [] h = refl
insert_fresh k v ((j, w) ∷ frames) h = ground (arith, insert_fresh k v frames)

join_frames-Numbered :
    (i : ℕ) (fs : List Bytes) (frames : Dict ℤ Bytes)
    → Numbered i fs frames
    → join_frames frames i (length fs) ≡ some (concat fs)
unfolding join_frames
join_frames-Numbered i [] frames h = refl
join_frames-Numbered i (f ∷ fs) frames (e, hs) =
    rw (e, ◌>>=◌, join_frames-Numbered (suc i) fs frames hs)

-- What is left for a message, and what is handed over for it, once: the frames `frames`.
pub record Delivered (n : ℕ) (frames : Dict ℤ Bytes) (kept : Option Entry)
    (handed_over : List Submission) : Type 0 where
  pub s : Submission
  pub once : handed_over ≡ s ∷ []
  pub all_frames : s.frames ≡ frames
  pub all_counted : s.total_frames ≡ pos n
  pub removed : kept ≡ none

add_last :
    (n : ℕ) (e : Entry) (source_ip : Text) (d : Datagram)
    → e.total ≡ pos n
    → length e.frames + 1 ≡ n
    → has_key d.frame_num e.frames ≡ false
    → track_one (some e) source_ip d
      ≡ (none, some (submission source_ip d (add_frame (some e) source_ip d)))
unfolding track_one add_frame
add_last n e source_ip d t c h = ground (
  arith,
  insert_fresh d.frame_num d.bin_part e.frames h,
  length-append e.frames ((d.frame_num, d.bin_part) ∷ []),
)

add_other :
    (n m : ℕ) (e : Entry) (source_ip : Text) (d : Datagram)
    → e.total ≡ pos n
    → length e.frames + suc (suc m) ≡ n
    → has_key d.frame_num e.frames ≡ false
    → track_one (some e) source_ip d ≡ (some (add_frame (some e) source_ip d), none)
unfolding track_one add_frame
add_other n m e source_ip d t c h = ground (
  arith,
  insert_fresh d.frame_num d.bin_part e.frames h,
  length-append e.frames ((d.frame_num, d.bin_part) ∷ []),
)

frames-add_frame :
    (e : Entry) (source_ip : Text) (d : Datagram)
    → has_key d.frame_num e.frames ≡ false
    → (add_frame (some e) source_ip d).frames ≡ e.frames ++ (d.frame_num, d.bin_part) ∷ []
unfolding add_frame
frames-add_frame e source_ip d h = insert_fresh d.frame_num d.bin_part e.frames h

total-add_frame :
    (e : Entry) (source_ip : Text) (d : Datagram) → (add_frame (some e) source_ip d).total ≡ e.total
unfolding add_frame
total-add_frame e source_ip d = refl

track_other :
    (e f : Entry) (source_ip : Text) (d : Datagram) (ds : List (Text × Datagram))
    → track_one (some e) source_ip d ≡ (some f, none)
    → track (some e) ((source_ip, d) ∷ ds) ≡ track (some f) ds
unfolding track
track_other e f source_ip d ds h = rw h refl

deliver :
    (n : ℕ) (e : Entry) (source_ip : Text) (d : Datagram) (ds : List (Text × Datagram))
    → e.total ≡ pos n
    → All (λ p. p.1.total_frames ≡ pos n) ((source_ip, d) ∷ ds)
    → length e.frames + length ((source_ip, d) ∷ ds) ≡ n
    → NewFrames e.frames ((source_ip, d) ∷ ds)
    → Delivered n
        (e.frames ++ frames_of ((source_ip, d) ∷ ds))
        (track (some e) ((source_ip, d) ∷ ds)).0
        (track (some e) ((source_ip, d) ∷ ds)).1
unfolding track
deliver n e source_ip d [] t (td, ts) c (h, hs) = record {
  s = submission source_ip d (add_frame (some e) source_ip d);
  once = rw (add_last n e source_ip d t c h) refl;
  all_frames = frames-add_frame e source_ip d h;
  all_counted = td;
  removed = rw (add_last n e source_ip d t c h) refl;
}
deliver n e source_ip d ((src, d₂) ∷ ds) t (td, ts) c (h, hs) =
    let e₂ : Entry = add_frame (some e) source_ip d in
    let fr : e₂.frames ≡ e.frames ++ (d.frame_num, d.bin_part) ∷ [] =
      frames-add_frame e source_ip d h in
    let step : track (some e) ((source_ip, d) ∷ (src, d₂) ∷ ds) ≡ track (some e₂) ((src, d₂) ∷ ds) =
      track_other e e₂ source_ip d ((src, d₂) ∷ ds) (add_other n (length ds) e source_ip d t c h) in
    let r : Delivered n (e₂.frames ++ frames_of ((src, d₂) ∷ ds))
        (track (some e₂) ((src, d₂) ∷ ds)).0 (track (some e₂) ((src, d₂) ∷ ds)).1 =
      deliver n e₂ src d₂ ds (total-add_frame e source_ip d ∙ t) ts
        (ap (λ (f : Dict ℤ Bytes). length f + suc (length ds)) fr
          ∙ ground (arith, length-append e.frames ((d.frame_num, d.bin_part) ∷ [])))
        (subst (λ f. NewFrames f ((src, d₂) ∷ ds)) (sym fr) hs) in
    record {
      s = r.s;
      once = ap (λ p. p.1) step ∙ r.once;
      all_frames =
          r.all_frames
          ∙ ap (λ (f : Dict ℤ Bytes). f ++ frames_of ((src, d₂) ∷ ds)) fr
          ∙ append_assoc e.frames ((d.frame_num, d.bin_part) ∷ []) (frames_of ((src, d₂) ∷ ds));
      all_counted = r.all_counted;
      removed = ap (λ p. p.0) step ∙ r.removed;
    }

track-new :
    (source_ip : Text) (d : Datagram) (ds : List (Text × Datagram))
    → track none ((source_ip, d) ∷ ds) ≡ track (some (new_entry source_ip d)) ((source_ip, d) ∷ ds)
unfolding track track_one add_frame
track-new source_ip d ds = refl

track-IsMessage :
    (f : Bytes) (fs : List Bytes) (ds : List (Text × Datagram))
    → IsMessage (f ∷ fs) ds
    → Delivered (length (f ∷ fs)) (frames_of ds) (track none ds).0 (track none ds).1
track-IsMessage f fs [] m = absurd (ground (arith, m.count))
track-IsMessage f fs ((source_ip, d) ∷ ds) m = rw (track-new source_ip d ds) (
    deliver (length (f ∷ fs)) (new_entry source_ip d) source_ip d ds m.totals.0 m.totals
      (ground (arith, m.count)) m.no_repeat)

-- If nothing is kept for a message, and its datagrams, among those of other messages, bring the frames of a payload,
-- each once, in any order and all with the right total, then the message is handed over once, the frames join to the
-- payload, and nothing is kept for it in the end.
pub receive_all_delivers :
    (id : Text) (arrivals : List (Text × Bytes)) (buffer : Buffer) (f : Bytes) (fs : List Bytes)
    → lookup id buffer ≡ none
    → IsMessage (f ∷ fs) (mine id arrivals)
    → (s : Submission) × (about id (receive_all buffer arrivals).1 ≡ s ∷ [])
      × (s.total_frames ≡ pos (length (f ∷ fs)))
      × (join_frames s.frames 1 (length (f ∷ fs)) ≡ some (concat (f ∷ fs)))
      × (lookup id (receive_all buffer arrivals).0 ≡ none)
receive_all_delivers id arrivals buffer f fs new m =
    let t = receive_all-Tracks id arrivals buffer in
    let r = track-IsMessage f fs (mine id arrivals) m in
    (
      r.s,
      rw new at t.handed_over ∙ r.once,
      r.all_counted,
      ap (λ d. join_frames d 1 (length (f ∷ fs))) r.all_frames
          ∙ join_frames-Numbered 1 (f ∷ fs) (frames_of (mine id arrivals)) m.numbered,
      rw new at t.kept ∙ r.removed,
    )

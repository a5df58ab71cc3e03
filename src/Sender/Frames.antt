-- ===== src/Sender/Frames.antt =====
-- The frames of a payload, as the receiver sees them.
use cluster_size_operator_fo.Prelude.{
  ℕ, zero, suc, ◌+◌, ◌-◌, ◌*◌, ◌/◌, ◌≤◌, ◌<◌, ◌≡◌, refl, true, false, some, List, [], ◌∷◌, ◌++◌,
  arith, ap, ◌∙◌, sym, All, length, take, drop, list_eq, nat_eq, ◌==◌,
}
use cluster_size_operator_fo.Prelude.Int.{ℤ, pos, int_eq}
use cluster_size_operator_fo.Text.{Text}
use cluster_size_operator_fo.Text.Number.{show}
use cluster_size_operator_fo.Base64.{Bytes}
use cluster_size_operator_fo.Dict.{Dict, lookup, has_key}
use cluster_size_operator_fo.Receiver.Assembly.{Datagram}
use cluster_size_operator_fo.Receiver.Assembly.Track.{mine}
use cluster_size_operator_fo.Receiver.Assembly.Delivery.{
  NewFrames, frames_of, Numbered, IsMessage, concat,
}
use cluster_size_operator_fo.Sender.{chunk_size, total_frames, bin_chunk, send_frames}
use cluster_size_operator_fo.Sender.Header.{datagram, parse_datagram-udp_payload}

abbrev pub chunks : Bytes → ℕ → ℕ → List Bytes
chunks gzip_data i zero = []
chunks gzip_data i (suc count) = bin_chunk gzip_data i ∷ chunks gzip_data (suc i) count

abbrev pub from : Text → List Bytes → List (Text × Bytes)
from source_ip [] = []
from source_ip (p ∷ payloads) = (source_ip, p) ∷ from source_ip payloads

abbrev pub sent : Text → ℕ → ℕ → Bytes → ℕ → ℕ → List (Text × Datagram)
sent source_ip msg_id total gzip_data i zero = []
sent source_ip msg_id total gzip_data i (suc count) =
    (source_ip, datagram msg_id i total (bin_chunk gzip_data i))
    ∷ sent source_ip msg_id total gzip_data (suc i) count

own_id : (msg_id : ℕ) → (show msg_id == show msg_id) ≡ true
own_id msg_id = ground arith

pub mine-sent :
    (source_ip : Text) (msg_id total : ℕ) (gzip_data : Bytes) (i count : ℕ)
    → mine (show msg_id) (from source_ip (send_frames msg_id total gzip_data i count))
      ≡ sent source_ip msg_id total gzip_data i count
unfolding send_frames
mine-sent source_ip msg_id total gzip_data i zero = refl
mine-sent source_ip msg_id total gzip_data i (suc count) =
    rw
      (
        parse_datagram-udp_payload msg_id i total (bin_chunk gzip_data i),
        own_id msg_id,
        mine-sent source_ip msg_id total gzip_data (suc i) count,
      )
      refl

pub length-chunks : (gzip_data : Bytes) (i count : ℕ) → length (chunks gzip_data i count) ≡ count
length-chunks gzip_data i zero = refl
length-chunks gzip_data i (suc count) = ap suc (length-chunks gzip_data (suc i) count)

length-sent :
    (source_ip : Text) (msg_id total : ℕ) (gzip_data : Bytes) (i count : ℕ)
    → length (sent source_ip msg_id total gzip_data i count) ≡ count
length-sent source_ip msg_id total gzip_data i zero = refl
length-sent source_ip msg_id total gzip_data i (suc count) =
    ap suc (length-sent source_ip msg_id total gzip_data (suc i) count)

sent-All :
    (source_ip : Text) (msg_id total : ℕ) (gzip_data : Bytes) (i count : ℕ)
    → All (λ p. p.1.total_frames ≡ pos total) (sent source_ip msg_id total gzip_data i count)
sent-All source_ip msg_id total gzip_data i zero = tt
sent-All source_ip msg_id total gzip_data i (suc count) =
    (refl, sent-All source_ip msg_id total gzip_data (suc i) count)

-- No frame of the dictionary has the number `i` or a later one.
abbrev Below : ℕ → Dict ℤ Bytes → Type 0
Below i frames = (j : ℕ) → i ≤ j → has_key (pos j) frames ≡ false

has_key-append :
    (j i : ℕ) (frames : Dict ℤ Bytes) (f : Bytes)
    → i < j
    → has_key (pos j) frames ≡ false
    → has_key (pos j) (frames ++ (pos i, f) ∷ []) ≡ false
unfolding lookup
has_key-append j i [] f h k = ground arith
has_key-append j i ((m, g) ∷ frames) f h k = ground (arith, has_key-append j i frames f h)

sent-NewFrames :
    (source_ip : Text) (msg_id total : ℕ) (gzip_data : Bytes) (i count : ℕ) (frames : Dict ℤ Bytes)
    → Below i frames
    → NewFrames frames (sent source_ip msg_id total gzip_data i count)
sent-NewFrames source_ip msg_id total gzip_data i zero frames h = tt
sent-NewFrames source_ip msg_id total gzip_data i (suc count) frames h = (
  h i (omega arith),
  sent-NewFrames source_ip msg_id total gzip_data (suc i) count
      (frames ++ (pos i, bin_chunk gzip_data i) ∷ [])
      (λ j k. has_key-append j i frames (bin_chunk gzip_data i) (omega arith) (h j (omega arith))),
)

Numbered-later :
    (i k : ℕ) (g : Bytes) (fs : List Bytes) (frames : Dict ℤ Bytes)
    → i < k
    → Numbered k fs frames
    → Numbered k fs ((pos i, g) ∷ frames)
unfolding lookup
Numbered-later i k g [] frames h n = tt
Numbered-later i k g (f ∷ fs) frames h (e, n) =
    (ground arith, Numbered-later i (suc k) g fs frames (omega arith) n)

first_frame :
    (i : ℕ) (f : Bytes) (frames : Dict ℤ Bytes) → lookup (pos i) ((pos i, f) ∷ frames) ≡ some f
unfolding lookup
first_frame i f frames = ground arith

sent-Numbered :
    (source_ip : Text) (msg_id total : ℕ) (gzip_data : Bytes) (i count : ℕ)
    → Numbered i
        (chunks gzip_data i count)
        (frames_of (sent source_ip msg_id total gzip_data i count))
sent-Numbered source_ip msg_id total gzip_data i zero = tt
sent-Numbered source_ip msg_id total gzip_data i (suc count) = (
  first_frame i (bin_chunk gzip_data i) _,
  Numbered-later i (suc i) (bin_chunk gzip_data i) (chunks gzip_data (suc i) count) _ (omega arith)
      (sent-Numbered source_ip msg_id total gzip_data (suc i) count),
)

pub sent-IsMessage :
    (source_ip : Text) (msg_id total : ℕ) (gzip_data : Bytes)
    → IsMessage (chunks gzip_data 1 total) (sent source_ip msg_id total gzip_data 1 total)
sent-IsMessage source_ip msg_id total gzip_data = record {
  totals = rw (length-chunks gzip_data 1 total) (sent-All source_ip msg_id total gzip_data 1 total);
  count =
      length-sent source_ip msg_id total gzip_data 1 total ∙ sym (length-chunks gzip_data 1 total);
  no_repeat =
      sent-NewFrames source_ip msg_id total gzip_data 1 total [] (λ j k. unfold lookup in refl);
  numbered = sent-Numbered source_ip msg_id total gzip_data 1 total;
}

take-drop : (n : ℕ) (xs : Bytes) → take n xs ++ drop n xs ≡ xs
take-drop zero xs = refl
take-drop (suc n) [] = refl
take-drop (suc n) (x ∷ xs) = ap (λ ys. x ∷ ys) (take-drop n xs)

abbrev no_bytes : Bytes
no_bytes = []

drop_nil : (n : ℕ) → drop n no_bytes ≡ no_bytes
drop_nil zero = refl
drop_nil (suc n) = refl

drop-drop : (n m : ℕ) (xs : Bytes) → drop n (drop m xs) ≡ drop (m + n) xs
drop-drop n zero xs = let e : n ≡ 0 + n = omega arith in ap (λ k. drop k xs) e
drop-drop n (suc m) [] = drop_nil n ∙ sym (drop_nil (suc m + n))
drop-drop n (suc m) (x ∷ xs) =
    let e : suc (m + n) ≡ suc m + n = omega arith in drop-drop n m xs ∙ ap (λ k. drop k (x ∷ xs)) e

drop_all : (n : ℕ) (xs : Bytes) → length xs ≤ n → drop n xs ≡ []
drop_all zero [] h = refl
drop_all zero (x ∷ xs) h = absurd (omega arith)
drop_all (suc n) [] h = refl
drop_all (suc n) (x ∷ xs) h = drop_all n xs (omega arith)

concat-chunks :
    (gzip_data : Bytes) (i count : ℕ)
    → length gzip_data ≤ (i + count) * chunk_size
    → concat (chunks gzip_data (suc i) count) ≡ drop (i * chunk_size) gzip_data
unfolding bin_chunk
concat-chunks gzip_data i zero h = sym (drop_all (i * chunk_size) gzip_data (omega arith))
concat-chunks gzip_data i (suc count) h =
    let e : (suc i - 1) * chunk_size ≡ i * chunk_size = omega arith in
    let f : i * chunk_size + chunk_size ≡ suc i * chunk_size = omega arith in
    rw
      (
        concat-chunks gzip_data (suc i) count (omega arith),
        e,
        sym f,
        sym (drop-drop chunk_size (i * chunk_size) gzip_data),
      )
      (take-drop chunk_size (drop (i * chunk_size) gzip_data))

-- The chunks of a payload join to it.
pub concat-chunks_all :
    (gzip_data : Bytes) → concat (chunks gzip_data 1 (total_frames gzip_data)) ≡ gzip_data
unfolding total_frames
concat-chunks_all gzip_data = concat-chunks gzip_data 0 _ (omega arith)

pub total_frames-suc : (b : ℕ) (bs : Bytes) → (k : ℕ) × (total_frames (b ∷ bs) ≡ suc k)
unfolding total_frames
total_frames-suc b bs = ((length (b ∷ bs) + chunk_size - 1) / chunk_size - 1, omega arith)

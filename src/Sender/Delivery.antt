-- ===== src/Sender/Delivery.antt =====
-- What the senders send is what the receiver hands over.
use cluster_size_operator_fo.Prelude.{
  ℕ, suc, ◌≡◌, ◌∙◌, ap, some, none, List, [], ◌∷◌, length, sym, subst, list_eq, nat_eq,
}
use cluster_size_operator_fo.Prelude.Int.{pos}
use cluster_size_operator_fo.Text.{Text}
use cluster_size_operator_fo.Text.Number.{show}
use cluster_size_operator_fo.Base64.{Bytes}
use cluster_size_operator_fo.Dict.{lookup}
use cluster_size_operator_fo.Receiver.Message.{join_frames}
use cluster_size_operator_fo.Receiver.Assembly.{Submission, Buffer, receive_all}
use cluster_size_operator_fo.Receiver.Assembly.Track.{mine, about}
use cluster_size_operator_fo.Receiver.Assembly.Delivery.{IsMessage, concat, receive_all_delivers}
use cluster_size_operator_fo.Sender.{total_frames, bin_chunk, send_segmented_payload}
use cluster_size_operator_fo.Sender.Frames.{
  from, sent, chunks, mine-sent, sent-IsMessage, concat-chunks_all, total_frames-suc, length-chunks,
}

delivered :
    (msg_id k : ℕ) (gzip_data : Bytes) (source_ip : Text) (arrivals : List (Text × Bytes))
    (buffer : Buffer)
    → total_frames gzip_data ≡ suc k
    → lookup (show msg_id) buffer ≡ none
    → mine (show msg_id) arrivals
      ≡ sent source_ip msg_id (total_frames gzip_data) gzip_data 1 (total_frames gzip_data)
    → (s : Submission) × (about (show msg_id) (receive_all buffer arrivals).1 ≡ s ∷ [])
      × (s.total_frames ≡ pos (total_frames gzip_data))
      × (join_frames s.frames 1 (total_frames gzip_data) ≡ some gzip_data)
delivered msg_id k gzip_data source_ip arrivals buffer t new same =
    let m : IsMessage (chunks gzip_data 1 (total_frames gzip_data)) (mine (show msg_id) arrivals) =
      rw same (sent-IsMessage source_ip msg_id (total_frames gzip_data) gzip_data) in
    let all : length (chunks gzip_data 1 (suc k)) ≡ total_frames gzip_data =
      length-chunks gzip_data 1 (suc k) ∙ sym t in
    let (s, once, counted, joined, removed) =
      receive_all_delivers (show msg_id) arrivals buffer (bin_chunk gzip_data 1)
        (chunks gzip_data 2 k) new
        (subst (λ n. IsMessage (chunks gzip_data 1 n) (mine (show msg_id) arrivals)) t m) in
    (
      s,
      once,
      counted ∙ ap pos all,
      ap (λ n. join_frames s.frames 1 n) (sym all)
          ∙ joined
          ∙ ap (λ n. some (concat (chunks gzip_data 1 n))) (sym t)
          ∙ ap some (concat-chunks_all gzip_data),
    )

-- If the frames of a payload that is not empty arrive in the order they were sent, with any datagrams of other messages
-- in between, and nothing is kept for the message id, then the payload is handed over once, as it was.
pub send_segmented_payload-received :
    (msg_id b : ℕ) (bs : Bytes) (source_ip : Text) (arrivals : List (Text × Bytes))
    (buffer : Buffer)
    → lookup (show msg_id) buffer ≡ none
    → mine (show msg_id) arrivals
      ≡ mine (show msg_id) (from source_ip (send_segmented_payload msg_id (b ∷ bs)))
    → (s : Submission) × (about (show msg_id) (receive_all buffer arrivals).1 ≡ s ∷ [])
      × (s.total_frames ≡ pos (total_frames (b ∷ bs)))
      × (join_frames s.frames 1 (total_frames (b ∷ bs)) ≡ some (b ∷ bs))
unfolding send_segmented_payload
send_segmented_payload-received msg_id b bs source_ip arrivals buffer new same =
    let (k, t) = total_frames-suc b bs in
    delivered msg_id k (b ∷ bs) source_ip arrivals buffer t new
      (same ∙ mine-sent source_ip msg_id (total_frames (b ∷ bs)) (b ∷ bs) 1 (total_frames (b ∷ bs)))

-- ===== src/Receiver/Assembly/Track.antt =====
-- What the loop does for one message, between the datagrams of others.
use cluster_size_operator_fo.Prelude.{
  ◌≡◌, refl, true, false, Option, none, some, List, [], ◌∷◌, ◌==◌, list_eq, nat_eq, arith,
  if◌then◌else◌, Bool-cases, inl, inr, ◌∙◌,
}
use cluster_size_operator_fo.Text.{Text}
use cluster_size_operator_fo.Base64.{Bytes}
use cluster_size_operator_fo.Dict.{lookup, insert}
use cluster_size_operator_fo.Dict.Laws.{lookup-insert, lookup-erase}
use cluster_size_operator_fo.Receiver.Assembly.{
  Datagram, Entry, Submission, Buffer, parse_datagram, add_frame, is_complete, submission,
  on_datagram, on_parsed, receive, with_submission, receive_all,
}

-- One datagram of a message, on what is kept for the message.
unfoldable pub track_one : Option Entry → Text → Datagram → Option Entry × Option Submission
track_one old source_ip d =
    let e = add_frame old source_ip d in
    if is_complete e then (none, some (submission source_ip d e)) else (some e, none)

unfoldable pub track : Option Entry → List (Text × Datagram) → Option Entry × List Submission
track old [] = (old, [])
track old ((source_ip, d) ∷ ds) =
    let (new, s) = track_one old source_ip d in
    let (final, rest) = track new ds in (final, with_submission s rest)

abbrev pub add_mine :
    Text → Text → Option Datagram → List (Text × Datagram) → List (Text × Datagram)
add_mine id source_ip none rest = rest
add_mine id source_ip (some d) rest = if id == d.msg_id then (source_ip, d) ∷ rest else rest

-- The datagrams of the message `id`.
abbrev pub mine : Text → List (Text × Bytes) → List (Text × Datagram)
mine id [] = []
mine id ((source_ip, content) ∷ arrivals) =
    add_mine id source_ip (parse_datagram content) (mine id arrivals)

-- What is handed over for the message `id`.
abbrev pub about : Text → List Submission → List Submission
about id [] = []
about id (s ∷ submissions) =
    let rest = about id submissions in if id == s.msg_id then s ∷ rest else rest

own_entry :
    (id source_ip : Text) (d : Datagram) (buffer : Buffer)
    → (id == d.msg_id) ≡ true
    → lookup id (on_datagram buffer source_ip d).0 ≡ (track_one (lookup id buffer) source_ip d).0
unfolding on_datagram track_one
own_entry id source_ip d buffer h = ground (
  arith,
  lookup-erase id d.msg_id
      (insert d.msg_id (add_frame (lookup d.msg_id buffer) source_ip d) buffer),
  lookup-insert id d.msg_id (add_frame (lookup d.msg_id buffer) source_ip d) buffer,
)

own_submission :
    (id source_ip : Text) (d : Datagram) (buffer : Buffer)
    → (id == d.msg_id) ≡ true
    → (on_datagram buffer source_ip d).1 ≡ (track_one (lookup id buffer) source_ip d).1
unfolding on_datagram track_one
own_submission id source_ip d buffer h = ground arith

own_about :
    (id source_ip : Text) (d : Datagram) (old : Option Entry) (rest : List Submission)
    → (id == d.msg_id) ≡ true
    → about id (with_submission (track_one old source_ip d).1 rest)
      ≡ with_submission (track_one old source_ip d).1 (about id rest)
unfolding track_one
own_about id source_ip d old rest h = ground arith

other_entry :
    (id source_ip : Text) (d : Datagram) (buffer : Buffer)
    → (id == d.msg_id) ≡ false
    → lookup id (on_datagram buffer source_ip d).0 ≡ lookup id buffer
unfolding on_datagram
other_entry id source_ip d buffer h = ground (
  arith,
  lookup-erase id d.msg_id
      (insert d.msg_id (add_frame (lookup d.msg_id buffer) source_ip d) buffer),
  lookup-insert id d.msg_id (add_frame (lookup d.msg_id buffer) source_ip d) buffer,
)

other_about :
    (id source_ip : Text) (d : Datagram) (buffer : Buffer) (rest : List Submission)
    → (id == d.msg_id) ≡ false
    → about id (with_submission (on_datagram buffer source_ip d).1 rest) ≡ about id rest
unfolding on_datagram
other_about id source_ip d buffer rest h = ground arith

-- The loop from the buffer does for the message what `track` does.
pub record Tracks (id : Text) (old : Option Entry) (mine : List (Text × Datagram)) (final : Buffer)
    (submissions : List Submission) : Type 0 where
  pub kept : lookup id final ≡ (track old mine).0
  pub handed_over : about id submissions ≡ (track old mine).1

own_step :
    (id source_ip : Text) (d : Datagram) (buffer final : Buffer) (ds : List (Text × Datagram))
    (rest : List Submission)
    → (id == d.msg_id) ≡ true
    → Tracks id (lookup id (on_datagram buffer source_ip d).0) ds final rest
    → Tracks id
        (lookup id buffer)
        ((source_ip, d) ∷ ds)
        final
        (with_submission (on_datagram buffer source_ip d).1 rest)
own_step id source_ip d buffer final ds rest h t = record {
  kept = t.kept ∙ (unfold track in rw (own_entry id source_ip d buffer h) refl);
  handed_over =
      rw
        (
          own_submission id source_ip d buffer h,
          own_about id source_ip d (lookup id buffer) rest h,
          t.handed_over,
          own_entry id source_ip d buffer h,
        )
        (unfold track in refl);
}

other_step :
    (id source_ip : Text) (d : Datagram) (buffer final : Buffer) (ds : List (Text × Datagram))
    (rest : List Submission)
    → (id == d.msg_id) ≡ false
    → Tracks id (lookup id (on_datagram buffer source_ip d).0) ds final rest
    → Tracks id
        (lookup id buffer)
        ds
        final
        (with_submission (on_datagram buffer source_ip d).1 rest)
other_step id source_ip d buffer final ds rest h t = record {
  kept = rw (other_entry id source_ip d buffer h) at t.kept;
  handed_over =
      other_about id source_ip d buffer rest h
      ∙ (rw (other_entry id source_ip d buffer h) at t.handed_over);
}

parsed_step :
    (id source_ip : Text) (d : Option Datagram) (buffer final : Buffer)
    (ds : List (Text × Datagram)) (rest : List Submission)
    → Tracks id (lookup id (on_parsed buffer source_ip d).0) ds final rest
    → Tracks id
        (lookup id buffer)
        (add_mine id source_ip d ds)
        final
        (with_submission (on_parsed buffer source_ip d).1 rest)
parsed_step id source_ip none buffer final ds rest t = t
parsed_step id source_ip (some d) buffer final ds rest t = elim (Bool-cases (id == d.msg_id)) [
  | inl y ↦ rw (y) (own_step id source_ip d buffer final ds rest y t)
  | inr n ↦ rw (n) (other_step id source_ip d buffer final ds rest n t)
]

-- What the loop keeps and hands over for a message is what the datagrams of that message lead to, in their order: those
-- of other messages, and those that cannot be parsed, change nothing for it.
pub receive_all-Tracks :
    (id : Text) (arrivals : List (Text × Bytes)) (buffer : Buffer)
    → Tracks id
        (lookup id buffer)
        (mine id arrivals)
        (receive_all buffer arrivals).0
        (receive_all buffer arrivals).1
unfolding receive_all receive
receive_all-Tracks id [] buffer = record {
  kept = unfold track in refl;
  handed_over = unfold track in refl;
}
receive_all-Tracks id ((source_ip, content) ∷ arrivals) buffer =
    parsed_step id source_ip (parse_datagram content) buffer _ (mine id arrivals) _
      (receive_all-Tracks id arrivals (on_parsed buffer source_ip (parse_datagram content)).0)

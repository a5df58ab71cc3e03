-- ===== src/Receiver/Assembly.antt =====
-- `main`: the datagrams that the socket brings, put together to messages. The socket and the
-- executor's processes are outside the model: a step has the message it hands over as its result.
pub mod Pending
pub mod Track
pub mod Delivery
use cluster_size_operator_fo.Prelude.{
  ℕ, Bool, true, false, Option, none, some, List, [], ◌∷◌, ◌++◌, length, ◌==◌, list_eq, nat_eq,
  if◌then◌else◌,
}
use cluster_size_operator_fo.Prelude.Int.{ℤ, pos, int_eq}
use cluster_size_operator_fo.Text.{Text, split, split_once}
use cluster_size_operator_fo.Text.Number.{int_of}
use cluster_size_operator_fo.Base64.{Bytes, utf8_decode}
use cluster_size_operator_fo.Dict.{Dict, lookup, insert, erase, or_else}
use cluster_size_operator_fo.Lifecycle.{◌>>=◌}

pub record Datagram : Type 0 where
  pub msg_id : Text
  pub frame_num : ℤ
  pub total_frames : ℤ
  pub bin_part : Bytes

abbrev three_parts : List Text → Option (Text × Text × Text)
three_parts (a ∷ b ∷ c ∷ []) = some (a, b, c)
three_parts parts = none

-- `none` where the loop goes on with the next datagram.
unfoldable pub parse_datagram : Bytes → Option Datagram
parse_datagram content = do
  (header_part, bin_part) ← split_once b'|' content
  header_str ← utf8_decode header_part
  (msg_id, frame_num_str, total_frames_str) ← three_parts (split b',' header_str)
  frame_num ← int_of frame_num_str
  total_frames ← int_of total_frames_str
  some (record {
    msg_id = msg_id;
    frame_num = frame_num;
    total_frames = total_frames;
    bin_part = bin_part;
  })

-- A value of `assembly_buffer`.
pub record Entry : Type 0 where
  pub total : ℤ
  pub frames : Dict ℤ Bytes
  pub source : Text

-- The arguments of `executor.submit`.
pub record Submission : Type 0 where
  pub msg_id : Text
  pub source_ip : Text
  pub frames : Dict ℤ Bytes
  pub total_frames : ℤ

abbrev pub Buffer : Type 0
Buffer = Dict Text Entry

abbrev pub new_entry : Text → Datagram → Entry
new_entry source_ip d = record { total = d.total_frames; frames = []; source = source_ip }

-- The entry of the datagram's message, with the datagram's frame; the first argument is the entry from
-- before.
unfoldable pub add_frame : Option Entry → Text → Datagram → Entry
add_frame old source_ip d =
    let e = or_else old (new_entry source_ip d) in
    record { total = e.total; frames = insert d.frame_num d.bin_part e.frames; source = e.source }

abbrev pub is_complete : Entry → Bool
is_complete e = pos (length e.frames) == e.total

abbrev pub submission : Text → Datagram → Entry → Submission
submission source_ip d e = record {
  msg_id = d.msg_id;
  source_ip = source_ip;
  frames = e.frames;
  total_frames = d.total_frames;
}

unfoldable pub on_datagram : Buffer → Text → Datagram → Buffer × Option Submission
on_datagram buffer source_ip d =
    let e = add_frame (lookup d.msg_id buffer) source_ip d in
    let with_frame = insert d.msg_id e buffer in
    if is_complete e
    then (erase d.msg_id with_frame, some (submission source_ip d e))
    else (with_frame, none)

abbrev pub on_parsed : Buffer → Text → Option Datagram → Buffer × Option Submission
on_parsed buffer source_ip none = (buffer, none)
on_parsed buffer source_ip (some d) = on_datagram buffer source_ip d

-- One round of the loop.
unfoldable pub receive : Buffer → Text × Bytes → Buffer × Option Submission
receive buffer (source_ip, content) = on_parsed buffer source_ip (parse_datagram content)

abbrev pub with_submission : Option Submission → List Submission → List Submission
with_submission none rest = rest
with_submission (some s) rest = s ∷ rest

-- The rounds of the loop, with what they hand over.
unfoldable pub receive_all : Buffer → List (Text × Bytes) → Buffer × List Submission
receive_all buffer [] = (buffer, [])
receive_all buffer (a ∷ arrivals) =
    let (after, s) = receive buffer a in
    let (final, rest) = receive_all after arrivals in (final, with_submission s rest)

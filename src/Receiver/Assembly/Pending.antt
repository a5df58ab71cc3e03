-- ===== src/Receiver/Assembly/Pending.antt =====
-- The buffer between two datagrams.
use cluster_size_operator_fo.Prelude.{◌≡◌, false, Option, none, some, list_eq, nat_eq, arith}
use cluster_size_operator_fo.Prelude.Int.{int_eq}
use cluster_size_operator_fo.Text.{Text}
use cluster_size_operator_fo.Base64.{Bytes}
use cluster_size_operator_fo.Dict.{lookup, insert, erase}
use cluster_size_operator_fo.Dict.Laws.{lookup-insert, lookup-erase}
use cluster_size_operator_fo.Receiver.Assembly.{
  Datagram, Entry, Buffer, parse_datagram, add_frame, is_complete, on_datagram, on_parsed, receive,
}

-- No message that the buffer holds is complete.
abbrev pub IsPending : Buffer → Type 0
IsPending buffer =
    (msg_id : Text) (e : Entry) → lookup msg_id buffer ≡ some e → is_complete e ≡ false

erase-IsPending :
    (buffer : Buffer) (k : Text) (e : Entry)
    → IsPending buffer
    → IsPending (erase k (insert k e buffer))
erase-IsPending buffer k e h m f q =
    ground (arith, lookup-erase m k (insert k e buffer), lookup-insert m k e buffer, h m f)

insert-IsPending :
    (buffer : Buffer) (k : Text) (e : Entry)
    → IsPending buffer
    → (m : Text) (f : Entry) → is_complete e ≡ false
    → lookup m (insert k e buffer) ≡ some f
    → is_complete f ≡ false
insert-IsPending buffer k e h m f p q = ground (arith, lookup-insert m k e buffer, h m f)

on_datagram-IsPending :
    (buffer : Buffer) (source_ip : Text) (d : Datagram)
    → IsPending buffer
    → IsPending (on_datagram buffer source_ip d).0
unfolding on_datagram
on_datagram-IsPending buffer source_ip d h m e q = ground (
  arith,
  erase-IsPending buffer d.msg_id (add_frame (lookup d.msg_id buffer) source_ip d) h m e,
  insert-IsPending buffer d.msg_id (add_frame (lookup d.msg_id buffer) source_ip d) h m e,
)

on_parsed-IsPending :
    (buffer : Buffer) (source_ip : Text) (d : Option Datagram)
    → IsPending buffer
    → IsPending (on_parsed buffer source_ip d).0
on_parsed-IsPending buffer source_ip none h = h
on_parsed-IsPending buffer source_ip (some d) h = on_datagram-IsPending buffer source_ip d h

-- A round of the loop keeps the buffer free of complete messages, whatever the datagram holds.
pub receive-IsPending :
    (buffer : Buffer) (arrival : Text × Bytes)
    → IsPending buffer
    → IsPending (receive buffer arrival).0
unfolding receive
receive-IsPending buffer (source_ip, content) h =
    on_parsed-IsPending buffer source_ip (parse_datagram content) h

-- ===== src/Receiver/Serve.antt =====
-- `main` with its retention: a round of the loop takes a datagram and, if more than 300 seconds have
-- passed since the last cleanup, cleans the folder. A datagram that cannot be parsed leads to neither.
pub mod Separate
use cluster_size_operator_fo.Prelude.{
  ℕ, ◌-◌, Bool, true, false, Option, none, some, List, [], ◌∷◌, ltb, list_eq, nat_eq, if◌then◌else◌,
}
use cluster_size_operator_fo.Prelude.Int.{ℤ}
use cluster_size_operator_fo.Text.{Text}
use cluster_size_operator_fo.Base64.{Bytes}
use cluster_size_operator_fo.Receiver.Assembly.{
  Datagram, Buffer, Submission, parse_datagram, on_datagram, with_submission,
}
use cluster_size_operator_fo.Receiver.Retention.{LogEntry, Cleaned, run_retention_cleanup}

-- A datagram, the folder as a cleanup would find it, and what the clock says when the time since the last
-- cleanup is checked, when a cleanup starts and when it has ended.
pub record Arrival : Type 0 where
  pub source_ip : Text
  pub content : Bytes
  pub folder : List LogEntry
  pub checked_at : ℕ
  pub cleaned_at : ℕ
  pub ended_at : ℕ

pub record Server : Type 0 where
  pub assembly_buffer : Buffer
  pub last_cleanup_time : ℕ

-- The state after a round, the message that is handed over, and what a cleanup did.
pub record Round : Type 0 where
  pub server : Server
  pub handed_over : Option Submission
  pub cleaned : Option Cleaned

-- After an exception of the cleanup, its time stays as it was.
abbrev pub time_after : ℕ → ℕ → Option Cleaned → ℕ
time_after last ended none = last
time_after last ended (some c) = if c.raised then last else ended

unfoldable pub clean_up : (Text → Bool) → ℤ → ℕ → Arrival → Option Cleaned
clean_up removable seconds last a =
    if ltb 300 (a.checked_at - last)
    then some (run_retention_cleanup removable a.cleaned_at seconds a.folder)
    else none

abbrev pub serve_parsed : (Text → Bool) → ℤ → Server → Arrival → Option Datagram → Round
serve_parsed removable seconds st a none = record {
  server = st;
  handed_over = none;
  cleaned = none;
}
serve_parsed removable seconds st a (some d) =
    let (buffer, s) = on_datagram st.assembly_buffer a.source_ip d in
    let c = clean_up removable seconds st.last_cleanup_time a in
    record {
      server = record {
        assembly_buffer = buffer;
        last_cleanup_time = time_after st.last_cleanup_time a.ended_at c;
      };
      handed_over = s;
      cleaned = c;
    }

unfoldable pub serve : (Text → Bool) → ℤ → Server → Arrival → Round
serve removable seconds st a = serve_parsed removable seconds st a (parse_datagram a.content)

abbrev pub with_cleanup : Option Cleaned → List Cleaned → List Cleaned
with_cleanup none rest = rest
with_cleanup (some c) rest = c ∷ rest

-- The rounds of the loop: the last state, the messages and the cleanups.
unfoldable pub serve_all :
    (Text → Bool) → ℤ → Server → List Arrival → Server × List Submission × List Cleaned
serve_all removable seconds st [] = (st, [], [])
serve_all removable seconds st (a ∷ arrivals) =
    let r = serve removable seconds st a in
    let (final, messages, cleanups) = serve_all removable seconds r.server arrivals in
    (final, with_submission r.handed_over messages, with_cleanup r.cleaned cleanups)

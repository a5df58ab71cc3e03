-- ===== src/Receiver/Serve/Separate.antt =====
-- The messages and the retention, side by side.
use cluster_size_operator_fo.Prelude.{
  ℕ, ◌+◌, ◌*◌, ◌≤◌, ◌≡◌, refl, Bool, Option, none, some, List, [], ◌∷◌, list_eq, nat_eq,
  if◌then◌else◌, arith, All, map, suc,
}
use cluster_size_operator_fo.Prelude.Int.{ℤ}
use cluster_size_operator_fo.Text.{Text}
use cluster_size_operator_fo.Base64.{Bytes}
use cluster_size_operator_fo.Receiver.Assembly.{Datagram, parse_datagram, receive, receive_all}
use cluster_size_operator_fo.Receiver.Retention.{Cleaned}
use cluster_size_operator_fo.Receiver.Serve.{
  Arrival, Server, Round, clean_up, time_after, serve_parsed, serve, serve_all, with_cleanup,
}

abbrev pub datagram : Arrival → Text × Bytes
datagram a = (a.source_ip, a.content)

-- The number of cleanups that no exception ended.
abbrev pub completed : List Cleaned → ℕ
completed [] = 0
completed (c ∷ cs) = let n = completed cs in if c.raised then n else suc n

module _ (removable : Text → Bool) (seconds : ℤ) where
  parsed_receive :
      (st : Server) (a : Arrival) (d : Option Datagram)
      → parse_datagram a.content ≡ d
      → receive st.assembly_buffer (datagram a) ≡ (
        (serve_parsed removable seconds st a d).server.assembly_buffer,
        (serve_parsed removable seconds st a d).handed_over,
      )
  unfolding receive
  parsed_receive st a none e = rw e refl
  parsed_receive st a (some d) e = rw e refl

  receive-serve :
      (st : Server) (a : Arrival)
      → receive st.assembly_buffer (datagram a) ≡ (
        (serve removable seconds st a).server.assembly_buffer,
        (serve removable seconds st a).handed_over,
      )
  unfolding serve
  receive-serve st a = parsed_receive st a (parse_datagram a.content) refl

  -- The loop keeps the same buffer and hands over the same messages as without the retention.
  messages_kept :
      (st : Server) (arrivals : List Arrival)
      → receive_all st.assembly_buffer (map datagram arrivals) ≡ (
        (serve_all removable seconds st arrivals).0.assembly_buffer,
        (serve_all removable seconds st arrivals).1,
      )
  unfolding receive_all serve_all
  messages_kept st [] = refl
  messages_kept st (a ∷ arrivals) =
      rw (receive-serve st a, messages_kept (serve removable seconds st a).server arrivals) refl

  time_kept :
      (last : ℕ) (a : Arrival)
      → a.checked_at ≤ a.ended_at
      → last + 301 * completed (with_cleanup (clean_up removable seconds last a) [])
        ≤ time_after last a.ended_at (clean_up removable seconds last a)
  unfolding clean_up
  time_kept last a h = ground arith

  round_time :
      (st : Server) (a : Arrival) (d : Option Datagram)
      → a.checked_at ≤ a.ended_at
      → st.last_cleanup_time
          + 301 * completed (with_cleanup (serve_parsed removable seconds st a d).cleaned [])
        ≤ (serve_parsed removable seconds st a d).server.last_cleanup_time
  round_time st a none h = omega arith
  round_time st a (some d) h = time_kept st.last_cleanup_time a h

  completed-with_cleanup :
      (c : Option Cleaned) (cs : List Cleaned)
      → completed (with_cleanup c cs) ≡ completed (with_cleanup c []) + completed cs
  completed-with_cleanup none cs = omega arith
  completed-with_cleanup (some c) cs = ground arith

  rounds_time :
      (st : Server) (arrivals : List Arrival)
      → All (λ a. a.checked_at ≤ a.ended_at) arrivals
      → st.last_cleanup_time + 301 * completed (serve_all removable seconds st arrivals).2
        ≤ (serve_all removable seconds st arrivals).0.last_cleanup_time
  unfolding serve_all serve
  rounds_time st [] h = omega arith
  rounds_time st (a ∷ arrivals) (h, hs) =
      let r : Round = serve removable seconds st a in
      omega (
        arith,
        round_time st a (parse_datagram a.content) h,
        rounds_time r.server arrivals hs,
        completed-with_cleanup r.cleaned (serve_all removable seconds r.server arrivals).2,
      )

-- The loop hands over the messages and keeps the buffer as it would without the retention, and between the last cleanup
-- before and the last one that it completes, more than 300 seconds pass for each cleanup that it completes. The clock
-- does not go back during a cleanup.
pub serve_all_separate :
    (removable : Text → Bool) (seconds : ℤ) (st : Server) (arrivals : List Arrival)
    → All (λ a. a.checked_at ≤ a.ended_at) arrivals
    → (receive_all st.assembly_buffer (map datagram arrivals) ≡ (
      (serve_all removable seconds st arrivals).0.assembly_buffer,
      (serve_all removable seconds st arrivals).1,
    ))
      × (st.last_cleanup_time + 301 * completed (serve_all removable seconds st arrivals).2
          ≤ (serve_all removable seconds st arrivals).0.last_cleanup_time)
serve_all_separate removable seconds st arrivals h =
    (messages_kept removable seconds st arrivals, rounds_time removable seconds st arrivals h)

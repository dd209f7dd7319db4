-- ===== src/Client/Session.antt =====
-- src/mfc/StreamClient.cpp: `run`, as the calls of the handlers that it makes. `ensure_tunnel` and
-- `connect_once` are their results; `running_` going down, or a socket that `stop` closed, ends a
-- connection. What is sent on a new connection (the hello and a channels request) and the waits
-- between attempts make no calls and are left out; the requests are in Wire.
use mathlib.Core.Option.{some-injective, none-ne-some}
use stream_monitor.Prelude.{
  ◌≡◌, refl, ◌∙◌, inl, inr, Bool, true, false, Option-cases, List, [], ◌∷◌, ◌++◌, Option, none,
  some,
}
use stream_monitor.Framing.{Bytes, on_line, receive, receive_all}
use stream_monitor.Framing.Split.{split}
use stream_monitor.Framing.Loop.{run_lines}
use stream_monitor.Framing.Segments.{concat, receive_all-concat}
use stream_monitor.Json.{Json}
use stream_monitor.Client.{Wide, Call, on_waiting, on_connected, on_lost, handle_line}

-- What `recv` gives: bytes, WSAETIMEDOUT, or the end (0, an error, no socket, not running).
pub data Recv : Type 0 where
  chunk : Bytes → Recv
  timed_out ended : Recv

-- What an iteration of `run` meets: no tunnel, no connection, or a connection with its `recv` calls
-- and `running_` after them.
pub data Attempt : Type 0 where
  no_tunnel no_connection : Attempt
  connection : List Recv → Bool → Attempt

module _ (convert : Bytes → Wide) (parse : Bytes → Option Json) where
  abbrev handler : List Call → Bytes → Option (List Call)
  handler calls line = some (handle_line convert parse calls line)

  -- The loop over a connection, with the calls made and the buffer.
  unfoldable pub recv_loop : List Recv → List Call × Bytes → List Call × Bytes
  recv_loop [] p = p
  recv_loop (chunk b ∷ rs) p = elim (receive handler b p) [ none ↦ p | some p' ↦ recv_loop rs p' ]
  recv_loop (timed_out ∷ rs) p = recv_loop rs p
  recv_loop (ended ∷ rs) p = p

  abbrev lost : Bool → List Call
  lost true = on_lost ∷ []
  lost false = []

  -- An iteration: the buffer of a connection is empty at its start, and not used after it.
  unfoldable pub attempt : Attempt → List Call → List Call
  attempt no_tunnel calls = calls
  attempt no_connection calls = calls ++ (on_waiting ∷ [])
  attempt (connection rs running) calls =
      (recv_loop rs (calls ++ (on_connected ∷ []), [])).0 ++ lost running

  unfoldable pub run : List Attempt → List Call → List Call
  run [] calls = calls
  run (a ∷ rest) calls = run rest (attempt a calls)

  -- The bytes that come before the end.
  abbrev pub received : List Recv → Bytes
  received [] = []
  received (chunk b ∷ rs) = b ++ received rs
  received (timed_out ∷ rs) = received rs
  received (ended ∷ rs) = []

  -- The calls for some lines.
  abbrev pub line_calls : List Bytes → List Call → List Call
  line_calls [] calls = calls
  line_calls ([] ∷ ls) calls = line_calls ls calls
  line_calls ((c ∷ l) ∷ ls) calls = line_calls ls (handle_line convert parse calls (c ∷ l))

  run_lines-line_calls :
      (ls : List Bytes) (calls : List Call)
      → run_lines handler ls calls ≡ some (line_calls ls calls)
  unfolding on_line
  run_lines-line_calls [] calls = refl
  run_lines-line_calls ([] ∷ ls) calls = run_lines-line_calls ls calls
  run_lines-line_calls ((c ∷ l) ∷ ls) calls = run_lines-line_calls ls _

  chunks : List Recv → List Bytes
  chunks [] = []
  chunks (chunk b ∷ rs) = b ∷ chunks rs
  chunks (timed_out ∷ rs) = chunks rs
  chunks (ended ∷ rs) = []

  concat-chunks : (rs : List Recv) → concat (chunks rs) ≡ received rs
  unfolding chunks
  concat-chunks [] = refl
  concat-chunks (chunk b ∷ rs) = rw (concat-chunks rs)
  concat-chunks (timed_out ∷ rs) = concat-chunks rs
  concat-chunks (ended ∷ rs) = refl

  recv_loop-receive_all :
      (rs : List Recv) (p q : List Call × Bytes)
      → receive_all handler (chunks rs) p ≡ some q
      → recv_loop rs p ≡ q
  unfolding recv_loop chunks receive_all
  recv_loop-receive_all [] p q e = some-injective _ _ e
  recv_loop-receive_all (chunk b ∷ rs) p q e = elim (Option-cases (receive handler b p)) [
    | inl n ↦ absurd (none-ne-some _ (rw (receive_all, n) at e))
    | inr (p', n) ↦ rw (n, recv_loop) (recv_loop-receive_all rs p' q (rw (receive_all, n) at e))
  ]
  recv_loop-receive_all (timed_out ∷ rs) p q e = recv_loop-receive_all rs p q e
  recv_loop-receive_all (ended ∷ rs) p q e = some-injective _ _ e

  -- A connection calls the handlers for the lines of what it received, cut into pieces and delayed
  -- in any way, and keeps the line that was unfinished when it ended.
  pub recv_loop-received :
      (rs : List Recv) (calls : List Call)
      → recv_loop rs (calls, [])
        ≡ (line_calls (split (received rs)).0 calls, (split (received rs)).1)
  recv_loop-received rs calls =
      recv_loop-receive_all rs (calls, []) _
        (receive_all-concat handler (chunks rs) [] calls tt
          ∙ rw (concat-chunks rs, run_lines-line_calls (split (received rs)).0 calls))

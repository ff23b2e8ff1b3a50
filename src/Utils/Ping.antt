-- ===== src/Utils/Ping.antt =====
-- utils/ping.go: `PingStreamHandler` answers every line, and `Ping` sends one. `write_fails` says which
-- write to the stream is refused.
use mathlib.Core.List.{append_assoc, append-nil}
use libp2p_experiment.Base.{
  ℕ, ◌≡◌, refl, String, Bool, false, List, [], ◌∷◌, ◌++◌, if◌then◌else◌, replicate, length,
}
use libp2p_experiment.Base.Effects.{io_error, Result, ok, err, crash, Exec, pure, ◌>>◌}

-- What `ReadBytes('\n')` gives: a line, the end of the stream, or another error, which the handler
-- does not look at.
pub data Line : Type 0 where
  line : String → Line
  no_more : Line
  failed_read : Line

-- The state is what was written to the stream.
abbrev reply : (ℕ → Bool) → String → Exec (List String) (Unit {0})
reply write_fails text sent =
    if write_fails (length sent) then (err io_error, sent) else (ok tt, sent ++ text ∷ [])

abbrev pong : Result (Unit {0}) × List String → Result (Unit {0}) × List String
pong (err _, sent) = (crash "write", sent)
pong other = other

module _ (write_fails : ℕ → Bool) where
  -- The handler on the lines that come; it waits behind the last.
  unfoldable pub ping_stream_handler : List Line → Exec (List String) (Unit {0})
  ping_stream_handler [] = pure tt
  ping_stream_handler (no_more ∷ _) = pure tt
  ping_stream_handler (line _ ∷ lines) =
      (λ sent. pong (reply write_fails "pong\n" sent)) >> ping_stream_handler lines
  ping_stream_handler (failed_read ∷ lines) =
      (λ sent. pong (reply write_fails "pong\n" sent)) >> ping_stream_handler lines

  -- `Ping`: the answer is read but only logged.
  unfoldable pub ping : Result (Unit {0}) → Exec (List String) (Unit {0})
  ping opened = (λ sent. (opened, sent)) >> reply write_fails "ping\n"

abbrev pub lines_of : List String → List Line
lines_of [] = []
lines_of (l ∷ ls) = line l ∷ lines_of ls

-- Where no write is refused, every line is answered by one `pong`, whatever it says, and nothing
-- else is written.
pub ping_stream_handler-lines :
    (write_fails : ℕ → Bool) (ls : List String) (sent : List String)
    → ((n : ℕ) → write_fails n ≡ false)
    → ping_stream_handler write_fails (lines_of ls) sent
      ≡ (ok tt, sent ++ replicate (length ls) "pong\n")
unfolding ping_stream_handler
ping_stream_handler-lines write_fails [] sent h = rw append-nil refl
ping_stream_handler-lines write_fails (l ∷ ls) sent h =
    rw (h (length sent), ping_stream_handler-lines write_fails ls (sent ++ "pong\n" ∷ []) h)
      (rw append_assoc refl)

-- ===== src/Client/Terminal.antt =====
-- client/cli.py: `_transcribe`, on what the client yielded and raised; the output file opens and
-- takes every text. The lines of stderr are their contents; how an ETA is rounded is not modelled.
-- Together with the server's event stream: what a user sees of a job.
use mathlib.Core.List.{append_assoc, append-nil}
use vibe_voice_vendor.Base.{
  ℕ, ◌≡◌, refl, ap, ◌∙◌, Bool, true, false, not, ◌&&◌, Option, none, some, List, [], ◌∷◌, ◌++◌, map,
  Text, join, if◌then◌else◌, Fraction,
}
use vibe_voice_vendor.Models.{is_cancelled}
use vibe_voice_vendor.Json.{JsonLibrary, IsJson, error_payload, done_payload}
use vibe_voice_vendor.Queue.{TranscriptionJob}
use vibe_voice_vendor.Stream.{Poll, error_text, event_stream}
use vibe_voice_vendor.Client.{
  EventType, queue, data_chunk, error, done, TranscriptionEvent, ClientError, Received, receive,
}
use vibe_voice_vendor.Client.RoundTrip.{response_text, event_of_payload}
use vibe_voice_vendor.Client.EndToEnd.{
  chunks_of, finishes, is_failure, end_events, chunk_event, place_events, stream_events,
  receive-event_stream,
}

pub data Notice : Type 0 where
  queue_notice : Option ℕ → Option Fraction → Notice
  error_notice : Option Text → Notice

-- What was written; `output_file` is missing without an --output.
pub record Terminal : Type 0 where
  pub stdout : Text
  pub stderr : List Notice
  pub output_file : Option Text

pub data Ending : Type 0 where
  returned : Ending
  exited : ℕ → Ending
  raised_error : ClientError → Ending

abbrev pub write_text : Option Text → Text → Option Text
write_text none t = none
write_text (some written) t = some (written ++ t)

unfoldable pub print_text : Option Text → Terminal → Terminal
print_text none terminal = terminal
print_text (some t) terminal = record terminal {
  stdout = terminal.stdout ++ t;
  output_file = write_text terminal.output_file t;
}

unfoldable pub print_event : EventType → TranscriptionEvent → Terminal → Terminal
unfolding print_text
print_event queue e terminal = record terminal {
  stderr = terminal.stderr ++ (queue_notice e.position e.estimated_wait_seconds ∷ []);
}
print_event data_chunk e terminal = print_text e.text terminal
print_event error e terminal = record terminal {
  stderr = terminal.stderr ++ (error_notice e.error ∷ []);
}
print_event done e terminal = record terminal { stdout = terminal.stdout ++ (10 ∷ []) }

-- An error leaves the loop by `sys.exit(1)`.
abbrev pub exit_on_error : EventType → Terminal → Terminal × Ending → Terminal × Ending
exit_on_error error terminal rest = (terminal, exited 1)
exit_on_error type terminal rest = rest

abbrev pub ending_of : Option ClientError → Ending
ending_of none = returned
ending_of (some e) = raised_error e

unfoldable pub print_events :
    List TranscriptionEvent → Option ClientError → Terminal → Terminal × Ending
unfolding print_event
print_events [] raised terminal = (terminal, ending_of raised)
print_events (e ∷ events) raised terminal =
    let printed = print_event e.event_type e terminal in
    exit_on_error e.event_type printed (print_events events raised printed)

unfoldable pub transcribe_command : Bool → Received → Terminal × Ending
unfolding print_events
transcribe_command output received =
    print_events received.events received.raised
      (record { stdout = []; stderr = []; output_file = if output then some [] else none })

-- The queue's line on stderr.
abbrev pub place_notices : Option (ℕ × Fraction) → List Notice
place_notices none = []
place_notices (some (position, eta)) = queue_notice (some position) (some eta) ∷ []

module _ (json : JsonLibrary) where
  abbrev print_all : List Text → Terminal → Terminal
  print_all chunks terminal = record terminal {
    stdout = terminal.stdout ++ join chunks;
    output_file = write_text terminal.output_file (join chunks);
  }

  write_text-twice :
      (file : Option Text) (s t : Text)
      → write_text (write_text file s) t ≡ write_text file (s ++ t)
  write_text-twice none s t = refl
  write_text-twice (some written) s t = ap some (append_assoc written s t)

  write_text-nil : (file : Option Text) → write_text file [] ≡ file
  write_text-nil none = refl
  write_text-nil (some written) = ap some (append-nil written)

  print_events-chunks :
      (chunks : List Text) (more : List TranscriptionEvent) (raised : Option ClientError)
      (terminal : Terminal)
      → print_events (map (chunk_event json) chunks ++ more) raised terminal
        ≡ print_events more raised (print_all chunks terminal)
  unfolding print_events print_text
  print_events-chunks [] more raised terminal =
      rw (append-nil terminal.stdout, write_text-nil terminal.output_file) refl
  print_events-chunks (t ∷ chunks) more raised terminal =
      print_events-chunks chunks more raised (print_text (some t) terminal)
      ∙ ap (print_events more raised) (
          rw
            (
              append_assoc terminal.stdout t (join chunks),
              write_text-twice terminal.output_file t (join chunks),
            )
            refl)

  -- The end of a job, of which it is known whether it came, was cancelled, and failed.
  abbrev end_shown : Bool → Bool → Bool → Option Text → Terminal → Terminal × Ending
  end_shown ended cancelled failed message terminal = (
    record terminal {
      stdout = terminal.stdout ++ (if ended && not cancelled && not failed then 10 ∷ [] else []);
      stderr =
          terminal.stderr
          ++ (if ended && not cancelled && failed
              then error_notice (some (error_text message)) ∷ []
              else []);
    },
    if ended && not cancelled && failed then exited 1 else returned,
  )

  print_events-end :
      (id : ℕ) (message : Option Text) (terminal : Terminal) (ended cancelled failed : Bool)
      → print_events
          (if ended
            then if cancelled
              then []
              else if failed
              then event_of_payload json (error_payload (error_text message)) ∷ []
              else event_of_payload json (done_payload id) ∷ []
            else [])
          none
          terminal
        ≡ end_shown ended cancelled failed message terminal
  unfolding print_events
  print_events-end id message terminal false cancelled failed =
      rw (append-nil terminal.stdout, append-nil terminal.stderr) refl
  print_events-end id message terminal true true failed =
      rw (append-nil terminal.stdout, append-nil terminal.stderr) refl
  print_events-end id message terminal true false true = rw (append-nil terminal.stdout) refl
  print_events-end id message terminal true false false = rw (append-nil terminal.stderr) refl

  -- What the terminal shows of a job, and how the command ends.
  abbrev pub shown : Bool → TranscriptionJob → Option (ℕ × Fraction) → List Poll → Terminal × Ending
  shown output job place polls =
      end_shown (finishes polls) (is_cancelled job.status) (is_failure job.status job.error_message)
        job.error_message
        (record {
          stdout = join (chunks_of polls);
          stderr = place_notices place;
          output_file = if output then some (join (chunks_of polls)) else none;
        })

  abbrev start : Bool → List Notice → Terminal
  start output notices = record {
    stdout = [];
    stderr = notices;
    output_file = if output then some [] else none;
  }

  print_all-start :
      (output : Bool) (notices : List Notice) (chunks : List Text)
      → print_all chunks (start output notices) ≡ record {
        stdout = join chunks;
        stderr = notices;
        output_file = if output then some (join chunks) else none;
      }
  print_all-start true notices chunks = refl
  print_all-start false notices chunks = refl

  print_events-shown :
      (output : Bool) (job : TranscriptionJob) (place : Option (ℕ × Fraction)) (polls : List Poll)
      → print_events (stream_events json job polls) none (start output (place_notices place))
        ≡ shown output job place polls
  print_events-shown output job place polls =
      print_events-chunks (chunks_of polls) (if finishes polls then end_events json job else [])
        none (start output (place_notices place))
      ∙ print_events-end job.job_id job.error_message
          (print_all (chunks_of polls) (start output (place_notices place))) (finishes polls)
          (is_cancelled job.status) (is_failure job.status job.error_message)
      ∙ ap
          (end_shown (finishes polls) (is_cancelled job.status)
            (is_failure job.status job.error_message) job.error_message)
          (print_all-start output (place_notices place) (chunks_of polls))

  print_events-place :
      (output : Bool) (job : TranscriptionJob) (place : Option (ℕ × Fraction))
      (events : List TranscriptionEvent)
      → print_events (place_events json job place ++ events) none (start output [])
        ≡ print_events events none (start output (place_notices place))
  unfolding print_events
  print_events-place output job none events = refl
  print_events-place output job (some (position, eta)) events = refl

  -- With a JSON library that reads back what it printed on one line, the command writes to stdout, of
  -- a job that the server streams: the text of every chunk before the sentinel, in order, and behind
  -- it a line end, if the sentinel came and the job was neither cancelled nor failed nor has a
  -- message; to stderr the queue's line, if the job had a position, and the error of a job that failed
  -- or has a message, which alone makes it exit with 1; and the output file, if there is one, has
  -- exactly the chunks.
  pub transcribe_command-shown :
      IsJson json
      → (output : Bool) (job : TranscriptionJob) (place : Option (ℕ × Fraction)) (now : ℕ)
        (polls : List Poll)
      → transcribe_command output
          (receive json (response_text json (event_stream job place now polls).frames))
        ≡ shown output job place polls
  unfolding transcribe_command
  transcribe_command-shown laws output job place now polls =
      ap (transcribe_command output) (receive-event_stream json laws job place now polls).0
      ∙ print_events-place output job place (stream_events json job polls)
      ∙ print_events-shown output job place polls

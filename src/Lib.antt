-- ===== src/Lib.antt =====
-- Verification of the VibeVoice vendor server (Python): an HTTP service that takes a recording, puts
-- it in a queue with room for a fixed number of jobs, has one worker send it to a speech recognition
-- backend, and streams the text back to the client as server-sent events.
--
-- Parts and files. Paths of sources are from the repository's root.
--   server/models.py        Models: the states of a job and the payloads of responses.
--   server/audio.py         Struct: the unpacking of little-endian headers. Wav: the check of the WAV
--                           header (`read_heliboard_wav_info`). Wav/Metadata: the check of the file
--                           name and the content type. Wav/Container: which files pass.
--   server/queue.py         Queue: `TranscriptionJob`, `TranscriptionQueue` and the operations that the
--                           routes call. Queue/Status: `get_queue_info`, positions and waiting times.
--                           Queue/Worker: `_worker`, cut at its two `await`s. Queue/Events: the pieces
--                           of code that the event loop runs between two `await`s, as events, and
--                           histories of them. Disk: the files and directories of uploads.
--   server/config.py        Settings: the validators, on the options of server/__main__.py, with
--                           Settings/Configured for the options that pass.
--   server/__main__.py      Startup: the private socket, from `_bind_private_uds` to the end of `main`,
--                           over what the system has at its path. Startup/Private: who can reach it.
--   server/app.py           App: the middleware that refuses what did not come over HTTPS. App/Routes: the
--                           start of the application, and its answer to a request, with the handlers
--                           of server/routes/health.py and server/routes/queue_status.py.
--                           App/Routes/Authorized and App/Routes/Started: which requests reach the jobs,
--                           and the application as it starts. App/Routes/Served: the server while it runs,
--                           over lists of requests and events.
--   server/client_identity.py
--                           Identity: the check of the header that the TLS proxy sets.
--   server/routes/transcribe.py
--                           Form: the fields of the form (`_extract_transcribe_form`), with
--                           Form/Tokens for the control tokens that hotwords may not hold. Upload: the
--                           loops `_limited_request_stream` and `_spool_upload`, over lists of what
--                           each round met. Route: the handler `transcribe` from the reservation to
--                           the response, with Route/Outcome for how it leaves the queue and
--                           Route/History for its pieces as events (the pieces in Route/Pieces and
--                           Route/Handling). Stream:
--                           `event_stream`, over the polls of its loop. Http: `HTTPException`.
--   client/client.py        Client: the events that `VibevoiceClient.transcribe` reads from the lines of
--                           the response. Client/RoundTrip and Client/EndToEnd: from the server's text
--                           to the client's events. Json: the JSON library, a parameter with its laws.
--                           Client/Address: the server's URL. Client/Pin: the pin of the server's key.
--                           Client/Multipart: the body of the upload, with Client/Multipart/Sent for
--                           what reaches the server.
--   client/cli.py           Client/Terminal: the command `transcribe` on the terminal. Client/Status: the
--                           command `status`, with Client/Status/Shown for its lines. Client/Command:
--                           `main` up to the first request, with Client/Command/Endpoints for where
--                           that goes.
--   server/transcribe.py, server/vllm_client.py, server/groq_client.py
--                           Backend: the check of the model's output (`_validate_vibevoice_output`).
--                           Backend/Process: the process functions, with Backend/Process/Completed for
--                           what becomes of the job. Backend/Vllm and Backend/Groq: what is read of the
--                           responses. Backend/Requests: what is sent, with Backend/Requests/Prompt
--                           for the prompt. Opus: the run of ffmpeg (server/audio.py) before the request
--                           to Groq, with Opus/Compressed for how it ends and Opus/Answered for the
--                           whole of `transcribe_audio_file`.
--   scripts/generate_client_cert.py
--                           Scripts: the file system of the scripts and the helpers on it.
--                           Scripts/Material: the check of keys and certificates.
--                           Scripts/ClientCert: generation and check.
--   scripts/generate_client_bundle.py
--                           Scripts/Bundle: the bundle for the phone, with Scripts/Bundle/Written for
--                           what a written one holds.
--   scripts/generate_cert.py
--                           Scripts/ServerCert: the server's certificate and the page that asks for it,
--                           with Scripts/ServerCert/Pinned for the files and the client that is given
--                           their pin, and Scripts/ServerCert/Requests for the page's requests.
--   Base, Keys              Shared names: tests, lists, results, text; lists of job ids.
--
-- How the state corresponds. A job object is shared by the route, the queue and the worker, so the
-- model has a heap of job objects, named by their ids, which are random; `_jobs`, `_pending` and
-- `_cleanup_tasks` are lists of ids. The worker is a state: waiting for `_pending.get()`, awaiting a
-- job's task since a clock reading, or over. `asyncio` runs one piece of code at a time, so an
-- interleaving is a list of events, and an event that cannot happen where the list has it changes
-- nothing. A piece that raises returns an error value.
--
-- Numbers. Sizes, clock readings and ids are natural numbers. A float quotient (a duration, a waiting
-- time) is the exact quotient, a numerator and a denominator; rounding is not modelled.
--
-- Loops are recursions on the list that the source walks. Two run on fuel: `read_chunks`, whose fuel is
-- the number of bytes, of which every round takes one at least; and the digits of a number (Base/Decimal),
-- whose fuel is one more than the number, which every round divides by ten.
--
-- The scripts' file system is a function from paths to files, directories and symlinks, in which a script
-- is alone. Keys and certificates are records that the package `cryptography` prints, reads, signs and
-- verifies: those functions, SHA-256, base64 and `urlparse` are parameters.
--
-- Not modelled: what ffmpeg does to a recording and the base64 of the audio, the HTTP client and server
-- libraries, TLS, the parsing of command lines, the text of the local page, the proxy in Rust, and
-- logging. Two errors of the operating system are left out: an OSError of `os.unlink` other than
-- FileNotFoundError in `discard_audio`, and one of the write or `chmod` behind an exclusive `open` of the
-- scripts that succeeded. So are a RecursionError of `json.loads` and a path with a NUL in the request for
-- a certificate.
pub mod Base
pub mod Settings
pub mod Startup
pub mod Opus
pub mod Models
pub mod Keys
pub mod Struct
pub mod Wav
pub mod Http
pub mod Identity
pub mod Form
pub mod Upload
pub mod Json
pub mod Stream
pub mod Scripts
pub mod App
pub mod Backend
pub mod Route
pub mod Client
pub mod Disk
pub mod Queue

-- ===== src/Client/Multipart.antt =====
-- client/client.py: the body of the client's upload, `_multipart_body`, with the name of the file and
-- what reading it gives, `none` where `open` raises, as arguments.
pub mod Sent
use vibe_voice_vendor.Base.{
  ℕ, zero, suc, Bool, not, ◌||◌, Option, none, some, List, [], ◌∷◌, ◌++◌, map, length, take, drop,
  Text, codes, text_eq, ◌==◌, if◌then◌else◌, encode,
}
use vibe_voice_vendor.Wav.Metadata.{wav_suffix, wav_mime_type, suffix}

pub data BodyError : Type 0 where
  not_wav not_encodable unreadable : BodyError

-- The chunks that the generator yields and the exception that ends it, if one does.
pub record Body : Type 0 where
  pub chunks : List Text
  pub raised : Option BodyError

abbrev pub end_body : Body
end_body = record { chunks = []; raised = none }

abbrev pub raise_error : BodyError → Body
raise_error e = record { chunks = []; raised = some e }

unfoldable pub put_all : List Text → Body → Body
put_all [] rest = rest
put_all (t ∷ ts) rest = let all = put_all ts rest in record all { chunks = t ∷ all.chunks }

abbrev pub crlf : Text
crlf = 13 ∷ 10 ∷ []

-- "--" and the boundary
abbrev pub delimiter : Text
delimiter = codes "------VibeVoiceCliBoundary9f2e4d"

abbrev pub audio_disposition : Text
audio_disposition = codes "Content-Disposition: form-data; name=\"audio\"; filename=\""

abbrev pub hotwords_disposition : Text
hotwords_disposition = codes "Content-Disposition: form-data; name=\"hotwords\""

abbrev pub audio_type : Text
audio_type = codes "Content-Type: " ++ wav_mime_type

abbrev pub audio_chunk_bytes : ℕ
audio_chunk_bytes = 1048576

abbrev pub safe_char : ℕ → ℕ
safe_char c = if c == b'\\' || c == b'"' || c == 13 || c == 10 then b'_' else c

unfoldable pub safe_filename : Text → Text
safe_filename name = map safe_char name

-- `while chunk := audio.read(size)`, of a file that is at most `fuel` bytes long.
unfoldable pub read_chunks : ℕ → ℕ → Text → List Text
read_chunks size zero bytes = []
read_chunks size (suc fuel) [] = []
read_chunks size (suc fuel) (b ∷ bytes) =
    take size (b ∷ bytes) ∷ read_chunks size fuel (drop size (b ∷ bytes))

unfoldable pub put_encoded : Option Text → Body → Body
unfolding put_all
put_encoded none rest = raise_error not_encodable
put_encoded (some bytes) rest = put_all (bytes ∷ []) rest

unfoldable pub put_hotwords : Option Text → Body → Body
unfolding put_all put_encoded
put_hotwords none rest = rest
put_hotwords (some []) rest = rest
put_hotwords (some (c ∷ t)) rest =
    put_all ((delimiter ++ crlf) ∷ (hotwords_disposition ++ crlf ++ crlf) ∷ [])
      (put_encoded (encode (c ∷ t)) (put_all (crlf ∷ []) rest))

unfoldable pub put_file : Option Text → Body → Body
unfolding put_all read_chunks
put_file none rest = raise_error unreadable
put_file (some bytes) rest = put_all (read_chunks audio_chunk_bytes (length bytes) bytes) rest

unfoldable pub multipart_body : Text → Option Text → Option Text → Body
unfolding put_all put_encoded put_file put_hotwords safe_filename
multipart_body name file hotwords =
    if not (text_eq (suffix name) wav_suffix)
    then raise_error not_wav
    else put_all ((delimiter ++ crlf) ∷ []) (
        put_encoded (encode (audio_disposition ++ safe_filename name ++ codes "\"" ++ crlf)) (
          put_all ((audio_type ++ crlf ++ crlf) ∷ []) (
            put_file file (
              put_all (crlf ∷ []) (
                put_hotwords hotwords
                  (put_all ((delimiter ++ codes "--" ++ crlf) ∷ []) end_body))))))

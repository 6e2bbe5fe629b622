-- ===== src/Backend/Vllm/Deltas.antt =====
-- What the client of the model server makes of a well-formed stream.
use vibe_voice_vendor.Base.{
  true, ok, Option-cases, inl, inr, if◌then◌else◌, ◌≡◌, ◌≢◌, refl, false, Option, none, some, List,
  [], ◌∷◌, ◌++◌, map, Text, codes, text_eq, text_eq_iff, starts_with, strip, lstrip, rstrip, arith,
  All,
}
use vibe_voice_vendor.Backend.{
  JsonValue, JsonValues, Members, list, object, string, nil, cons, end, member, has_key,
}
use vibe_voice_vendor.Backend.Vllm.{
  has_member, value_of, get_member, get_first, truthy, delta_text, chunk_of, skipped,
  parsed_or_skipped, read_line, put_delta, on_line, stream_lines, stream_transcription,
  StreamedChunks,
}

-- The parts of a chunk that are read, whatever else its objects hold and however many choices there are:
-- the text of the first choice.
pub record IsPiece (value : JsonValue) (text : Text) : Type 0 where
  pub chunk : Members
  pub choice : Members
  pub others : JsonValues
  pub content : Members
  pub is_object : value ≡ object chunk
  pub has_choices : value_of (codes "choices") chunk ≡ some (list (cons (object choice) others))
  pub has_delta : value_of (codes "delta") choice ≡ some (object content)
  pub has_content : value_of (codes "content") content ≡ some (string text)

-- A chunk without a text: no choice, or a first one without a delta or a content, as the chunk that names
-- the role and the one that ends the usage have.
pub data IsSilent : JsonValue → Type 0 where
  no_choices : (ms : Members) → value_of (codes "choices") ms ≡ none → IsSilent (object ms)
  empty_choices :
      (ms : Members) → value_of (codes "choices") ms ≡ some (list nil) → IsSilent (object ms)
  no_delta :
      (ms choice : Members) (others : JsonValues)
      → value_of (codes "choices") ms ≡ some (list (cons (object choice) others))
      → value_of (codes "delta") choice ≡ none
      → IsSilent (object ms)
  no_content :
      (ms choice content : Members) (others : JsonValues)
      → value_of (codes "choices") ms ≡ some (list (cons (object choice) others))
      → value_of (codes "delta") choice ≡ some (object content)
      → value_of (codes "content") content ≡ none
      → IsSilent (object ms)

-- The lines of a stream: data with a piece of the text; data without one; a line that is no data; data
-- that is no JSON; the end.
pub data StreamLine : Type 0 where
  delta : Text → Text → StreamLine
  silent comment garbage : Text → StreamLine
  the_end : StreamLine

abbrev pub line_text : StreamLine → Text
line_text (delta data_str t) = codes "data: " ++ data_str
line_text (silent data_str) = codes "data: " ++ data_str
line_text (comment t) = t
line_text (garbage t) = codes "data: " ++ t
line_text the_end = codes "data: [DONE]"

-- The pieces before the end that are not empty.
abbrev pub piece : Text → List JsonValue → List JsonValue
piece [] rest = rest
piece (c ∷ t) rest = string (c ∷ t) ∷ rest

abbrev pub pieces : List StreamLine → List JsonValue
pieces [] = []
pieces (delta data_str t ∷ lines) = piece t (pieces lines)
pieces (silent data_str ∷ lines) = pieces lines
pieces (comment t ∷ lines) = pieces lines
pieces (garbage t ∷ lines) = pieces lines
pieces (the_end ∷ lines) = []

has_key-value_of :
    (key : Text) (v : JsonValue) (ms : Members) → value_of key ms ≡ some v → has_key key ms ≡ true
unfolding value_of has_key
has_key-value_of key v end h = ground arith
has_key-value_of key v (member k w ms) h = elim (Option-cases (value_of key ms)) [
  | inl e ↦ ground (arith, e, h)
  | inr (u, e) ↦ ground (arith, has_key-value_of key u ms e)
]

has_key-none : (key : Text) (ms : Members) → value_of key ms ≡ none → has_key key ms ≡ false
unfolding value_of has_key
has_key-none key end h = refl
has_key-none key (member k w ms) h = elim (Option-cases (value_of key ms)) [
  | inl e ↦ ground (arith, e, has_key-none key ms e)
  | inr (u, e) ↦ ground (arith, e, h)
]

put_piece :
    (t : Text) (chunks : List JsonValue)
    → put_delta
        (ok (if truthy (string t) then some (string t) else none))
        (record { chunks = chunks; raised = none })
      ≡ record { chunks = piece t chunks; raised = none }
unfolding put_delta truthy
put_piece [] chunks = refl
put_piece (c ∷ t) chunks = refl

put_delta-IsPiece :
    (v : JsonValue) (t : Text) (chunks : List JsonValue)
    → IsPiece v t
    → put_delta (chunk_of v) (record { chunks = chunks; raised = none })
      ≡ record { chunks = piece t chunks; raised = none }
unfolding chunk_of has_member get_member get_first delta_text put_delta truthy
put_delta-IsPiece v t chunks w =
    rw
      (
        w.is_object,
        has_key-value_of (codes "choices") _ w.chunk w.has_choices,
        w.has_choices,
        has_key-value_of (codes "delta") _ w.choice w.has_delta,
        w.has_delta,
        has_key-value_of (codes "content") _ w.content w.has_content,
        w.has_content,
      )
      (put_piece t chunks)

put_delta-IsSilent :
    (v : JsonValue) (rest : StreamedChunks) → IsSilent v → put_delta (chunk_of v) rest ≡ rest
unfolding chunk_of has_member get_member get_first delta_text put_delta truthy
put_delta-IsSilent v rest (no_choices ms h) = rw (has_key-none (codes "choices") ms h) refl
put_delta-IsSilent v rest (empty_choices ms h) =
    rw (has_key-value_of (codes "choices") _ ms h, h) refl
put_delta-IsSilent v rest (no_delta ms choice others h d) =
    rw (has_key-value_of (codes "choices") _ ms h, h, has_key-none (codes "delta") choice d) refl
put_delta-IsSilent v rest (no_content ms choice content others h d c) =
    rw
      (
        has_key-value_of (codes "choices") _ ms h,
        h,
        has_key-value_of (codes "delta") _ choice d,
        d,
        has_key-none (codes "content") content c,
      )
      refl

module _ (loads : Text → Option JsonValue) where
  -- Data reads as it is said and is not the end; a comment is no data; garbage is no JSON.
  abbrev pub IsWellFormed : StreamLine → Type 0
  IsWellFormed (delta data_str t) =
      ((v : JsonValue) × (loads data_str ≡ some v) × IsPiece v t)
      × (strip data_str ≢ codes "[DONE]")
  IsWellFormed (silent data_str) =
      ((v : JsonValue) × (loads data_str ≡ some v) × IsSilent v) × (strip data_str ≢ codes "[DONE]")
  IsWellFormed (comment t) = starts_with t (codes "data: ") ≡ false
  IsWellFormed (garbage t) = (loads t ≡ none) × (strip t ≢ codes "[DONE]")
  IsWellFormed the_end = Unit

  read_line-data :
      (s : Text) (v : Option JsonValue)
      → loads s ≡ v
      → strip s ≢ codes "[DONE]"
      → read_line loads (codes "data: " ++ s) ≡ parsed_or_skipped v
  unfolding read_line starts_with
  read_line-data s v e n = ground (arith, e, text_eq_iff (strip s) (codes "[DONE]"))

  read_line-comment :
      (s : Text) → starts_with s (codes "data: ") ≡ false → read_line loads s ≡ skipped
  unfolding read_line
  read_line-comment s e = rw e refl

  stream_lines-pieces :
      (lines : List StreamLine)
      → All IsWellFormed lines
      → stream_lines loads (map line_text lines) ≡ record { chunks = pieces lines; raised = none }
  unfolding stream_lines on_line
  stream_lines-pieces [] w = refl
  stream_lines-pieces (delta data_str t ∷ lines) w =
      let (v, read, is_piece) = w.0.0 in
      rw (read_line-data data_str (some v) read w.0.1, stream_lines-pieces lines w.1)
        (put_delta-IsPiece v t (pieces lines) is_piece)
  stream_lines-pieces (silent data_str ∷ lines) w =
      let (v, read, is_silent) = w.0.0 in
      rw (read_line-data data_str (some v) read w.0.1, stream_lines-pieces lines w.1)
        (put_delta-IsSilent v _ is_silent)
  stream_lines-pieces (comment t ∷ lines) w =
      rw (read_line-comment t w.0) (stream_lines-pieces lines w.1)
  stream_lines-pieces (garbage t ∷ lines) w =
      rw (read_line-data t _ w.0.0 w.0.1) (stream_lines-pieces lines w.1)
  stream_lines-pieces (the_end ∷ lines) w =
      unfold read_line starts_with strip lstrip rstrip text_eq in refl

  -- Of a response with status 200 whose lines are chunks with a text, chunks without one, lines that are no
  -- data, data that is no JSON and the mark of the end, the generator yields exactly the texts of the
  -- first choices before the mark that are not empty, in their order, and raises nothing.
  pub stream_transcription-pieces :
      (lines : List StreamLine)
      → All IsWellFormed lines
      → stream_transcription loads 200 (map line_text lines)
        ≡ record { chunks = pieces lines; raised = none }
  unfolding stream_transcription
  stream_transcription-pieces lines w = stream_lines-pieces lines w

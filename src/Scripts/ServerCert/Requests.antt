-- ===== src/Scripts/ServerCert/Requests.antt =====
-- The requests of the local page: which of them reach the generator.
use vibe_voice_vendor.Base.{
  [], ◌∷◌, ◌∙◌, ap, sym, subst, true, false, bind_passed, text_eq_iff, WholeNumber, natural,
  negative, ℕ, ◌≤◌, ◌≡◌, ◌≢◌, ◌⊎◌, inl, inr, refl, Bool-cases, Option, none, some, List, take, Text,
  codes, text_eq, text_eq_sound, arith, Result, ok, err,
}
use vibe_voice_vendor.Scripts.{FileSystem}
use vibe_voice_vendor.Scripts.ServerCert.{
  BodyValue, string_value, integer_value, boolean_value, other_value, field, as_string, as_integer,
  Loaded, object_body, other_body, json_decode_error, unicode_decode_error, RequestError,
  missing_length, invalid_length, too_large, invalid_json, not_object, missing_fields,
  certs_dir_not_string, days_not_integer, Reply, refused_request, checked_length, status_code,
  PageServer, answer, arguments_of, length_of, on_arguments, on_loaded, on_length, do_post,
}

-- The first member with the key has the value.
abbrev pub MemberIs : Text → BodyValue → List (Text × BodyValue) → Type 0
MemberIs key value [] = ⊥
MemberIs key value ((k, v) ∷ members) =
    ((k ≡ key) × (v ≡ value)) ⊎ ((k ≢ key) × MemberIs key value members)

-- An integer, or a Boolean, which Python takes for one.
abbrev pub IsDays : BodyValue → WholeNumber → Type 0
IsDays (integer_value n) days = days ≡ n
IsDays (boolean_value true) days = days ≡ natural 1
IsDays (boolean_value false) days = days ≡ natural 0
IsDays (string_value t) days = ⊥
IsDays other_value days = ⊥

field-MemberIs :
    (key : Text) (value : BodyValue) (members : List (Text × BodyValue))
    → field key members ≡ ok value
    → MemberIs key value members
unfolding field
field-MemberIs key value [] h = ground arith
field-MemberIs key value ((k, v) ∷ members) h = elim (Bool-cases (text_eq k key)) [
  | inl b ↦ inl (text_eq_sound k key b, ground arith)
  | inr b ↦
      inr (λ e. ground (arith, text_eq_iff k key), field-MemberIs key value members (ground arith))
]

as_string-ok :
    (value : BodyValue) (dir : Text) → as_string value ≡ ok dir → value ≡ string_value dir
unfolding as_string
as_string-ok (string_value t) dir h = ground arith
as_string-ok (integer_value n) dir h = ground arith
as_string-ok (boolean_value b) dir h = ground arith
as_string-ok other_value dir h = ground arith

as_integer-IsDays :
    (value : BodyValue) (days : WholeNumber) → as_integer value ≡ ok days → IsDays value days
unfolding as_integer
as_integer-IsDays (string_value t) days h = ground arith
as_integer-IsDays (integer_value n) days h = ground arith
as_integer-IsDays (boolean_value true) days h = ground arith
as_integer-IsDays (boolean_value false) days h = ground arith
as_integer-IsDays other_value days h = ground arith

-- The arguments that an object has.
pub record HasArguments (members : List (Text × BodyValue)) (dir : Text) (days : WholeNumber)
    : Type 0 where
  pub dir_is_text : MemberIs (codes "certs_dir") (string_value dir) members
  pub days_value : BodyValue
  pub has_days : MemberIs (codes "days") days_value members
  pub is_days : IsDays days_value days

arguments_of-HasArguments :
    (members : List (Text × BodyValue)) (dir : Text) (days : WholeNumber)
    → arguments_of members ≡ ok (dir, days)
    → HasArguments members dir days
unfolding arguments_of
arguments_of-HasArguments members dir days h =
    let (days_value, a, h1) = bind_passed (field (codes "days") members) h in
    let (dir_value, b, h2) = bind_passed (field (codes "certs_dir") members) h1 in
    let (dir', c, h3) = bind_passed (as_string dir_value) h2 in
    let (days', d, h4) = bind_passed (as_integer days_value) h3 in
    let both : ◌≡◌ {A = Text × WholeNumber} (dir', days') (dir, days) = ground arith in
    let text_is : dir_value ≡ string_value dir =
      as_string-ok dir_value dir' c ∙ ap (λ (p : Text × WholeNumber). string_value p.0) both in
    record {
      dir_is_text =
          subst (λ v. MemberIs (codes "certs_dir") v members) text_is
            (field-MemberIs (codes "certs_dir") dir_value members b);
      days_value = days_value;
      has_days = field-MemberIs (codes "days") days_value members a;
      is_days =
          subst (λ (p : Text × WholeNumber). IsDays days_value p.1) both
            (as_integer-IsDays days_value days' d);
    }

MemberIs-field :
    (key : Text) (value : BodyValue) (members : List (Text × BodyValue))
    → MemberIs key value members
    → field key members ≡ ok value
unfolding field
MemberIs-field key value [] h = absurd h
MemberIs-field key value ((k, v) ∷ members) (inl (e, same)) =
    rw ((text_eq_iff k key).1 e) (ap ok same)
MemberIs-field key value ((k, v) ∷ members) (inr (n, h)) = elim (Bool-cases (text_eq k key)) [
  | inl b ↦ absurd (n (text_eq_sound k key b))
  | inr b ↦ rw b (MemberIs-field key value members h)
]

IsDays-as_integer :
    (value : BodyValue) (days : WholeNumber) → IsDays value days → as_integer value ≡ ok days
unfolding as_integer
IsDays-as_integer (string_value t) days h = absurd h
IsDays-as_integer (integer_value n) days h = ap ok (sym h)
IsDays-as_integer (boolean_value true) days h = ap ok (sym h)
IsDays-as_integer (boolean_value false) days h = ap ok (sym h)
IsDays-as_integer other_value days h = absurd h

HasArguments-arguments_of :
    (members : List (Text × BodyValue)) (dir : Text) (days : WholeNumber)
    → HasArguments members dir days
    → arguments_of members ≡ ok (dir, days)
unfolding arguments_of as_string
HasArguments-arguments_of members dir days w =
    rw
      (
        MemberIs-field (codes "days") w.days_value members w.has_days,
        MemberIs-field (codes "certs_dir") (string_value dir) members w.dir_is_text,
        IsDays-as_integer w.days_value days w.is_days,
      )
      refl

-- A request that is well-formed, with its arguments.
pub record IsRequest (server : PageServer) (path : Text) (content_length : Option Text)
    (sent : Text) (dir : Text) (days : WholeNumber) : Type 0 where
  pub to_generate : path ≡ codes "/generate"
  pub header : Text
  pub has_header : content_length ≡ some header
  pub size : ℕ
  pub is_size : server.int_of header ≡ some (natural size)
  pub not_large : size ≤ 4096
  pub members : List (Text × BodyValue)
  pub is_object : server.loads (take size sent) ≡ object_body members
  pub has_arguments : HasArguments members dir days

-- The reply is not a success, and nothing has changed.
abbrev pub IsRefused : FileSystem → Reply × FileSystem → Type 0
IsRefused fs r = (r.1 ≡ fs) × (status_code r.0 ≢ some 200)

refused_request_lem : (e : RequestError) → status_code (refused_request e) ≢ some 200
unfolding status_code
refused_request_lem missing_length = λ h. ground arith
refused_request_lem invalid_length = λ h. ground arith
refused_request_lem too_large = λ h. ground arith
refused_request_lem invalid_json = λ h. ground arith
refused_request_lem not_object = λ h. ground arith
refused_request_lem missing_fields = λ h. ground arith
refused_request_lem certs_dir_not_string = λ h. ground arith
refused_request_lem days_not_integer = λ h. ground arith

checked_length_sound :
    (o : Option WholeNumber) (n : ℕ) → checked_length o ≡ ok n → (o ≡ some (natural n)) × (n ≤ 4096)
unfolding checked_length
checked_length_sound none n h = ground arith
checked_length_sound (some negative) n h = ground arith
checked_length_sound (some (natural m)) n h = ground arith

err-ok : {A : Type 0} (e : RequestError) (x : A) → Path (Result RequestError A) (err e) (ok x) → ⊥
err-ok e x h = cc

ok_injective : (m n : ℕ) → Path (Result RequestError ℕ) (ok m) (ok n) → m ≡ n
ok_injective m n h = cc

object_body_injective :
    (ms ns : List (Text × BodyValue)) → object_body ms ≡ object_body ns → ms ≡ ns
object_body_injective ms ns h = cc

length_of_sound :
    (int_of : Text → Option WholeNumber) (content_length : Option Text) (n : ℕ)
    → length_of int_of content_length ≡ ok n
    → (header : Text) × (content_length ≡ some header)
      × (int_of header ≡ some (natural n))
      × (n ≤ 4096)
unfolding length_of
length_of_sound int_of none n h = ground arith
length_of_sound int_of (some header) n h =
    let (is_size, not_large) = checked_length_sound (int_of header) n h in
    (header, refl, is_size, not_large)

module _ (server : PageServer) (path : Text) (content_length : Option Text) (sent : Text)
    (fs : FileSystem) where
  -- No directory and no days make it a well-formed request.
  abbrev pub IsNoRequest : Type 0
  IsNoRequest =
      (dir : Text) (days : WholeNumber) → ¬ IsRequest server path content_length sent dir days

  request-length_of :
      {dir : Text} {days : WholeNumber} (w : IsRequest server path content_length sent dir days)
      → length_of server.int_of content_length ≡ ok w.size
  unfolding length_of checked_length
  request-length_of w = rw (w.has_header, w.is_size) (ground (arith, w.not_large))

  request-loads :
      {dir : Text} {days : WholeNumber} (size : ℕ)
      → length_of server.int_of content_length ≡ ok size
      → (w : IsRequest server path content_length sent dir days)
      → server.loads (take size sent) ≡ object_body w.members
  request-loads size h w =
      let same : size ≡ w.size = ok_injective size w.size (sym h ∙ request-length_of w) in
      rw same w.is_object

  -- The request reaches the generator with its arguments, or it is not well-formed and refused.
  abbrev pub Decided : Reply × FileSystem → Type 0
  Decided r =
      ((dir : Text) × (days : WholeNumber) × IsRequest server path content_length sent dir days
        × (r ≡ answer (server.generate days dir fs)))
      ⊎ (IsNoRequest × IsRefused fs r)

  on_arguments-Decided :
      (members : List (Text × BodyValue)) (arguments : Result RequestError (Text × WholeNumber))
      → arguments_of members ≡ arguments
      → ((dir : Text) (days : WholeNumber)
          → arguments_of members ≡ ok (dir, days)
          → IsRequest server path content_length sent dir days)
      → ((dir : Text) (days : WholeNumber)
          → IsRequest server path content_length sent dir days
          → arguments_of members ≡ ok (dir, days))
      → Decided (on_arguments server arguments fs)
  unfolding on_arguments
  on_arguments-Decided members (err e) h w only = inr (
    λ dir days asked. err-ok e (dir, days) (sym h ∙ only dir days asked),
    (refl, refused_request_lem e),
  )
  on_arguments-Decided members (ok (dir, days)) h w only = inl (dir, days, w dir days h, refl)

  on_loaded-Decided :
      (size : ℕ) (loaded : Loaded)
      → server.loads (take size sent) ≡ loaded
      → ((dir : Text) (days : WholeNumber) (members : List (Text × BodyValue))
          → server.loads (take size sent) ≡ object_body members
          → arguments_of members ≡ ok (dir, days)
          → IsRequest server path content_length sent dir days)
      → ((dir : Text) (days : WholeNumber)
            (asked : IsRequest server path content_length sent dir days)
          → loaded ≡ object_body asked.members)
      → Decided (on_loaded server loaded fs)
  unfolding on_loaded status_code
  on_loaded-Decided size json_decode_error h w only = inr (
    λ dir days asked. ground (arith, only dir days asked),
    (refl, refused_request_lem invalid_json),
  )
  on_loaded-Decided size unicode_decode_error h w only =
      inr (λ dir days asked. ground (arith, only dir days asked), (refl, λ e. cc))
  on_loaded-Decided size other_body h w only = inr (
    λ dir days asked. ground (arith, only dir days asked),
    (refl, refused_request_lem not_object),
  )
  on_loaded-Decided size (object_body members) h w only =
      on_arguments-Decided members (arguments_of members) refl (λ dir days. w dir days members h)
        (λ dir days asked. HasArguments-arguments_of members dir days (
          subst (λ ms. HasArguments ms dir days)
            (sym (object_body_injective members asked.members (only dir days asked)))
            asked.has_arguments))

  on_length-Decided :
      (size : Result RequestError ℕ)
      → length_of server.int_of content_length ≡ size
      → path ≡ codes "/generate"
      → Decided (on_length server sent size fs)
  unfolding on_length
  on_length-Decided (err e) h p = inr (
    λ dir days asked. err-ok e asked.size (sym h ∙ request-length_of asked),
    (refl, refused_request_lem e),
  )
  on_length-Decided (ok n) h p =
      let (header, has_header, is_size, not_large) =
        length_of_sound server.int_of content_length n h in
      on_loaded-Decided n (server.loads (take n sent)) refl
        (λ dir days members is_object arguments. record {
          to_generate = p;
          header = header;
          has_header = has_header;
          size = n;
          is_size = is_size;
          not_large = not_large;
          members = members;
          is_object = is_object;
          has_arguments = arguments_of-HasArguments members dir days arguments;
        })
        (λ dir days asked. request-loads n h asked)

  -- A POST reaches the generator if and only if it goes to /generate, its Content-Length is a number
  -- from 0 to 4096 and that many bytes are a JSON object with a text for the directory and an integer or a
  -- Boolean, which counts as 0 or 1, for the days. The generator is called with these, and the reply tells
  -- how it ended, or is missing after an OSError. Every other POST changes no file and does not get
  -- status 200.
  pub do_post-Decided : Decided (do_post server path content_length sent fs)
  unfolding do_post status_code
  do_post-Decided = elim (Bool-cases (text_eq path (codes "/generate"))) [
    | inl b ↦ rw b (
        on_length-Decided (length_of server.int_of content_length) refl
          (text_eq_sound path (codes "/generate") b))
    | inr b ↦ rw b (
        inr (
          λ dir days asked.
              ground (arith, (text_eq_iff path (codes "/generate")).1 asked.to_generate),
          (refl, λ e. ground arith),
        ))
  ]

-- ===== src/Logging.antt =====
-- sandbox/logging_config.py: the JSON line of a log record, and the loggers that `configure_logging` sets.
-- The time of a record as text, its message and the text of its exception are given.
pub mod Lines
pub mod Delivery
use otari_sandbox_container.Base.{
  ℕ, zero, suc, ◌+◌, ◌-◌, ◌≡◌, Bool, true, false, not, ◌&&◌, ◌||◌, Option, none, some, List, [],
  ◌∷◌, ◌++◌, if◌then◌else◌, leb, nat_beq, Text, codes, length, ◌==◌, text_eq, nat_eq,
}
use otari_sandbox_container.Base.Dict.{Dict, insert}
use otari_sandbox_container.TextEditor.Strings.{join_with, replace}
use otari_sandbox_container.PlatformTools.Literals.{escape}

-- A record, with the attributes that the telemetry library may have added.
pub record LogRecord : Type 0 where
  pub created : Text
  pub levelname : Text
  pub name : Text
  pub message : Text
  pub trace_id : Option Text
  pub span_id : Option Text
  pub trace_sampled : Option Bool
  pub exception : Option Text

pub record JsonLogFormatter : Type 0 where
  pub service_name : Text
  pub environment : Text

-- `getattr(record, name, "")`, unless it is empty or the given number of zeros.
abbrev zeros : ℕ → Text
zeros zero = []
zeros (suc n) = 48 ∷ zeros n

abbrev usable : ℕ → Option Text → Option Text
usable n none = none
usable n (some t) = if length t == 0 || t == zeros n then none else some t

unfoldable pub with_text : Text → Option Text → Dict Text Text → Dict Text Text
with_text key none event = event
with_text key (some t) event = insert key t event

-- `trace_flags`, where the record has them and an identifier is in the event.
abbrev flags_of : Option Bool → Option Text → Option Text → Option Text
flags_of none trace span = none
flags_of (some sampled) none none = none
flags_of (some sampled) trace span = some (if sampled then codes "01" else codes "00")

-- The members that every event has.
abbrev pub base_event : JsonLogFormatter → LogRecord → Dict Text Text
base_event f r =
    (codes "timestamp", replace r.created (codes "+00:00") (codes "Z"))
    ∷ (codes "severity", r.levelname)
    ∷ (codes "logger", r.name)
    ∷ (codes "message", r.message)
    ∷ (codes "service.name", f.service_name)
    ∷ (codes "deployment.environment", f.environment)
    ∷ []

-- The event that `format` makes of a record.
unfoldable pub event_of : JsonLogFormatter → LogRecord → Dict Text Text
event_of f r =
    let trace : Option Text = usable 32 r.trace_id in
    let span : Option Text = usable 16 r.span_id in
    with_text (codes "exception") r.exception (
      with_text (codes "trace_flags") (flags_of r.trace_sampled trace span)
        (with_text (codes "span_id") span (with_text (codes "trace_id") trace (base_event f r))))

-- A character of `json.dumps` with `ensure_ascii=False`.
abbrev pub json_char : ℕ → Text
json_char c = if leb 32 c && not (nat_beq c 34 || nat_beq c 92) then c ∷ [] else escape c

abbrev pub json_chars : Text → Text
json_chars [] = []
json_chars (c ∷ s) = json_char c ++ json_chars s

-- `json.dumps(event, ensure_ascii=False, separators=(",", ":"))`, behind the opening brace.
unfoldable pub json_members : Dict Text Text → Text
json_members [] = codes "}"
json_members ((k, v) ∷ event) =
    let rest = json_members event in
    34
    ∷ (json_chars k
        ++ 34 ∷ 58 ∷ 34 ∷ (json_chars v ++ 34 ∷ (elim event [ [] ↦ rest | _ ∷ _ ↦ 44 ∷ rest ])))

-- `JsonLogFormatter.format`
unfoldable pub format : JsonLogFormatter → LogRecord → Text
format f r = 123 ∷ json_members (event_of f r)

-- A handler: one that was there before, the stream handler with its formatter, or the one for the export.
pub data Handler : Type 0 where
  existing : Text → Handler
  json_stream : JsonLogFormatter → Handler
  otlp : Handler

pub record Logger : Type 0 where
  pub level : Text
  pub handlers : List Handler
  pub propagate : Bool

-- The loggers by name; the root has the empty name.
abbrev pub Loggers : Type 0
Loggers = Text → Logger

abbrev pub with_logger : Text → (Logger → Logger) → Loggers → Loggers
with_logger name f loggers n = if name == n then f (loggers n) else loggers n

abbrev pub set_level : Text → Logger → Logger
set_level level l = record l { level = level }

abbrev upper_char : ℕ → ℕ
upper_char c = if leb 97 c && leb c 122 then c - 32 else c

-- `log_level.upper()`, for ASCII.
abbrev pub upper : Text → Text
upper [] = []
upper (c ∷ s) = upper_char c ∷ upper s

abbrev pub set_levels : Text → Loggers → Loggers
set_levels level loggers = with_logger (codes "fastapi") (set_level level) (
    with_logger (codes "uvicorn.access") (set_level level) (
      with_logger (codes "uvicorn.error") (set_level level) (
        with_logger (codes "uvicorn") (set_level level)
          (with_logger [] (set_level level) loggers))))

abbrev to_root : Logger → Logger
to_root l = record l { handlers = []; propagate = true }

abbrev only : Handler → Logger → Logger
only h l = record l { handlers = h ∷ [] }

-- The JSON half of `configure_logging`.
abbrev pub use_json : Handler → Loggers → Loggers
use_json h loggers =
    with_logger (codes "uvicorn.access") (λ l. record l { handlers = h ∷ []; propagate = false })
      (with_logger (codes "fastapi") to_root (
        with_logger (codes "uvicorn.error") to_root
          (with_logger (codes "uvicorn") to_root (with_logger [] (only h) loggers))))

-- `configure_logging`; `none` is the `ValueError` of `setLevel` for an unknown level.
unfoldable pub configure_logging :
    (Text → Bool) → Text → Text → JsonLogFormatter → Loggers → Option Loggers
configure_logging is_level log_format log_level f loggers =
    let level = upper log_level in
    if is_level level
    then some (
        if log_format == codes "json"
        then use_json (json_stream f) (set_levels level loggers)
        else set_levels level loggers)
    else none

-- ===== src/Telemetry.antt =====
-- sandbox/telemetry.py, and the start of sandbox/exec_server.py that calls it. The export library is outside:
-- whether it can be imported and whether a flush raises are given.
pub mod Setup
use otari_sandbox_container.Base.{
  ℕ, ◌+◌, ◌≡◌, Bool, true, false, not, ◌&&◌, ◌||◌, Option, none, some, List, [], ◌∷◌, ◌++◌, map,
  if◌then◌else◌, leb, ltb, nat_beq, Text, codes, length, take, ◌==◌, text_eq, nat_eq,
}
use otari_sandbox_container.Base.Dict.{Dict, lookup, insert}
use otari_sandbox_container.Limits.{Environ}
use otari_sandbox_container.Logging.{
  JsonLogFormatter, Handler, otlp, Logger, Loggers, with_logger, configure_logging,
}

-- What a process keeps: the two flags, its identifier, the environment, the loggers, the three exporters
-- with the endpoint and the resource of each, and the libraries that are instrumented.
pub record Process : Type 0 where
  pub setup_attempted : Bool
  pub setup_enabled : Bool
  pub instance_id : Text
  pub environ : Environ
  pub loggers : Loggers
  pub exporters : List (Text × Dict Text Text)
  pub instrumented : List Text

-- `_resource_attributes`
unfoldable pub resource_attributes : Text → Text → Text → Dict Text Text
resource_attributes instance_id service_name environment =
    (codes "service.name", service_name)
    ∷ (codes "service.instance.id", instance_id)
    ∷ (codes "deployment.environment", environment)
    ∷ (codes "environment", environment)
    ∷ []

abbrev strip_slash : ℕ → Text → Text
strip_slash c [] = if nat_beq c 47 then [] else c ∷ []
strip_slash c (d ∷ s) = c ∷ d ∷ s

-- `otlp_endpoint.rstrip("/")`
unfoldable pub rstrip_slashes : Text → Text
rstrip_slashes [] = []
rstrip_slashes (c ∷ s) = strip_slash c (rstrip_slashes s)

-- `os.environ.setdefault("OTEL_EXPORTER_OTLP_HEADERS", otlp_headers)`, for headers that are not empty.
abbrev with_headers : Option Text → Environ → Environ
with_headers none environ = environ
with_headers (some headers) environ =
    if length headers == 0
    then environ
    else elim (lookup (codes "OTEL_EXPORTER_OTLP_HEADERS") environ) [
      | none ↦ insert (codes "OTEL_EXPORTER_OTLP_HEADERS") headers environ
      | some old ↦ environ
    ]

-- The arguments of `setup_telemetry`.
pub record Settings : Type 0 where
  pub enabled : Bool
  pub service_name : Text
  pub environment : Text
  pub otlp_endpoint : Text
  pub otlp_headers : Option Text

abbrev add_handler : Handler → Logger → Logger
add_handler h l = record l { handlers = l.handlers ++ h ∷ [] }

abbrev pub with_export : Loggers → Loggers
with_export loggers =
    with_logger (codes "uvicorn.access") (add_handler otlp)
      (with_logger [] (add_handler otlp) loggers)

-- What `setup_telemetry` does where it is enabled and the packages are there.
abbrev pub set_up : Settings → Process → Process
set_up c p =
    let base = rstrip_slashes c.otlp_endpoint in
    let resource = resource_attributes p.instance_id c.service_name c.environment in
    record p {
      setup_attempted = true;
      setup_enabled = true;
      environ = with_headers c.otlp_headers p.environ;
      loggers = with_export p.loggers;
      exporters =
          p.exporters
          ++ ((base ++ codes "/v1/traces", resource)
              ∷ (base ++ codes "/v1/metrics", resource)
              ∷ (base ++ codes "/v1/logs", resource)
              ∷ []);
      instrumented = p.instrumented ++ (codes "httpx" ∷ codes "logging" ∷ []);
    }

-- `setup_telemetry`, where `installed` is whether the packages can be imported.
unfoldable pub setup_telemetry : Bool → Settings → Process → Process
setup_telemetry installed c p =
    if p.setup_attempted
    then p
    else if c.enabled && installed
    then set_up c p
    else record p { setup_attempted = true }

-- `instrument_app`
unfoldable pub instrument_app : Process → Process
instrument_app p =
    if p.setup_enabled
    then record p { instrumented = p.instrumented ++ codes "fastapi" ∷ [] }
    else p

pub data Signal : Type 0 where
  traces metrics logs : Signal

-- What becomes of a flush: it ends, or its exception is logged.
pub data Flushed : Type 0 where
  flushed : Signal → Flushed
  warned : Signal → Flushed

abbrev pub flush_one : (Signal → Bool) → Signal → Flushed
flush_one raises s = if raises s then warned s else flushed s

-- `flush_telemetry`
unfoldable pub flush_telemetry : (Signal → Bool) → Process → List Flushed
flush_telemetry raises p =
    if p.setup_enabled
    then flush_one raises traces ∷ flush_one raises metrics ∷ flush_one raises logs ∷ []
    else []

-- `os.environ.get(name, default)`
abbrev pub variable : Text → Text → Environ → Text
variable name default environ = elim (lookup name environ) [ none ↦ default | some v ↦ v ]

-- `os.environ.get(name) or default`
abbrev variable_or : Text → Text → Environ → Text
variable_or name default environ =
    let v = variable name [] environ in if length v == 0 then default else v

abbrev is_space : ℕ → Bool
is_space c = nat_beq c 32 || (leb 9 c && leb c 13)

abbrev lstrip : Text → Text
lstrip [] = []
lstrip (c ∷ s) = let rest = lstrip s in if is_space c then rest else c ∷ s

abbrev strip_space : ℕ → Text → Text
strip_space c [] = if is_space c then [] else c ∷ []
strip_space c (d ∷ s) = c ∷ d ∷ s

abbrev rstrip : Text → Text
rstrip [] = []
rstrip (c ∷ s) = strip_space c (rstrip s)

abbrev lower_char : ℕ → ℕ
lower_char c = if leb 65 c && leb c 90 then c + 32 else c

-- Whether `value.strip().lower()` is one of the four words; for ASCII.
abbrev pub is_on : Text → Bool
is_on value =
    let v : Text = map lower_char (lstrip (rstrip value)) in
    v == codes "1" || v == codes "true" || v == codes "yes" || v == codes "on"

-- The settings that the exec server reads from its environment.
unfoldable pub settings_of : Environ → Settings
settings_of environ = record {
  enabled = is_on (variable (codes "TELEMETRY_ENABLED") (codes "false") environ);
  service_name =
      variable_or (codes "TELEMETRY_SERVICE_NAME") (codes "otari-sandbox-container") environ;
  environment = variable (codes "ENVIRONMENT") (codes "production") environ;
  otlp_endpoint =
      variable (codes "TELEMETRY_OTLP_ENDPOINT") (codes "http://localhost:4318") environ;
  otlp_headers = lookup (codes "TELEMETRY_OTLP_HEADERS") environ;
}

-- The start of the exec server: the loggers, the telemetry, the instrumentation of the application.
unfoldable pub bootstrap : (Text → Bool) → Bool → Process → Option Process
bootstrap is_level installed p =
    let c = settings_of p.environ in
    elim (configure_logging is_level (variable (codes "LOG_FORMAT") (codes "text") p.environ)
      (variable (codes "LOG_LEVEL") (codes "INFO") p.environ)
      (record { service_name = c.service_name; environment = c.environment }) p.loggers) [
        | none ↦ none
        | some loggers ↦
            some (instrument_app (setup_telemetry installed c (record p { loggers = loggers })))
      ]

-- ===== src/Tests/LoggingTests.antt =====
-- Runs of the definitions for sandbox/logging_config.py and sandbox/telemetry.py.
use otari_sandbox_container.Base.{
  ◌≡◌, refl, true, false, none, some, [], ◌∷◌, codes, arith, text_eq, text_beq, ◌==◌, if◌then◌else◌,
}
use otari_sandbox_container.Base.Dict.{insert}
use otari_sandbox_container.Logging.{
  LogRecord, JsonLogFormatter, event_of, with_text, format, existing, Loggers, configure_logging,
}
use otari_sandbox_container.Logging.Lines.{without_c0, read_event, read_event-format}
use otari_sandbox_container.Logging.Delivery.{reached}
use otari_sandbox_container.Telemetry.{Process, Settings, setup_telemetry}
use otari_sandbox_container.Telemetry.Setup.{setup_telemetry-uvicorn_error}

abbrev formatter : JsonLogFormatter
formatter = record { service_name = codes "sandbox"; environment = codes "test" }

-- a message with a line that looks like an event of its own
abbrev forged : LogRecord
forged = record {
  created = codes "2025-01-01T00:00:00+00:00";
  levelname = codes "INFO";
  name = codes "sandbox";
  message = codes "one\n{\"severity\":\"ERROR\"}";
  trace_id = some (codes "0");
  span_id = none;
  trace_sampled = some false;
  exception = none;
}

read_event-format_example :
    (without_c0 (format formatter forged) ≡ true)
    × (read_event 8 (format formatter forged) ≡ some (event_of formatter forged))
unfolding event_of with_text insert text_eq text_beq
read_event-format_example = read_event-format formatter forged 8 (omega arith)

-- The loggers as uvicorn's own configuration leaves them.
abbrev uvicorn_loggers : Loggers
uvicorn_loggers name =
    if name == codes "uvicorn"
    then record {
      level = codes "INFO";
      handlers = existing (codes "default") ∷ [];
      propagate = false;
    }
    else record { level = codes "INFO"; handlers = []; propagate = true }

abbrev settings : Settings
settings = record {
  enabled = true;
  service_name = codes "sandbox";
  environment = codes "test";
  otlp_endpoint = codes "http://collector:4318/";
  otlp_headers = none;
}

abbrev process : Process
process = record {
  setup_attempted = false;
  setup_enabled = false;
  instance_id = codes "abc";
  environ = [];
  loggers = uvicorn_loggers;
  exporters = [];
  instrumented = [];
}

setup_telemetry-uvicorn_error_example :
    (after : Loggers) × (configure_logging
        (λ level. true)
        (codes "text")
        (codes "info")
        formatter
        uvicorn_loggers
      ≡ some after)
    × (reached
          (setup_telemetry true settings (record process { loggers = after })).loggers
          (codes "uvicorn.error")
        ≡ existing (codes "default") ∷ [])
unfolding text_eq text_beq
setup_telemetry-uvicorn_error_example =
    setup_telemetry-uvicorn_error (λ level. true) (codes "info") formatter settings process refl
      refl refl refl refl

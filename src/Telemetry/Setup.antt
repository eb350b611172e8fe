-- ===== src/Telemetry/Setup.antt =====
-- The set-up of sandbox/telemetry.py, and what it adds to the loggers that sandbox/logging_config.py leaves.
use otari_sandbox_container.Base.{
  ◌≡◌, refl, ap, ◌∙◌, Bool, true, false, ◌&&◌, Option, none, some, [], ◌∷◌, ◌++◌, if_true, if_false,
  if_both, append-nil, Text, codes, ◌==◌, text_eq, text_beq, arith, if◌then◌else◌,
}
use otari_sandbox_container.Base.Dict.{lookup}
use otari_sandbox_container.Limits.{Environ}
use otari_sandbox_container.Logging.{
  JsonLogFormatter, otlp, Logger, Loggers, set_levels, with_logger, set_level, configure_logging,
  upper,
}
use otari_sandbox_container.Logging.Delivery.{reached}
use otari_sandbox_container.Telemetry.{
  Process, Settings, settings_of, with_export, setup_telemetry, instrument_app, flush_telemetry,
  Signal, bootstrap, variable, is_on, set_up,
}

-- After one call of the set-up, every later call changes nothing, with whatever arguments: in particular an
-- enabled call after a disabled one is ignored.
pub setup_telemetry_once :
    (installed installed' : Bool) (c c' : Settings) (p : Process)
    → setup_telemetry installed' c' (setup_telemetry installed c p) ≡ setup_telemetry installed c p
unfolding setup_telemetry
setup_telemetry_once installed installed' c c' p = if_true _ _ (
    if_both (λ (q : Process). q.setup_attempted ≡ true) p.setup_attempted p _ (λ e. e)
      (λ e.
        if_both (λ (q : Process). q.setup_attempted ≡ true) (c.enabled && installed) _ _ (λ e. refl)
          (λ e. refl)))

set_up-loggers :
    (c : Settings) (p : Process)
    → p.setup_attempted ≡ false
    → c.enabled ≡ true
    → (setup_telemetry true c p).loggers ≡ with_export p.loggers
unfolding setup_telemetry
set_up-loggers c p first enabled =
    ap (λ (q : Process). q.loggers)
      (if_false _ _ first
        ∙ ap (λ b. if b && true then set_up c p else record p { setup_attempted = true }) enabled)

-- In text mode, where the logger uvicorn does not propagate to the root, as in the configuration that
-- uvicorn itself installs: after the configuration and the set-up of an enabled export, a record of
-- uvicorn.error reaches the handlers of uvicorn.error and of uvicorn that were there before, and not the
-- export.
pub setup_telemetry-uvicorn_error :
    (is_level : Text → Bool) (log_level : Text) (f : JsonLogFormatter) (c : Settings) (p : Process)
    → is_level (upper log_level) ≡ true
    → p.setup_attempted ≡ false
    → c.enabled ≡ true
    → (p.loggers (codes "uvicorn")).propagate ≡ false
    → (p.loggers (codes "uvicorn.error")).propagate ≡ true
    → (after : Loggers) × (configure_logging is_level (codes "text") log_level f p.loggers
        ≡ some after)
      × (reached
            (setup_telemetry true c (record p { loggers = after })).loggers
            (codes "uvicorn.error")
          ≡ (p.loggers (codes "uvicorn.error")).handlers ++ (p.loggers (codes "uvicorn")).handlers)
unfolding configure_logging text_eq text_beq
setup_telemetry-uvicorn_error is_level log_level f c p known first enabled closed passes =
    let own = (p.loggers (codes "uvicorn.error")).handlers in
    let above = (p.loggers (codes "uvicorn")).handlers in
    let after = set_levels (upper log_level) p.loggers in
    (
      after,
      if_true _ _ known,
      ap (λ (ls : Loggers). reached ls (codes "uvicorn.error"))
            (set_up-loggers c (record p { loggers = after }) first enabled)
          ∙ ap (λ hs. own ++ hs)
              (if_true _ [] passes
                ∙ ap (λ hs. above ++ hs) (if_false ((p.loggers []).handlers ++ otlp ∷ []) [] closed)
                ∙ append-nil above),
    )

settings_of-off :
    (environ : Environ)
    → lookup (codes "TELEMETRY_ENABLED") environ ≡ none
    → (settings_of environ).enabled ≡ false
unfolding settings_of text_eq text_beq
settings_of-off environ h = ap (λ o. is_on (elim o [ none ↦ codes "false" | some v ↦ v ])) h

with_logger-keeps :
    (n name level : Text) (loggers : Loggers)
    → ((with_logger n (set_level level) loggers name).handlers ≡ (loggers name).handlers)
      × ((with_logger n (set_level level) loggers name).propagate ≡ (loggers name).propagate)
with_logger-keeps n name level loggers =
    if_both
      (λ (l : Logger).
        (l.handlers ≡ (loggers name).handlers) × (l.propagate ≡ (loggers name).propagate))
      (n == name) (set_level level (loggers name)) (loggers name) (λ e. (refl, refl))
      (λ e. (refl, refl))

set_levels-keeps :
    (name level : Text) (loggers : Loggers)
    → ((set_levels level loggers name).handlers ≡ (loggers name).handlers)
      × ((set_levels level loggers name).propagate ≡ (loggers name).propagate)
set_levels-keeps name level loggers =
    let set : Text → Loggers → Loggers = λ n ls. with_logger n (set_level level) ls in
    let a = set [] loggers in
    let b = set (codes "uvicorn") a in
    let c = set (codes "uvicorn.error") b in
    let d = set (codes "uvicorn.access") c in
    let k = with_logger-keeps [] name level loggers in
    let k' = with_logger-keeps (codes "uvicorn") name level a in
    let l = with_logger-keeps (codes "uvicorn.error") name level b in
    let l' = with_logger-keeps (codes "uvicorn.access") name level c in
    let m = with_logger-keeps (codes "fastapi") name level d in
    (m.0 ∙ l'.0 ∙ l.0 ∙ k'.0 ∙ k.0, m.1 ∙ l'.1 ∙ l.1 ∙ k'.1 ∙ k.1)

-- Nothing but the flag of the attempt.
abbrev SameSetup : Process → Process → Type 0
SameSetup p q =
    (q.exporters ≡ p.exporters)
    × (q.instrumented ≡ p.instrumented)
    × (q.setup_enabled ≡ p.setup_enabled)
    × (q.loggers ≡ p.loggers)

setup_telemetry-off :
    (installed : Bool) (c : Settings) (p : Process)
    → c.enabled ≡ false
    → SameSetup p (setup_telemetry installed c p)
unfolding setup_telemetry
setup_telemetry-off installed c p off =
    if_both (SameSetup p) p.setup_attempted p _ (λ e. (refl, refl, refl, refl))
      (λ e.
        if_both (SameSetup p) (c.enabled && installed) _ _ (λ e. ground arith)
          (λ e. (refl, refl, refl, refl)))

configure_logging-text :
    (is_level : Text → Bool) (f : JsonLogFormatter) (environ : Environ) (loggers : Loggers)
    → lookup (codes "LOG_FORMAT") environ ≡ none
    → lookup (codes "LOG_LEVEL") environ ≡ none
    → is_level (codes "INFO") ≡ true
    → configure_logging is_level
        (variable (codes "LOG_FORMAT") (codes "text") environ)
        (variable (codes "LOG_LEVEL") (codes "INFO") environ)
        f
        loggers
      ≡ some (set_levels (codes "INFO") loggers)
unfolding configure_logging text_eq text_beq
configure_logging-text is_level f environ loggers format level known =
    ap
      (λ (o : Option Text).
        configure_logging is_level (elim o [ none ↦ codes "text" | some v ↦ v ])
          (variable (codes "LOG_LEVEL") (codes "INFO") environ) f loggers)
      format
    ∙ ap
        (λ (o : Option Text).
          configure_logging is_level (codes "text") (elim o [ none ↦ codes "INFO" | some v ↦ v ]) f
            loggers)
        level
    ∙ if_true _ _ known

-- The start of the server where neither the export nor a format of the log is set in the environment: it
-- exports nothing and instruments nothing, a flush does nothing, and each logger keeps its handlers and
-- whether it propagates, as it was before.
pub bootstrap_quiet :
    (is_level : Text → Bool) (installed : Bool) (p : Process) (raises : Signal → Bool) (name : Text)
    → lookup (codes "TELEMETRY_ENABLED") p.environ ≡ none
    → lookup (codes "LOG_FORMAT") p.environ ≡ none
    → lookup (codes "LOG_LEVEL") p.environ ≡ none
    → is_level (codes "INFO") ≡ true
    → p.setup_enabled ≡ false
    → (q : Process) × (bootstrap is_level installed p ≡ some q)
      × (q.exporters ≡ p.exporters)
      × (q.instrumented ≡ p.instrumented)
      × (flush_telemetry raises q ≡ [])
      × ((q.loggers name).handlers ≡ (p.loggers name).handlers)
      × ((q.loggers name).propagate ≡ (p.loggers name).propagate)
unfolding bootstrap instrument_app flush_telemetry
bootstrap_quiet is_level installed p raises name export format level known off =
    let c = settings_of p.environ in
    let f : JsonLogFormatter = record {
      service_name = c.service_name;
      environment = c.environment;
    } in
    let p' : Process = record p { loggers = set_levels (codes "INFO") p.loggers } in
    let q = setup_telemetry installed c p' in
    let (exporters, instrumented, enabled, loggers) =
      setup_telemetry-off installed c p' (settings_of-off p.environ export) in
    let disabled : q.setup_enabled ≡ false = enabled ∙ off in
    let kept = set_levels-keeps name (codes "INFO") p.loggers in
    (
      q,
      ap
            (λ (o : Option Loggers). elim o [
              | none ↦ none
              | some loggers ↦
                  some
                    (instrument_app (setup_telemetry installed c (record p { loggers = loggers })))
            ])
            (configure_logging-text is_level f p.environ p.loggers format level known)
          ∙ ap some (if_false _ _ disabled),
      exporters,
      instrumented,
      if_false _ _ disabled,
      ap (λ (ls : Loggers). (ls name).handlers) loggers ∙ kept.0,
      ap (λ (ls : Loggers). (ls name).propagate) loggers ∙ kept.1,
    )

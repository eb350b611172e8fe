-- ===== src/Logging/Delivery.antt =====
-- Which handlers a record reaches, as `Logger.callHandlers` of Python goes up from its logger: after
-- `configure_logging` of sandbox/logging_config.py and the set-up of sandbox/telemetry.py.
use otari_sandbox_container.Base.{
  ◌≡◌, refl, Bool, true, some, List, [], ◌∷◌, ◌++◌, if◌then◌else◌, nat_beq, Text, codes, text_eq,
  text_beq, if_true, All,
}
use otari_sandbox_container.Logging.{
  JsonLogFormatter, Handler, json_stream, Loggers, upper, set_levels, use_json, configure_logging,
}

abbrev lineage_from : List Text → Text → Text → List Text
lineage_from above before [] = before ∷ above
lineage_from above before (c ∷ s) =
    let deeper = lineage_from (before ∷ above) (before ++ c ∷ []) s in
    let same = lineage_from above (before ++ c ∷ []) s in if nat_beq c 46 then deeper else same

-- A logger and those above it, up to the root.
abbrev pub lineage : Text → List Text
lineage [] = [] ∷ []
lineage (c ∷ name) = lineage_from ([] ∷ []) [] (c ∷ name)

abbrev pub reached_from : Loggers → List Text → List Handler
reached_from loggers [] = []
reached_from loggers (name ∷ []) = (loggers name).handlers
reached_from loggers (name ∷ next ∷ names) =
    let above = reached_from loggers (next ∷ names) in
    (loggers name).handlers ++ (if (loggers name).propagate then above else [])

-- The handlers that a record of the logger reaches.
abbrev pub reached : Loggers → Text → List Handler
reached loggers name = reached_from loggers (lineage name)

-- The names that `configure_logging` sets, and the root.
abbrev pub configured : List Text
configured =
    [] ∷ codes "uvicorn" ∷ codes "uvicorn.error" ∷ codes "uvicorn.access" ∷ codes "fastapi" ∷ []

-- Each of the loggers reaches the handlers, and no handler twice.
abbrev pub AllReach : List Handler → Loggers → Type 0
AllReach hs loggers = All (λ name. reached loggers name ≡ hs) configured

-- Whatever the loggers before: in JSON mode, with a level that is known, the configuration succeeds; then a
-- record of any of the loggers that it sets, and of the root, reaches the JSON handler exactly once and no
-- other handler, and each of them has the level in upper case.
pub configure_logging-AllReach :
    (is_level : Text → Bool) (log_level : Text) (f : JsonLogFormatter) (loggers : Loggers)
    → is_level (upper log_level) ≡ true
    → (after : Loggers) × (configure_logging is_level (codes "json") log_level f loggers
        ≡ some after)
      × AllReach (json_stream f ∷ []) after
      × All (λ name. (after name).level ≡ upper log_level) configured
unfolding configure_logging text_eq text_beq
configure_logging-AllReach is_level log_level f loggers known =
    let after : Loggers = use_json (json_stream f) (set_levels (upper log_level) loggers) in
    (
      after,
      if_true _ _ known,
      (refl, (refl, (refl, (refl, (refl, tt))))),
      (refl, (refl, (refl, (refl, (refl, tt))))),
    )

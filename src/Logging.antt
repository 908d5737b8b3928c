-- ===== src/Logging.antt =====
-- Source/include/Logging.hpp: the level of the log. The logger is that of spdlog, of which only the
-- level is kept; what is written to it is output.
use Prim.Native.String.{String}
use process_manager_module.Base.{
  ◌≡◌, refl, Bool, List, [], ◌∷◌, ◌++◌, Option, none, some, if◌then◌else◌, same_text, ◌∙◌, Outcome,
  returns, ◌>>=◌, Outcome-cases, inl, inr,
}
use process_manager_module.Configuration.{
  Configuration, read_configuration, read_configuration_lem, read_logging_from_json,
}
use process_manager_module.Base.{ℕ}

pub data LogLevel : Type 0 where
  trace debug info warning error critical : LogLevel

pub data SpdlogLevel : Type 0 where
  spdlog_trace spdlog_debug spdlog_info spdlog_warn spdlog_err spdlog_critical : SpdlogLevel

unfoldable pub translate_to_spdlog_level : LogLevel → SpdlogLevel
translate_to_spdlog_level trace = spdlog_trace
translate_to_spdlog_level debug = spdlog_debug
translate_to_spdlog_level info = spdlog_info
translate_to_spdlog_level warning = spdlog_warn
translate_to_spdlog_level error = spdlog_err
translate_to_spdlog_level critical = spdlog_critical

-- The overload for a name of the configuration.
unfoldable pub translate_name_to_spdlog_level : String → SpdlogLevel
translate_name_to_spdlog_level name =
    if same_text name "TRACE"
    then spdlog_trace
    else if same_text name "DEBUG"
    then spdlog_debug
    else if same_text name "INFO"
    then spdlog_info
    else if same_text name "WARNING"
    then spdlog_warn
    else if same_text name "ERROR"
    then spdlog_err
    else if same_text name "CRITICAL"
    then spdlog_critical
    else spdlog_trace

-- `Log::instance`, `none` while it is null.
pub record Log : Type 0 where
  pub level : SpdlogLevel

unfoldable pub initialize_log : LogLevel → Option Log → Option Log
unfolding translate_to_spdlog_level
initialize_log level none = some (record { level = translate_to_spdlog_level level })
initialize_log level (some log) = some log

unfoldable pub update_configuration : Configuration → Option Log → Option Log
unfolding translate_name_to_spdlog_level
update_configuration configuration none = none
update_configuration configuration (some log) =
    some (record { level = translate_name_to_spdlog_level configuration.logging_level })

-- Whatever the file of the configuration says: reading it and setting the log to the configuration
-- that was read comes to reading it and setting the log to the level of a configuration without a
-- level, which is that of TRACE.
pub update_configuration-read_configuration :
    {Json : Type 0} (get_number : Json → String → String → ℕ → Outcome (Option ℕ))
    (file : Option (Option Json)) (c : Configuration) (level : LogLevel)
    → c.logging_level ≡ ""
    → (do
      (c', read) ← read_configuration get_number file c
      returns (update_configuration c' (initialize_log level none)))
      ≡ (do (c', read) ← read_configuration get_number file c; returns (initialize_log trace none))
unfolding update_configuration initialize_log translate_to_spdlog_level
    translate_name_to_spdlog_level
update_configuration-read_configuration get_number file c level empty =
    elim (Outcome-cases (read_configuration get_number file c)) [
      | inl ((c', read), e) ↦
          let kept = ((read_configuration_lem get_number file c).1 c' read e).0 ∙ empty in
          rw (e, kept)
      | inr (inl (f, e)) ↦ rw e
      | inr (inr e) ↦ rw e
    ]

-- The names of the levels in the file of the configuration.
abbrev pub name_of : LogLevel → String
name_of trace = "TRACE"
name_of debug = "DEBUG"
name_of info = "INFO"
name_of warning = "WARNING"
name_of error = "ERROR"
name_of critical = "CRITICAL"

-- If the level of the logging were read from the file, a log that is there would be set to the
-- level of that name, as if it had been created with it.
pub update_configuration-read_logging_from_json :
    {Json : Type 0} (get_text : Json → String → String → Outcome (Option String)) (json : Json)
    (c : Configuration) (level created : LogLevel)
    → get_text json "LoggingConfiguration" "Level" ≡ returns (some (name_of level))
    → (do
      (c', read) ← read_logging_from_json get_text json c
      returns (update_configuration c' (initialize_log created none)))
      ≡ returns (initialize_log level none)
unfolding update_configuration initialize_log translate_to_spdlog_level
    translate_name_to_spdlog_level read_logging_from_json
update_configuration-read_logging_from_json get_text json c level created h =
    rw (read_logging_from_json, h, by_name level)
  where
    by_name :
        (l : LogLevel)
        → some (record { level = translate_name_to_spdlog_level (name_of l) })
          ≡ initialize_log l none
    by_name trace = refl
    by_name debug = refl
    by_name info = refl
    by_name warning = refl
    by_name error = refl
    by_name critical = refl

-- What `Log::trace` to `Log::critical` do, each for its level; there is none for warnings. `writes`
-- is spdlog's decision whether a logger of one level writes a message of another.
unfoldable pub log_message :
    (SpdlogLevel → SpdlogLevel → Bool)
    → LogLevel
    → String
    → Option Log × List (SpdlogLevel × String)
    → Option Log × List (SpdlogLevel × String)
unfolding translate_to_spdlog_level
log_message writes level message (none, file) = (none, file)
log_message writes level message (some log, file) =
    let spdlog_level = translate_to_spdlog_level level in
    if writes log.level spdlog_level
    then (some log, file ++ (spdlog_level, message) ∷ [])
    else (some log, file)

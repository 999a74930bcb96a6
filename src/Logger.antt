-- ===== src/Logger.antt =====
-- The logger (pkg/logger/logger.go). What a call has written is a log of lines, each with the place that
-- it has gone to. The clock, the caller and encoding/json are parameters, and so is the message that a
-- format makes of its arguments. The calls are made under a lock, so each is one step.
pub mod Levels
pub mod Lines
use go_video_transcode_servi.Common.{
  ℕ, ltb, leb, ◌+◌, ◌-◌, ℤ, pos, leb_ℤ, eq_ℤ, Text, codes, text_eq, split_at, is_empty, itoa, Bool,
  true, false, not, ◌&&◌, ◌||◌, List, [], ◌∷◌, ◌++◌, Option, none, some, Error, Result, ok, err,
  if◌then◌else◌,
}
use go_video_transcode_servi.Logger.Levels.{
  LogLevel, debug_level, info_level, warn_level, error_level, fatal_level, level_string, to_upper,
  level_named, parse_log_level,
}

record LogConfig : Type 0 where
  pub level : Text
  pub format : Text
  pub output : Text
  pub filename : Text

-- An open file is its name.
pub record Logger : Type 0 where
  pub level : LogLevel
  pub format : Text
  pub output : Text
  pub file : Option Text
  pub enable_file : Bool

-- The logger of DefaultLogger, and that of getGlobalLogger where none is set.
abbrev logger_at : LogLevel → Logger
logger_at level = record {
  level = level;
  format = codes "json";
  output = codes "stdout";
  file = none;
  enable_file = false;
}

abbrev opened : Option Error → Text → Logger → Logger
opened (some e) filename l = record l { output = codes "stdout"; enable_file = false }
opened none filename l = record l { file = some filename }

-- `open_file` is os.OpenFile.
unfoldable new_logger : (ℕ → ℕ) → (Text → Option Error) → LogConfig → Logger
unfolding parse_log_level
new_logger table open_file cfg =
    let l : Logger = record {
      level = parse_log_level table cfg.level;
      format = cfg.format;
      output = cfg.output;
      file = none;
      enable_file = text_eq cfg.output (codes "file");
    } in
    if l.enable_file && not (is_empty cfg.filename)
    then opened (open_file cfg.filename) cfg.filename l
    else l

unfoldable set_level : LogLevel → Logger → Logger
set_level level l = record l { level = level }

unfoldable pub is_level_enabled : Logger → LogLevel → Bool
is_level_enabled l level = leb_ℤ l.level level

-- runtime.Caller: the function, where it has a name, the file and the line; `none` is not ok.
abbrev pub Caller : Type 0
Caller = Option (Option Text × Text × ℕ)

-- What is behind the last slash, or all.
unfoldable pub last_part : Text → List Text → Text
last_part part [] = part
last_part part (next ∷ rest) = last_part next rest

abbrev base_name : Text → Text
base_name s = let (part, rest) = split_at b'/' s in last_part part rest

pub record LogEntry : Type 0 where
  pub timestamp : Text
  pub level : Text
  pub message : Text
  pub file : Text
  pub line : ℕ
  pub function : Text
  pub fields : List (Text × Text)

pub record Encoder : Type 0 where
  pub marshal_entry : LogEntry → Result Error Text
  pub marshal_fields : List (Text × Text) → Result Error Text
  pub failure_line : Text → Text → Error → Text  -- the line for an entry that cannot be marshalled

abbrev function_of : Caller → Text
function_of none = []
function_of (some (none, file, line)) = []
function_of (some (some f, file, line)) = base_name f

abbrev file_of : Caller → Text
file_of none = []
file_of (some (f, file, line)) = base_name file

abbrev line_of : Caller → ℕ
line_of none = 0
line_of (some (f, file, line)) = line

abbrev fields_text : Result Error Text → Text
fields_text (err e) = []
fields_text (ok t) = codes " fields=" ++ t

abbrev no_fields : List (Text × Text) → Bool
no_fields [] = true
no_fields (f ∷ rest) = false

text_line : Encoder → LogEntry → Text
text_line enc e =
    (codes "["
      ++ (e.timestamp
          ++ (codes "] "
              ++ (e.level
                  ++ (codes " "
                      ++ (e.file
                          ++ (codes ":"
                              ++ (itoa e.line
                                  ++ (codes " "
                                      ++ (e.function ++ (codes " - " ++ e.message)))))))))))
    ++ (if no_fields e.fields then [] else fields_text (enc.marshal_fields e.fields))

json_line : Encoder → LogEntry → Result Error Text → Text
json_line enc e (ok line) = line
json_line enc e (err x) = enc.failure_line e.level e.message x

format_line : Encoder → Text → LogEntry → Text
unfolding text_line json_line
format_line enc format e =
    if text_eq format (codes "json") then json_line enc e (enc.marshal_entry e) else text_line enc e

-- Where a line goes.
pub data Sink : Type 0 where
  to_file : Text → Sink
  to_stderr to_stdout : Sink

abbrev pub standard : Text → Sink
standard output = if text_eq output (codes "stderr") then to_stderr else to_stdout

abbrev pub sink_with : Bool → Option Text → Text → Sink
sink_with true (some name) output = to_file name
sink_with true none output = standard output
sink_with false file output = standard output

unfoldable pub sink_of : Logger → Sink
sink_of l = sink_with l.enable_file l.file l.output

abbrev pub Log : Type 0
Log = List (Sink × Text)

unfoldable pub write_log : Logger → Text → Log → Log
unfolding sink_of
write_log l line log = log ++ (sink_of l, line) ∷ []

unfoldable entry_of : Text → Caller → LogLevel → Text → List (Text × Text) → LogEntry
entry_of now caller level message fields = record {
  timestamp = now;
  level = level_string level;
  message = message;
  file = file_of caller;
  line = line_of caller;
  function = function_of caller;
  fields = fields;
}

-- Logger.log, with the time and the caller of the call.
unfoldable pub log_at :
    Encoder → Text → Caller → Logger → LogLevel → Text → List (Text × Text) → Log → Log
unfolding format_line entry_of write_log is_level_enabled
log_at enc now caller l level message fields log =
    if is_level_enabled l level
    then write_log l (format_line enc l.format (entry_of now caller level message fields)) log
    else log

-- The first of the optional fields.
abbrev first_fields : List (List (Text × Text)) → List (Text × Text)
first_fields [] = []
first_fields (f ∷ rest) = f

-- The methods of the levels: those of Logger with optional fields, those of FieldLogger with its own,
-- and those with a format, which make the message first.
module _ (enc : Encoder) (now : Text) (caller : Caller) (l : Logger) where
  log_debug : Text → List (List (Text × Text)) → Log → Log
  log_debug message fields log =
      log_at enc now caller l debug_level message (first_fields fields) log

  log_info : Text → List (List (Text × Text)) → Log → Log
  log_info message fields log = log_at enc now caller l info_level message (first_fields fields) log

  log_warn : Text → List (List (Text × Text)) → Log → Log
  log_warn message fields log = log_at enc now caller l warn_level message (first_fields fields) log

  log_error : Text → List (List (Text × Text)) → Log → Log
  log_error message fields log =
      log_at enc now caller l error_level message (first_fields fields) log

  -- The process ends with the code behind the log.
  log_fatal : Text → List (List (Text × Text)) → Log → Log × ℕ
  log_fatal message fields log =
      (log_at enc now caller l fatal_level message (first_fields fields) log, 1)

-- Whatever the file answers, it is closed once.
abbrev pub closed_file : Option Text → (Text → Option Error) → Logger → Logger × Option Error
closed_file none close l = (l, none)
closed_file (some name) close l = (record l { file = none }, close name)

unfoldable pub close_logger : (Text → Option Error) → Logger → Logger × Option Error
close_logger close l = closed_file l.file close l

-- The global logger: one is made where none is set.
unfoldable get_global_logger : Option Logger → Option Logger × Logger
get_global_logger (some l) = (some l, l)
get_global_logger none = (some (logger_at debug_level), logger_at debug_level)

-- The fields of a context: its request and its user, each where it has one.
abbrev field_of : Text → Option Text → List (Text × Text)
field_of key none = []
field_of key (some v) = (key, v) ∷ []

context_fields : Option (Option Text × Option Text) → List (Text × Text)
context_fields none = []
context_fields (some (request_id, user_uuid)) =
    field_of (codes "request_id") request_id ++ field_of (codes "user_uuid") user_uuid

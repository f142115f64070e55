-- ===== src/Observability/Logger.antt =====
-- internal/observability/logger.go: what is logged, and what an entry holds. The values of the fields
-- are a parameter, and so are `json.Marshal`, the clock, and a write to the output.
use p2p_storage.Base.{
  ℕ, String, ◌≡◌, refl, ap, ◌∙◌, if_pos, if_neg, string_discrete, Option, none, some, [], ◌∷◌, map,
  ltb, if◌then◌else◌, string_key, bytes_key, bytes_discrete, ℕ_discrete,
}
use p2p_storage.Base.Dict.{Dict, get, put, get-put, IsMap}
use p2p_storage.Base.Bytes.{Bytes}
use p2p_storage.Config.{lower, trim_left, trim_right, is_name}

-- `LogLevel` is an int; the program uses these.
pub data LogLevel : Type 0 where
  level_debug level_info level_error : LogLevel

abbrev pub rank : LogLevel → ℕ
rank level_debug = 0
rank level_info = 1
rank level_error = 2

-- "debug", "info" and "error"
unfoldable pub level_string : LogLevel → Bytes
level_string level_debug = 100 ∷ 101 ∷ 98 ∷ 117 ∷ 103 ∷ []
level_string level_info = 105 ∷ 110 ∷ 102 ∷ 111 ∷ []
level_string level_error = 101 ∷ 114 ∷ 114 ∷ 111 ∷ 114 ∷ []

unfoldable pub parse_log_level : Bytes → LogLevel
unfolding level_string
parse_log_level s =
    let name = map lower (trim_left (trim_right s)) in
    if is_name (level_string level_debug) name
    then level_debug
    else (if is_name (level_string level_error) name then level_error else level_info)

-- The name of a level is read as that level.
parse_log_level-level_string : (l : LogLevel) → parse_log_level (level_string l) ≡ l
unfolding parse_log_level level_string trim_left trim_right bytes_discrete ℕ_discrete
parse_log_level-level_string level_debug = refl
parse_log_level-level_string level_info = refl
parse_log_level-level_string level_error = refl

-- The values of an entry, the ones of the logger itself among them.
pub data Value (V : Type 0) : Type 0 where
  text : String → Value V
  time : ℕ → Value V
  other : V → Value V

pub record Logger (V : Type 0) : Type 0 where
  pub fields : Dict String V
  pub level : LogLevel

-- NewLogger and NewLoggerWithWriter, whose outputs differ, and NewLoggerWithLevel.
abbrev pub new_logger : {V : Type 0} → Dict String V → Logger V
new_logger fields = record { fields = fields; level = level_info }

abbrev pub new_logger_with_level : {V : Type 0} → Dict String V → LogLevel → Logger V
new_logger_with_level fields level = record { fields = fields; level = level }

abbrev pub set_level : {V : Type 0} → LogLevel → Logger V → Logger V
set_level level l = record l { level = level }

abbrev pub get_level : {V : Type 0} → Logger V → LogLevel
get_level l = l.level

errors_pass :
    {A : Type 0} (level : LogLevel) (e : Option A) → (if ltb 2 (rank level) then none else e) ≡ e
errors_pass level_debug e = refl
errors_pass level_info e = refl
errors_pass level_error e = refl

module _ {V : Type 0} where
  -- `for k, v := range fields { entry[k] = v }`
  unfoldable pub add_fields : Dict String V → Dict String (Value V) → Dict String (Value V)
  add_fields [] entry = entry
  add_fields ((k, v) ∷ fields) entry = add_fields fields (put k (other v) entry)

  unfoldable pub entry_of :
      ℕ → String → String → Dict String V → Dict String V → Dict String (Value V)
  entry_of now level msg static dynamic =
      let entry = put "msg" (text msg) (put "level" (text level) (put "ts" (time now) [])) in
      add_fields dynamic (add_fields static entry)

  -- The entry that is written, if it is.
  unfoldable pub log :
      Logger V → ℕ → String → LogLevel → String → Dict String V → Option (Dict String (Value V))
  log l now level min_level msg fields =
      if ltb (rank min_level) (rank l.level)
      then none
      else some (entry_of now level msg l.fields fields)

  unfoldable pub info : Logger V → ℕ → String → Dict String V → Option (Dict String (Value V))
  info l now msg fields = log l now "INFO" level_info msg fields

  unfoldable pub error : Logger V → ℕ → String → Dict String V → Option (Dict String (Value V))
  error l now msg fields = log l now "ERROR" level_error msg fields

  unfoldable pub debug : Logger V → ℕ → String → Dict String V → Option (Dict String (Value V))
  debug l now msg fields = log l now "DEBUG" level_debug msg fields

  -- An error is always logged.
  error_lem :
      (l : Logger V) (now : ℕ) (msg : String) (fields : Dict String V)
      → error l now msg fields ≡ some (entry_of now "ERROR" msg l.fields fields)
  unfolding error log
  error_lem l now msg fields = errors_pass l.level _

  abbrev or_else : Option V → Option (Value V) → Option (Value V)
  or_else none old = old
  or_else (some v) old = some (other v)

  get-add_fields :
      (fields : Dict String V) (entry : Dict String (Value V)) (k : String)
      → IsMap fields
      → get k (add_fields fields entry) ≡ or_else (get k fields) (get k entry)
  unfolding add_fields get
  get-add_fields [] entry k h = refl
  get-add_fields ((j, v) ∷ fields) entry k h =
      get-add_fields fields (put j (other v) entry) k h.1 ∙ elim (string_discrete j k) [
        | yes e ↦
            let absent : get k fields ≡ none = rw (← e) h.0 in
            rw (if_pos (string_discrete j k) e, absent, get-put j k (other v) entry)
              (if_pos (string_discrete j k) e _ _)
        | no ne ↦
            rw (if_neg (string_discrete j k) ne, get-put j k (other v) entry)
              (rw (if_neg (string_discrete j k) ne) refl)
      ]

  -- What an entry holds under a name: the field of the call, else the logger's own, else what every
  -- entry has. A field may stand in for the level or the message.
  entry_lem :
      (now : ℕ) (level msg : String) (static dynamic : Dict String V) (k : String)
      → IsMap static
      → IsMap dynamic
      → get k (entry_of now level msg static dynamic)
        ≡ or_else (get k dynamic) (
            or_else
              (get k static)
              (get k (put "msg" (text msg) (put "level" (text level) (put "ts" (time now) [])))))
  unfolding entry_of
  entry_lem now level msg static dynamic k hs hd =
      get-add_fields dynamic _ k hd ∙ ap (or_else (get k dynamic)) (get-add_fields static _ k hs)

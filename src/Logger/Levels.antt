-- ===== src/Logger/Levels.antt =====
-- What a logger leaves out.
use transport_cpp.Prelude.{
  ◌≡◌, ltb, List, [], ◌∷◌, ◌++◌, String, inl, inr, if◌then◌else◌, refl, sym, append-nil,
  append_assoc, Bool-cases, ◌∙◌, ap,
}
use transport_cpp.Logger.{Logger, LogLevel, debug, info, warn, error, fatal, rank, log}

-- A message at a level and with a text, as it is printed.
abbrev pub text_of : LogLevel → String
text_of debug = "[DEBUG]"
text_of info = "[INFO]"
text_of warn = "[WARN]"
text_of error = "[ERROR]"
text_of fatal = "[FATAL]"

abbrev pub log_all : List (LogLevel × String × String) → Logger → Logger
log_all [] l = l
log_all ((level, class, message) ∷ ms) l = log_all ms (log level class message l)

-- The lines of those that are not below a level.
abbrev pub kept : LogLevel → List (LogLevel × String × String) → List (String × String × String)
kept min [] = []
kept min ((level, class, message) ∷ ms) =
    if ltb (rank level) (rank min)
    then kept min ms
    else (text_of level, class, message) ∷ kept min ms

log_lem :
    (level : LogLevel) (class message : String) (l : Logger)
    → log level class message l ≡ (
        if ltb (rank level) (rank l.min_log_level)
        then l
        else record l { output = l.output ++ (text_of level, class, message) ∷ [] })
unfolding log
log_lem debug class message l = refl
log_lem info class message l = refl
log_lem warn class message l = refl
log_lem error class message l = refl
log_lem fatal class message l = refl

-- Of a run of messages a logger prints exactly those that are not below its minimum level, in their
-- order, after what it has printed before.
pub log_all-kept :
    (ms : List (LogLevel × String × String)) (l : Logger)
    → (log_all ms l).output ≡ l.output ++ kept l.min_log_level ms
log_all-kept [] l = sym (append-nil l.output)
log_all-kept ((level, class, message) ∷ ms) l =
    elim (Bool-cases (ltb (rank level) (rank l.min_log_level))) [
      | inl h ↦
          let same : log level class message l ≡ l = log_lem level class message l ∙ rw h refl in
          ap (λ x. (log_all ms x).output) same ∙ log_all-kept ms l ∙ rw h refl
      | inr h ↦
          let l' : Logger = record l {
            output = l.output ++ (text_of level, class, message) ∷ [];
          } in
          let printed : log level class message l ≡ l' =
            log_lem level class message l ∙ rw h refl in
          ap (λ x. (log_all ms x).output) printed
          ∙ log_all-kept ms l'
          ∙ append_assoc l.output _ _
          ∙ rw h refl
    ]

-- ===== src/Logging/Shared.antt =====
-- What a logger that several devices and engines share prints.
use transport_cpp.Prelude.{
  ℕ, ◌≡◌, refl, if◌then◌else◌, Option, none, some, is_some_eq, List, [], ◌∷◌, ◌++◌, String, arith,
  inl, inr, Bool-cases, ap, ◌∙◌,
}
use transport_cpp.Logger.{Logger, LogLevel, debug, info, warn, error, fatal, log}
use transport_cpp.Logger.Levels.{log_all, kept, log_all-kept}
use transport_cpp.Logging.{
  LogWorld, forward, device_log_debug, device_log_info, device_log_warn, device_log_error,
  device_log_fatal, engine_log_debug, engine_log_info, engine_log_warn, engine_log_error,
  engine_log_fatal,
}

-- Who logs.
pub data Source : Type 0 where
  device engine : ℕ → Source

abbrev pub logger_of : LogWorld → Source → Option ℕ
logger_of l (device d) = l.of_device d
logger_of l (engine e) = l.of_engine e

abbrev pub say : Source → LogLevel → String → String → LogWorld → LogWorld
unfolding device_log_debug device_log_info device_log_warn device_log_error device_log_fatal
    engine_log_debug engine_log_info engine_log_warn engine_log_error engine_log_fatal
say (device d) debug calling_class message l = device_log_debug d calling_class message l
say (device d) info calling_class message l = device_log_info d calling_class message l
say (device d) warn calling_class message l = device_log_warn d calling_class message l
say (device d) error calling_class message l = device_log_error d calling_class message l
say (device d) fatal calling_class message l = device_log_fatal d calling_class message l
say (engine e) debug calling_class message l = engine_log_debug e calling_class message l
say (engine e) info calling_class message l = engine_log_info e calling_class message l
say (engine e) warn calling_class message l = engine_log_warn e calling_class message l
say (engine e) error calling_class message l = engine_log_error e calling_class message l
say (engine e) fatal calling_class message l = engine_log_fatal e calling_class message l

pub record Message : Type 0 where
  pub source : Source
  pub level : LogLevel
  pub calling_class : String
  pub text : String

abbrev pub say_all : List Message → LogWorld → LogWorld
unfolding say
say_all [] l = l
say_all (m ∷ ms) l = say_all ms (say m.source m.level m.calling_class m.text l)

-- The messages of those that have the logger at `a`.
abbrev pub messages_to : ℕ → LogWorld → List Message → List (LogLevel × String × String)
messages_to a l [] = []
messages_to a l (m ∷ ms) =
    if is_some_eq (logger_of l m.source) a
    then (m.level, m.calling_class, m.text) ∷ messages_to a l ms
    else messages_to a l ms

say_lem :
    (s : Source) (level : LogLevel) (c m : String) (l : LogWorld)
    → say s level c m l ≡ forward (log level c m) (logger_of l s) l
unfolding say log device_log_debug device_log_info device_log_warn device_log_error device_log_fatal
    engine_log_debug engine_log_info engine_log_warn engine_log_error engine_log_fatal
say_lem (device d) debug c m l = refl
say_lem (device d) info c m l = refl
say_lem (device d) warn c m l = refl
say_lem (device d) error c m l = refl
say_lem (device d) fatal c m l = refl
say_lem (engine e) debug c m l = refl
say_lem (engine e) info c m l = refl
say_lem (engine e) warn c m l = refl
say_lem (engine e) error c m l = refl
say_lem (engine e) fatal c m l = refl

forward_same :
    (f : Logger → Logger) (o : Option ℕ) (s : Source) (l : LogWorld)
    → logger_of (forward f o l) s ≡ logger_of l s
forward_same f none s l = refl
forward_same f (some a) (device d) l = refl
forward_same f (some a) (engine e) l = refl

forward_at :
    (f : Logger → Logger) (o : Option ℕ) (a : ℕ) (l : LogWorld)
    → (forward f o l).loggers a ≡ (if is_some_eq o a then f (l.loggers a) else l.loggers a)
forward_at f none a l = refl
forward_at f (some b) a l = ground arith

messages_to-same :
    (a : ℕ) (l u : LogWorld) (ms : List Message)
    → ((s : Source) → logger_of u s ≡ logger_of l s)
    → messages_to a u ms ≡ messages_to a l ms
messages_to-same a l u [] same = refl
messages_to-same a l u (m ∷ ms) same = rw (same m.source, messages_to-same a l u ms same) refl

say_all-log_all :
    (a : ℕ) (ms : List Message) (l : LogWorld)
    → (say_all ms l).loggers a ≡ log_all (messages_to a l ms) (l.loggers a)
unfolding say_all
say_all-log_all a [] l = refl
say_all-log_all a (m ∷ ms) l =
    let u = say m.source m.level m.calling_class m.text l in
    let said = say_lem m.source m.level m.calling_class m.text l in
    let f = log m.level m.calling_class m.text in
    let same : messages_to a u ms ≡ messages_to a l ms =
      messages_to-same a l u ms
        (λ s. ap (λ x. logger_of x s) said ∙ forward_same f (logger_of l m.source) s l) in
    let at : u.loggers a
        ≡ (if is_some_eq (logger_of l m.source) a then f (l.loggers a) else l.loggers a) =
      ap (λ x. x.loggers a) said ∙ forward_at f (logger_of l m.source) a l in
    say_all-log_all a ms u
    ∙ rw (same, at)
        (elim (Bool-cases (is_some_eq (logger_of l m.source) a)) [
          | inl has ↦ rw has refl
          | inr other ↦ rw other refl
        ])

-- Of a run of messages of devices and engines a logger prints exactly those that come from one that
-- has it and that are not below its minimum level, in their order, after what it has printed before,
-- whatever the other loggers print.
pub say_all-kept :
    (a : ℕ) (ms : List Message) (l : LogWorld)
    → ((say_all ms l).loggers a).output
      ≡ (l.loggers a).output ++ kept (l.loggers a).min_log_level (messages_to a l ms)
say_all-kept a ms l =
    ap (λ x. x.output) (say_all-log_all a ms l) ∙ log_all-kept (messages_to a l ms) (l.loggers a)

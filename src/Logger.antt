-- ===== src/Logger.antt =====
-- `Logger` of include/common/logger.h and src/common/logger.cpp. The library spdlog is a parameter:
-- the model keeps the list of the calls that the program makes of it, and `throws` says which call
-- throws after which others, which counts in `initialize` only: elsewhere spdlog hands its errors
-- to its own handler. `D` is `double`.
pub mod Guards
pub mod Starting
use order_engine.Prelude.{ℕ, Bool, true, false, List, [], ◌∷◌, if◌then◌else◌, ℤ, Bytes, codes}

-- `Logger::Level`, where `out_of_range` is a value that no enumerator has.
pub data Level : Type 0 where
  trace debug_level info warn error_level critical out_of_range : Level

-- `spdlog::level::level_enum`, as far as it is used.
pub data SpdlogLevel : Type 0 where
  trace debug info warn err critical : SpdlogLevel

-- The three loggers.
pub data Name : Type 0 where
  main_logger perf_logger business_logger : Name

pub data Sink : Type 0 where
  daily console performance business : Sink

-- An argument of a formatted message.
pub data Arg (D : Type 0) : Type 0 where
  text : Bytes → Arg D
  number : ℤ → Arg D
  real : D → Arg D

-- A call of spdlog.
pub data Call (D : Type 0) : Type 0 where
  init_thread_pool : (queue_size threads : ℕ) → Call D
  make_daily_sink : Sink → (path : Bytes) → (hour minute : ℕ) → Call D
  make_console_sink : Call D
  set_sink_level : Sink → SpdlogLevel → Call D
  make_logger : Name → List Sink → Call D
  set_level : Name → SpdlogLevel → Call D
  set_pattern : Name → Bytes → Call D
  register_logger : Name → Call D
  set_default_logger : Name → Call D
  log : Name → SpdlogLevel → (format : Bytes) → List (Arg D) → Call D
  flush : Name → Call D
  shutdown : Call D

-- Which of the members are set, and the calls so far that returned, the last one first.
pub record Logger (D : Type 0) : Type 0 where
  logger : Bool
  pub perf_logger : Bool
  pub business_logger : Bool
  pub calls : List (Call D)

-- `throws calls c`: the call `c` throws after `calls`.
abbrev pub Spdlog : Type 0 → Type 0
Spdlog D = List (Call D) → Call D → Bool

unfoldable pub to_spdlog_level : Level → SpdlogLevel
to_spdlog_level Level.trace = SpdlogLevel.trace
to_spdlog_level debug_level = debug
to_spdlog_level Level.info = SpdlogLevel.info
to_spdlog_level Level.warn = SpdlogLevel.warn
to_spdlog_level error_level = err
to_spdlog_level Level.critical = SpdlogLevel.critical
to_spdlog_level out_of_range = SpdlogLevel.info

module _ {D : Type 0} where
  -- `Logger()`
  unfoldable pub create : Logger D
  create = record { logger = false; perf_logger = false; business_logger = false; calls = [] }

  abbrev pub is_set : Name → Logger D → Bool
  is_set main_logger l = l.logger
  is_set Name.perf_logger l = l.perf_logger
  is_set Name.business_logger l = l.business_logger

  abbrev pub calls_also : Call D → Logger D → Logger D
  calls_also c l = record l { calls = c ∷ l.calls }

  -- The assignment of a member, when the logger has been made.
  abbrev pub assigned : Call D → Logger D → Logger D
  assigned (make_logger main_logger sinks) l = record l { logger = true }
  assigned (make_logger Name.perf_logger sinks) l = record l { perf_logger = true }
  assigned (make_logger Name.business_logger sinks) l = record l { business_logger = true }
  assigned _ l = l

  -- A block of calls under `try`: the state at its end or where it throws, and whether it ended.
  unfoldable pub try_calls : Spdlog D → List (Call D) → Logger D → Logger D × Bool
  try_calls throws [] l = (l, true)
  try_calls throws (c ∷ cs) l =
      let rest = try_calls throws cs (assigned c (calls_also c l)) in
      if throws l.calls c then (l, false) else rest

  -- The calls of `initialize`; the last one is its `LOG_INFO`.
  unfoldable pub initialize_calls : List (Call D)
  initialize_calls =
      init_thread_pool 8192 1
      ∷ make_daily_sink daily (codes "logs/order_engine") 23 59
      ∷ set_sink_level daily SpdlogLevel.trace
      ∷ make_console_sink
      ∷ set_sink_level console SpdlogLevel.info
      ∷ make_logger main_logger (daily ∷ console ∷ [])
      ∷ set_level main_logger SpdlogLevel.trace
      ∷ set_pattern main_logger (codes "[%Y-%m-%d %H:%M:%S.%e] [%l] [%t] [%s:%#] %v")
      ∷ make_daily_sink performance (codes "logs/performance") 23 59
      ∷ make_logger Name.perf_logger (performance ∷ [])
      ∷ set_pattern Name.perf_logger (codes "[%Y-%m-%d %H:%M:%S.%e] %v")
      ∷ make_daily_sink business (codes "logs/business") 23 59
      ∷ make_logger Name.business_logger (business ∷ [])
      ∷ set_pattern Name.business_logger (codes "[%Y-%m-%d %H:%M:%S.%e] %v")
      ∷ register_logger main_logger
      ∷ register_logger Name.perf_logger
      ∷ register_logger Name.business_logger
      ∷ set_default_logger main_logger
      ∷ log main_logger SpdlogLevel.info (codes "Logger initialized successfully") []
      ∷ []

  unfoldable pub initialize : Spdlog D → Logger D → Logger D × Bool
  unfolding try_calls initialize_calls
  initialize throws l = try_calls throws initialize_calls l

  -- `if (logger_) logger_->...`
  abbrev pub if_set : Name → Call D → Logger D → Logger D
  if_set n c l = if is_set n l then calls_also c l else l

  -- The methods that log.
  unfoldable pub message : SpdlogLevel → Bytes → Logger D → Logger D
  message level words = if_set main_logger (log main_logger level words [])

  unfoldable pub message_fmt : SpdlogLevel → Bytes → List (Arg D) → Logger D → Logger D
  message_fmt level format args = if_set main_logger (log main_logger level format args)

  unfoldable pub log_performance : Bytes → D → Logger D → Logger D
  log_performance operation duration_ms = if_set Name.perf_logger (
      log Name.perf_logger SpdlogLevel.info (codes "PERF {} {:.3f}ms")
        (text operation ∷ real duration_ms ∷ []))

  unfoldable pub log_business : Bytes → Bytes → Logger D → Logger D
  log_business event details = if_set Name.business_logger (
      log Name.business_logger SpdlogLevel.info (codes "BIZ {} {}")
        (text event ∷ text details ∷ []))

  unfoldable pub change_level : Level → Logger D → Logger D
  change_level level = if_set main_logger (set_level main_logger (to_spdlog_level level))

  -- `shutdown()`, which leaves the members set.
  unfoldable pub shut_down : Logger D → Logger D
  shut_down l = calls_also shutdown (
      if_set Name.business_logger (flush Name.business_logger) (
        if_set Name.perf_logger (flush Name.perf_logger)
          (if_set main_logger (flush main_logger) l)))

-- A call of a method.
pub data Method (D : Type 0) : Type 0 where
  initializes : Method D
  says : SpdlogLevel → Bytes → Method D
  formats : SpdlogLevel → Bytes → List (Arg D) → Method D
  performs : Bytes → D → Method D
  does_business : Bytes → Bytes → Method D
  changes_level : Level → Method D
  shuts_down : Method D

module _ {D : Type 0} (throws : Spdlog D) where
  unfoldable pub call : Method D → Logger D → Logger D
  call initializes l = (initialize throws l).0
  call (says level words) l = message level words l
  call (formats level format args) l = message_fmt level format args l
  call (performs operation duration_ms) l = log_performance operation duration_ms l
  call (does_business event details) l = log_business event details l
  call (changes_level level) l = change_level level l
  call shuts_down l = shut_down l

  unfoldable pub run : List (Method D) → Logger D → Logger D
  run [] l = l
  run (m ∷ ms) l = run ms (call m l)

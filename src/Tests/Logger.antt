-- ===== src/Tests/Logger.antt =====
-- The logger: src/common/logger.cpp at concrete inputs.
use order_engine.Prelude.{ℕ, ◌≡◌, refl, true, false, List, [], ◌∷◌, codes}
use order_engine.Logger.{
  Name, Spdlog, make_logger, register_logger, Method, initializes, says, performs, changes_level,
  shuts_down, SpdlogLevel, Level, create, try_calls, initialize_calls, initialize, run,
}
use order_engine.Logger.Guards.{IsGuarded, run-IsGuarded}
use order_engine.Logger.Starting.{registered, IsRegistry, initialize-again}

-- A registry that refuses a name a second time, and nothing else.
abbrev registry : Spdlog ℕ
registry cs (register_logger n) = registered n cs
registry cs _ = false

registry-IsRegistry : IsRegistry registry
registry-IsRegistry n cs h = h

-- No file for the performance log.
abbrev no_performance : Spdlog ℕ
no_performance cs (make_logger Name.perf_logger sinks) = true
no_performance cs _ = false

abbrev methods : List (Method ℕ)
methods =
    says SpdlogLevel.info (codes "early")
    ∷ initializes
    ∷ performs (codes "op") 3
    ∷ changes_level Level.warn
    ∷ shuts_down
    ∷ []

-- The first initialization fails half way: the main logger is there, and the other two are not.
fails_half_way : (initialize no_performance create).1 ≡ false
unfolding initialize try_calls initialize_calls create
fails_half_way = refl

run-IsGuarded_example : IsGuarded (run no_performance methods create).calls
run-IsGuarded_example = run-IsGuarded no_performance methods

initializes_once : (initialize registry create).1 ≡ true
unfolding initialize try_calls initialize_calls create
initializes_once = refl

abbrev more : List (Method ℕ)
more = says SpdlogLevel.info (codes "on") ∷ changes_level Level.debug_level ∷ []

initialize-again_example :
    (initialize registry (run registry more (initialize registry create).0)).1 ≡ false
initialize-again_example =
    initialize-again registry registry-IsRegistry create more initializes_once refl

-- ===== src/Tests/Application.antt =====
-- The application from its file to the exit code: src/main.cpp.
use order_engine.Prelude.{
  ℕ, lookup, bytes_eq, Bool, ◌==◌, ◌≡◌, refl, true, none, some, List, [], ◌∷◌, All, pos, codes,
  arith,
}
use order_engine.Config.{Files, Config, empty, load, parse_ini, get_int, get_string, get_value}
use order_engine.Config.Parse.{parse_lines}
use order_engine.Config.Document.{Item, IsItem, section, entry, comment, render, meaning}
use order_engine.Text.{lines, is_space, is_blank}
use order_engine.Server
use order_engine.Server.{TcpServer, Setup, start}
use order_engine.Application.{Application, create, initialize, to_port, server_of}
use order_engine.Server.Threads.Refused.{fate}
use order_engine.Server.Threads.{terminates}
use order_engine.Application.Failure.{try_main}
use order_engine.Application.Failure.Ends.{try_main-refused}
use order_engine.Application.Settings.{text_of, number_of, initialize-document}
use order_engine.Tests.Reactor.{counter}
use order_engine.Tests.Server.{nothing_left}

abbrev doc : List Item
doc =
    section [] (codes "server") []
    ∷ comment [] b'#' (codes " the accepting port")
    ∷ entry [] (codes "port") (codes " ") (codes " ") (codes "9000") []
    ∷ entry [] (codes "thread_num") [] [] (codes "2") []
    ∷ []

doc_ok : All IsItem doc
unfolding is_space is_blank
doc_ok = ground arith

abbrev files : Files
files name = some (render doc)

initialize-document_example :
    ((initialize {F = counter} true files 8 (codes "a.ini") create).0 ≡ true)
    × ((initialize {F = counter} true files 8 (codes "a.ini") create).1.tcp_server
        ≡ some (
            Server.create
              (text_of (meaning (codes "server.ip") [] doc) (codes "0.0.0.0"))
              (to_port (number_of (meaning (codes "server.port") [] doc) (pos 8080)))
              (number_of (meaning (codes "server.thread_num") [] doc) (pos 4))
              8))
initialize-document_example = initialize-document files 8 (codes "a.ini") create doc refl doc_ok

abbrev config_of : Config
config_of = (load files empty (codes "a.ini")).0

abbrev ready_app : Application counter
ready_app = record {
  running = true;
  stats_counter = 0;
  config = config_of;
  tcp_server = some (server_of config_of 8);
  printed = [];
}

-- An empty file: the defaults, which are four threads. The system starts one only.
abbrev empty_file : Files
empty_file name = some []

abbrev defaults : Config
defaults = record { configs = []; config_file = codes "b.ini" }

abbrev default_app : Application counter
default_app = record ready_app { config = defaults; tcp_server = some (server_of defaults 8) }

abbrev socket_5 : Setup counter
socket_5 = record {
  socket = some 5;
  is_valid_ip = true;
  is_bound = true;
  is_listening = true;
  counter = 0;
}

abbrev one_thread : ℕ → Bool
one_thread i = i == 0

initializes_defaults : initialize true empty_file 8 (codes "b.ini") create ≡ (true, default_app)
unfolding initialize load create parse_ini parse_lines lines
initializes_defaults = refl

threads_4 : (server_of {F = counter} defaults 8).thread_num ≡ 4
unfolding Server.create get_int get_value lookup bytes_eq
threads_4 = refl

start_works : (start 1 socket_5 (server_of defaults 8)).0 ≡ true
unfolding start Server.create get_string get_value lookup bytes_eq
start_works = refl

try_main-refused_example :
    try_main 2 true empty_file 8 (codes "b.ini") 1 nothing_left socket_5 one_thread none
    ≡ some (fate 1 (server_of {F = counter} defaults 8).thread_num)
try_main-refused_example =
    try_main-refused empty_file 8 (codes "b.ini") 1 nothing_left socket_5 one_thread none
      default_app (server_of defaults 8) 1 initializes_defaults refl start_works
      (omega (arith, threads_4)) (λ j less. ground arith) refl

-- The second of the four gets no thread.
is_terminated : fate 1 (server_of {F = counter} defaults 8).thread_num ≡ terminates
is_terminated = rw threads_4 refl

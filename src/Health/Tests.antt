-- ===== src/Health/Tests.antt =====
-- A server with a check that passes and one that fails.
use elephantine.Prelude.{ℕ, ◌≡◌, ◌⊎◌, ◌↔◌, String, List, [], ◌∷◌, Option, none, some, refl, true}
use elephantine.Prelude.Lists.{lookup, insert}
use elephantine.Fault.{Fault}
use elephantine.Health.{
  HealthServer, Answer, Pages, ready_handler, check_all, serve_health, set_up_mux, health_addr,
  close_health, new_test_health_server, add_ready_function,
}
use elephantine.Health.Ready.{add_all, made, latest, reported, ready_endpoint_complete}

abbrev render : Fault → String
render e = "down"

-- The check of postgres fails before it passes.
abbrev added : List (String × Option Fault)
added =
    ("postgres", some (Fault.text "starting"))
    ∷ ("s3", some (Fault.text "down"))
    ∷ ("postgres", none)
    ∷ []

abbrev status_only : Answer → String → ℕ
status_only answer r = answer.status

abbrev page : String → ℕ
page r = 200

abbrev pages : Pages String ℕ
pages = record {
  index = page;
  cmdline = page;
  profile = page;
  symbol = page;
  trace = page;
  vars = page;
  metrics = page;
}

abbrev not_found : String → ℕ
not_found r = 404

abbrev exactly : List String → String → Option String
exactly patterns r = some r

abbrev server : HealthServer
server = add_all added (made true "127.0.0.1:1081")

ready_endpoint_complete_example :
    (answer : Answer) × (serve_health String ℕ pages render status_only exactly not_found server
        "/health/ready"
      ≡ answer.status)
    × ((answer.status ≡ 500)
        ↔ ((name : String) × (e : Fault) × (latest name added ≡ some (some e))))
    × ((answer.status ≡ 500) ⊎ (answer.status ≡ 200))
    × ((name : String) → lookup name answer.results ≡ reported render (latest name added) none)
ready_endpoint_complete_example =
    ready_endpoint_complete render String ℕ pages status_only exactly not_found true
      "127.0.0.1:1081" added "/health/ready" refl

is_down :
    serve_health String ℕ pages render status_only exactly not_found server "/health/ready" ≡ 500
unfolding serve_health set_up_mux ready_handler check_all lookup insert new_test_health_server
    add_ready_function
is_down = refl

listens : health_addr server ≡ some "127.0.0.1:1081"
unfolding health_addr new_test_health_server add_ready_function
listens = refl

closes : (close_health none server).0 ≡ none
unfolding close_health new_test_health_server add_ready_function
closes = refl

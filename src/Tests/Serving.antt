-- ===== src/Tests/Serving.antt =====
-- A run of the login plugin's server: the browser asks for an icon first.
use auth_explore.Base.{String, ◌≡◌, refl, Bool, List, [], ◌∷◌, ◌==◌}
use auth_explore.Login.Serving.{
  Event, served, changed, received, idle, stopping, Session, route, serve, change, receive, Run,
  begun, then, waiting, conn_state,
}
use auth_explore.Login.Serving.Tally.{Tallied, Run-Tallied}
use auth_explore.Tests.Login.{services, handler, get, by_code}

abbrev is_path : String → String → Bool
is_path pattern path = pattern == path

-- The latest event first.
abbrev stray : List (Event String)
stray = received ∷ changed "a" idle ∷ served "/favicon.ico" (get []) ∷ []

abbrev events : List (Event String)
events = changed "b" idle ∷ served "/callback" by_code ∷ stray

abbrev asked : String
asked = route services is_path handler "/callback" "/favicon.ico" (get []) "old"

abbrev done : Session String String
done = record { phase = stopping; sending = []; world = asked }

-- After the request for the icon, `Run` shuts the server down, and no token has been saved.
stray-Run : Run services is_path String handler "/callback" (waiting "old") stray done
unfolding conn_state
stray-Run =
    then (then (then begun (serve "/favicon.ico" (get []))) (change "a" idle))
      (receive "a" [] [] refl refl)

stray_saves_nothing : asked ≡ "old"
unfolding route
stray_saves_nothing = refl

abbrev final : Session String String
final = record {
  phase = stopping;
  sending = "b" ∷ [];
  world = route services is_path handler "/callback" "/callback" by_code asked;
}

events-Run : Run services is_path String handler "/callback" (waiting "old") events final
unfolding conn_state
events-Run = then (then stray-Run (serve "/callback" by_code)) (change "b" idle)

Run-Tallied_example : Tallied services is_path String handler "/callback" "old" events final
Run-Tallied_example =
    Run-Tallied services is_path String handler "/callback" "old" events final events-Run

-- ===== src/Login/Serving/Tally.antt =====
-- What a run of the login plugin's server comes to.
use auth_explore.Base.{ℕ, suc, ◌+◌, String, Bool, List, [], ◌∷◌, ◌++◌, ◌≡◌, refl, ap, length, arith}
use auth_explore.Login.{CallbackHandler}
use auth_explore.Login.Callback.{Services}
use auth_explore.Login.Serving.{
  new, active, idle, hijacked, closed, Phase, receiving, stopping, Event, served, changed, Session,
  conn_state, route, Step, serve, change, receive, Run, begun, then, waiting,
}

-- How many of the events say that a connection is idle.
abbrev pub idle_now : {Peer : Type 0} → Event Peer → ℕ
idle_now (changed c idle) = 1
idle_now _ = 0

pub idles : {Peer : Type 0} → List (Event Peer) → ℕ
idles [] = 0
idles (event ∷ events) = idle_now event + idles events

abbrev pub taken : Phase → ℕ
taken receiving = 0
taken stopping = 1

length-middle :
    {A : Type 0} (x : A) (xs ys : List A) → length (xs ++ x ∷ ys) ≡ suc (length (xs ++ ys))
length-middle x [] ys = refl
length-middle x (y ∷ xs) ys = rw (length-middle x xs ys) refl

module _ (V : Services) (covers : String → String → Bool) (Peer : Type 0) (h : CallbackHandler)
    (callback_path : String) where
  open V use {World}

  -- What `ServeHTTP` makes of the requests alone, the latest of them first.
  pub replay : List (Event Peer) → World → World
  replay [] w = w
  replay (served path r ∷ events) w = route V covers h callback_path path r (replay events w)
  replay (_ ∷ events) w = replay events w

  abbrev tally : Session World Peer → ℕ
  tally s = length s.sending + taken s.phase

  Step-tally :
      {s t : Session World Peer} {event : Event Peer}
      → Step V covers Peer h callback_path s event t
      → tally t ≡ idle_now event + tally s
  unfolding conn_state
  Step-tally (serve path r) = omega arith
  Step-tally (change c new) = omega arith
  Step-tally (change c active) = omega arith
  Step-tally (change c idle) = omega arith
  Step-tally (change c hijacked) = omega arith
  Step-tally (change c closed) = omega arith
  Step-tally (receive c before behind at e) =
      rw (at, e, length-middle c before behind) (omega arith)

  Step-world :
      {s t : Session World Peer} {event : Event Peer} (events : List (Event Peer)) (w : World)
      → s.world ≡ replay events w
      → Step V covers Peer h callback_path s event t
      → t.world ≡ replay (event ∷ events) w
  unfolding replay conn_state
  Step-world events w e (serve path r) = ap (λ v. route V covers h callback_path path r v) e
  Step-world events w e (change c new) = e
  Step-world events w e (change c active) = e
  Step-world events w e (change c idle) = e
  Step-world events w e (change c hijacked) = e
  Step-world events w e (change c closed) = e
  Step-world events w e (receive c before behind at f) = e

  Run-tally :
      {s₀ s : Session World Peer} {events : List (Event Peer)}
      → Run V covers Peer h callback_path s₀ events s
      → (s.world ≡ replay events s₀.world) × (tally s ≡ idles events + tally s₀)
  unfolding replay idles
  Run-tally begun = (refl, omega arith)
  Run-tally (then {events = events} {event = event} run step) =
      let (same, count) = Run-tally run in
      let now = Step-tally step in (Step-world events _ same step, omega arith)

  -- The handler's world, and how many connections have become idle.
  abbrev pub Tallied : World → List (Event Peer) → Session World Peer → Type 0
  Tallied w events s =
      (s.world ≡ replay events w) × (idles events ≡ length s.sending + taken s.phase)

  -- In every run from `<-done` on, the handler's world is what the requests make of it in their order,
  -- whatever the connections do and also behind `<-done`; and of the times that a connection has
  -- become idle exactly one has let `Run` go on, once it is behind `<-done`, and all others have their
  -- hook waiting.
  pub Run-Tallied :
      (w : World) (events : List (Event Peer)) (s : Session World Peer)
      → Run V covers Peer h callback_path (waiting w) events s
      → Tallied w events s
  Run-Tallied w events s run = let (same, count) = Run-tally run in (same, omega arith)

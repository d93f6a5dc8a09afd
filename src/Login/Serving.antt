-- ===== src/Login/Serving.antt =====
-- The server that `Run` of oidc-login-plugin/main.go starts, and how it ends. The library calls the
-- hook of a connection's state on the goroutine of that connection, and a send on `done`, which has no
-- buffer, waits until `Run` receives. `Run` receives once; what is then left waiting is left so.
pub mod Tally
use auth_explore.Base.{String, Bool, List, [], ◌∷◌, ◌++◌, ◌≡◌, if◌then◌else◌}
use auth_explore.Login.{CallbackHandler}
use auth_explore.Login.Callback.{HttpRequest, Services, serve_http}

-- `http.ConnState`
pub data ConnState : Type 0 where
  new active idle hijacked closed : ConnState

-- Where `Run` stands: at `<-done`, or behind it, where it shuts the server down.
pub data Phase : Type 0 where
  receiving stopping : Phase

-- What the library does: it answers a request, or calls the hook; and `Run` receives.
pub data Event (Peer : Type 0) : Type 0 where
  served : String → HttpRequest → Event Peer
  changed : Peer → ConnState → Event Peer
  received : Event Peer

-- The connections whose hook waits in its send, the newest first, and what the handler works on.
pub record Session (World Peer : Type 0) : Type 0 where
  pub phase : Phase
  pub sending : List Peer
  pub world : World

-- The hook.
unfoldable pub conn_state :
    {World Peer : Type 0} → Peer → ConnState → Session World Peer → Session World Peer
conn_state c idle s = record s { sending = c ∷ s.sending }
conn_state c _ s = s

-- `covers` says whether a pattern of the `ServeMux` is for a path.
module _ (V : Services) (covers : String → String → Bool) where
  open V use {World}

  -- The function at the path of the redirect URI; a request for any other is answered "not found".
  unfoldable pub route : CallbackHandler → String → String → HttpRequest → World → World
  route h callback_path path r w = if covers callback_path path then (serve_http V h r w).1 else w

module _ (V : Services) (covers : String → String → Bool) (Peer : Type 0) (h : CallbackHandler)
    (callback_path : String) where
  open V use {World}

  pub data Step : Session World Peer → Event Peer → Session World Peer → Type 0 where
    serve :
        (path : String) (r : HttpRequest) {s : Session World Peer}
        → Step s
            (served path r)
            (record s { world = route V covers h callback_path path r s.world })
    change :
        (c : Peer) (state : ConnState) {s : Session World Peer}
        → Step s (changed c state) (conn_state c state s)
    -- one send that waits is received, whichever
    receive :
        (c : Peer) (before behind : List Peer) {s : Session World Peer}
        → s.phase ≡ receiving
        → s.sending ≡ before ++ c ∷ behind
        → Step s received (record s { phase = stopping; sending = before ++ behind })

  -- A run, its latest event first.
  pub data Run : Session World Peer → List (Event Peer) → Session World Peer → Type 0 where
    begun : {s : Session World Peer} → Run s [] s
    then :
        {s t u : Session World Peer} {events : List (Event Peer)} {event : Event Peer}
        → Run s events t
        → Step t event u
        → Run s (event ∷ events) u

-- `Run` has come to `<-done`.
abbrev pub waiting : {World Peer : Type 0} → World → Session World Peer
waiting w = record { phase = receiving; sending = []; world = w }

-- ===== src/Server/Listening.antt =====
-- bordercontrol/cmd/bordercontrol/main.go: `listenWithContext`, which makes a listener and runs it,
-- again and again until the context is done.
use bordercontrol.Prelude.{
  ℕ, ◌≡◌, Bool, List, [], ◌∷◌, Option, some, Outcome, returns, panics, if◌then◌else◌,
}
use bordercontrol.FeedProtocol.{number}
use bordercontrol.FeedProxy.Tracker.{IncomingConnectionTracker}
use bordercontrol.Listener.{Listener, AtoiError, new_listener}
use bordercontrol.Listener.Loop as Loop
use bordercontrol.Listener.Loop.{RunError, unknown_protocol, Served}

-- A turn of the loop: the answer to the TLS listener, the rounds of its loop, the tracker then, and
-- whether the context is done at the end.
pub record Turn : Type 0 where
  pub listening : Option ℕ
  pub rounds : List Loop.Round
  pub tracker : IncomingConnectionTracker
  pub done : Bool

abbrev pub Attempt : Type 0
Attempt = Option RunError × Served

abbrev pub before : Attempt → Outcome (List Attempt) → Outcome (List Attempt)
before a (returns xs) = returns (a ∷ xs)
before a panics = panics

-- The listener is run also beside an error, which is only logged.
abbrev pub turn :
    Bool
    → Turn
    → Outcome (List Attempt)
    → Outcome (Option AtoiError × Listener)
    → Outcome (List Attempt)
turn initialised t rest panics = panics
turn initialised t rest (returns (e, l)) =
    let attempt = Loop.run l t.listening initialised t.rounds t.tracker in
    if t.done then returns (attempt ∷ []) else before attempt rest

-- What each turn has come to.
unfoldable pub listen_with_context :
    (List ℕ → Option ℕ) → List ℕ → ℕ → List ℕ → ℕ → Bool → List Turn → Outcome (List Attempt)
listen_with_context parse_ip addr proto prefix inner initialised [] = returns []
listen_with_context parse_ip addr proto prefix inner initialised (t ∷ ts) =
    turn initialised t (listen_with_context parse_ip addr proto prefix inner initialised ts)
      (new_listener parse_ip addr proto prefix inner)

-- No connection was started, and none accepted.
abbrev pub ServesNothing : Attempt → Type 0
ServesNothing a =
    (a.0 ≡ some (unknown_protocol (number 0))) × (a.1.started ≡ []) × (a.1.unserved ≡ [])

-- There is an attempt for each turn up to the first that the context is done at, or for all if it is
-- not done, and none of them serves.
abbrev pub AllServeNothing : List Turn → Outcome (List Attempt) → Type 0
AllServeNothing turns panics = ⊥
AllServeNothing [] (returns attempts) = attempts ≡ []
AllServeNothing (t ∷ turns) (returns []) = ⊥
AllServeNothing (t ∷ turns) (returns (a ∷ attempts)) =
    ServesNothing a × AllServeNothing (if t.done then [] else turns) (returns attempts)

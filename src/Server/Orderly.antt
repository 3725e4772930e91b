-- ===== src/Server/Orderly.antt =====
-- What a run of `runServer` is to do, in which order, and how it may end.
use bordercontrol.Prelude.{◌≡◌, refl, ap, Bool, true, false, List, [], ◌∷◌, ◌++◌, none, some, ◌≢◌}
use bordercontrol.Stunnel
use bordercontrol.Stunnel.Closing.{IsClosed}
use bordercontrol.Containers.Worker.{stopped}
use bordercontrol.Server.{
  Subsystem, nats_error, tls_error, stats_error, proxy_error, manager_error, Effect, nats, tls,
  statistics, proxy, manager, starts, closes, fails_to_close, Server, ServerEnv, ServerError, Ended,
  returned, panicked, hung, did,
}

abbrev pub start_order : List Effect
start_order = starts nats ∷ starts tls ∷ starts statistics ∷ starts proxy ∷ starts manager ∷ []

abbrev pub close_order : List Effect
close_order = closes proxy ∷ closes manager ∷ closes statistics ∷ closes tls ∷ []

-- The subsystem whose start an error is of.
abbrev pub failed_subsystem : ServerError → Subsystem
failed_subsystem (nats_error e) = nats
failed_subsystem (tls_error e) = tls
failed_subsystem (stats_error e) = statistics
failed_subsystem (proxy_error e) = proxy
failed_subsystem (manager_error e) = manager

-- Effects that stop at the start of a subsystem.
abbrev pub StopsAt : Subsystem → List Effect → List Effect → Type 0
StopsAt x [] [] = ⊥
StopsAt x [] (y ∷ ys) = starts x ≡ y
StopsAt x (a ∷ rest) [] = ⊥
StopsAt x (a ∷ rest) (b ∷ bs) = (a ≡ b) × StopsAt x rest bs

-- No subsystem is initialised, the TLS server is closed, and none of their goroutines runs.
abbrev pub IsDown : Server → Type 0
IsDown s =
    (s.stats.statistics.initialised ≡ false)
    × (s.stats.goroutines ≡ 0)
    × (s.proxy.initialised ≡ false)
    × (s.proxy.goroutines ≡ 0)
    × (s.manager.initialised ≡ false)
    × (s.manager.goroutines ≡ 0)
    × (s.nats.initialised ≡ false)
    × ((t : Stunnel.Server) × (s.tls ≡ some t) × IsClosed t)

-- All subsystems but NATS are initialised.
abbrev pub IsUp : Server → Type 0
IsUp s =
    (s.stats.statistics.initialised ≡ true)
    × (s.proxy.initialised ≡ true)
    × (s.manager.initialised ≡ true)
    × ((t : Stunnel.Server) × (s.tls ≡ some t) × (t.closed ≡ false))

-- Without a NATS URL there is no connection to close, which is an error.
abbrev pub nats_end : Bool → Effect
nats_end true = closes nats
nats_end false = fails_to_close nats

-- The end of a run that is to do the effects `ups` if it fails in time, and all of `xs` and the
-- close of NATS if not, and that panics only if `panic` holds, and waits for
-- ever only if `hang` does.
abbrev pub IsOrderly : Type 0 → Type 0 → List Effect → List Effect → Ended → Type 0
IsOrderly panic hang ups xs (returned none s effects) =
    ((b : Bool) × (effects ≡ xs ++ nats_end b ∷ [])) × IsDown s
IsOrderly panic hang ups xs (returned (some e) s effects) = StopsAt (failed_subsystem e) effects ups
IsOrderly panic hang ups xs panicked = panic
IsOrderly panic hang ups xs hung = hang

module _ (panic hang : Type 0) where
  pub did-starts :
      (x : Effect) (ups xs : List Effect) (r : Ended)
      → IsOrderly panic hang ups xs r
      → IsOrderly panic hang (x ∷ ups) (x ∷ xs) (did x r)
  did-starts x ups xs (returned none s effects) ((b, e), down) = ((b, ap (λ ys. x ∷ ys) e), down)
  did-starts x ups xs (returned (some e) s effects) h = (refl, h)
  did-starts x ups xs panicked h = h
  did-starts x ups xs hung h = h

  -- Once every subsystem is up.
  pub did-serves :
      (x : Effect) (xs : List Effect) (r : Ended)
      → IsOrderly panic hang [] xs r
      → IsOrderly panic hang [] (x ∷ xs) (did x r)
  did-serves x xs (returned none s effects) ((b, e), down) = ((b, ap (λ ys. x ∷ ys) e), down)
  did-serves x xs (returned (some e) s []) h = absurd h
  did-serves x xs (returned (some e) s (y ∷ effects)) h = absurd h
  did-serves x xs panicked h = h
  did-serves x xs hung h = h

-- The goroutine that starts containers does not end once the manager is stopped.
abbrev pub Hangs : ServerEnv → Type 0
Hangs env = env.starter.worker ≢ stopped

-- A run that closes everything, or that waits for ever, if `hang` holds.
abbrev pub EndsWith : Type 0 → List Effect → Ended → Type 0
EndsWith hang xs (returned none s effects) =
    ((b : Bool) × (effects ≡ xs ++ nats_end b ∷ [])) × IsDown s
EndsWith hang xs (returned (some e) s effects) = ⊥
EndsWith hang xs panicked = ⊥
EndsWith hang xs hung = hang

pub did-EndsWith :
    (hang : Type 0) (x : Effect) (xs : List Effect) (r : Ended)
    → EndsWith hang xs r
    → EndsWith hang (x ∷ xs) (did x r)
did-EndsWith hang x xs (returned none s effects) ((b, e), down) = ((b, ap (λ ys. x ∷ ys) e), down)
did-EndsWith hang x xs (returned (some e) s effects) h = h
did-EndsWith hang x xs panicked h = h
did-EndsWith hang x xs hung h = h

pub EndsWith-IsOrderly :
    (panic hang : Type 0) (ups xs : List Effect) (r : Ended)
    → EndsWith hang xs r
    → IsOrderly panic hang ups xs r
EndsWith-IsOrderly panic hang ups xs (returned none s effects) h = h
EndsWith-IsOrderly panic hang ups xs (returned (some e) s effects) h = absurd h
EndsWith-IsOrderly panic hang ups xs panicked h = absurd h
EndsWith-IsOrderly panic hang ups xs hung h = h

-- ===== src/Stunnel/Reloading.antt =====
-- Which certificate is served after reloads.
use bordercontrol.Prelude.{ℕ, ◌≡◌, refl, List, [], ◌∷◌, Result, ok, err, returns, arith}
use bordercontrol.Stunnel.{
  Server, new_server, maybe_reload, get_certificate, deliver, begin_close, Step, signals, messages,
  reloads, reloads_closed, stops, closes, cancels, Steps, here, onward,
}

-- The certificate that was loaded last, of loads of which the first is the newest.
unfoldable pub last_loaded : List (Result ℕ ℕ) → ℕ
last_loaded [] = 0
last_loaded (ok cert ∷ loads) = cert
last_loaded (err e ∷ loads) = last_loaded loads

abbrev IsCurrent : Server → Type 0
IsCurrent s = s.cert ≡ last_loaded s.loads

maybe_reload-IsCurrent :
    (load : Result ℕ ℕ) (s : Server) → IsCurrent s → IsCurrent (maybe_reload load s)
unfolding maybe_reload last_loaded
maybe_reload-IsCurrent (ok cert) s h = refl
maybe_reload-IsCurrent (err e) s h = h

deliver-IsCurrent : {t : Server} (s : Server) → deliver s ≡ returns t → IsCurrent s → IsCurrent t
unfolding deliver
deliver-IsCurrent s e h = ground arith

begin_close-IsCurrent :
    {t : Server} (s : Server) → begin_close s ≡ returns t → IsCurrent s → IsCurrent t
unfolding begin_close
begin_close-IsCurrent s e h = ground arith

Step-IsCurrent : {s t : Server} → Step s t → IsCurrent s → IsCurrent t
Step-IsCurrent (signals s e) h = deliver-IsCurrent s e h
Step-IsCurrent (messages matches sent_to n s meant free e) h = deliver-IsCurrent s e h
Step-IsCurrent (reloads s load _ _) h = maybe_reload-IsCurrent load s h
Step-IsCurrent (reloads_closed s load _ _) h = maybe_reload-IsCurrent load s h
Step-IsCurrent (stops s _ _) h = h
Step-IsCurrent (closes s e) h = begin_close-IsCurrent s e h
Step-IsCurrent (cancels s) h = h

Steps-IsCurrent : {s t : Server} → Steps s t → IsCurrent s → IsCurrent t
Steps-IsCurrent (here s) h = h
Steps-IsCurrent (onward st rest) h = Steps-IsCurrent rest (Step-IsCurrent st h)

new_server-IsCurrent : (load : Result ℕ ℕ) {s : Server} → new_server load ≡ ok s → IsCurrent s
unfolding new_server last_loaded
new_server-IsCurrent (ok cert) e = ground arith
new_server-IsCurrent (err x) e = cc

pub Steps-append : {s t u : Server} → Steps s t → Steps t u → Steps s u
Steps-append (here s) rest = rest
Steps-append (onward st steps) rest = onward st (Steps-append steps rest)

-- Whatever happens to a server from its start on, a client that connects gets the certificate that
-- was loaded last: a load that fails changes nothing.
pub get_certificate-last_loaded :
    (load : Result ℕ ℕ) {s t : Server}
    → new_server load ≡ ok s
    → Steps s t
    → get_certificate t ≡ last_loaded t.loads
unfolding get_certificate
get_certificate-last_loaded load started steps =
    Steps-IsCurrent steps (new_server-IsCurrent load started)

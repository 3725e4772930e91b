-- ===== src/Stunnel.antt =====
-- bordercontrol/lib/stunnel/stunnel.go: the certificate that is served, and its reload on a signal.
-- A pair of files that loads is a number; what `tls.LoadX509KeyPair` answers is an argument.
pub mod Reloading
pub mod Signals
pub mod Closing
use bordercontrol.Nats.{NatsState, NatsError, sub, signal_handler}
use bordercontrol.Prelude.{
  ℕ, String, ◌≡◌, Bool, true, false, List, [], ◌∷◌, Option, none, some, Result, ok, err, Outcome,
  returns, panics, if◌then◌else◌,
}

-- `Server` with its `keypairReloader`: the certificate, whether a signal waits in
-- `reloadSignalChan` (a buffer of one), whether that is closed, whether the context is cancelled,
-- whether the goroutine runs, and the answers of the loads so far, newest first.
pub record Server : Type 0 where
  pub cert : ℕ
  pub pending : Bool
  pub closed : Bool
  pub cancelled : Bool
  pub running : Bool
  pub loads : List (Result ℕ ℕ)

-- `NewServerWithContext`
unfoldable pub new_server : Result ℕ ℕ → Result ℕ Server
new_server (err e) = err e
new_server (ok cert) = ok (record {
  cert = cert;
  pending = false;
  closed = false;
  cancelled = false;
  running = true;
  loads = ok cert ∷ [];
})

-- `maybeReload`
abbrev pub reloaded : Result ℕ ℕ → ℕ → ℕ
reloaded (ok new) cert = new
reloaded (err e) cert = cert

unfoldable pub maybe_reload : Result ℕ ℕ → Server → Server
maybe_reload load s = record s { cert = reloaded load s.cert; loads = load ∷ s.loads }

-- The function of `getCertificateFunc`.
unfoldable pub get_certificate : Server → ℕ
get_certificate s = s.cert

-- The operating system sends a signal to the channel. A full buffer drops it; a closed channel
-- panics.
unfoldable pub deliver : Server → Outcome Server
deliver s = if s.closed then panics else returns (record s { pending = true })

-- `Close` up to its wait for the goroutine; a channel that is closed already panics.
unfoldable pub begin_close : Server → Outcome Server
begin_close s = if s.closed then panics else returns (record s { closed = true; cancelled = true })

-- The goroutine until it sees that the context is cancelled: a closed channel always has a signal,
-- so that it may load any number of times before.
unfoldable pub reload_until_done : List (Result ℕ ℕ) → Server → Server
reload_until_done [] s = record s { running = false }
reload_until_done (load ∷ loads) s = reload_until_done loads (maybe_reload load s)

abbrev pub after_begin_close : List (Result ℕ ℕ) → Outcome Server → Outcome Server
after_begin_close loads panics = panics
after_begin_close loads (returns s) = returns (if s.running then reload_until_done loads s else s)

-- `Close`, with what it waits for: the rest of the goroutine, if that has not ended yet.
unfoldable pub close : List (Result ℕ ℕ) → Server → Outcome Server
close loads s = after_begin_close loads (begin_close s)

-- `ReloadCertOnNatsMsg`, with what NATS answers to the subscription.
unfoldable pub reload_cert_on_nats_msg :
    String → Option ℕ → NatsState → Option NatsError × NatsState
reload_cert_on_nats_msg subj answer n = sub subj answer n

-- What may happen: a signal; a message of NATS for this instance, whose handler waits until the
-- buffer is free and sends the signal; the goroutine takes one, which a closed channel always has, and
-- reloads; it sees that the context is cancelled; `Close` is called, or the context's parent is
-- cancelled.
pub data Step : Server → Server → Type 0 where
  signals : {t : Server} (s : Server) → deliver s ≡ returns t → Step s t
  messages :
      {t : Server} (matches : String → String → Result ℕ Bool) (sent_to : String) (n : NatsState)
      (s : Server)
      → signal_handler matches sent_to n ≡ true
      → s.pending ≡ false
      → deliver s ≡ returns t
      → Step s t
  reloads :
      (s : Server) (load : Result ℕ ℕ)
      → s.running ≡ true
      → s.pending ≡ true
      → Step s (record (maybe_reload load s) { pending = false })
  reloads_closed :
      (s : Server) (load : Result ℕ ℕ)
      → s.running ≡ true
      → s.closed ≡ true
      → Step s (maybe_reload load s)
  stops :
      (s : Server) → s.running ≡ true → s.cancelled ≡ true → Step s (record s { running = false })
  closes : {t : Server} (s : Server) → begin_close s ≡ returns t → Step s t
  cancels : (s : Server) → Step s (record s { cancelled = true })

pub data Steps : Server → Server → Type 0 where
  here : (s : Server) → Steps s s
  onward : {s t u : Server} → Step s t → Steps t u → Steps s u

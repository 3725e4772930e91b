-- ===== src/FeedProxy/Starting/Stages.antt =====
-- The stages of a connection, and what `ProxyConnection.Start` may do at each.
use bordercontrol.Prelude.{
  ◌≡◌, ◌⊎◌, inl, inr, true, ==_refl, Bool, List, [], ◌∷◌, Option, none, some, ◌==◌, ◌&&◌,
  if◌then◌else◌,
}
use bordercontrol.Stats.Connections.{Connection}
use bordercontrol.FeedProxy.Starting.{
  Effect, starts_container, dials, fails_to_dial, Target, writes, registers, unregisters,
  proxies_to_server, proxies_to_client, closes_server, closes_client,
}

-- How far a connection has come: it is `dialled` while that to the server is open and nothing has
-- been written, and `hung_up` once that is closed, or could not be opened.
pub data Stage : Type 0 where
  accepted container_started dialled written unregistered hung_up over : Stage
  registered proxied : Connection → Stage

abbrev pub same_connection : Connection → Connection → Bool
same_connection a b = a.api_key == b.api_key && (a.proto == b.proto && a.conn_num == b.conn_num)

-- What may follow: a container is started before it is dialled, the client's first bytes are
-- written before the connection is registered, it is proxied only while it is registered, the
-- connection that is unregistered is the one that was registered, and a connection to a
-- server, once it is open, is closed before the client.
unfoldable pub advance : Effect → Stage → Option Stage
advance (starts_container c) accepted = some container_started
advance (dials t) accepted = some dialled
advance (dials t) container_started = some dialled
advance (fails_to_dial t) accepted = some hung_up
advance (fails_to_dial t) container_started = some hung_up
advance (writes n) dialled = some written
advance (registers a) written = some (registered a)
advance proxies_to_server (registered a) = some (proxied a)
advance proxies_to_client (proxied a) = some (proxied a)
advance (unregisters b) (proxied a) = if same_connection a b then some unregistered else none
advance closes_server dialled = some hung_up
advance closes_server written = some hung_up
advance closes_server unregistered = some hung_up
advance closes_client accepted = some over
advance closes_client hung_up = some over
advance _ _ = none

-- The stage after the effects, of which the first is the newest; `none` if they are out of order.
unfoldable pub stage_of : List Effect → Option Stage
unfolding advance
stage_of [] = some accepted
stage_of (e ∷ es) = elim (stage_of es) [ none ↦ none | some s ↦ advance e s ]

-- Whether a target may be dialled next.
abbrev pub MayDial : List Effect → Type 0
MayDial es = (stage_of es ≡ some accepted) ⊎ (stage_of es ≡ some container_started)

pub dials-stage :
    (es : List Effect) (t : Target) → MayDial es → stage_of (dials t ∷ es) ≡ some dialled
unfolding stage_of
dials-stage es t (inl h) = rw h
dials-stage es t (inr h) = rw h

pub fails_to_dial-stage :
    (es : List Effect) (t : Target)
    → MayDial es
    → stage_of (closes_client ∷ fails_to_dial t ∷ es) ≡ some over
unfolding stage_of
fails_to_dial-stage es t (inl h) = rw h
fails_to_dial-stage es t (inr h) = rw h

pub same_connection_refl : (a : Connection) → same_connection a a ≡ true
same_connection_refl a = rw (==_refl a.api_key, ==_refl a.proto, ==_refl a.conn_num)

-- ===== src/Stats/Requests/Latest.antt =====
-- The latest connection of a protocol, which the loops of the requests are to find.
use bordercontrol.Prelude.{
  true, ℕ, ◌≤◌, ◌≡◌, refl, [], ◌∷◌, Option, some, none, ltb, if◌then◌else◌, arith, ◌⊎◌, inl, inr,
  Bool-cases, ==_refl, ==_iff,
}
use bordercontrol.GoMap.{Map, lookup}
use bordercontrol.GoMap.Laws.{IsUnique}
use bordercontrol.Stats.State.{ConnectionDetail, ProtocolDetail, FeederStats}
use bordercontrol.Stats.Requests.{Newest, no_connection}

-- What is to be said of a connection.
abbrev pub newest_of : ConnectionDetail → Newest
newest_of c = record {
  connected = true;
  bytes_in = c.bytes_in;
  bytes_out = c.bytes_out;
  connection_time = c.time_connected;
}

-- The later of `r` and the latest of the connections, the first of those with the same time.
unfoldable pub newest_loop : Map ConnectionDetail → Newest → Newest
newest_loop [] r = r
newest_loop ((n, c) ∷ cs) r =
    if ltb r.connection_time c.time_connected
    then newest_loop cs (newest_of c)
    else newest_loop cs r

abbrev pub newest_in : Option ProtocolDetail → Newest
newest_in none = no_connection
newest_in (some d) = newest_loop d.connection_details no_connection

-- The latest connection of a feeder with a protocol.
unfoldable pub newest : ℕ → FeederStats → Newest
newest p f = newest_in (lookup p f.connections)

pub newest_loop-le :
    (m : Map ConnectionDetail) (r : Newest) → r.connection_time ≤ (newest_loop m r).connection_time
unfolding newest_loop
newest_loop-le [] r = omega arith
newest_loop-le ((n, c) ∷ cs) r = elim (Bool-cases (ltb r.connection_time c.time_connected)) [
  | inl later ↦ rw later (ground (arith, newest_loop-le cs (newest_of c)))
  | inr older ↦ rw older (newest_loop-le cs r)
]

pub newest_loop-greatest :
    (m : Map ConnectionDetail) (r : Newest) (n : ℕ) (c : ConnectionDetail)
    → lookup n m ≡ some c
    → c.time_connected ≤ (newest_loop m r).connection_time
unfolding newest_loop lookup
newest_loop-greatest [] r n c h = cc
newest_loop-greatest ((j, d) ∷ cs) r n c h = ground (
  arith,
  newest_loop-le cs (newest_of d),
  newest_loop-le cs r,
  newest_loop-greatest cs (newest_of d) n c,
  newest_loop-greatest cs r n c,
)

-- What the loop returns is what it was given, or is read from one of the connections.
pub newest_loop-found :
    (m : Map ConnectionDetail) (r : Newest)
    → IsUnique m
    → (newest_loop m r ≡ r)
      ⊎ ((n : ℕ) × (c : ConnectionDetail) × (lookup n m ≡ some c) × (newest_loop m r ≡ newest_of c))
unfolding newest_loop lookup
newest_loop-found [] r u = inl refl
newest_loop-found ((j, d) ∷ cs) r u = elim (Bool-cases (ltb r.connection_time d.time_connected)) [
  | inl later ↦ elim (newest_loop-found cs (newest_of d) u.1) [
    | inl same ↦ inr (j, d, rw (==_refl j), rw later same)
    | inr (n, c, h, e) ↦ inr (n, c, ground (arith, ==_iff j n, h, u.0), rw later e)
  ]
  | inr older ↦ elim (newest_loop-found cs r u.1) [
    | inl same ↦ inl (rw older same)
    | inr (n, c, h, e) ↦ inr (n, c, ground (arith, ==_iff j n, h, u.0), rw older e)
  ]
]

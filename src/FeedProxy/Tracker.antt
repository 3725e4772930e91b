-- ===== src/FeedProxy/Tracker.antt =====
-- bordercontrol/lib/feedproxy/feedproxy_connections.go: the tracker of incoming connections, which
-- allocates connection numbers and limits how often a source address may connect.
pub mod Numbers
pub mod Eviction
pub mod Limit
pub mod Threads
pub mod Window
use bordercontrol.Prelude.{
  ℕ, zero, suc, ◌+◌, ◌*◌, ◌%◌, ◌^◌, Bool, true, false, not, List, [], ◌∷◌, ◌++◌, Option, none, some,
  ◌==◌, ltb, leb, if◌then◌else◌, length, get_elem?, set, take,
}

-- `net.IP`. An IPv4 address and its IPv6 form are equal to `Equal`, so they are one value here; a
-- text that is no address parses to nil.
pub data Ip : Type 0 where
  nil : Ip
  v4 v6 : ℕ → Ip

unfoldable pub ip_equal : Ip → Ip → Bool
ip_equal nil nil = true
ip_equal (v4 a) (v4 b) = a == b
ip_equal (v6 a) (v6 b) = a == b
ip_equal _ _ = false

pub record IncomingConnection : Type 0 where
  pub src_ip : Ip
  pub conn_time : ℕ
  pub conn_num : ℕ

pub record IncomingConnectionTracker : Type 0 where
  pub connections : List IncomingConnection
  pub connection_number : ℕ

abbrev pub max_requests_per_src_ip : ℕ
max_requests_per_src_ip = 3

-- `time.Second * maxIncomingConnectionRequestSeconds`
abbrev pub window : ℕ
window = 10 * 1_000_000_000

-- `uint` has 64 bits.
abbrev pub uint_mod : ℕ
uint_mod = 2 ^ 64

-- The next number: 0 is passed over.
unfoldable pub next_num : ℕ → ℕ
next_num n = let m = (n + 1) % uint_mod in if m == 0 then (m + 1) % uint_mod else m

unfoldable pub is_dupe : ℕ → List IncomingConnection → Bool
is_dupe n [] = false
is_dupe n (c ∷ cs) = if n == c.conn_num then true else is_dupe n cs

-- The loop of `getNum`, with a bound on its rounds; `none` means that they ran out.
unfoldable pub get_num_loop : ℕ → List IncomingConnection → ℕ → Option ℕ
get_num_loop zero cs n = none
get_num_loop (suc rounds) cs n =
    let m = next_num n in
    let rest = get_num_loop rounds cs m in if is_dupe m cs then rest else some m

abbrev with_number : IncomingConnectionTracker → Option ℕ → Option (ℕ × IncomingConnectionTracker)
with_number t none = none
with_number t (some n) = some (n, record t { connection_number = n })

-- One round for each tracked connection and one more.
unfoldable pub get_num : IncomingConnectionTracker → Option (ℕ × IncomingConnectionTracker)
get_num t =
    with_number t (get_num_loop (suc (length t.connections)) t.connections t.connection_number)

-- `!c.connTime.Add(...).Before(time.Now())`
abbrev pub is_recent : ℕ → IncomingConnection → Bool
is_recent now c = not (ltb (c.conn_time + window) now)

-- The loop of `evict` over the slice `xs`, which it overwrites from the front: `j` is the position
-- that is read, `i` the one that is written, and `clock j` the time that is read in that round.
unfoldable pub evict_loop : (ℕ → ℕ) → ℕ → ℕ → ℕ → List IncomingConnection → List IncomingConnection
evict_loop clock zero j i xs = take i xs
evict_loop clock (suc rounds) j i xs = elim (get_elem? xs j) [
  | none ↦ take i xs
  | some c ↦
      let kept = evict_loop clock rounds (j + 1) (i + 1) (set xs i c) in
      let dropped = evict_loop clock rounds (j + 1) i xs in
      if is_recent (clock j) c then kept else dropped
]

unfoldable pub evict : (ℕ → ℕ) → IncomingConnectionTracker → IncomingConnectionTracker
evict clock t = record t { connections = evict_loop clock (length t.connections) 0 0 t.connections }

-- `connCount` of `check`, read under the read lock.
unfoldable pub count_src : Ip → List IncomingConnection → ℕ
count_src ip [] = 0
count_src ip (c ∷ cs) = if ip_equal c.src_ip ip then suc (count_src ip cs) else count_src ip cs

-- `ErrConnectingTooFrequently`
pub data TooFrequent : Type 0 where
  connecting_too_frequently : ℕ → ℕ → TooFrequent

-- The rest of `check`, with the count that it has read.
unfoldable pub admit :
    Ip → ℕ → ℕ → ℕ → IncomingConnectionTracker → Option TooFrequent × IncomingConnectionTracker
admit ip num now count t =
    if leb max_requests_per_src_ip count
    then (some (connecting_too_frequently max_requests_per_src_ip 10), t)
    else (
      none,
      record t {
        connections =
            t.connections ++ (record { src_ip = ip; conn_time = now; conn_num = num }) ∷ [];
      },
    )

unfoldable pub check :
    Ip → ℕ → ℕ → IncomingConnectionTracker → Option TooFrequent × IncomingConnectionTracker
unfolding admit
check ip num now t = admit ip num now (count_src ip t.connections) t

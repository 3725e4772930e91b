-- ===== src/Listener.antt =====
-- bordercontrol/lib/listener/listener.go: `NewListener`, and the loop of `Run` that accepts
-- connections. Addresses are lists of code points; what the network answers is an argument.
pub mod Address
pub mod Loop
use bordercontrol.Prelude.{
  ℕ, zero, suc, ◌+◌, ◌-◌, ◌*◌, ◌^◌, Bool, true, false, ◌&&◌, List, [], ◌∷◌, Option, none, some,
  Result, ok, err, Outcome, returns, panics, ◌==◌, ltb, leb, if◌then◌else◌,
}
use bordercontrol.FeedProtocol.{UnknownProtocol, get_name}
use bordercontrol.FeedProxy.Tracker.{IncomingConnectionTracker, get_num}
use bordercontrol.Stats.State.{second}

-- `negsuc n` is -(n + 1).
pub data ℤ : Type 0 where
  pos negsuc : ℕ → ℤ

-- `strings.Split` at one character: the first piece, and the others.
unfoldable pub split : ℕ → List ℕ → List ℕ × List (List ℕ)
split sep [] = ([], [])
split sep (c ∷ cs) =
    let (piece, pieces) = split sep cs in
    if c == sep then ([], piece ∷ pieces) else (c ∷ piece, pieces)

pub data AtoiError : Type 0 where
  invalid_syntax out_of_range : AtoiError

-- The digits of a text, after those that make `n`.
unfoldable pub read_digits : ℕ → List ℕ → Option ℕ
read_digits n [] = some n
read_digits n (c ∷ cs) =
    let rest = read_digits (10 * n + (c - b'0')) cs in
    if leb b'0' c && leb c b'9' then rest else none

unfoldable pub digits : List ℕ → Option ℕ
digits [] = none
digits (c ∷ cs) = read_digits 0 (c ∷ cs)

abbrev pub negative : ℕ → ℤ
negative zero = pos 0
negative (suc n) = negsuc n

-- `int` has 64 bits.
abbrev pub in_range : Bool → Option ℕ → Result AtoiError ℤ
in_range minus none = err invalid_syntax
in_range true (some n) = if leb n (2 ^ 63) then ok (negative n) else err out_of_range
in_range false (some n) = if ltb n (2 ^ 63) then ok (pos n) else err out_of_range

-- `strconv.Atoi`
unfoldable pub atoi : List ℕ → Result AtoiError ℤ
unfolding digits
atoi [] = err invalid_syntax
atoi (c ∷ cs) =
    if c == b'-'
    then in_range true (digits cs)
    else if c == b'+'
    then in_range false (digits cs)
    else in_range false (digits (c ∷ cs))

-- `listener`, without the stunnel server.
pub record Listener : Type 0 where
  pub protocol : ℕ
  pub ip : ℕ
  pub port : ℤ
  pub feed_in_container_prefix : List ℕ
  pub inner_connection_port : ℕ

-- `&listener{}`
abbrev pub zero_listener : Listener
zero_listener = record {
  protocol = 0;
  ip = 0;
  port = pos 0;
  feed_in_container_prefix = [];
  inner_connection_port = 0;
}

-- `net.IPv4(0, 0, 0, 0)`, for an address that `net.ParseIP` does not read.
abbrev pub any_address : ℕ
any_address = 0

abbrev pub ip_or_any : Option ℕ → ℕ
ip_or_any none = any_address
ip_or_any (some ip) = ip

abbrev pub with_port : ℕ → List ℕ → ℕ → ℕ → Result AtoiError ℤ → Option AtoiError × Listener
with_port proto prefix inner ip (err e) = (some e, zero_listener)
with_port proto prefix inner ip (ok port) = (
  none,
  record {
    protocol = proto;
    ip = ip;
    port = port;
    feed_in_container_prefix = prefix;
    inner_connection_port = inner;
  },
)

-- The second piece of the address is indexed without a test, which panics if there is none.
abbrev pub listener_at :
    (List ℕ → Option ℕ)
    → ℕ
    → List ℕ
    → ℕ
    → List ℕ × List (List ℕ)
    → Outcome (Option AtoiError × Listener)
listener_at parse_ip proto prefix inner (host, []) = panics
listener_at parse_ip proto prefix inner (host, port ∷ _) =
    returns (with_port proto prefix inner (ip_or_any (parse_ip host)) (atoi port))

unfoldable pub new_listener :
    (List ℕ → Option ℕ) → List ℕ → ℕ → List ℕ → ℕ → Outcome (Option AtoiError × Listener)
new_listener parse_ip addr proto prefix inner =
    listener_at parse_ip proto prefix inner (split b':' addr)

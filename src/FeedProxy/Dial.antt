-- ===== src/FeedProxy/Dial.antt =====
-- bordercontrol/lib/feedproxy/feedproxy_connections.go: the address of a container. The answers of
-- the resolver and of `net.DialTCP` are arguments.
use bordercontrol.Prelude.{
  ℕ, Bool, true, false, List, [], ◌∷◌, Option, none, some, Result, ok, err, if◌then◌else◌,
}
use bordercontrol.FeedProxy.Tracker.{Ip, nil, v4, v6}

pub data DialError : Type 0 where
  dns_returns_no_results : DialError
  lookup_failed dial_failed : ℕ → DialError

-- `net.TCPAddr`
pub record TcpAddr : Type 0 where
  pub ip : Ip
  pub port : ℕ

-- `i.To4() != nil`
abbrev pub is_v4 : Ip → Bool
is_v4 nil = false
is_v4 (v4 a) = true
is_v4 (v6 a) = false

-- The loop over the addresses, with `dstIP` and `found`.
unfoldable pub look_for_v4 : List Ip → Ip → Bool → Ip × Bool
look_for_v4 [] dst found = (dst, found)
look_for_v4 (i ∷ is) dst found =
    let taken = look_for_v4 is i true in
    let passed = look_for_v4 is dst found in if is_v4 i then taken else passed

-- `lookupContainerTCP`: the address, if the lookup was answered, and the error.
unfoldable pub lookup_container_tcp : Result ℕ (List Ip) → ℕ → Option TcpAddr × Option DialError
unfolding look_for_v4
lookup_container_tcp (err e) port = (none, some (lookup_failed e))
lookup_container_tcp (ok ips) port =
    let (ip, found) = look_for_v4 ips nil false in
    (some (record { ip = ip; port = port }), if found then none else some dns_returns_no_results)

-- `dialContainerTCP` after the lookup, with what `net.DialTCP` answers for an address. The lookup
-- gives an address or an error.
abbrev dial_found : Option TcpAddr × Option DialError → (TcpAddr → Result ℕ ℕ) → Result DialError ℕ
dial_found (a, some e) dial = err e
dial_found (none, none) dial = err dns_returns_no_results
dial_found (some a, none) dial = elim (dial a) [ ok c ↦ ok c | err e ↦ err (dial_failed e) ]

unfoldable pub dial_container_tcp :
    Result ℕ (List Ip) → ℕ → (TcpAddr → Result ℕ ℕ) → Result DialError ℕ
dial_container_tcp answer port dial = dial_found (lookup_container_tcp answer port) dial

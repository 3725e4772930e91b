-- ===== src/FeedProxy/Proxying.antt =====
-- bordercontrol/lib/feedproxy/feedproxy_connections.go: `protocolProxy`, one direction of a proxied
-- connection.
pub mod Rule
pub mod Accounting
pub mod Validity
pub mod Revocation
pub mod Reports
pub mod Reported
use bordercontrol.Prelude.{
  ℕ, ◌+◌, ◌%◌, Bool, true, false, List, [], ◌∷◌, Option, none, some, ltb, if◌then◌else◌,
}
use bordercontrol.Stats.State.{StatsError, second, uint64_mod}
use bordercontrol.Stats.Feeders.{Increment}
use bordercontrol.Atc.Schema.{Feeder}
use bordercontrol.FeedProxy.Auth.{feeder_still_valid}

pub data ProxyDirection : Type 0 where
  client_to_server server_to_client : ProxyDirection

-- `protocolProxyConfig`, without the connections.
pub record ProtocolProxyConfig : Type 0 where
  pub conn_num : ℕ
  pub proto : ℕ
  pub client_api_key : ℕ
  pub feeder_validity_check_interval : ℕ

pub data ProxyError : Type 0 where
  connection_error : ℕ → ProxyError
  stats_error : StatsError → ProxyError
  feeder_no_longer_valid : ProxyError

pub data Read : Type 0 where
  bytes : ℕ → Read
  deadline_exceeded : Read
  failed : ℕ → Read

-- What one round of the loop meets: whether the context is done, the answers of the connections, the
-- time of the test of the timer and that of its reset, the answer of the statistics, and for the
-- check of the feeder what the other direction has made of the time of the last check, the times
-- and the list of valid feeders.
pub record Round : Type 0 where
  pub done : Bool
  pub read_deadline : Option ℕ
  pub read : Read
  pub write_deadline : Option ℕ
  pub write : Option ℕ
  pub now : ℕ
  pub reset_at : ℕ
  pub report : Option StatsError
  pub other_check : ℕ → ℕ
  pub check_now : ℕ
  pub check_later : ℕ
  pub feeders : List Feeder

-- The variables of the loop, with the sizes that were written and the increments that the
-- statistics accepted, newest first.
pub record Progress : Type 0 where
  pub timer : ℕ
  pub byte_count : ℕ
  pub last_auth_check : ℕ
  pub written : List ℕ
  pub reported : List Increment

-- `incrementByteCounters` of a direction.
abbrev pub increment : ProtocolProxyConfig → ProxyDirection → ℕ → Increment
increment conf client_to_server n = record {
  api_key = conf.client_api_key;
  conn_num = conf.conn_num;
  proto = conf.proto;
  bytes_in = n;
  bytes_out = 0;
}
increment conf server_to_client n = record {
  api_key = conf.client_api_key;
  conn_num = conf.conn_num;
  proto = conf.proto;
  bytes_in = 0;
  bytes_out = n;
}

-- What is returned, if the function returns, and the variables.
abbrev pub Proxied : Type 0
Proxied = Option (Option ProxyError) × Progress

abbrev goes_on : Progress → Proxied
goes_on p = (none, p)

abbrev fails : ProxyError → Progress → Proxied
fails e p = (some (some e), p)

abbrev pub after_validity : Progress → Bool × ℕ → Proxied
after_validity p (true, last) = goes_on (record p { last_auth_check = last })
after_validity p (false, last) = fails feeder_no_longer_valid (record p { last_auth_check = last })

unfoldable pub check_feeder : ProtocolProxyConfig → Round → Progress → Proxied
check_feeder conf r p = after_validity p (
    feeder_still_valid conf.client_api_key r.feeders conf.feeder_validity_check_interval r.check_now
      r.check_later (r.other_check p.last_auth_check))

abbrev pub after_report :
    ProtocolProxyConfig → ProxyDirection → Round → Progress → Option StatsError → Proxied
after_report conf dir r p (some e) = fails (stats_error e) p
after_report conf dir r p none =
    check_feeder conf r
      (record p { byte_count = 0; reported = increment conf dir p.byte_count ∷ p.reported })

-- The statistics are updated every second.
unfoldable pub update_stats : ProtocolProxyConfig → ProxyDirection → Round → Progress → Proxied
update_stats conf dir r p =
    if ltb (p.timer + second) r.now
    then after_report conf dir r (record p { timer = r.reset_at }) r.report
    else check_feeder conf r p

abbrev pub after_write :
    ProtocolProxyConfig → ProxyDirection → Round → ℕ → Progress → Option ℕ → Option ℕ → Proxied
after_write conf dir r n p (some e) _ = fails (connection_error e) p
after_write conf dir r n p none (some e) = fails (connection_error e) p
after_write conf dir r n p none none =
    update_stats conf dir r
      (record p { byte_count = (p.byte_count + n) % uint64_mod; written = n ∷ p.written })

abbrev pub after_read : ProtocolProxyConfig → ProxyDirection → Round → Progress → Read → Proxied
after_read conf dir r p (failed e) = fails (connection_error e) p
after_read conf dir r p deadline_exceeded = update_stats conf dir r p
after_read conf dir r p (bytes n) = after_write conf dir r n p r.write_deadline r.write

abbrev pub after_read_deadline :
    ProtocolProxyConfig → ProxyDirection → Round → Progress → Option ℕ → Proxied
after_read_deadline conf dir r p (some e) = fails (connection_error e) p
after_read_deadline conf dir r p none = after_read conf dir r p r.read

unfoldable pub proxy_round : ProtocolProxyConfig → ProxyDirection → Round → Progress → Proxied
proxy_round conf dir r p =
    if r.done then (some none, p) else after_read_deadline conf dir r p r.read_deadline

abbrev pub after_round : Option (Option ProxyError) → Progress → Proxied → Proxied
after_round (some e) p rest = (some e, p)
after_round none p rest = rest

-- The loop, for as many rounds as there are; `none` means that it has not returned.
unfoldable pub protocol_proxy :
    ProtocolProxyConfig → ProxyDirection → List Round → Progress → Proxied
protocol_proxy conf dir [] p = goes_on p
protocol_proxy conf dir (r ∷ rs) p =
    let (end, p') = proxy_round conf dir r p in
    let rest = protocol_proxy conf dir rs p' in after_round end p' rest

-- The start of the loop.
abbrev pub first_progress : ℕ → ℕ → Progress
first_progress now last = record {
  timer = now;
  byte_count = 0;
  last_auth_check = last;
  written = [];
  reported = [];
}

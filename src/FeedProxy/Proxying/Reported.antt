-- ===== src/FeedProxy/Proxying/Reported.antt =====
-- The bytes of a proxied connection in the statistics: the two directions of `protocolProxy` and the
-- rest of the program call them in any order.
use bordercontrol.Prelude.{ℕ, ◌+◌, ◌%◌, ◌^◌, ◌≡◌, true, List, ◌∷◌, ◌++◌, some, returns, arith}
use bordercontrol.FeedProtocol.{is_valid}
use bordercontrol.Stats.State.{ConnectionDetail, Statistics, fresh}
use bordercontrol.Stats.Connections.{Connection}
use bordercontrol.Stats.Connected.{connection_of}
use bordercontrol.Stats.Histories.{Call, registers, run}
use bordercontrol.Stats.Refinement.Accounting.{with_bytes, registered_detail, run-fresh-counted}
use bordercontrol.FeedProxy.Proxying.{
  ProxyDirection, client_to_server, server_to_client, Round, Progress, protocol_proxy,
  first_progress,
}
use bordercontrol.FeedProxy.Proxying.Accounting.{sum, protocol_proxy-IsAccounted}
use bordercontrol.FeedProxy.Proxying.Reports.{
  conf_of, Woven, Woven-Counts, protocol_proxy-AreReports,
}

-- The variables of a direction after its rounds.
abbrev pub progress : Connection → ℕ → ProxyDirection → List Round → ℕ → ℕ → Progress
progress conn interval dir rounds now last =
    (protocol_proxy (conf_of conn interval) dir rounds (first_progress now last)).1

-- What the statistics say of a connection, beside its two directions.
pub record IsReported (conn : Connection) (t : Statistics) (came went : Progress) : Type 0 where
  pub detail : ConnectionDetail
  pub there : connection_of t conn.api_key conn.proto conn.conn_num ≡ some detail
  pub read_in : (detail.bytes_in + came.byte_count) % 2 ^ 64 ≡ sum came.written % 2 ^ 64
  pub read_out : (detail.bytes_out + went.byte_count) % 2 ^ 64 ≡ sum went.written % 2 ^ 64

-- A connection with a valid protocol is registered, whatever calls came before, and then both (for
-- BEAST, one) directions of it are proxied, while the statistics get their reports, and between
-- them calls that are not for the connection. At any time no call has panicked, the connection is
-- registered, and for each direction the bytes that were written are those that the statistics say
-- and those counted since the last report, modulo 2^64.
pub protocol_proxy-IsReported :
    (cs ds : List Call) (conn : Connection) (connected now interval : ℕ)
    (in_rounds out_rounds : List Round) (in_start in_check out_start out_check : ℕ)
    → is_valid conn.proto ≡ true
    → Woven conn ds
        (progress conn interval client_to_server in_rounds in_start in_check).reported
        (progress conn interval server_to_client out_rounds out_start out_check).reported
    → (t : Statistics) × (run (cs ++ registers conn connected now ∷ ds) fresh ≡ returns t)
      × IsReported conn t
          (progress conn interval client_to_server in_rounds in_start in_check)
          (progress conn interval server_to_client out_rounds out_start out_check)
protocol_proxy-IsReported cs ds conn connected now interval in_rounds out_rounds in_start in_check
      out_start out_check known woven =
    let conf = conf_of conn interval in
    let (spared, came, went) =
      Woven-Counts conn interval woven
        (protocol_proxy-AreReports conf client_to_server in_rounds in_start in_check)
        (protocol_proxy-AreReports conf server_to_client out_rounds out_start out_check) in
    let (t, ran, there) = run-fresh-counted cs ds conn connected now known spared in
    let in_total =
      (protocol_proxy-IsAccounted conf client_to_server in_rounds in_start in_check).total in
    let out_total =
      (protocol_proxy-IsAccounted conf server_to_client out_rounds out_start out_check).total in
    (
      t,
      ran,
      record {
        detail = with_bytes _ _ (registered_detail conn connected);
        there = there;
        read_in = omega (arith, came, in_total);
        read_out = omega (arith, went, out_total);
      },
    )

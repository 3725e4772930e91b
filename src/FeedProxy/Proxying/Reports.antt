-- ===== src/FeedProxy/Proxying/Reports.antt =====
-- The reports of the two directions of `protocolProxy` among the calls of the statistics.
use bordercontrol.Prelude.{ℕ, ◌+◌, ◌≡◌, refl, ◌∙◌, Bool, false, List, [], ◌∷◌, ◌++◌, arith, ==_refl}
use bordercontrol.Stats.Feeders.{Increment}
use bordercontrol.Stats.Connections.{Connection}
use bordercontrol.Stats.Histories.{
  Call, registers_feeder, increments, registers, unregisters, evicts,
}
use bordercontrol.Stats.Refinement.{is_counted}
use bordercontrol.Stats.Refinement.Accounting.{
  touches, IsSpared, bytes_in_of, bytes_out_of, total_in, total_out,
}
use bordercontrol.FeedProxy.Proxying.{
  ProxyDirection, client_to_server, server_to_client, ProtocolProxyConfig, Round, increment,
  protocol_proxy, first_progress,
}
use bordercontrol.FeedProxy.Proxying.Rule.{AllKept, protocol_proxy-kept}
use bordercontrol.FeedProxy.Proxying.Accounting.{sum_reported}

-- The configuration that `Start` makes for a connection.
abbrev pub conf_of : Connection → ℕ → ProtocolProxyConfig
conf_of conn interval = record {
  conn_num = conn.conn_num;
  proto = conn.proto;
  client_api_key = conn.api_key;
  feeder_validity_check_interval = interval;
}

-- Whether a call registers, unregisters or reports bytes for the connection.
abbrev pub is_for : Connection → Call → Bool
is_for conn (increments i now) = is_counted i conn.api_key conn.proto conn.conn_num
is_for conn (registers_feeder d now) = false
is_for conn (registers c connected now) =
    touches (registers c connected now) conn.api_key conn.proto conn.conn_num
is_for conn (unregisters c now) = touches (unregisters c now) conn.api_key conn.proto conn.conn_num
is_for conn (evicts now) = false

-- Calls that are the reports of the two directions, newest first, in their orders, and between them
-- others that are not for the connection.
pub data Woven (conn : Connection) : List Call → List Increment → List Increment → Type 0 where
  nothing : Woven conn [] [] []
  beside :
      {ds : List Call} {a b : List Increment} (c : Call)
      → is_for conn c ≡ false
      → Woven conn ds a b
      → Woven conn (ds ++ c ∷ []) a b
  reports_in :
      {ds : List Call} {a b : List Increment} (i : Increment) (now : ℕ)
      → Woven conn ds a b
      → Woven conn (ds ++ increments i now ∷ []) (i ∷ a) b
  reports_out :
      {ds : List Call} {a b : List Increment} (i : Increment) (now : ℕ)
      → Woven conn ds a b
      → Woven conn (ds ++ increments i now ∷ []) a (i ∷ b)

-- The increments of a direction.
abbrev pub AreReports : ProtocolProxyConfig → ProxyDirection → List Increment → Type 0
AreReports conf dir [] = Unit
AreReports conf dir (i ∷ is) = ((n : ℕ) × (i ≡ increment conf dir n)) × AreReports conf dir is

module _ (conf : ProtocolProxyConfig) (dir : ProxyDirection) where
  AreReports-AllKept : (rs : List Round) → AllKept conf dir (λ p. AreReports conf dir p.reported) rs
  AreReports-AllKept [] = tt
  AreReports-AllKept (r ∷ rs) = (
    record {
      written = λ n p h. h;
      checked = λ last p h. h;
      reset = λ p h late. h;
      reported = λ p h late. ((p.byte_count, refl), h);
    },
    AreReports-AllKept rs,
  )

  pub protocol_proxy-AreReports :
      (rs : List Round) (now last : ℕ)
      → AreReports conf dir (protocol_proxy conf dir rs (first_progress now last)).1.reported
  protocol_proxy-AreReports rs now last =
      protocol_proxy-kept conf dir (λ p. AreReports conf dir p.reported) rs
        (first_progress now last) (AreReports-AllKept rs) tt

module _ (k p n : ℕ) where
  IsSpared-snoc :
      (ds : List Call) (c : Call)
      → IsSpared k p n ds
      → touches c k p n ≡ false
      → IsSpared k p n (ds ++ c ∷ [])
  IsSpared-snoc [] c spared h = (h, tt)
  IsSpared-snoc (d ∷ ds) c spared h = (spared.0, IsSpared-snoc ds c spared.1 h)

  total_in-snoc :
      (ds : List Call) (c : Call)
      → total_in k p n (ds ++ c ∷ []) ≡ total_in k p n ds + bytes_in_of c k p n
  unfolding total_in
  total_in-snoc [] c = omega arith
  total_in-snoc (d ∷ ds) c = omega (arith, total_in-snoc ds c)

  total_out-snoc :
      (ds : List Call) (c : Call)
      → total_out k p n (ds ++ c ∷ []) ≡ total_out k p n ds + bytes_out_of c k p n
  unfolding total_out
  total_out-snoc [] c = omega arith
  total_out-snoc (d ∷ ds) c = omega (arith, total_out-snoc ds c)

module _ (conn : Connection) where
  -- A call that is not for the connection.
  is_for-beside :
      (c : Call)
      → is_for conn c ≡ false
      → (touches c conn.api_key conn.proto conn.conn_num ≡ false)
        × (bytes_in_of c conn.api_key conn.proto conn.conn_num ≡ 0)
        × (bytes_out_of c conn.api_key conn.proto conn.conn_num ≡ 0)
  is_for-beside (increments i now) h = rw h (refl, refl, refl)
  is_for-beside (registers_feeder d now) h = (refl, refl, refl)
  is_for-beside (registers c connected now) h = (h, refl, refl)
  is_for-beside (unregisters c now) h = (h, refl, refl)
  is_for-beside (evicts now) h = (refl, refl, refl)

  module _ (interval : ℕ) where
    increment-bytes :
        (dir : ProxyDirection) (n now : ℕ)
        → let c = increments (increment (conf_of conn interval) dir n) now in
          (bytes_in_of c conn.api_key conn.proto conn.conn_num
            ≡ (increment (conf_of conn interval) dir n).bytes_in)
          × (bytes_out_of c conn.api_key conn.proto conn.conn_num
              ≡ (increment (conf_of conn interval) dir n).bytes_out)
    increment-bytes client_to_server n now =
        rw (==_refl conn.api_key, ==_refl conn.proto, ==_refl conn.conn_num) (refl, refl)
    increment-bytes server_to_client n now =
        rw (==_refl conn.api_key, ==_refl conn.proto, ==_refl conn.conn_num) (refl, refl)

    -- The calls count, for the connection, the bytes of the reports, each in its direction.
    abbrev pub Counts : List Call → List Increment → List Increment → Type 0
    Counts ds a b =
        IsSpared conn.api_key conn.proto conn.conn_num ds
        × (total_in conn.api_key conn.proto conn.conn_num ds ≡ sum_reported a)
        × (total_out conn.api_key conn.proto conn.conn_num ds ≡ sum_reported b)

    pub Woven-Counts :
        {ds : List Call} {a b : List Increment}
        → Woven conn ds a b
        → AreReports (conf_of conn interval) client_to_server a
        → AreReports (conf_of conn interval) server_to_client b
        → Counts ds a b
    unfolding sum_reported
    Woven-Counts nothing ha hb = unfold total_in total_out in (tt, refl, refl)
    Woven-Counts (beside {ds} {a} {b} c other woven) ha hb =
        let (spared, came, went) = Woven-Counts woven ha hb in
        let (untouched, no_in, no_out) = is_for-beside c other in
        (
          IsSpared-snoc _ _ _ ds c spared untouched,
          total_in-snoc _ _ _ ds c ∙ omega (arith, came, no_in),
          total_out-snoc _ _ _ ds c ∙ omega (arith, went, no_out),
        )
    Woven-Counts (reports_in {ds} {a} {b} i now woven) ((n, e), ha) hb =
        let (spared, came, went) = Woven-Counts woven ha hb in
        let (counted, nothing_out) = increment-bytes client_to_server n now in
        rw e (
          IsSpared-snoc _ _ _ ds
              (increments (increment (conf_of conn interval) client_to_server n) now) spared refl,
          total_in-snoc _ _ _ ds _ ∙ omega (arith, came, counted),
          total_out-snoc _ _ _ ds _ ∙ omega (arith, went, nothing_out),
        )
    Woven-Counts (reports_out {ds} {a} {b} i now woven) ha ((n, e), hb) =
        let (spared, came, went) = Woven-Counts woven ha hb in
        let (nothing_in, counted) = increment-bytes server_to_client n now in
        rw e (
          IsSpared-snoc _ _ _ ds
              (increments (increment (conf_of conn interval) server_to_client n) now) spared refl,
          total_in-snoc _ _ _ ds _ ∙ omega (arith, came, nothing_in),
          total_out-snoc _ _ _ ds _ ∙ omega (arith, went, counted),
        )

-- ===== src/FeedProxy/Starting/Serving/Agreement.antt =====
-- The statistics and the connections that are served, at any time.
use bordercontrol.Prelude.{ℕ, ◌≡◌, refl, ap, ok}
use bordercontrol.GoMap.{get_or, lookup}
use bordercontrol.Stats.Feeders.{get_num_connections}
use bordercontrol.Stats.Connected.{connection_of}
use bordercontrol.Stats.Gauges.{connections_gauge, sum_connections}
use bordercontrol.Stats.Histories.{registers, unregisters}
use bordercontrol.Stats.Init.{fresh-IsValid}
use bordercontrol.FeedProxy.Starting.Threads.{between}
use bordercontrol.FeedProxy.Starting.Serving.{
  Serving, times, in_protocol, Step, begins, ends, calls, Reach, start, later,
}
use bordercontrol.FeedProxy.Starting.Serving.Exact.{number_of, IsExact}
use bordercontrol.FeedProxy.Starting.Serving.Exact.{reply-IsAfter, calls-IsExact}
use bordercontrol.FeedProxy.Starting.Serving.Begins.{begins-IsExact}
use bordercontrol.FeedProxy.Starting.Serving.Ends.{ends-IsExact}

Step-IsExact : {s t : Serving} → Step s t → IsExact s → IsExact t
Step-IsExact {s} (begins conn connected now r new done) x =
    begins-IsExact conn connected now s r new x
      (reply-IsAfter (registers conn connected now) s.statistics r x.valid x.initialised done)
Step-IsExact {s} (ends xs ys conn now r there done) x =
    ends-IsExact xs ys conn now s r there x
      (reply-IsAfter (unregisters conn now) s.statistics r x.valid x.initialised done)
Step-IsExact {s} (calls c r quiet done) x =
    calls-IsExact c s r quiet x (reply-IsAfter c s.statistics r x.valid x.initialised done)

Reach-IsExact : {s : Serving} → Reach s → IsExact s
unfolding times between in_protocol connections_gauge sum_connections get_or lookup
Reach-IsExact start = record {
  valid = fresh-IsValid;
  initialised = refl;
  known = λ k p unknown. refl;
  shown = λ k p n. refl;
  counted = λ k p. refl;
  gauged = λ p. refl;
}
Reach-IsExact (later r step) = Step-IsExact step (Reach-IsExact r)

-- From the state that `Init` leaves, while connections are registered, each with a number that none
-- of its feeder and protocol has that is served, end, and any other calls are made: a connection is
-- registered exactly if it is served, and it is served once; `GetNumConnections` answers how many of
-- the feeder and protocol are served; and the gauge of a protocol is how many are served with it.
pub Reach-agrees :
    {s : Serving} (k p n : ℕ)
    → Reach s
    → (times k p n s.served ≡ number_of (connection_of s.statistics k p n))
      × (get_num_connections s.statistics k p ≡ ok (between k p s.served))
      × (connections_gauge p s.statistics ≡ in_protocol p s.served)
unfolding get_num_connections
Reach-agrees k p n r =
    let x = Reach-IsExact r in (x.shown k p n, rw x.initialised (ap ok (x.counted k p)), x.gauged p)

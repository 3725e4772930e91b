-- ===== src/FeedProxy/Starting/Numbered/Agreement.antt =====
-- The statistics and the connections that are served, under the numbers that the tracker gives.
use bordercontrol.Prelude.{ℕ, ◌≡◌, refl, ok, arith}
use bordercontrol.Stats.Feeders.{get_num_connections}
use bordercontrol.Stats.Connected.{connection_of}
use bordercontrol.Stats.Gauges.{connections_gauge}
use bordercontrol.FeedProxy.Starting.Threads.{between}
use bordercontrol.FeedProxy.Starting.Serving as Serve
use bordercontrol.FeedProxy.Starting.Serving.{times, in_protocol}
use bordercontrol.FeedProxy.Starting.Serving.Exact.{number_of}
use bordercontrol.FeedProxy.Starting.Serving.Agreement.{Reach-agrees}
use bordercontrol.FeedProxy.Starting.Numbered.{
  Numbered, Step, accepts, tracks, drops, begins, ends, calls, Reach, start, later,
}
use bordercontrol.FeedProxy.Starting.Numbered.Free.{
  taken, with_num, AreFree, Step-AreFree, pending-IsNew,
}

-- What happens to the connections that are served.
Step-Reach : {s t : Numbered} → Step s t → AreFree s → Serve.Reach s.serving → Serve.Reach t.serving
Step-Reach (accepts n t fits e) v r = r
Step-Reach (tracks cs) v r = r
Step-Reach (drops xs ys n e) v r = r
Step-Reach {s} (begins xs ys conn connected now x e done) v r =
    Serve.later r (Serve.begins conn connected now x (pending-IsNew s xs ys conn e v) done)
Step-Reach (ends xs ys conn now x e done) v r = Serve.later r (Serve.ends xs ys conn now x e done)
Step-Reach (calls c x quiet done) v r = Serve.later r (Serve.calls c x quiet done)

Reach-served : {s : Numbered} → Reach s → AreFree s × Serve.Reach s.serving
unfolding taken with_num
Reach-served start = (record { once = λ n. omega arith; above = λ n high. refl }, Serve.start)
Reach-served (later r step) =
    let (v, served) = Reach-served r in (Step-AreFree step v, Step-Reach step v served)

-- From the state that `Init` leaves, while connections are accepted and numbered by `getNum`, as
-- long as the numbers fit a uint, tracked, registered, ended, and any other calls are made: a
-- connection is registered exactly if it is served, and it is served once; `GetNumConnections`
-- answers how many of the feeder and protocol are served; and the gauge of a protocol is how many
-- are served with it.
pub Reach-numbered_agrees :
    {s : Numbered} (k p n : ℕ)
    → Reach s
    → (times k p n s.serving.served ≡ number_of (connection_of s.serving.statistics k p n))
      × (get_num_connections s.serving.statistics k p ≡ ok (between k p s.serving.served))
      × (connections_gauge p s.serving.statistics ≡ in_protocol p s.serving.served)
Reach-numbered_agrees k p n r = let (_, served) = Reach-served r in Reach-agrees k p n served

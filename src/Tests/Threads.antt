-- ===== src/Tests/Threads.antt =====
-- Two goroutines that register connections of one feeder.
use bordercontrol.Prelude.{◌≡◌, refl, true, [], ◌∷◌}
use bordercontrol.GoMap.{lookup, insert, get_or}
use bordercontrol.FeedProtocol.{is_valid}
use bordercontrol.Stats.Feeders.{init_feeder_stats}
use bordercontrol.Stats.Connections.{add_connection}
use bordercontrol.Stats.Histories.{Call, registers}
use bordercontrol.Stats.Threads.{finish, System, begins, finishes, Reach, start, later}
use bordercontrol.Stats.Threads.Linearizable.{IsLinearizable, Reach-IsLinearizable}
use bordercontrol.Tests.Stats.{conn, conn2}

abbrev call : Call
call = registers conn 20 30

abbrev call2 : Call
call2 = registers conn2 40 50

-- Both have run `initFeederStats` before either goes on.
both_end : (s : System) × Reach s × (s.finished ≡ (call2, true) ∷ (call, true) ∷ [])
unfolding is_valid finish init_feeder_stats add_connection lookup insert get_or
both_end = (
  _,
  later
      (later (later (later start (begins 0 call refl refl) tt) (begins 1 call2 refl refl) tt)
        (finishes 0 call _ refl refl) (λ h. cc))
      (finishes 1 call2 _ refl refl) (λ h. cc),
  refl,
)

Reach-IsLinearizable_example : IsLinearizable both_end.0
Reach-IsLinearizable_example = Reach-IsLinearizable both_end.1

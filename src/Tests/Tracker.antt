-- ===== src/Tests/Tracker.antt =====
-- Two goroutines that check one address at once.
use bordercontrol.Prelude.{◌≡◌, ◌≤◌, refl, arith, [], ◌∷◌}
use bordercontrol.FeedProxy.Tracker.{Ip, v4, ip_equal, count_src, admit}
use bordercontrol.FeedProxy.Tracker.Threads.{
  Goroutines, between, Reach, start, later, counts, ends, Checking,
}
use bordercontrol.FeedProxy.Tracker.Threads.Bound.{Reach-count_src}
use bordercontrol.FeedProxy.Tracker.Threads.Tight.{Reach-IsTight}

abbrev ip : Ip
ip = v4 9

abbrev call : Checking
call = record { src_ip = ip; conn_num = 1; conn_count = 0 }

abbrev call2 : Checking
call2 = record { src_ip = ip; conn_num = 2; conn_count = 0 }

-- Both have counted before either appends its connection.
both_pass : (s : Goroutines) × Reach 2 ip s × (count_src ip s.tracker.connections ≡ 2)
unfolding between ip_equal count_src admit
both_pass = (
  _,
  later
      (later (later (later start (counts ip 1) (omega arith)) (counts ip 2) (omega arith))
        (ends [] (call ∷ []) call2 20 refl) (omega arith))
      (ends [] [] call 30 refl) (omega arith),
  refl,
)

Reach-count_src_example : count_src ip both_pass.0.tracker.connections ≤ 4
Reach-count_src_example = Reach-count_src both_pass.1

Reach-IsTight_example : (s : Goroutines) × Reach 2 ip s × (count_src ip s.tracker.connections ≡ 4)
Reach-IsTight_example = Reach-IsTight 1 ip

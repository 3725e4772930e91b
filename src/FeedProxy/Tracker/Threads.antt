-- ===== src/FeedProxy/Tracker/Threads.antt =====
-- bordercontrol/lib/feedproxy/feedproxy_connections.go: `check` and `evict` called from several
-- goroutines. `check` counts under the read lock and appends under the lock, and other calls may run
-- in between; what is done under one hold is one step.
pub mod Bound
pub mod Tight
use bordercontrol.Prelude.{ℕ, suc, ◌≤◌, ◌≡◌, List, [], ◌∷◌, ◌++◌, Bool, ◌&&◌, ltb, if◌then◌else◌}
use bordercontrol.FeedProxy.Tracker.{
  Ip, ip_equal, IncomingConnectionTracker, count_src, admit, evict, max_requests_per_src_ip,
}

-- A call of `check` that has counted: its arguments and `connCount`.
pub record Checking : Type 0 where
  pub src_ip : Ip
  pub conn_num : ℕ
  pub conn_count : ℕ

-- The tracker, and the calls of `check` that have counted and not yet ended, newest first.
pub record Goroutines : Type 0 where
  pub tracker : IncomingConnectionTracker
  pub checking : List Checking

abbrev pub counted : Ip → ℕ → Goroutines → Checking
counted ip num s = record {
  src_ip = ip;
  conn_num = num;
  conn_count = count_src ip s.tracker.connections;
}

pub data Step (s : Goroutines) : Goroutines → Type 0 where
  counts : (ip : Ip) (num : ℕ) → Step s (record s { checking = counted ip num s ∷ s.checking })
  ends :
      (xs ys : List Checking) (c : Checking) (now : ℕ)
      → s.checking ≡ xs ++ c ∷ ys
      → Step s (record {
        tracker = (admit c.src_ip c.conn_num now c.conn_count s.tracker).1;
        checking = xs ++ ys;
      })
  evicts : (clock : ℕ → ℕ) → Step s (record s { tracker = evict clock s.tracker })

-- How many calls for an address have counted and not yet ended.
unfoldable pub between : Ip → List Checking → ℕ
between ip [] = 0
between ip (c ∷ cs) = if ip_equal c.src_ip ip then suc (between ip cs) else between ip cs

abbrev pub first : Goroutines
first = record { tracker = record { connections = []; connection_number = 0 }; checking = [] }

-- The states that steps lead to while at most `g` calls for `ip` are between their two holds.
pub data Reach (g : ℕ) (ip : Ip) : Goroutines → Type 0 where
  start : Reach g ip first
  later : {s t : Goroutines} → Reach g ip s → Step s t → between ip t.checking ≤ g → Reach g ip t

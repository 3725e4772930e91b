-- ===== src/FeedProxy/Starting/Threads/Tight.antt =====
-- Connections of one feeder and protocol that ask for the limit before one of them is registered.
use bordercontrol.Prelude.{
  ℕ, zero, suc, ◌+◌, ◌≤◌, ◌<◌, ◌≡◌, refl, subst, ◌∙◌, true, List, [], ◌∷◌, none, ok, arith, ==_refl,
}
use bordercontrol.GoMap.{get_or, lookup}
use bordercontrol.FeedProtocol.{is_valid}
use bordercontrol.Stats.State.{Statistics, fresh}
use bordercontrol.Stats.Feeders.{get_num_connections}
use bordercontrol.Stats.Connections.{Connection}
use bordercontrol.Stats.Connected.{connection_of}
use bordercontrol.Stats.Histories.{reply}
use bordercontrol.Stats.Init.{fresh-IsValid}
use bordercontrol.Stats.Invariant.{IsValid}
use bordercontrol.FeedProxy.Starting.LimitRace.{registers_one}
use bordercontrol.FeedProxy.Starting.Threads.{
  Passing, passes, is_registered, between, Reach, start, later,
}

module _ (k p : ℕ) (known : is_valid p ≡ true) where
  abbrev numbered : ℕ → Connection
  numbered i = record {
    api_key = k;
    src_addr = "";
    dst_addr = "";
    proto = p;
    feeder_code = "";
    conn_num = i;
  }

  abbrev waiting : ℕ → List Connection
  waiting zero = []
  waiting (suc n) = numbered n ∷ waiting n

  between-waiting : (n : ℕ) → between k p (waiting n) ≡ n
  unfolding between
  between-waiting zero = refl
  between-waiting (suc n) = ground (arith, ==_refl k, ==_refl p, between-waiting n)

  -- All ask for the number of connections before one is registered.
  all_pass : (g n : ℕ) → n ≤ g → Reach g k p (record { statistics = fresh; passed = waiting n })
  unfolding get_num_connections get_or lookup
  all_pass g zero few = start
  all_pass g (suc n) few =
      later (all_pass g n (omega arith)) (passes (numbered n) 0 refl refl)
        (rw (between-waiting (suc n)) few)

  -- Each is then registered.
  all_register :
      (g n m : ℕ) (s : Statistics)
      → g ≡ m + n
      → IsValid s
      → get_num_connections s k p ≡ ok m
      → ((i : ℕ) → i < n → connection_of s k p i ≡ none)
      → Reach g k p (record { statistics = s; passed = waiting n })
      → (t : Passing) × Reach g k p t × (get_num_connections t.statistics k p ≡ ok g)
  unfolding reply
  all_register g zero m s sum v counted new r =
      (_, r, subst (λ x. get_num_connections s k p ≡ ok x) (omega arith) counted)
  all_register g (suc n) m s sum v counted new r =
      let (t, e, vt, counted', rest) =
        registers_one s v (numbered n) known 0 0 m counted (new n (omega arith)) in
      all_register g n (suc m) t (omega arith) vt counted'
        (λ i less. rest k p i (omega arith) ∙ new i (omega arith))
        (later r (is_registered [] (waiting n) (numbered n) 0 0 (none, t) refl e)
          (rw (between-waiting n) (omega arith)))

-- For every number, and every feeder and valid protocol, that many connections can be registered,
-- if that many may be between the test of the limit and their registration.
pub Reach-num_connections-IsTight :
    (g k p : ℕ)
    → is_valid p ≡ true
    → (s : Passing) × Reach g k p s × (get_num_connections s.statistics k p ≡ ok g)
unfolding get_num_connections get_or lookup
Reach-num_connections-IsTight g k p known =
    all_register k p known g g 0 fresh (omega arith) fresh-IsValid refl (λ i less. refl)
      (all_pass k p known g g (omega arith))

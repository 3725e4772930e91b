-- ===== src/Stats/Refinement/Accounting.antt =====
-- What the statistics say of one connection, from its registration on.
use bordercontrol.Prelude.{
  ℕ, ◌+◌, ◌%◌, ◌^◌, ◌≡◌, refl, ap, ◌∙◌, Bool, true, false, List, [], ◌∷◌, ◌++◌, some, returns,
  if◌then◌else◌, arith, ==_refl, inl, inr, Bool-cases,
}
use bordercontrol.FeedProtocol.{is_valid}
use bordercontrol.Stats.State.{ConnectionDetail, Statistics, fresh}
use bordercontrol.Stats.Connections.{Connection}
use bordercontrol.Stats.Connected.{connection_of}
use bordercontrol.Stats.Histories.{
  Call, registers_feeder, increments, registers, unregisters, evicts, run,
}
use bordercontrol.Stats.Registering.{is_same}
use bordercontrol.Stats.Refinement.{Connections, no_connections, is_counted, after, all_after}
use bordercontrol.Stats.Refinement.Simulation.{run-fresh-refines}

-- Whether a call registers or unregisters a connection with this key, protocol and number.
abbrev pub touches : Call → ℕ → ℕ → ℕ → Bool
touches (registers_feeder d now) k p n = false
touches (increments i now) k p n = false
touches (registers conn connected now) k p n = is_same conn k p n
touches (unregisters conn now) k p n = is_same conn k p n
touches (evicts now) k p n = false

abbrev pub IsSpared : ℕ → ℕ → ℕ → List Call → Type 0
IsSpared k p n [] = Unit
IsSpared k p n (c ∷ cs) = (touches c k p n ≡ false) × IsSpared k p n cs

-- The bytes that a call reports for it.
abbrev pub bytes_in_of : Call → ℕ → ℕ → ℕ → ℕ
bytes_in_of (increments i now) k p n = if is_counted i k p n then i.bytes_in else 0
bytes_in_of c k p n = 0

abbrev pub bytes_out_of : Call → ℕ → ℕ → ℕ → ℕ
bytes_out_of (increments i now) k p n = if is_counted i k p n then i.bytes_out else 0
bytes_out_of c k p n = 0

unfoldable pub total_in : ℕ → ℕ → ℕ → List Call → ℕ
total_in k p n [] = 0
total_in k p n (c ∷ cs) = bytes_in_of c k p n + total_in k p n cs

unfoldable pub total_out : ℕ → ℕ → ℕ → List Call → ℕ
total_out k p n [] = 0
total_out k p n (c ∷ cs) = bytes_out_of c k p n + total_out k p n cs

abbrev pub with_bytes : ℕ → ℕ → ConnectionDetail → ConnectionDetail
with_bytes i o c = record c { bytes_in = i % 2 ^ 64; bytes_out = o % 2 ^ 64 }

module _ (k p n : ℕ) (d : ConnectionDetail) where
  after-spared :
      (c : Call) (m : Connections) (i o : ℕ)
      → touches c k p n ≡ false
      → m k p n ≡ some (with_bytes i o d)
      → after c m k p n ≡ some (with_bytes (i + bytes_in_of c k p n) (o + bytes_out_of c k p n) d)
  unfolding after
  after-spared (registers_feeder x now) m i o h e = e ∙ ground arith
  after-spared (increments x now) m i o h e = elim (Bool-cases (is_counted x k p n)) [
    | inl counted ↦ rw (counted, e) (ground arith)
    | inr other ↦ rw (other, e) (ground arith)
  ]
  after-spared (registers conn connected now) m i o h e = rw h (ground (arith, e))
  after-spared (unregisters conn now) m i o h e = rw h (ground (arith, e))
  after-spared (evicts now) m i o h e = e ∙ ground arith

  all_after-spared :
      (cs : List Call) (m : Connections) (i o : ℕ)
      → IsSpared k p n cs
      → m k p n ≡ some (with_bytes i o d)
      → all_after cs m k p n ≡ some (with_bytes (i + total_in k p n cs) (o + total_out k p n cs) d)
  unfolding all_after total_in total_out
  all_after-spared [] m i o h e = e ∙ ground arith
  all_after-spared (c ∷ cs) m i o h e =
      all_after-spared cs (after c m) (i + bytes_in_of c k p n) (o + bytes_out_of c k p n) h.1
        (after-spared c m i o h.0 e)
      ∙ ground arith

all_after-append :
    (cs ds : List Call) (m : Connections) → all_after (cs ++ ds) m ≡ all_after ds (all_after cs m)
unfolding all_after
all_after-append [] ds m = refl
all_after-append (c ∷ cs) ds m = all_after-append cs ds (after c m)

abbrev pub registered_detail : Connection → ℕ → ConnectionDetail
registered_detail conn connected = record {
  src = conn.src_addr;
  dst = conn.dst_addr;
  time_connected = connected;
  bytes_in = 0;
  bytes_out = 0;
}

after-registered :
    (conn : Connection) (connected now : ℕ) (m : Connections)
    → is_valid conn.proto ≡ true
    → after (registers conn connected now) m conn.api_key conn.proto conn.conn_num
      ≡ some (with_bytes 0 0 (registered_detail conn connected))
unfolding after
after-registered conn connected now m known =
    rw (known, ==_refl conn.api_key, ==_refl conn.proto, ==_refl conn.conn_num) refl

-- Whatever calls came before, once a connection with a valid protocol is registered, and as long as
-- no call registers or unregisters one with its key, protocol and number, it stays registered, with
-- the addresses and the time of its registration, and its counters say how many bytes have been
-- reported for it since then, modulo 2^64.
pub run-fresh-counted :
    (cs ds : List Call) (conn : Connection) (connected now : ℕ)
    → is_valid conn.proto ≡ true
    → IsSpared conn.api_key conn.proto conn.conn_num ds
    → (t : Statistics) × (run (cs ++ registers conn connected now ∷ ds) fresh ≡ returns t)
      × (connection_of t conn.api_key conn.proto conn.conn_num
          ≡ some (
              with_bytes
                (total_in conn.api_key conn.proto conn.conn_num ds)
                (total_out conn.api_key conn.proto conn.conn_num ds)
                (registered_detail conn connected)))
unfolding all_after
run-fresh-counted cs ds conn connected now known spared =
    let (t, ran, said, shown) = run-fresh-refines (cs ++ registers conn connected now ∷ ds) in
    let before = all_after cs no_connections in
    let at = λ (m : Connections). m conn.api_key conn.proto conn.conn_num in
    (
      t,
      ran,
      ap at shown
          ∙ ap at (all_after-append cs (registers conn connected now ∷ ds) no_connections)
          ∙ all_after-spared conn.api_key conn.proto conn.conn_num
              (registered_detail conn connected) ds (after (registers conn connected now) before) 0
              0 spared (after-registered conn connected now before known)
          ∙ ground arith,
    )

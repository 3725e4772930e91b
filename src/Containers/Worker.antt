-- ===== src/Containers/Worker.antt =====
-- bordercontrol/lib/containers/containers.go and create.go: `FeedInContainer.Start` and the
-- goroutine that serves it, over two channels without a buffer.
pub mod Service
use bordercontrol.Prelude.{
  ℕ, ◌≡◌, ◌≢◌, refl, Bool, true, false, List, [], ◌∷◌, Option, none, some, ◌==◌, if◌then◌else◌,
  arith, ◌⊎◌, inl, inr, ==_iff, ==_refl,
}

-- The goroutine: at its `select`, in `startFeederContainers` for a request, at the send of the
-- response to a request, or gone.
pub data WorkerState : Type 0 where
  idle stopped : WorkerState
  working sending : ℕ → WorkerState

-- The calls of `Start` that wait for a response, by their numbers, whether the context is cancelled,
-- and the responses that were received: the call, and the request that the response answers.
pub record Manager : Type 0 where
  pub worker : WorkerState
  pub waiting : List ℕ
  pub cancelled : Bool
  pub received : List (ℕ × ℕ)

unfoldable pub remove_call : ℕ → List ℕ → List ℕ
remove_call j [] = []
remove_call j (k ∷ ks) = if j == k then ks else k ∷ remove_call j ks

unfoldable pub is_waiting : ℕ → List ℕ → Bool
is_waiting j [] = false
is_waiting j (k ∷ ks) = if j == k then true else is_waiting j ks

-- A request is taken; it has been served; a call that waits takes the response that is sent; a call
-- that waits returns, at its timeout or because the context is cancelled; the context is cancelled;
-- the goroutine sees that.
pub data Step : Manager → Manager → Type 0 where
  submits :
      (k : ℕ) (m : Manager)
      → m.worker ≡ idle
      → Step m (record m { worker = working k; waiting = k ∷ m.waiting })
  serves : (k : ℕ) (m : Manager) → m.worker ≡ working k → Step m (record m { worker = sending k })
  receives :
      (j k : ℕ) (m : Manager)
      → m.worker ≡ sending k
      → is_waiting j m.waiting ≡ true
      → Step m (record m {
        worker = idle;
        waiting = remove_call j m.waiting;
        received = (j, k) ∷ m.received;
      })
  gives_up :
      (j : ℕ) (m : Manager)
      → is_waiting j m.waiting ≡ true
      → Step m (record m { waiting = remove_call j m.waiting })
  cancels : (m : Manager) → Step m (record m { cancelled = true })
  stops :
      (m : Manager) → m.worker ≡ idle → m.cancelled ≡ true → Step m (record m { worker = stopped })

pub data Steps : Manager → Manager → Type 0 where
  here : (m : Manager) → Steps m m
  onward : {m n o : Manager} → Step m n → Steps n o → Steps m o

abbrev pub started : Manager
started = record { worker = idle; waiting = []; cancelled = false; received = [] }

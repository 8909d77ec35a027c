-- ===== src/Cert/Renew/System.antt =====
-- Worker.Run of internal/cert/renew/worker.go: the goroutines that take tasks from the queue, beside
-- a scanner that enqueues tasks and others that change the store.
pub mod Tracking
pub mod Spacing
pub mod Soundness
pub mod Draining
use mesh_cdn.Base.{length, take, ℕ, ◌+◌, ◌<◌, ◌≡◌, not, Option, none, some, List, ◌∷◌, ◌++◌}
use mesh_cdn.Base.Table.{get}
use mesh_cdn.Base.Time.{Time, day}
use mesh_cdn.Cert.Store.{Store}
use mesh_cdn.Cert.Renew.Worker.{
  Task, Worker, key, is_pending, queue_size, enqueue, World, Alert, act, clear_pending,
}

-- The worker and the store; the tasks that a goroutine has taken from the queue, those whose step
-- is over and whose key is not cleared yet; and the alerts so far, the last one first.
pub record System : Type 0 where
  pub worker : Worker
  pub store : Store
  pub running : List Task
  pub ending : List Task
  pub alerts : List Alert

abbrev pub logged : Option Alert → List Alert → List Alert
logged none as' = as'
logged (some a) as' = a ∷ as'

-- `dispatch` up to its deferred call.
abbrev pub after_act : World → Time → Task → List Task → System → System
after_act env now t rest s =
    let (w, st, a) = act env now t (s.worker, s.store) in
    record {
      worker = w;
      store = st;
      running = rest;
      ending = t ∷ s.ending;
      alerts = logged a s.alerts;
    }

-- A step of one of `concurrency` goroutines: it takes the first task of the queue, it performs the
-- step of the task, or it clears the key. Another goroutine may move in between.
pub data Work (concurrency : ℕ) (s : System) : System → Type 0 where
  receive :
      (t : Task) (rest : List Task)
      → s.worker.queue ≡ t ∷ rest
      → length s.running + length s.ending < concurrency
      → Work concurrency s
          (record s { worker = record s.worker { queue = rest }; running = t ∷ s.running })
  carry_out :
      (env : World) (now : Time) (front : List Task) (t : Task) (back : List Task)
      → s.running ≡ front ++ (t ∷ back)
      → Work concurrency s (after_act env now t (front ++ back) s)
  clear :
      (front : List Task) (t : Task) (back : List Task)
      → s.ending ≡ front ++ (t ∷ back)
      → Work concurrency s (record s { worker = clear_pending t s.worker; ending = front ++ back })

-- A step of the worker, of a caller of Enqueue, or of one that changes the store.
pub data Step (concurrency : ℕ) (s : System) : System → Type 0 where
  work : {u : System} → Work concurrency s u → Step concurrency s u
  arrive : (t : Task) → Step concurrency s (record s { worker = (enqueue t s.worker).0 })
  store_change : (st : Store) → Step concurrency s (record s { store = st })

pub data Reach (concurrency : ℕ) (s : System) : System → Type 0 where
  here : Reach concurrency s s
  next : {t u : System} → Reach concurrency s t → Step concurrency t u → Reach concurrency s u

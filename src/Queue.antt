-- ===== src/Queue.antt =====
-- persistence.py: `TaskQueue` over its two tables, and worker.py's `run_once`. Times are natural
-- numbers; a claim and the update that follows it are one transaction (`BEGIN IMMEDIATE`).
pub mod Claims
pub mod Worker
mod Tests
use autonomous_software_engi.Prelude.{
  leb, ◌==◌, if◌then◌else◌, ℕ, ◌+◌, String, Bool, true, false, ◌&&◌, Option, none, some, List, [],
  ◌∷◌, ◌++◌,
}
use autonomous_software_engi.Prelude.Text.{mem}

pub data TaskStatus : Type 0 where
  pending running completed failed : TaskStatus

abbrev pub is_pending : TaskStatus → Bool
is_pending pending = true
is_pending _ = false

-- A row of `task_queue`.
pub record QueuedTask : Type 0 where
  pub id : ℕ
  pub run_id : String
  pub kind : String
  pub payload : String
  pub status : TaskStatus
  pub attempts : ℕ
  pub available_at : ℕ
  pub locked_at : Option ℕ

-- The rows in the order of their ids, which AUTOINCREMENT never gives twice, and the deliveries.
pub record TaskQueue : Type 0 where
  pub tasks : List QueuedTask
  pub last_id : ℕ
  pub deliveries : List String

abbrev pub empty_queue : TaskQueue
empty_queue = record { tasks = []; last_id = 0; deliveries = [] }

-- `enqueue`: the new id, and the queue.
unfoldable pub enqueue : String → String → String → ℕ → TaskQueue → ℕ × TaskQueue
enqueue run_id kind payload now q =
    let id = q.last_id + 1 in
    (
      id,
      record q {
        tasks =
            q.tasks
            ++ record {
              id = id;
              run_id = run_id;
              kind = kind;
              payload = payload;
              status = pending;
              attempts = 0;
              available_at = now;
              locked_at = none;
            }
              ∷ [];
        last_id = id;
      },
    )

abbrev pub is_claimable : ℕ → QueuedTask → Bool
is_claimable now t = is_pending t.status && leb t.available_at now

-- The claimed row, as it was selected.
unfoldable pub first_claimable : ℕ → List QueuedTask → Option QueuedTask
first_claimable now [] = none
first_claimable now (t ∷ ts) =
    let later = first_claimable now ts in if is_claimable now t then some t else later

-- `UPDATE task_queue SET … WHERE id = …`
unfoldable pub update_task : ℕ → (QueuedTask → QueuedTask) → List QueuedTask → List QueuedTask
update_task id f [] = []
update_task id f (t ∷ ts) =
    let rest = update_task id f ts in if t.id == id then f t ∷ rest else t ∷ rest

abbrev pub started : ℕ → QueuedTask → QueuedTask
started now t = record t { status = running; attempts = t.attempts + 1; locked_at = some now }

abbrev pub ended : Bool → QueuedTask → QueuedTask
ended succeeded t = record t { status = if succeeded then completed else failed }

abbrev pub taken : ℕ → TaskQueue → Option QueuedTask → Option QueuedTask × TaskQueue
taken now q none = (none, q)
taken now q (some row) = (some row, record q { tasks = update_task row.id (started now) q.tasks })

unfoldable pub claim : ℕ → TaskQueue → Option QueuedTask × TaskQueue
claim now q = taken now q (first_claimable now q.tasks)

unfoldable pub complete : ℕ → Bool → TaskQueue → TaskQueue
complete id succeeded q = record q { tasks = update_task id (ended succeeded) q.tasks }

-- What a delivery makes of the queue, by whether it is already there.
abbrev pub seen_before : String → TaskQueue → Bool → Bool × TaskQueue
seen_before delivery_id q true = (false, q)
seen_before delivery_id q false = (true, record q { deliveries = q.deliveries ++ delivery_id ∷ [] })

-- `record_delivery`: the primary key refuses a delivery that is there.
unfoldable pub record_delivery : String → TaskQueue → Bool × TaskQueue
record_delivery delivery_id q = seen_before delivery_id q (mem delivery_id q.deliveries)

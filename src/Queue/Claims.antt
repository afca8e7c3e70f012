-- ===== src/Queue/Claims.antt =====
-- A task is claimed at most once, whatever producers and workers do in whatever order.
use autonomous_software_engi.Prelude.{
  ◌==◌, if◌then◌else◌, All, ℕ, ◌≤◌, String, ◌≡◌, refl, sym, ◌∙◌, subst, ◌⊎◌, inl, inr, Bool, true,
  false, Option, none, some, List, [], ◌∷◌, ◌++◌, arith,
}
use mathlib.Core.Bool.{false≢true}
use autonomous_software_engi.Prelude.Text.{mem}
use autonomous_software_engi.Prelude.Member.{Member, Distinct}
use autonomous_software_engi.Queue.{
  is_pending, QueuedTask, TaskQueue, enqueue, is_claimable, first_claimable, update_task, started,
  ended, claim, taken, seen_before, complete, record_delivery,
}

-- The requests of producers and workers.
pub data QueueRequest : Type 0 where
  enqueue_task : String → String → String → ℕ → QueueRequest
  claim_task : ℕ → QueueRequest
  complete_task : ℕ → Bool → QueueRequest
  deliver : String → QueueRequest

abbrev pub claimed_id : Option QueuedTask → List ℕ
claimed_id none = []
claimed_id (some t) = t.id ∷ []

-- The queue after a request, and the ids that it claims.
pub perform : QueueRequest → TaskQueue → List ℕ × TaskQueue
perform (enqueue_task run_id kind payload now) q = ([], (enqueue run_id kind payload now q).1)
perform (claim_task now) q = let (row, q') = claim now q in (claimed_id row, q')
perform (complete_task id succeeded) q = ([], complete id succeeded q)
perform (deliver delivery_id) q = ([], (record_delivery delivery_id q).1)

-- All ids that a sequence of requests claims, in order.
pub claims : List QueueRequest → TaskQueue → List ℕ
claims [] q = []
claims (r ∷ rest) q = let (ids, q') = perform r q in ids ++ claims rest q'

module _ (P : QueuedTask → Type 0) where
  All-append : (ts : List QueuedTask) (t : QueuedTask) → All P ts → P t → All P (ts ++ t ∷ [])
  All-append [] t h p = (p, tt)
  All-append (x ∷ ts) t h p = (h.0, All-append ts t h.1 p)

  All-if :
      (b : Bool) (x y : QueuedTask) (ts : List QueuedTask)
      → P x
      → P y
      → All P ts
      → All P (if b then x ∷ ts else y ∷ ts)
  All-if true x y ts p q h = (p, h)
  All-if false x y ts p q h = (q, h)

  All-update :
      (key : ℕ) (f : QueuedTask → QueuedTask) (ts : List QueuedTask)
      → ((t : QueuedTask) → P t → P (f t))
      → All P ts
      → All P (update_task key f ts)
  unfolding update_task
  All-update key f [] g h = tt
  All-update key f (t ∷ ts) g h =
      All-if (t.id == key) (f t) t _ (g t h.0) h.0 (All-update key f ts g h.1)

  All-weaken :
      {Q : QueuedTask → Type 0} (ts : List QueuedTask)
      → ((t : QueuedTask) → P t → Q t)
      → All P ts
      → All Q ts
  All-weaken [] g h = tt
  All-weaken (t ∷ ts) g h = (g t h.0, All-weaken ts g h.1)

  -- A claimed row is one of the rows.
  first_claimable-All :
      (now : ℕ) (ts : List QueuedTask) (row : QueuedTask)
      → first_claimable now ts ≡ some row
      → All P ts
      → P row × (is_pending row.status ≡ true)
  unfolding first_claimable
  first_claimable-All now [] row e h = cc
  first_claimable-All now (t ∷ ts) row e h =
      by_test (is_claimable now t) refl e (λ k. first_claimable-All now ts row k h.1)
    where
      by_test :
          (b : Bool)
          → is_claimable now t ≡ b
          → (if b then some t else first_claimable now ts) ≡ some row
          → (first_claimable now ts ≡ some row → P row × (is_pending row.status ≡ true))
          → P row × (is_pending row.status ≡ true)
      by_test true c e ih =
          let same : t ≡ row = ground arith in
          (
            subst P same h.0,
            subst (λ (x : QueuedTask). is_pending x.status ≡ true) same (ground arith),
          )
      by_test false c e ih = ih e

-- Nothing pending has the id.
abbrev Busy : ℕ → QueuedTask → Type 0
Busy id t = t.id ≡ id → is_pending t.status ≡ false

-- The task cannot be claimed again: its id was given out, and no pending row has it.
record IsTaken (id : ℕ) (q : TaskQueue) : Type 0 where
  known : id ≤ q.last_id
  busy : All (Busy id) q.tasks

-- The ids of all rows were given out.
pub record IsNumbered (q : TaskQueue) : Type 0 where
  pub below : All (λ (t : QueuedTask). t.id ≤ q.last_id) q.tasks

-- After an update that ends no task as pending, no pending row has the id.
updated-Busy :
    (id : ℕ) (f : QueuedTask → QueuedTask) (ts : List QueuedTask)
    → ((t : QueuedTask) → is_pending (f t).status ≡ false)
    → All (Busy id) (update_task id f ts)
unfolding update_task
updated-Busy id f [] calm = tt
updated-Busy id f (t ∷ ts) calm = by_id (t.id == id) refl (updated-Busy id f ts calm)
  where
    by_id :
        (b : Bool)
        → (t.id == id) ≡ b
        → All (Busy id) (update_task id f ts)
        → All (Busy id) (if b then f t ∷ update_task id f ts else t ∷ update_task id f ts)
    by_id true e h = ((λ k. calm t), h)
    by_id false e h = ((λ k. ground arith), h)

perform-IsNumbered : (r : QueueRequest) (q : TaskQueue) → IsNumbered q → IsNumbered (perform r q).1
unfolding perform enqueue complete record_delivery
perform-IsNumbered (enqueue_task run_id kind payload now) q h = record {
  below =
      All-append _ q.tasks _ (All-weaken _ q.tasks (λ t k. omega (arith, k)) h.below) (omega arith);
}
perform-IsNumbered (complete_task id succeeded) q h = record {
  below = All-update _ id (ended succeeded) q.tasks (λ t k. k) h.below;
}
perform-IsNumbered (deliver delivery_id) q h = by_seen (mem delivery_id q.deliveries)
  where
    by_seen : (b : Bool) → IsNumbered (seen_before delivery_id q b).1
    by_seen true = h
    by_seen false = record { below = h.below }
perform-IsNumbered (claim_task now) q h = unfold claim in by_row (first_claimable now q.tasks)
  where
    by_row : (o : Option QueuedTask) → IsNumbered (taken now q o).1
    by_row none = h
    by_row (some row) = record {
      below = All-update _ row.id (started now) q.tasks (λ t k. k) h.below;
    }

perform-IsTaken :
    (r : QueueRequest) (q : TaskQueue) (id : ℕ) → IsTaken id q → IsTaken id (perform r q).1
unfolding perform enqueue complete record_delivery
perform-IsTaken (enqueue_task run_id kind payload now) q id h = record {
  known = omega (arith, h.known);
  busy = All-append _ q.tasks _ h.busy (λ e. absurd (omega (arith, h.known, e)));
}
perform-IsTaken (complete_task key succeeded) q id h = record {
  known = h.known;
  busy = All-update _ key (ended succeeded) q.tasks (λ t k e. ground arith) h.busy;
}
perform-IsTaken (deliver delivery_id) q id h = by_seen (mem delivery_id q.deliveries)
  where
    by_seen : (b : Bool) → IsTaken id (seen_before delivery_id q b).1
    by_seen true = h
    by_seen false = record { known = h.known; busy = h.busy }
perform-IsTaken (claim_task now) q id h = unfold claim in by_row (first_claimable now q.tasks)
  where
    by_row : (o : Option QueuedTask) → IsTaken id (taken now q o).1
    by_row none = h
    by_row (some row) = record {
      known = h.known;
      busy = All-update _ row.id (started now) q.tasks (λ t k e. refl) h.busy;
    }

-- A taken task is not claimed.
perform-avoids :
    (r : QueueRequest) (q : TaskQueue) (id : ℕ) → IsTaken id q → ¬ Member id (perform r q).0
unfolding perform
perform-avoids (enqueue_task run_id kind payload now) q id h = λ m. m
perform-avoids (complete_task key succeeded) q id h = λ m. m
perform-avoids (deliver delivery_id) q id h = λ m. m
perform-avoids (claim_task now) q id h = unfold claim in by_row (first_claimable now q.tasks) refl
  where
    by_row :
        (o : Option QueuedTask)
        → first_claimable now q.tasks ≡ o
        → ¬ Member id (claimed_id (taken now q o).0)
    by_row none e m = m
    by_row (some row) e (inl same) =
        let (busy, waiting) = first_claimable-All (Busy id) now q.tasks row e h.busy in
        false≢true (sym (busy same) ∙ waiting)
    by_row (some row) e (inr m) = m

-- A claim takes the task.
perform-claims :
    (r : QueueRequest) (q : TaskQueue)
    → IsNumbered q
    → ((perform r q).0 ≡ []) ⊎ ((k : ℕ) × ((perform r q).0 ≡ k ∷ []) × IsTaken k (perform r q).1)
unfolding perform
perform-claims (enqueue_task run_id kind payload now) q h = inl refl
perform-claims (complete_task key succeeded) q h = inl refl
perform-claims (deliver delivery_id) q h = inl refl
perform-claims (claim_task now) q h = unfold claim in by_row (first_claimable now q.tasks) refl
  where
    by_row :
        (o : Option QueuedTask)
        → first_claimable now q.tasks ≡ o
        → (claimed_id (taken now q o).0 ≡ [])
          ⊎ ((k : ℕ) × (claimed_id (taken now q o).0 ≡ k ∷ []) × IsTaken k (taken now q o).1)
    by_row none e = inl refl
    by_row (some row) e = inr (
      row.id,
      refl,
      record {
        known = (first_claimable-All _ now q.tasks row e h.below).0;
        busy = updated-Busy row.id (started now) q.tasks (λ t. refl);
      },
    )

Member-append : (id : ℕ) (xs ys : List ℕ) → Member id (xs ++ ys) → Member id xs ⊎ Member id ys
Member-append id [] ys m = inr m
Member-append id (x ∷ xs) ys (inl e) = inl (inl e)
Member-append id (x ∷ xs) ys (inr m) = elim (Member-append id xs ys m) [
  | inl a ↦ inl (inr a)
  | inr a ↦ inr a
]

claims-avoid :
    (rs : List QueueRequest) (q : TaskQueue) (id : ℕ) → IsTaken id q → ¬ Member id (claims rs q)
unfolding claims
claims-avoid [] q id h m = m
claims-avoid (r ∷ rest) q id h m = elim (Member-append id (perform r q).0 _ m) [
  | inl a ↦ perform-avoids r q id h a
  | inr a ↦ claims-avoid rest (perform r q).1 id (perform-IsTaken r q id h) a
]

-- From a queue whose rows have ids that were given out, and after any requests of producers and
-- workers in any order: no task is claimed twice.
pub claims-Distinct :
    (rs : List QueueRequest) (q : TaskQueue) → IsNumbered q → Distinct (claims rs q)
unfolding claims
claims-Distinct [] q h = tt
claims-Distinct (r ∷ rest) q h =
    by_claim (perform r q).0 (perform-claims r q h)
      (claims-Distinct rest (perform r q).1 (perform-IsNumbered r q h))
  where
    by_claim :
        (ids : List ℕ)
        → (ids ≡ []) ⊎ ((k : ℕ) × (ids ≡ k ∷ []) × IsTaken k (perform r q).1)
        → Distinct (claims rest (perform r q).1)
        → Distinct (ids ++ claims rest (perform r q).1)
    by_claim ids (inl e) d = subst (λ l. Distinct (l ++ claims rest (perform r q).1)) (sym e) d
    by_claim ids (inr (k, e, t)) d =
        subst (λ l. Distinct (l ++ claims rest (perform r q).1)) (sym e)
          (claims-avoid rest (perform r q).1 k t, d)

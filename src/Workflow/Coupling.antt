-- ===== src/Workflow/Coupling.antt =====
-- A run and its work item move together: the invariant, and the transactions on a running run.
use caps_lock.Prelude.{
  ℕ, ◌≡◌, refl, Bool, true, false, not, Option, none, some, [], ◌∷◌, String, arith, ◌==◌, string_eq,
  eq_iff, mem, Bool-cases, Option-cases, Outcome-cases, inl, inr,
}
use caps_lock.Workflow.Status.{WorkItemStatus, status_eq}
use caps_lock.Workflow.Status.{validate_final_status}
use caps_lock.Workflow.Store.{WorkItem, Run, Workflow, put, append_event, PauseKind}
use caps_lock.Workflow.Transitions.{
  update_item, set_item, touch_item, is_status, can_start, start_run, Ending, finalize,
  finalize_found, pause, pause_status,
}

-- an open run: one that has not ended
abbrev pub is_open : WorkItemStatus → Bool
is_open status =
    mem status
      (WorkItemStatus.running ∷ WorkItemStatus.waiting_approval ∷ WorkItemStatus.waiting_input ∷ [])

abbrev pub has_status : WorkItemStatus → Option WorkItem → Bool
has_status status none = false
has_status status (some w) = w.status == status

pub record Coupled (runs : String → Option Run) (items : String → Option WorkItem) : Type 0 where
  -- the work item of an open run has the status of the run
  pub same :
      (i : String) (r : Run)
      → runs i ≡ some r
      → is_open r.status ≡ true
      → has_status r.status (items r.work_item_id) ≡ true
  -- a work item has one open run at most
  pub one :
      (i j : String) (r q : Run)
      → runs i ≡ some r
      → runs j ≡ some q
      → is_open r.status ≡ true
      → is_open q.status ≡ true
      → r.work_item_id ≡ q.work_item_id
      → i ≡ j

abbrev pub IsCoupled : Workflow → Type 0
IsCoupled s = Coupled s.runs s.work_items

-- A run that is open, and its work item, are set to one status.
move-Coupled :
    (runs : String → Option Run) (items : String → Option WorkItem) (i : String) (r q : Run)
    (w : WorkItem)
    → Coupled runs items
    → runs i ≡ some r
    → is_open r.status ≡ true
    → q.work_item_id ≡ r.work_item_id
    → w.status ≡ q.status
    → Coupled (put i (some q) runs) (put r.work_item_id (some w) items)
move-Coupled runs items i r q w h e o same_item same_status = record {
  same = λ j x f p.
      ground (arith, eq_iff j i, eq_iff x.work_item_id r.work_item_id, h.same j x, h.one j i x r);
  one = λ j k x y f g p q same.
      ground (arith, eq_iff j i, eq_iff k i, h.one j k x y, h.one j i x r, h.one i k r y);
}

module _ (s : Workflow) (i : String) (r q : Run) (f : WorkItem → WorkItem) where
  -- the two UPDATEs that every transaction on an open run makes
  pub moved :
      IsCoupled s
      → s.runs i ≡ some r
      → is_open r.status ≡ true
      → q.work_item_id ≡ r.work_item_id
      → ((w : WorkItem) → (f w).status ≡ q.status)
      → Coupled
          (put i (some q) s.runs)
          (put r.work_item_id (update_item f (s.work_items r.work_item_id)) s.work_items)
  moved h e o same_item set = go (s.work_items r.work_item_id) refl
    where
      go :
          (item : Option WorkItem)
          → s.work_items r.work_item_id ≡ item
          → Coupled (put i (some q) s.runs) (put r.work_item_id (update_item f item) s.work_items)
      go none g = absurd (ground (arith, h.same i r e o, g))
      go (some w) g = move-Coupled s.runs s.work_items i r q (f w) h e o same_item (set w)

-- a new run of a work item that is queued, and so has no open run
begin-Coupled :
    (runs : String → Option Run) (items : String → Option WorkItem) (i item : String) (q : Run)
    (w v : WorkItem)
    → Coupled runs items
    → runs i ≡ none
    → items item ≡ some w
    → (w.status == WorkItemStatus.queued) ≡ true
    → q.work_item_id ≡ item
    → v.status ≡ q.status
    → Coupled (put i (some q) runs) (put item (some v) items)
begin-Coupled runs items i item q w v h e f queued about same_status = record {
  same = λ j x k p. ground (arith, eq_iff j i, eq_iff x.work_item_id item, h.same j x);
  one = λ j k x y a b c d same.
      ground (arith, eq_iff j i, eq_iff k i, h.one j k x y, h.same j x, h.same k y);
}

pub start_run-IsCoupled :
    (i session item question : String) (title parent step : Option String) (now : ℕ) (s : Workflow)
    → IsCoupled s
    → IsCoupled (start_run i session item question title parent step now s).1
unfolding start_run
start_run-IsCoupled i session item question title parent step now s h =
    elim (Option-cases (s.work_items item)) [
      | inl e ↦ rw (start_run, e) h
      | inr (w, e) ↦ elim (Bool-cases (can_start session (some w))) [
        | inl f ↦ elim (Option-cases (s.runs i)) [
          | inl g ↦
              rw (start_run, e, f, g)
                (rw e (
                  begin-Coupled s.runs s.work_items i item _ w
                    (set_item WorkItemStatus.running none now w) h g e (ground (arith, f)) refl
                    refl))
          | inr (r, g) ↦ rw (start_run, e, f, g) h
        ]
        | inr f ↦ rw (start_run, e, f) h
      ]
    ]

pub finalize-IsCoupled :
    (i : String) (e : Ending) (now : ℕ) (s : Workflow)
    → IsCoupled s
    → IsCoupled (finalize i e now s).1
unfolding finalize append_event
finalize-IsCoupled i e now s h = elim (Outcome-cases (validate_final_status e.status)) [
  | inr (x, f) ↦ rw (finalize, f) h
  | inl (u, f) ↦ elim (Option-cases (s.runs i)) [
    | inl g ↦ rw (finalize, f, g) h
    | inr (r, g) ↦ elim (Bool-cases (r.status == WorkItemStatus.running)) [
      | inl k ↦ rw (finalize, f, g, k) (ended r g k)
      | inr k ↦ rw (finalize, f, g, k) h
    ]
  ]
]
  where
    ended :
        (r : Run)
        → s.runs i ≡ some r
        → (r.status == WorkItemStatus.running) ≡ true
        → IsCoupled (finalize_found i e now r s).1
    ended r f g =
        elim (Bool-cases (not (is_status WorkItemStatus.running (s.work_items r.work_item_id)))) [
          | inl k ↦ rw k h
          | inr k ↦ rw k (
              moved s i r _ (set_item e.status e.error_message now) h f (ground (arith, g)) refl
                (λ w. refl))
        ]

pub pause-IsCoupled :
    (i : String) (kind : PauseKind) (now : ℕ) (s : Workflow)
    → IsCoupled s
    → IsCoupled (pause i kind now s).1
unfolding pause append_event
pause-IsCoupled i kind now s h = elim (Option-cases (s.runs i)) [
  | inl g ↦ rw (pause, g) h
  | inr (r, g) ↦ elim (Bool-cases (not (r.status == WorkItemStatus.running))) [
    | inl k ↦ rw (pause, g, k) h
    | inr k ↦
        elim (Bool-cases (not (is_status WorkItemStatus.running (s.work_items r.work_item_id)))) [
          | inl l ↦ rw (pause, g, k, l) h
          | inr l ↦
              rw (pause, g, k, l)
                (moved s i r _ (touch_item (pause_status kind) now) h g (ground (arith, k)) refl
                  (λ w. refl))
        ]
  ]
]

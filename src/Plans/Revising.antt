-- ===== src/Plans/Revising.antt =====
-- `PlanRepository.append_revision` of capslock/storage/repositories/plans.py.
use caps_lock.Prelude.{
  ℕ, suc, Bool, false, not, ◌&&◌, Option, none, some, List, [], ◌∷◌, ◌++◌, map, String,
  if◌then◌else◌, leb, first, keep, any, ◌==◌, string_eq, return, raise, throw,
}
use caps_lock.Table.{update_where}
use caps_lock.Plans.Record.{PlanRecord, PlanRevision, PlanTables, is_draft}
use caps_lock.Plans.Store.{
  Functions, Fresh, Planned, has_plan_id, of_plan, require_revision, not_draft, plan_changed,
  integrity,
}

-- the draft of this id, with its current revision if that is its own
abbrev pub draft_plan : String → PlanRecord → Bool
draft_plan id r = r.id == id && is_draft r.status

abbrev pub is_revision_of : Option String → String → PlanRevision → Bool
is_revision_of none plan r = false
is_revision_of (some id) plan r = r.id == id && r.plan_id == plan

abbrev pub draft_revision : PlanRecord → PlanTables → Option PlanRevision
draft_revision plan s = first (is_revision_of plan.current_revision_id plan.id) s.revisions

abbrev pub largest : List ℕ → ℕ
largest [] = 0
largest (n ∷ ns) = let m = largest ns in if leb n m then m else n

-- coalesce(max(ordinal),0)+1
abbrev pub next_ordinal : String → List PlanRevision → ℕ
next_ordinal plan rows =
    suc (largest (map (λ (r : PlanRevision). r.ordinal) (keep (of_plan plan) rows)))

abbrev pub same_content : String → String → PlanRevision → Bool
same_content plan digest r = r.plan_id == plan && r.sha256 == digest

abbrev pub point_to : String → ℕ → PlanRecord → PlanRecord
point_to revision now p = record p { current_revision_id = some revision; updated_at = now }

-- append_revision, once the draft and its current revision are read; the insert fails on a digest
-- that the plan has already, UNIQUE(plan_id,sha256)
abbrev pub append_current :
    Functions
    → Fresh
    → (plan content expected source : String) (run : Option String) (current : PlanRevision)
    → Planned PlanRevision
append_current fs f plan content expected source run current s =
    if not (current.sha256 == expected)
    then (raise plan_changed, s)
    else if current.sha256 == fs.digest content
    then (return current, s)
    else if any (same_content plan (fs.digest content)) s.revisions
    then (raise integrity, s)
    else let revision : PlanRevision = record {
      id = f.revision_id;
      plan_id = plan;
      ordinal = next_ordinal plan s.revisions;
      content = content;
      sha256 = fs.digest content;
      source = source;
      created_by_run_id = run;
      created_at = f.now;
    } in
      let t = record s {
        revisions = s.revisions ++ revision ∷ [];
        plans = update_where (has_plan_id plan) (point_to f.revision_id f.now) s.plans;
      } in
      (require_revision f.revision_id t, t)

abbrev pub append_found :
    Functions
    → Fresh
    → (plan content expected source : String) (run : Option String) → Option PlanRevision
    → Planned PlanRevision
append_found fs f plan content expected source run none = throw plan_changed
append_found fs f plan content expected source run (some current) =
    append_current fs f plan content expected source run current

abbrev pub append_draft :
    Functions
    → Fresh
    → (plan content expected source : String) (run : Option String) → Option PlanRecord
    → Planned PlanRevision
append_draft fs f plan content expected source run none s = (raise not_draft, s)
append_draft fs f plan content expected source run (some p) s =
    append_found fs f plan content expected source run (draft_revision p s) s

unfoldable pub append_revision :
    Functions
    → Fresh
    → (plan content expected source : String) (run : Option String) → Planned PlanRevision
unfolding update_where require_revision
append_revision fs f plan content expected source run s =
    append_draft fs f plan content expected source run (first (draft_plan plan) s.plans) s

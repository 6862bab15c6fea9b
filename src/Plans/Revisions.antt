-- ===== src/Plans/Revisions.antt =====
-- The revisions of a plan as a log that only grows, and `append_revision` as its one writer.
use mathlib.Core.Path.{subst, ap₂}
use mathlib.Core.List.{map-append}
use caps_lock.Prelude.{
  ◌≤◌, ◌≡◌, refl, sym, ap, ◌∙◌, eq_iff, Bool, true, false, not, Option, none, some, List, [], ◌∷◌,
  ◌++◌, map, String, arith, All, if◌then◌else◌, any, keep, first, first-any, first-none,
  keep-append, Bool-cases, inl, inr, ◌==◌, ==_self, string_eq, Outcome, return, raise,
}
use caps_lock.Table.{
  update_where, row_count, row_count-first, first_unique, first-update_where,
  row_count-update_where, All-append,
}
use caps_lock.Plans.Record.{PlanRecord, PlanRevision, PlanTables}
use caps_lock.Plans.Store.{
  Functions, Fresh, PlanError, not_draft, plan_changed, integrity, has_plan_id, has_revision_id,
  of_plan, require_revision,
}
use caps_lock.Plans.Revising.{
  append_revision, append_draft, append_current, draft_plan, is_revision_of, draft_revision,
  same_content, point_to, next_ordinal,
}

-- The abstract view of a plan: whether it is open to changes, and its contents, the newest last.
pub record PlanLog : Type 0 where
  pub is_open : Bool
  pub contents : List String

abbrev pub last : List String → Option String
last [] = none
last (c ∷ []) = some c
last (c ∷ d ∷ cs) = last (d ∷ cs)

-- a change against the content that was read, by the digest of that
abbrev pub append_newest :
    Functions
    → (content expected : String) → Option String
    → PlanLog
    → Outcome PlanError String × PlanLog
append_newest fs content expected none log = (raise plan_changed, log)
append_newest fs content expected (some newest) log =
    if not (fs.digest newest == expected)
    then (raise plan_changed, log)
    else if fs.digest newest == fs.digest content
    then (return newest, log)
    else if any (λ c. fs.digest c == fs.digest content) log.contents
    then (raise integrity, log)
    else (return content, record log { contents = log.contents ++ content ∷ [] })

-- what a change promises
unfoldable pub append :
    Functions → (content expected : String) → PlanLog → Outcome PlanError String × PlanLog
append fs content expected log =
    if log.is_open
    then append_newest fs content expected (last log.contents) log
    else (raise not_draft, log)

abbrev pub contents_of : String → List PlanRevision → List String
contents_of plan rows = map (λ (r : PlanRevision). r.content) (keep (of_plan plan) rows)

abbrev pub view : String → PlanTables → PlanLog
view plan s = record {
  is_open = any (draft_plan plan) s.plans;
  contents = contents_of plan s.revisions;
}

abbrev pub seen :
    String → Outcome PlanError PlanRevision × PlanTables → Outcome PlanError String × PlanLog
seen plan (return r, t) = (return r.content, view plan t)
seen plan (raise e, t) = (raise e, view plan t)

abbrev Digested : Functions → PlanRevision → Type 0
Digested fs r = r.sha256 ≡ fs.digest r.content

-- the plan has one row, which points to the last of its revisions
pub record IsLogged (fs : Functions) (plan : String) (s : PlanTables) : Type 0 where
  pub row : PlanRecord
  pub found : first (has_plan_id plan) s.plans ≡ some row
  pub unique : row_count (has_plan_id plan) s.plans ≤ 1
  pub older : List PlanRevision
  pub newest : PlanRevision
  pub rows : keep (of_plan plan) s.revisions ≡ older ++ newest ∷ []
  pub current : row.current_revision_id ≡ some newest.id
  pub lookup : first (is_revision_of (some newest.id) plan) s.revisions ≡ some newest
  pub digests : All (Digested fs) (keep (of_plan plan) s.revisions)

last-append : (cs : List String) (c : String) → last (cs ++ c ∷ []) ≡ some c
last-append [] c = refl
last-append (d ∷ []) c = refl
last-append (d ∷ e ∷ cs) c = last-append (e ∷ cs) c

-- a digest that one of the plan's revisions has is the digest of one of its contents
any-digest :
    (fs : Functions) (plan digest : String) (rows : List PlanRevision)
    → All (Digested fs) (keep (of_plan plan) rows)
    → any (same_content plan digest) rows ≡ any (λ c. fs.digest c == digest) (contents_of plan rows)
any-digest fs plan digest [] h = refl
any-digest fs plan digest (r ∷ rows) h = elim (Bool-cases (of_plan plan r)) [
  | inl e ↦
      let k : All (Digested fs) (r ∷ keep (of_plan plan) rows) = rw e at h in
      rw e (ground (arith, k.0, any-digest fs plan digest rows k.1))
  | inr e ↦
      let k : All (Digested fs) (keep (of_plan plan) rows) = rw e at h in
      rw e (any-digest fs plan digest rows k)
]

any-update_where {ℓ} :
    {R : Type ℓ} (q p : R → Bool) (f : R → R)
    → ((r : R) → q (f r) ≡ q r)
    → (rows : List R) → any q (update_where p f rows) ≡ any q rows
unfolding update_where
any-update_where q p f same [] = refl
any-update_where q p f same (r ∷ rows) = ground (arith, same r, any-update_where q p f same rows)

first-new :
    (p : PlanRevision → Bool) (rows : List PlanRevision) (r : PlanRevision)
    → any p rows ≡ false
    → p r ≡ true
    → first p (rows ++ r ∷ []) ≡ some r
first-new p [] r h k = ground arith
first-new p (x ∷ rows) r h k = ground (arith, first-new p rows r)

-- no revision of the id is one of the plan
any-sub :
    (p q : PlanRevision → Bool) (rows : List PlanRevision)
    → ((r : PlanRevision) → q r ≡ true → p r ≡ true)
    → any p rows ≡ false
    → any q rows ≡ false
any-sub p q [] sub h = refl
any-sub p q (r ∷ rows) sub h = ground (arith, sub r, any-sub p q rows sub)

All-last :
    (P : PlanRevision → Type 0) (older : List PlanRevision) (r : PlanRevision)
    → All P (older ++ r ∷ [])
    → P r
All-last P [] r (h, _) = h
All-last P (x ∷ older) r (_, hs) = All-last P older r hs

last-content :
    (older : List PlanRevision) (r : PlanRevision)
    → last (map (λ (x : PlanRevision). x.content) (older ++ r ∷ [])) ≡ some r.content
last-content older r =
    ap last (map-append (λ (x : PlanRevision). x.content) older (r ∷ []))
    ∙ last-append (map (λ (x : PlanRevision). x.content) older) r.content

-- the rows of a plan after a new revision of it
abbrev added :
    Functions → Fresh → (plan content source : String) → Option String → PlanTables → PlanRevision
added fs f plan content source run s = record {
  id = f.revision_id;
  plan_id = plan;
  ordinal = next_ordinal plan s.revisions;
  content = content;
  sha256 = fs.digest content;
  source = source;
  created_by_run_id = run;
  created_at = f.now;
}

abbrev with_revision :
    Functions → Fresh → (plan content source : String) → Option String → PlanTables → PlanTables
with_revision fs f plan content source run s = record s {
  revisions = s.revisions ++ added fs f plan content source run s ∷ [];
  plans = update_where (has_plan_id plan) (point_to f.revision_id f.now) s.plans;
}

module _ (fs : Functions) (f : Fresh) (plan content source : String) (run : Option String)
    (s : PlanTables) (logged : IsLogged fs plan s)
    (fresh : any (has_revision_id f.revision_id) s.revisions ≡ false) where
  revision : PlanRevision
  revision = added fs f plan content source run s

  after : PlanTables
  after = with_revision fs f plan content source run s

  digest-newest : logged.newest.sha256 ≡ fs.digest logged.newest.content
  digest-newest =
      All-last (Digested fs) logged.older logged.newest
        (subst (All (Digested fs)) logged.rows logged.digests)

  last-newest : last (view plan s).contents ≡ some logged.newest.content
  last-newest =
      ap (λ rows. last (map (λ (r : PlanRevision). r.content) rows)) logged.rows
      ∙ last-content logged.older logged.newest

  draft-newest :
      (p : PlanRecord)
      → first (draft_plan plan) s.plans ≡ some p
      → draft_revision p s ≡ some logged.newest
  draft-newest p e =
      let is : some p ≡ some logged.row =
        sym (
          first_unique (draft_plan plan) (has_plan_id plan) (λ r k. ground arith) s.plans p e
            logged.unique)
        ∙ logged.found in
      let same : p ≡ logged.row = cc in
      let id : p.id ≡ plan =
        (eq_iff p.id plan).0 (ground (arith, row_count-first (draft_plan plan) s.plans p e)) in
      let points : p.current_revision_id ≡ some logged.newest.id = rw same logged.current in
      rw (points, id) logged.lookup

  kept : keep (of_plan plan) after.revisions ≡ keep (of_plan plan) s.revisions ++ revision ∷ []
  unfolding after revision
  kept = keep-append (of_plan plan) s.revisions revision (==_self plan)

  view-after :
      view plan after ≡ record (view plan s) { contents = (view plan s).contents ++ content ∷ [] }
  unfolding after revision
  view-after =
      ap₂ (λ o (c : List String). let v : PlanLog = record { is_open = o; contents = c } in v)
        (any-update_where (draft_plan plan) (has_plan_id plan) (point_to f.revision_id f.now)
          (λ r. refl) s.plans)
        (ap (map (λ (r : PlanRevision). r.content)) kept
          ∙ map-append (λ (r : PlanRevision). r.content) (keep (of_plan plan) s.revisions)
              (revision ∷ []))

  IsLogged-after : IsLogged fs plan after
  unfolding after revision
  IsLogged-after = record {
    row = point_to f.revision_id f.now logged.row;
    found =
        first-update_where (has_plan_id plan) (has_plan_id plan) (point_to f.revision_id f.now)
          (λ r. refl) s.plans
        ∙ rw logged.found
            (rw (row_count-first (has_plan_id plan) s.plans logged.row logged.found) refl);
    unique =
        rw
          (row_count-update_where (has_plan_id plan) (has_plan_id plan)
            (point_to f.revision_id f.now) (λ r. refl) s.plans)
          logged.unique;
    older = keep (of_plan plan) s.revisions;
    newest = revision;
    rows = kept;
    current = refl;
    lookup =
        first-new (is_revision_of (some f.revision_id) plan) s.revisions revision
          (any-sub (has_revision_id f.revision_id) (is_revision_of (some f.revision_id) plan)
            s.revisions (λ r k. ground arith) fresh)
          (rw (==_self f.revision_id) (==_self plan));
    digests = subst (All (Digested fs)) (sym kept) (
        All-append (Digested fs) (keep (of_plan plan) s.revisions) (revision ∷ []) logged.digests
          (refl, tt));
  }

  -- the call on the plan's own current revision, against the specification
  append_current-refines :
      (expected : String)
      → (seen plan (append_current fs f plan content expected source run logged.newest s)
          ≡ append_newest fs content expected (some logged.newest.content) (view plan s))
        × IsLogged fs plan (append_current fs f plan content expected source run logged.newest s).1
  unfolding after revision require_revision
  append_current-refines expected =
      let d = digest-newest in
      let repeats = any-digest fs plan (fs.digest content) s.revisions logged.digests in
      let found =
        first-new (has_revision_id f.revision_id) s.revisions revision fresh
          (==_self f.revision_id) in
      elim (Bool-cases (logged.newest.sha256 == expected)) [
        | inr e ↦ rw (← d) (rw e (refl, logged))
        | inl e ↦ elim (Bool-cases (logged.newest.sha256 == fs.digest content)) [
          | inl k ↦ rw (← d) (rw e (rw k (refl, logged)))
          | inr k ↦ elim (Bool-cases (any (same_content plan (fs.digest content)) s.revisions)) [
            | inl m ↦ rw (← d) (rw e (rw k (rw (← repeats) (rw m (refl, logged)))))
            | inr m ↦ rw (← d) (
                rw e (
                  rw k (
                    rw (← repeats) (
                      rw m (rw found (ap (λ v. (return content, v)) view-after, IsLogged-after))))))
          ]
        ]
      ]

  append-open :
      (content expected : String) (log : PlanLog)
      → log.is_open ≡ true
      → append fs content expected log ≡ append_newest fs content expected (last log.contents) log
  unfolding append
  append-open content expected log h = ground (arith, h)

  open_draft :
      (o : Option PlanRecord)
      → first (draft_plan plan) s.plans ≡ o
      → (expected : String)
      → (seen plan (append_draft fs f plan content expected source run o s)
          ≡ append fs content expected (view plan s))
        × IsLogged fs plan (append_draft fs f plan content expected source run o s).1
  unfolding append
  open_draft none e expected = rw (first-none (draft_plan plan) s.plans e) (refl, logged)
  open_draft (some p) e expected =
      let opened =
        append-open content expected (view plan s) (first-any (draft_plan plan) s.plans p e)
        ∙ ap (λ newest. append_newest fs content expected newest (view plan s)) last-newest in
      rw (draft-newest p e) (rw opened (append_current-refines expected))

  -- `append_revision` implements the append-only log: on a plan that has one row, which points to the
  -- last of its revisions, and with a new id, the call returns or raises as the log says, leaves
  -- the contents that the log has (none changed, at most the new one added at the end, and only
  -- against the content that was read), returns the newest content, and the plan's row points to
  -- the last revision again.
  pub append_revision-refines :
      (expected : String)
      → (seen plan (append_revision fs f plan content expected source run s)
          ≡ append fs content expected (view plan s))
        × IsLogged fs plan (append_revision fs f plan content expected source run s).1
  unfolding append_revision
  append_revision-refines expected = open_draft (first (draft_plan plan) s.plans) refl expected

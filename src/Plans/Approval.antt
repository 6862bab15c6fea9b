-- ===== src/Plans/Approval.antt =====
-- What is implemented is what the user approved, whatever calls are made.
pub mod Histories
pub mod Cancelled
use mathlib.Core.Option
use mathlib.Core.Path.{subst}
use caps_lock.Prelude.{
  ℕ, suc, ◌+◌, ◌≤◌, ◌≡◌, refl, sym, ap, ◌∙◌, eq_iff, Bool, true, false, ◌&&◌, Option, none, some,
  List, [], ◌∷◌, ◌++◌, String, arith, All, if◌then◌else◌, any, first, Bool-cases, Option-cases, inl,
  inr, ◌==◌, ==_self, string_eq, Outcome, return, raise, nat_eq,
}
use caps_lock.Table.{
  update_where, row_count, All-update_where, All-append, All-first, first-update_where,
  row_count-update_where, row_count-first, row_count_unique, first_unique, row_count-append,
  row_count-absent, first-append, row_count-pos,
}
use caps_lock.Plans.Record.{
  PlanRequestKind, PlanRequestStatus, PlanApprovalChoice, enter, implement, feedback, reject,
  RunOutcome, PlanRecord, PlanRevision, PlanRequest, PlanImplementation, PlanTables,
}
use caps_lock.Plans.Store.{Functions, Fresh, create, has_request_id, require_request}
use caps_lock.Plans.Revising.{
  append_revision, append_draft, append_found, append_current, draft_revision,
}
use caps_lock.Plans.Requesting.{
  create_enter_request, insert_request, submit, submit_draft, submit_found, decide, decide_found,
  decide_request, answered, cancel, pending_request,
}
use caps_lock.Plans.Implementing.{
  ensure_implementation, ensure_found, joined, existing, implement_request, mark_implementation_run,
  finish_implementation, finish_found, approved_request, find_plan, find_revision,
  new_implementation,
}

-- the request is an approved submission, of the implementation's plan and revision
pub record Backs (r : PlanRequest) (i : PlanImplementation) : Type 0 where
  pub approved : approved_request i.request_id r ≡ true
  pub same_plan : r.plan_id ≡ some i.plan_id
  pub same_revision : r.revision_id ≡ some i.revision_id

abbrev pub IsBacked : List PlanRequest → PlanImplementation → Type 0
IsBacked requests i =
    (r : PlanRequest) × (first (has_request_id i.request_id) requests ≡ some r) × Backs r i

-- the requests have a primary key, and each implementation is backed by a request
pub record IsApproved (s : PlanTables) : Type 0 where
  pub keyed : (id : String) → row_count (has_request_id id) s.requests ≤ 1
  pub backed : All (IsBacked s.requests) s.implementations

pub IsBacked-append :
    (requests : List PlanRequest) (r : PlanRequest) (i : PlanImplementation)
    → IsBacked requests i
    → IsBacked (requests ++ r ∷ []) i
IsBacked-append requests r i (q, found, b) =
    (q, first-append (has_request_id i.request_id) requests r q found, b)

pub All-map {ℓ κ μ} :
    {A : Type ℓ} (P : A → Type κ) (Q : A → Type μ) (xs : List A)
    → ((x : A) → P x → Q x)
    → All P xs
    → All Q xs
All-map P Q [] f h = tt
All-map P Q (x ∷ xs) f (h, hs) = (f x h, All-map P Q xs f hs)

-- a new request, which the key admits
keyed-append :
    (requests : List PlanRequest) (r : PlanRequest)
    → ((id : String) → row_count (has_request_id id) requests ≤ 1)
    → any (has_request_id r.id) requests ≡ false
    → (id : String) → row_count (has_request_id id) (requests ++ r ∷ []) ≤ 1
keyed-append requests r keyed absent id = elim (Bool-cases (r.id == id)) [
  | inl e ↦
      let same : r.id ≡ id = (eq_iff r.id id).0 e in
      ground (
        arith,
        row_count-append (has_request_id id) requests r,
        row_count-absent (has_request_id r.id) requests absent,
        same,
      )
  | inr e ↦ ground (arith, row_count-append (has_request_id id) requests r, keyed id, e)
]

pub insert_request-IsApproved :
    (r : PlanRequest) (t s : PlanTables)
    → t.requests ≡ s.requests
    → t.implementations ≡ s.implementations
    → IsApproved s
    → IsApproved (insert_request r t s).1
insert_request-IsApproved r t s e k h = elim (Bool-cases (any (has_request_id r.id) s.requests)) [
  | inl there ↦ rw there h
  | inr absent ↦ rw absent (record {
    keyed = λ id. rw e (keyed-append s.requests r h.keyed absent id);
    backed = rw (e, k) (All-map _ _ s.implementations (IsBacked-append s.requests r) h.backed);
  })
]

has_id→eq : (id : String) (r : PlanRequest) → has_request_id id r ≡ true → r.id ≡ id
has_id→eq id r h = (eq_iff r.id id).0 h

not-pending-approved :
    {A : Type 0} (request id : String) (r : PlanRequest)
    → pending_request request r ≡ true
    → approved_request id r ≡ true
    → A
not-pending-approved request id r h k = absurd (ground arith)

-- a pending request is no request that backs an implementation
pending-apart :
    (requests : List PlanRequest) (request : String) (q r : PlanRequest) (i : PlanImplementation)
    → ((id : String) → row_count (has_request_id id) requests ≤ 1)
    → first (pending_request request) requests ≡ some r
    → first (has_request_id i.request_id) requests ≡ some q
    → Backs q i
    → (q.id == r.id) ≡ false
pending-apart requests request q r i keyed found at b = elim (Bool-cases (q.id == r.id)) [
  | inr e ↦ e
  | inl e ↦
      let met = row_count-first (pending_request request) requests r found in
      let r_id : r.id ≡ request = has_id→eq request r (ground arith) in
      let q_id : q.id ≡ i.request_id =
        has_id→eq i.request_id q (row_count-first (has_request_id i.request_id) requests q at) in
      let same : q.id ≡ r.id = (eq_iff q.id r.id).0 e in
      let key : i.request_id ≡ request = cc in
      let only : first (has_request_id request) requests ≡ some r =
        first_unique (pending_request request) (has_request_id request) (λ x k. ground arith)
          requests r found (keyed request) in
      let is : some q ≡ some r =
        sym at ∙ (ap (λ id. first (has_request_id id) requests) key ∙ only) in
      let one : q ≡ r = cc in
      not-pending-approved request i.request_id r met
        (subst (λ x. approved_request i.request_id x ≡ true) one b.approved)
]

-- an answer to a pending request leaves every implementation backed
IsBacked-answer :
    (requests : List PlanRequest) (request : String) (r : PlanRequest)
    (f : PlanRequest → PlanRequest)
    → ((q : PlanRequest) → (f q).id ≡ q.id)
    → ((id : String) → row_count (has_request_id id) requests ≤ 1)
    → first (pending_request request) requests ≡ some r
    → (i : PlanImplementation) → IsBacked requests i
    → IsBacked (update_where (has_request_id r.id) f requests) i
IsBacked-answer requests request r f same keyed found i (q, at, b) =
    let apart = pending-apart requests request q r i keyed found at b in
    (
      q,
      first-update_where (has_request_id i.request_id) (has_request_id r.id) f
            (λ x. ap (λ id. id == i.request_id) (same x)) requests
          ∙ rw at (rw apart refl),
      b,
    )

pub answer-IsApproved :
    (s t : PlanTables) (request : String) (r : PlanRequest) (f : PlanRequest → PlanRequest)
    → ((q : PlanRequest) → (f q).id ≡ q.id)
    → first (pending_request request) s.requests ≡ some r
    → t.requests ≡ update_where (has_request_id r.id) f s.requests
    → t.implementations ≡ s.implementations
    → IsApproved s
    → IsApproved t
answer-IsApproved s t request r f same found e k h = record {
  keyed = λ id.
      rw
        (
          e,
          row_count-update_where (has_request_id id) (has_request_id r.id) f
              (λ x. ap (λ a. a == id) (same x)) s.requests,
        )
        (h.keyed id);
  backed =
      rw (e, k)
        (All-map _ _ s.implementations (IsBacked-answer s.requests request r f same h.keyed found)
          h.backed);
}

-- the tables of requests and implementations are left alone
pub untouched-IsApproved :
    (s t : PlanTables)
    → t.requests ≡ s.requests
    → t.implementations ≡ s.implementations
    → IsApproved s
    → IsApproved t
untouched-IsApproved s t e k h = record {
  keyed = λ id. rw e (h.keyed id);
  backed = rw (e, k) h.backed;
}

-- the implementations are changed in other fields
abbrev pub KeepsNames : (PlanImplementation → PlanImplementation) → Type 0
KeepsNames f =
    (i : PlanImplementation)
    → ((f i).request_id ≡ i.request_id)
      × ((f i).plan_id ≡ i.plan_id)
      × ((f i).revision_id ≡ i.revision_id)

IsBacked-rename :
    (requests : List PlanRequest) (f : PlanImplementation → PlanImplementation)
    → KeepsNames f
    → (i : PlanImplementation) → IsBacked requests i
    → IsBacked requests (f i)
IsBacked-rename requests f keeps i (q, at, b) =
    let (request, plan, revision) = keeps i in
    (
      q,
      ap (λ id. first (has_request_id id) requests) request ∙ at,
      record {
        approved = rw request b.approved;
        same_plan = rw plan b.same_plan;
        same_revision = rw revision b.same_revision;
      },
    )

pub update-IsApproved :
    (s t : PlanTables) (p : PlanImplementation → Bool) (f : PlanImplementation → PlanImplementation)
    → KeepsNames f
    → t.requests ≡ s.requests
    → t.implementations ≡ update_where p f s.implementations
    → IsApproved s
    → IsApproved t
update-IsApproved s t p f keeps e k h = record {
  keyed = λ id. rw e (h.keyed id);
  backed =
      rw (e, k)
        (All-update_where (IsBacked s.requests) p f
          (λ i b _. IsBacked-rename s.requests f keeps i b) s.implementations h.backed);
}

-- ===== src/Permissions/Journal/Grants.antt =====
-- An approval can be used once: what any sequence of the journal's calls makes of its grants.
use caps_lock.Prelude.{
  ℕ, ◌+◌, ◌≤◌, ◌≡◌, ap, Bool, true, false, ◌&&◌, Option, some, List, [], ◌∷◌, String, arith,
  if◌then◌else◌, first, eq_iff, ◌==◌, string_eq, Outcome, return, raise, Bool-cases, inl, inr,
}
use caps_lock.Table.{update_where, row_count, update_where_none, row_count_mono, row_count-first}
use caps_lock.Permissions.Journal.{
  RequestStatus, approved, ApprovalChoice, Subject, PermissionRequest, PermissionGrant, RuleRow,
  DecisionRow, Journal, same_subject, is_pending, is_unconsumed, has_request_id, has_grant_id,
  is_usable, consume, target, decided_row, is_open_request, is_request_of,
  record_permission_decision, add_session_permission_rule, remove_session_permission_rule,
  set_permission_setting, create_permission_request, decide_permission_request,
  complete_permission_request, consume_permission_grant,
}

pub data JournalCall : Type 0 where
  record_decision : DecisionRow → JournalCall
  add_rule : RuleRow → JournalCall
  remove_rule : (session_id identifier : String) → JournalCall
  set_setting : (key value : String) → JournalCall
  create_request :
      (identifier : String) → Subject → (reason suggestions : String) → (now : ℕ) → JournalCall
  decide_request :
      (identifier session_id : String)
      → ApprovalChoice
      → (selected feedback : Option String) → (grant_id : String) → (now : ℕ) → JournalCall
  complete_request : (identifier session_id result : String) → JournalCall
  consume_grant : Subject → (now : ℕ) → JournalCall

abbrev pub is_yes : {E : Type 0} → Outcome E Bool → Bool
is_yes (return b) = b
is_yes (raise e) = false

-- the journal after a call
unfoldable pub after_call : JournalCall → Journal → Journal
unfolding record_permission_decision add_session_permission_rule remove_session_permission_rule
    set_permission_setting create_permission_request decide_permission_request
    complete_permission_request consume_permission_grant
after_call (record_decision row) s = (record_permission_decision row s).1
after_call (add_rule row) s = (add_session_permission_rule row s).1
after_call (remove_rule session i) s = (remove_session_permission_rule session i s).1
after_call (set_setting key value) s = (set_permission_setting key value s).1
after_call (create_request i subject reason suggestions now) s =
    (create_permission_request i subject reason suggestions now s).1
after_call (decide_request i session choice selected feedback grant_id now) s =
    (decide_permission_request i session choice selected feedback grant_id now s).1
after_call (complete_request i session result) s =
    (complete_permission_request i session result s).1
after_call (consume_grant subject now) s = (consume_permission_grant subject now s).1

-- whether a call used a grant for a subject
unfoldable pub used_by : Subject → JournalCall → Journal → ℕ
unfolding consume_permission_grant
used_by subject (consume_grant other now) s =
    if same_subject other subject && is_yes (consume_permission_grant other now s).0 then 1 else 0
used_by subject _ s = 0

unfoldable pub uses : Subject → List JournalCall → Journal → ℕ
unfolding used_by after_call
uses subject [] s = 0
uses subject (c ∷ calls) s = used_by subject c s + uses subject calls (after_call c s)

unfoldable pub replay : List JournalCall → Journal → Journal
unfolding after_call
replay [] s = s
replay (c ∷ calls) s = replay calls (after_call c s)

abbrev pub is_approved : RequestStatus → Bool
is_approved approved = true
is_approved _ = false

abbrev pub approved_for : Subject → PermissionRequest → Bool
approved_for subject r = same_subject r.subject subject && is_approved r.status

abbrev pub usable : Subject → Journal → ℕ
usable subject s = row_count (is_usable subject) s.grants

abbrev pub approvals : Subject → Journal → ℕ
approvals subject s = row_count (approved_for subject) s.requests

-- the primary keys
pub record IsKeyed (s : Journal) : Type 0 where
  pub request_key : (i : String) → row_count (has_request_id i) s.requests ≤ 1
  pub grant_key : (i : String) → row_count (has_grant_id i) s.grants ≤ 1

pub same_subject_iff :
    (a b c : Subject) → same_subject a b ≡ true → same_subject a c ≡ same_subject b c
same_subject_iff a b c h = ground (
  arith,
  eq_iff a.session_id b.session_id,
  eq_iff a.run_id b.run_id,
  eq_iff a.invocation_id b.invocation_id,
  eq_iff a.tool b.tool,
  eq_iff a.arguments_sha256 b.arguments_sha256,
)

pub same_subject_self : (a : Subject) → same_subject a a ≡ true
same_subject_self a = ground (
  arith,
  eq_iff a.session_id a.session_id,
  eq_iff a.run_id a.run_id,
  eq_iff a.invocation_id a.invocation_id,
  eq_iff a.tool a.tool,
  eq_iff a.arguments_sha256 a.arguments_sha256,
)

same-nothing :
    (q p : PermissionGrant → Bool) (f : PermissionGrant → PermissionGrant)
    (grants : List PermissionGrant)
    → row_count p grants ≡ 0
    → row_count q (update_where p f grants) ≡ row_count q grants
same-nothing q p f grants h = ap (row_count q) (update_where_none p f grants h)

abbrev pub picks : String → PermissionGrant → Bool
picks i g = g.id == i && is_unconsumed g

-- the update of a row that is the only one with its id
abbrev pub IsOneUse : Subject → Subject → ℕ → PermissionGrant → List PermissionGrant → Type 0
IsOneUse subject other now row grants =
    (row_count (picks row.id) grants ≡ 1)
    × (row_count (is_usable subject) (update_where (picks row.id) (consume now) grants)
          + (if same_subject other subject then 1 else 0)
        ≡ row_count (is_usable subject) grants)

-- The row that the SELECT finds is the one that the UPDATE writes: by the key, just one.
pub consume-row :
    (subject other : Subject) (now : ℕ) (row : PermissionGrant) (grants : List PermissionGrant)
    → first (is_usable other) grants ≡ some row
    → row_count (has_grant_id row.id) grants ≤ 1
    → IsOneUse subject other now row grants
unfolding row_count update_where
consume-row subject other now row [] e k = ground arith
consume-row subject other now row (g ∷ grants) e k = elim (Bool-cases (is_usable other g)) [
  | inl h ↦ here h
  | inr h ↦ ground (
    arith,
    consume-row subject other now row grants,
    row_count_mono (picks row.id) (has_grant_id row.id) (λ x. ground arith) grants,
  )
]
  where
    here : is_usable other g ≡ true → IsOneUse subject other now row (g ∷ grants)
    here h =
        let is : g ≡ row = ground arith in
        let none_more : row_count (picks row.id) grants ≡ 0 = ground (
          arith,
          eq_iff row.id row.id,
          row_count_mono (picks row.id) (has_grant_id row.id) (λ x. ground arith) grants,
        ) in
        ground (
          arith,
          eq_iff row.id row.id,
          same_subject_iff g.subject other subject,
          same-nothing (is_usable subject) (picks row.id) (consume now) grants none_more,
        )

abbrev pub IsOneDecision :
    Subject
    → String
    → ApprovalChoice
    → (selected feedback : Option String) → ℕ
    → PermissionRequest
    → List PermissionRequest
    → Type 0
IsOneDecision subject session choice selected feedback now r requests =
    row_count (approved_for subject) (
      update_where (is_open_request r.id session) (decided_row choice selected feedback now)
        requests)
    ≡ row_count (approved_for subject) requests
      + (if same_subject r.subject subject && is_approved (target choice) then 1 else 0)

-- a decision makes of the request that it found an approved one, when it approves
pub decide-row :
    (subject : Subject) (identifier session : String) (choice : ApprovalChoice)
    (selected feedback : Option String) (now : ℕ) (r : PermissionRequest)
    (requests : List PermissionRequest)
    → first (is_request_of identifier session) requests ≡ some r
    → is_pending r.status ≡ true
    → row_count (has_request_id r.id) requests ≤ 1
    → IsOneDecision subject session choice selected feedback now r requests
unfolding row_count update_where
decide-row subject identifier session choice selected feedback now r [] e p k = ground arith
decide-row subject identifier session choice selected feedback now r (x ∷ requests) e p k =
    elim (Bool-cases (is_request_of identifier session x)) [
      | inl h ↦ here h
      | inr h ↦
          let found : first (is_request_of identifier session) requests ≡ some r = ground arith in
          ground (
            arith,
            decide-row subject identifier session choice selected feedback now r requests,
            row_count-first (is_request_of identifier session) requests r found,
            eq_iff r.id identifier,
          )
    ]
  where
    here :
        is_request_of identifier session x ≡ true
        → IsOneDecision subject session choice selected feedback now r (x ∷ requests)
    here h =
        let is : x ≡ r = ground arith in
        let none_more : row_count (is_open_request r.id session) requests ≡ 0 = ground (
          arith,
          eq_iff r.id r.id,
          row_count_mono (is_open_request r.id session) (has_request_id r.id) (λ y. ground arith)
              requests,
        ) in
        ground (
          arith,
          eq_iff r.id r.id,
          ap (row_count (approved_for subject)) (
              update_where_none (is_open_request r.id session)
                (decided_row choice selected feedback now) requests none_more),
        )

-- ===== src/Permissions/Journal/Balance.antt =====
-- The balance of approvals and uses, call by call, and over any sequence of calls.
use caps_lock.Prelude.{
  ℕ, ◌+◌, ◌≤◌, ◌≡◌, refl, Bool, true, not, ◌&&◌, Option, none, some, List, [], ◌∷◌, ◌++◌, String,
  arith, if◌then◌else◌, nat_eq, first, eq_iff, string_eq, Bool-cases, inl, inr,
}
use caps_lock.Table.{update_where, row_count, row_count-update_where}
use caps_lock.Permissions.Journal.{
  same_subject, new_request, RequestStatus, ApprovalChoice, Subject, PermissionRequest,
  PermissionGrant, Journal, is_pending, has_request_id, has_grant_id, is_usable, consume,
  consume_found, target, decided_row, new_grant, insert_grant, is_open_request, is_request_of,
  is_decided_request, commit_decision, decide_found, create_permission_request, permission_request,
  decide_permission_request, complete_permission_request, consume_permission_grant,
  remove_session_permission_rule, record_permission_decision, add_session_permission_rule,
  set_permission_setting,
}
use caps_lock.Permissions.Journal.Grants.{
  JournalCall, record_decision, add_rule, remove_rule, set_setting, create_request, decide_request,
  complete_request, consume_grant, after_call, used_by, uses, replay, approved_for, is_approved,
  usable, approvals, IsKeyed, picks, consume-row, decide-row, is_yes,
}

counted-append :
    {R : Type 0} (p : R → Bool) (rows : List R) (r : R)
    → row_count p (rows ++ r ∷ []) ≡ row_count p rows + (if p r then 1 else 0)
unfolding row_count
counted-append p [] r = ground arith
counted-append p (x ∷ rows) r = ground (arith, counted-append p rows r)

-- what every call keeps, and the balance that it strikes
record IsBalanced (subject : Subject) (used : ℕ) (s t : Journal) : Type 0 where
  keyed : IsKeyed t
  balance : used + usable subject t + approvals subject s ≡ usable subject s + approvals subject t

same-IsBalanced :
    (subject : Subject) (s t : Journal)
    → s.requests ≡ t.requests
    → s.grants ≡ t.grants
    → IsKeyed s
    → IsBalanced subject 0 s t
same-IsBalanced subject s t e f k = record {
  keyed = record {
    request_key = λ i. rw⁻¹ e (k.request_key i);
    grant_key = λ i. rw⁻¹ f (k.grant_key i);
  };
  balance = rw e (rw f (omega arith));
}

create_request-IsBalanced :
    (subject : Subject) (i : String) (about : Subject) (reason suggestions : String) (now : ℕ)
    (s : Journal)
    → IsKeyed s
    → IsBalanced subject 0 s (create_permission_request i about reason suggestions now s).1
unfolding create_permission_request
create_request-IsBalanced subject i about reason suggestions now s k =
    elim (Bool-cases (nat_eq (row_count (has_request_id i) s.requests) 0)) [
      | inl e ↦ rw e (record {
        keyed = record {
          request_key = λ j. ground (
            arith,
            k.request_key j,
            eq_iff i j,
            counted-append (has_request_id j) s.requests
                (new_request i about reason suggestions now),
          );
          grant_key = k.grant_key;
        };
        balance = ground (
          arith,
          counted-append (approved_for subject) s.requests
              (new_request i about reason suggestions now),
        );
      })
      | inr e ↦ rw e (same-IsBalanced subject s s refl refl k)
    ]

consume-IsBalanced :
    (subject other : Subject) (now : ℕ) (s : Journal)
    → IsKeyed s
    → IsBalanced subject
        (used_by subject (consume_grant other now) s)
        s
        (consume_permission_grant other now s).1
unfolding consume_permission_grant used_by
consume-IsBalanced subject other now s k = go (first (is_usable other) s.grants) refl
  where
    go :
        (row : Option PermissionGrant)
        → first (is_usable other) s.grants ≡ row
        → IsBalanced subject
            (if same_subject other subject && is_yes (consume_found now row s).0 then 1 else 0)
            s
            (consume_found now row s).1
    go none e = record { keyed = k; balance = ground arith }
    go (some row) e =
        let one = consume-row subject other now row s.grants e (k.grant_key row.id) in
        record {
          keyed = record {
            request_key = k.request_key;
            grant_key = λ i. ground (
              arith,
              k.grant_key i,
              row_count-update_where (has_grant_id i) (picks row.id) (consume now) (λ g. refl)
                  s.grants,
            );
          };
          balance = ground (arith, one);
        }

decide-IsBalanced :
    (subject : Subject) (i session : String) (choice : ApprovalChoice)
    (selected feedback : Option String) (grant_id : String) (now : ℕ) (s : Journal)
    → IsKeyed s
    → IsBalanced subject 0 s
        (decide_permission_request i session choice selected feedback grant_id now s).1
unfolding decide_permission_request permission_request
decide-IsBalanced subject i session choice selected feedback grant_id now s k =
    go (first (is_request_of i session) s.requests) refl
  where
    inserted :
        (st : RequestStatus) (r : PermissionRequest)
        → row_count (has_grant_id grant_id) s.grants ≡ 0
        → ((j : String) → row_count (has_grant_id j) (insert_grant st grant_id r now s.grants) ≤ 1)
          × (row_count (is_usable subject) (insert_grant st grant_id r now s.grants)
              ≡ usable subject s
                + (if same_subject r.subject subject && is_approved st then 1 else 0))
    inserted st r e =
        let g = new_grant grant_id r now in
        (
          λ j.
              ground (
                arith,
                k.grant_key j,
                eq_iff grant_id j,
                counted-append (has_grant_id j) s.grants g,
              ),
          ground (arith, counted-append (is_usable subject) s.grants g),
        )

    stored :
        (r : PermissionRequest)
        → first (is_request_of i session) s.requests ≡ some r
        → is_pending r.status ≡ true
        → row_count (has_grant_id grant_id) s.grants ≡ 0
        → IsBalanced subject 0 s (record s {
          requests =
              update_where
                (is_open_request r.id session)
                (decided_row choice selected feedback now)
                s.requests;
          grants = insert_grant (target choice) grant_id r now s.grants;
        })
    stored r e p fresh =
        let new = inserted (target choice) r fresh in
        record {
          keyed = record {
            request_key = λ j. ground (
              arith,
              k.request_key j,
              row_count-update_where (has_request_id j) (is_open_request r.id session)
                  (decided_row choice selected feedback now) (λ x. refl) s.requests,
            );
            grant_key = new.0;
          };
          balance = omega (
            arith,
            new.1,
            decide-row subject i session choice selected feedback now r s.requests e p
                (k.request_key r.id),
          );
        }

    commit :
        (r : PermissionRequest)
        → first (is_request_of i session) s.requests ≡ some r
        → is_pending r.status ≡ true
        → IsBalanced subject 0 s
            (commit_decision choice selected feedback grant_id now session r s).1
    commit r e p =
        let test = is_open_request r.id session in
        elim (Bool-cases (nat_eq (row_count test s.requests) 0)) [
          | inl f ↦ rw f (same-IsBalanced subject s s refl refl k)
          | inr f ↦
              elim (Bool-cases (not (nat_eq (row_count (has_grant_id grant_id) s.grants) 0))) [
                | inl g ↦ rw f (rw g (same-IsBalanced subject s s refl refl k))
                | inr g ↦ rw f (rw g (stored r e p (ground arith)))
              ]
        ]

    go :
        (found : Option PermissionRequest)
        → first (is_request_of i session) s.requests ≡ found
        → IsBalanced subject 0 s
            (decide_found choice selected feedback grant_id now session found s).1
    go none e = same-IsBalanced subject s s refl refl k
    go (some r) e = elim (Bool-cases (is_pending r.status)) [
      | inl p ↦ rw p (commit r e p)
      | inr p ↦ rw p (same-IsBalanced subject s s refl refl k)
    ]

complete-IsBalanced :
    (subject : Subject) (i session result : String) (s : Journal)
    → IsKeyed s
    → IsBalanced subject 0 s (complete_permission_request i session result s).1
unfolding complete_permission_request
complete-IsBalanced subject i session result s k =
    let test = is_decided_request i session in
    elim (Bool-cases (nat_eq (row_count test s.requests) 0)) [
      | inl e ↦ rw e (same-IsBalanced subject s s refl refl k)
      | inr e ↦ rw e (record {
        keyed = record {
          request_key = λ j. ground (
            arith,
            k.request_key j,
            row_count-update_where (has_request_id j) test (λ r. record r { result = some result })
                (λ r. refl) s.requests,
          );
          grant_key = k.grant_key;
        };
        balance = ground (
          arith,
          row_count-update_where (approved_for subject) test
              (λ r. record r { result = some result }) (λ r. refl) s.requests,
        );
      })
    ]

remove_rule-IsBalanced :
    (subject : Subject) (session i : String) (s : Journal)
    → IsKeyed s
    → IsBalanced subject 0 s (remove_session_permission_rule session i s).1
unfolding remove_session_permission_rule
remove_rule-IsBalanced subject session i s k =
    same-IsBalanced subject s (remove_session_permission_rule session i s).1 (ground arith)
      (ground arith) k

call-IsBalanced :
    (subject : Subject) (c : JournalCall) (s : Journal)
    → IsKeyed s
    → IsBalanced subject (used_by subject c s) s (after_call c s)
unfolding after_call used_by record_permission_decision add_session_permission_rule
    set_permission_setting
call-IsBalanced subject (record_decision row) s k = same-IsBalanced subject s _ refl refl k
call-IsBalanced subject (add_rule row) s k = same-IsBalanced subject s _ refl refl k
call-IsBalanced subject (remove_rule session i) s k = remove_rule-IsBalanced subject session i s k
call-IsBalanced subject (set_setting key value) s k = same-IsBalanced subject s _ refl refl k
call-IsBalanced subject (create_request i about reason suggestions now) s k =
    create_request-IsBalanced subject i about reason suggestions now s k
call-IsBalanced subject (decide_request i session choice selected feedback grant_id now) s k =
    decide-IsBalanced subject i session choice selected feedback grant_id now s k
call-IsBalanced subject (complete_request i session result) s k =
    complete-IsBalanced subject i session result s k
call-IsBalanced subject (consume_grant other now) s k = consume-IsBalanced subject other now s k

-- Over any sequence of the journal's calls: the grants of a subject that were used, and those that
-- can still be used, are together the grants that could be used before and the requests for the
-- subject that were approved since. So an approval is used at most once, and only for the session,
-- run, invocation, tool and arguments that were approved.
pub uses_balance :
    (subject : Subject) (calls : List JournalCall) (s : Journal)
    → IsKeyed s
    → uses subject calls s + usable subject (replay calls s) + approvals subject s
      ≡ usable subject s + approvals subject (replay calls s)
unfolding uses replay
uses_balance subject [] s k = omega arith
uses_balance subject (c ∷ calls) s k =
    let now = call-IsBalanced subject c s k in
    omega (arith, now.balance, uses_balance subject calls (after_call c s) now.keyed)

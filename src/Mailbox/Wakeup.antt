-- ===== src/Mailbox/Wakeup.antt =====
-- capslock/collaboration/wakeup.py: versioned notifications. A `_MailboxState` is an object that
-- the table and the tasks that wait share, so the registry is a heap of such objects, each under
-- its generation, and a table from mailboxes to generations. Code between two awaits that suspend
-- is one step: the event loop has a single thread. An `asyncio.Condition` is the count of the
-- notify_all calls on it: a task that waits on it sleeps until that count has grown, and then tests
-- at once what it waits for.
pub mod Revisions
pub mod Waiting
use caps_lock.Prelude.{
  ℕ, suc, ◌+◌, Bool, true, false, not, ◌&&◌, ◌||◌, Option, none, some, List, [], ◌∷◌, String,
  if◌then◌else◌, ◌==◌, string_eq, number_eq,
}

pub record MailboxSnapshot : Type 0 where
  pub revision : ℕ
  pub actionable_revision : ℕ
  pub closed : Bool
  pub generation : ℕ

-- class _MailboxState
pub record MailboxState : Type 0 where
  pub generation : ℕ
  pub revision : ℕ
  pub actionable_revision : ℕ
  pub closed : Bool
  pub consumed_revision : ℕ
  -- how often condition.notify_all() was called
  pub notified : ℕ

abbrev pub state_snapshot : MailboxState → MailboxSnapshot
state_snapshot state = record {
  revision = state.revision;
  actionable_revision = state.actionable_revision;
  closed = state.closed;
  generation = state.generation;
}

pub record Registry : Type 0 where
  pub table : String → Option ℕ
  pub objects : ℕ → MailboxState
  pub generation : ℕ

abbrev pub new_state : ℕ → MailboxState
new_state generation = record {
  generation = generation;
  revision = 0;
  actionable_revision = 0;
  closed = false;
  consumed_revision = 0;
  notified = 0;
}

abbrev pub empty : Registry
empty = record { table = λ key. none; objects = new_state; generation = 0 }

-- self._states[key] = state, and an assignment to an object's fields
abbrev pub put_key : String → Option ℕ → (String → Option ℕ) → String → Option ℕ
put_key key value table k = if k == key then value else table k

abbrev pub put_object : ℕ → MailboxState → (ℕ → MailboxState) → ℕ → MailboxState
put_object g state objects h = if h == g then state else objects h

-- a state that is not there, or closed, is replaced by one of a new generation
abbrev renew : String → Registry → MailboxSnapshot × Registry
renew key r =
    let g = r.generation + 1 in
    (
      state_snapshot (new_state g),
      record r {
        table = put_key key (some g) r.table;
        objects = put_object g (new_state g) r.objects;
        generation = g;
      },
    )

abbrev register_at : Option ℕ → String → Registry → MailboxSnapshot × Registry
register_at none key r = renew key r
register_at (some g) key r =
    if (r.objects g).closed then renew key r else (state_snapshot (r.objects g), r)

unfoldable pub register : String → Registry → MailboxSnapshot × Registry
register key r = register_at (r.table key) key r

abbrev snapshot_at : Option ℕ → Registry → Option MailboxSnapshot
snapshot_at none r = none
snapshot_at (some g) r = some (state_snapshot (r.objects g))

unfoldable pub snapshot : String → Registry → Option MailboxSnapshot
snapshot key r = snapshot_at (r.table key) r

-- `expected_revision is not None and state.revision != expected_revision`
abbrev differs : Option ℕ → ℕ → Bool
differs none revision = false
differs (some expected) revision = not (revision == expected)

-- condition.notify_all()
abbrev pub notify_all : MailboxState → MailboxState
notify_all state = record state { notified = state.notified + 1 }

abbrev close_at : Option ℕ → Option ℕ → Registry → Bool × Registry
close_at none expected r = (true, r)
close_at (some g) expected r =
    let state = r.objects g in
    if differs expected state.revision then (false, r) else (
      true,
      record r { objects = put_object g (notify_all (record state { closed = true })) r.objects },
    )

unfoldable pub close : String → Option ℕ → Registry → Bool × Registry
close key expected r = close_at (r.table key) expected r

unfoldable pub unregister : String → Registry → Registry
unfolding close
unregister key r = let s = (close key none r).1 in record s { table = put_key key none s.table }

abbrev notify_at : Option ℕ → Bool → Registry → Bool × Registry
notify_at none actionable r = (false, r)
notify_at (some g) actionable r =
    let state = r.objects g in
    if state.closed then (false, r) else (
      true,
      record r {
        objects =
            put_object g
              (notify_all (record state {
                revision = state.revision + 1;
                actionable_revision =
                    if actionable then state.actionable_revision + 1 else state.actionable_revision;
              }))
              r.objects;
      },
    )

unfoldable pub notify : String → Bool → Registry → Bool × Registry
notify key actionable r = notify_at (r.table key) actionable r

-- the closure `changed` of `wait_since`
unfoldable pub changed : MailboxSnapshot → Bool → MailboxState → Bool
changed previous actionable_only state =
    state.closed
    || not (state.generation == previous.generation)
    || (if actionable_only
        then not (state.actionable_revision == previous.actionable_revision)
        else not (state.revision == previous.revision))

-- A call on the registry by another task.
pub data Call : Type 0 where
  register_call : String → Call
  close_call : String → Option ℕ → Call
  unregister_call : String → Call
  notify_call : String → Bool → Call

unfoldable pub after : Call → Registry → Registry
unfolding register close unregister notify
after (register_call key) r = (register key r).1
after (close_call key expected) r = (close key expected r).1
after (unregister_call key) r = unregister key r
after (notify_call key actionable) r = (notify key actionable r).1

unfoldable pub replay : List Call → Registry → Registry
replay [] r = r
replay (c ∷ calls) r = replay calls (after c r)

-- the object's waiters were woken between two registries
abbrev pub woken : ℕ → Registry → Registry → Bool
woken g r s = not ((s.objects g).notified == (r.objects g).notified)

-- `condition.wait_for(changed)` on the object of generation `g`, while the other tasks make
-- `calls` and until the timeout, which is their end: it tests when it is woken, and only then
unfoldable pub wait_for : ℕ → MailboxSnapshot → Bool → List Call → Registry → Option MailboxSnapshot
unfolding changed after
wait_for g previous actionable_only [] r = none
wait_for g previous actionable_only (c ∷ calls) r =
    let s = after c r in
    let later = wait_for g previous actionable_only calls s in
    if woken g r s && changed previous actionable_only (s.objects g)
    then some (state_snapshot (s.objects g))
    else later

-- `wait_since` with the calls of other tasks until its timeout: none when that is 0
abbrev pub wait_at :
    Option ℕ → MailboxSnapshot → Bool → List Call → Registry → Option MailboxSnapshot
unfolding changed
wait_at none previous actionable_only calls r = none
wait_at (some g) previous actionable_only calls r =
    let sleeping = wait_for g previous actionable_only calls r in
    if changed previous actionable_only (r.objects g)
    then some (state_snapshot (r.objects g))
    else sleeping

unfoldable pub wait_since :
    String → MailboxSnapshot → Bool → List Call → Registry → Option MailboxSnapshot
unfolding wait_for changed
wait_since key previous actionable_only calls r =
    wait_at (r.table key) previous actionable_only calls r

-- ===== src/Postgres/Repeated.antt =====
-- Requests with an idempotency key (`CreateRun` of internal/postgres/run_store.go, `CreateDefinition`
-- of internal/postgres/definitions.go).
use ai_workload_platform.Common.{
  not-is_some, and_true, idempotency_conflict, ok, err, ◌>>=◌, >>=-eq-ok, guard-eq-ok, ok-subst,
  String, ◌≡◌, refl, ap, ◌∙◌, Bool, true, false, Option, none, some, arith, eq_iff, str_eq,
}
use ai_workload_platform.Compiler.Names.{is_blank}
use ai_workload_platform.Model.{WorkflowDefinition, RunSnapshot}
use ai_workload_platform.Postgres.Catalog.{without_change, replay_or}
use ai_workload_platform.Postgres.NewRuns.{
  validate_initial_snapshot, run_record, replayed_run, insert_run, start_run,
}
use ai_workload_platform.Postgres.Query.{find}
use ai_workload_platform.Postgres.Replay.{
  has_key, load_idempotency, insert_idempotency, validate_idempotency_input, validate_replay,
}
use ai_workload_platform.Postgres.Sessions.{find-append}
use ai_workload_platform.Postgres.Tables.{IdempotencyRow, Tables, Host}

-- A record that was inserted is found under its key.
inserted_replay :
    (row : IdempotencyRow) (t : Tables) {t' : Tables}
    → insert_idempotency row t ≡ ok t'
    → load_idempotency t' row.principal row.operation row.key ≡ some row
unfolding insert_idempotency load_idempotency
inserted_replay row t h =
    let (_, free, e) = >>=-eq-ok _ _ h in
    let missing = not-is_some _ (guard-eq-ok _ _ free) in
    let self : has_key row.principal row.operation row.key row ≡ true =
      rw ((eq_iff row.principal row.principal).1 refl)
        (rw ((eq_iff row.operation row.operation).1 refl) ((eq_iff row.key row.key).1 refl)) in
    ok-subst
      (λ (x : Tables). find (has_key row.principal row.operation row.key) x.replays ≡ some row) e
      (find-append (has_key row.principal row.operation row.key) t.replays row missing self)

-- A run was started under the key with this hash, and its record is there.
pub record IsStarted (principal key request_hash id : String) (t : Tables) : Type 0 where
  pub row : IdempotencyRow
  pub found : load_idempotency t principal "start_run" key ≡ some row
  pub replays : replayed_run request_hash row ≡ ok (id, false)

replayed_run-run_record :
    (principal key request_hash id : String)
    → replayed_run request_hash (run_record principal key request_hash id) ≡ ok (id, false)
unfolding replayed_run validate_replay ◌>>=◌
replayed_run-run_record principal key request_hash id =
    rw ((eq_iff request_hash request_hash).1 refl) refl

replayed-not_new :
    (request_hash : String) (row : IdempotencyRow) {answer : String × Bool}
    → replayed_run request_hash row ≡ ok answer
    → answer ≡ (answer.0, false)
unfolding replayed_run
replayed-not_new request_hash row h =
    let (_, _, e) = >>=-eq-ok _ _ h in ok-subst (λ (x : String × Bool). x ≡ (x.0, false)) e refl

inserted-IsStarted :
    (host : Host) (s : RunSnapshot) (definition : WorkflowDefinition)
    (principal key request_hash : String) (t : Tables) {r : Tables × (String × Bool)}
    → insert_run host s definition principal key request_hash t ≡ ok r
    → IsStarted principal key request_hash r.1.0 r.0
unfolding insert_run
inserted-IsStarted host s definition principal key request_hash t h =
    let (inserted, _, h₁) = >>=-eq-ok _ _ h in
    let (recorded, kept, e) = >>=-eq-ok _ _ h₁ in
    ok-subst (λ (x : Tables × (String × Bool)). IsStarted principal key request_hash x.1.0 x.0) e
      (record {
        row = run_record principal key request_hash s.run.id;
        found = inserted_replay (run_record principal key request_hash s.run.id) inserted kept;
        replays = replayed_run-run_record principal key request_hash s.run.id;
      })

replayed-IsStarted :
    (host : Host) (s : RunSnapshot) (definition : WorkflowDefinition)
    (principal key request_hash : String) (t : Tables) (found : Option IdempotencyRow)
    {r : Tables × (String × Bool)}
    → load_idempotency t principal "start_run" key ≡ found
    → replay_or found
        (λ row. without_change t (replayed_run request_hash row))
        (insert_run host s definition principal key request_hash t)
      ≡ ok r
    → IsStarted principal key request_hash r.1.0 r.0
replayed-IsStarted host s definition principal key request_hash t none e h =
    inserted-IsStarted host s definition principal key request_hash t h
replayed-IsStarted host s definition principal key request_hash t (some row) e h =
    let (answer, again, e₁) = >>=-eq-ok _ _ h in
    ok-subst (λ (x : Tables × (String × Bool)). IsStarted principal key request_hash x.1.0 x.0) e₁
      (record {
        row = row;
        found = e;
        replays = again ∙ ap ok (replayed-not_new request_hash row again);
      })

started_again :
    (host : Host) (s' : RunSnapshot) (principal key request_hash id : String)
    (definition' : WorkflowDefinition) (t : Tables)
    → IsStarted principal key request_hash id t
    → validate_initial_snapshot s' ≡ ok definition'
    → validate_idempotency_input principal key request_hash ≡ ok tt
    → start_run host s' principal key request_hash t ≡ ok (t, (id, false))
unfolding start_run ◌>>=◌
started_again host s' principal key request_hash id definition' t started valid named =
    rw valid (rw named (rw (started.found) (rw (started.replays) refl)))

named_other :
    (principal key request_hash other : String) {u : Unit {0}}
    → validate_idempotency_input principal key request_hash ≡ ok u
    → is_blank other ≡ false
    → validate_idempotency_input principal key other ≡ ok tt
unfolding validate_idempotency_input ◌>>=◌
named_other principal key request_hash other h filled = ground (arith, h, filled)

replayed-conflict :
    (request_hash other : String) (row : IdempotencyRow) {answer : String × Bool}
    → replayed_run request_hash row ≡ ok answer
    → str_eq request_hash other ≡ false
    → replayed_run other row ≡ err idempotency_conflict
unfolding replayed_run validate_replay ◌>>=◌
replayed-conflict request_hash other row h differ =
    let (_, same, _) = >>=-eq-ok _ _ h in
    let (matching, _) = and_true _ _ (guard-eq-ok _ _ same) in
    let e : row.request_hash ≡ request_hash = (eq_iff row.request_hash request_hash).0 matching in
    refuse-other (ap (λ (x : String). str_eq x other) e ∙ differ)
  where
    refuse-other :
        str_eq row.request_hash other ≡ false → replayed_run other row ≡ err idempotency_conflict
    refuse-other k = rw k refl

conflict_again :
    (host : Host) (s' : RunSnapshot) (principal key request_hash other id : String)
    (definition' : WorkflowDefinition) (t : Tables)
    → IsStarted principal key request_hash id t
    → validate_initial_snapshot s' ≡ ok definition'
    → validate_idempotency_input principal key other ≡ ok tt
    → str_eq request_hash other ≡ false
    → start_run host s' principal key other t ≡ err idempotency_conflict
unfolding start_run ◌>>=◌
conflict_again host s' principal key request_hash other id definition' t started valid named
      differ =
    let refused = replayed-conflict request_hash other started.row started.replays differ in
    rw valid (rw named (rw (started.found) (rw refused refl)))

-- After a run was started or found under a key, the same request with that key, whatever valid run
-- it brings, is answered with the first run and changes nothing; another request hash that is not
-- blank is a conflict.
pub start_run-start_run :
    (host : Host) (s s' : RunSnapshot) (definition' : WorkflowDefinition)
    (principal key request_hash other id : String) (created : Bool) (t t' : Tables)
    → start_run host s principal key request_hash t ≡ ok (t', (id, created))
    → validate_initial_snapshot s' ≡ ok definition'
    → str_eq request_hash other ≡ false
    → is_blank other ≡ false
    → (start_run host s' principal key request_hash t' ≡ ok (t', (id, false)))
      × (start_run host s' principal key other t' ≡ err idempotency_conflict)
unfolding start_run
start_run-start_run host s s' definition' principal key request_hash other id created t t' h valid
      differ filled =
    let (definition, _, h₁) = >>=-eq-ok _ _ h in
    let (_, named, h₂) = >>=-eq-ok _ _ h₁ in
    let started : IsStarted principal key request_hash id t' =
      replayed-IsStarted host s definition principal key request_hash t
        (load_idempotency t principal "start_run" key) refl h₂ in
    (
      started_again host s' principal key request_hash id definition' t' started valid named,
      conflict_again host s' principal key request_hash other id definition' t' started valid
          (named_other principal key request_hash other named filled) differ,
    )

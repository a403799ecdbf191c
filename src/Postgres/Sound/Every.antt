-- ===== src/Postgres/Sound/Every.antt =====
-- Every method of internal/postgres that commits keeps the invariant of the tables.
use ai_workload_platform.Common.{
  if◌then◌else◌, Result, ok, ◌>>=◌, >>=-eq-ok, ok-subst, ℕ, String, ◌≡◌, refl, sym, subst, Bool,
  true, false, Option, none, some,
}
use ai_workload_platform.Model.{WorkflowDefinition, WorkflowRun, RunSnapshot}
use ai_workload_platform.Postgres.Advances.{Advances}
use ai_workload_platform.Postgres.Advances.Closings.{cancel_distributed_run-Effect}
use ai_workload_platform.Postgres.Advances.Methods.{apply_change_set_tx-only_runs, complete-Effect}
use ai_workload_platform.Postgres.Advances.Scans.{runs-Effect}
use ai_workload_platform.Postgres.Catalog.{
  insert_version, without_change, insert_definition, replay_or, create_definition, append_version,
  create_version,
}
use ai_workload_platform.Postgres.Changes.{apply_stored}
use ai_workload_platform.Postgres.NewRuns.{
  insert_snapshot, create_stored, replayed_run, insert_run, start_run, request_stored,
  takes_request, request_stored_cancel,
}
use ai_workload_platform.Postgres.Query.{update_where}
use ai_workload_platform.Postgres.Replay.{load_idempotency, insert_idempotency}
use ai_workload_platform.Postgres.Runs.{has_run_id}
use ai_workload_platform.Postgres.Sound.{IsSound, Method, Effect-IsSound, claim-IsSound}
use ai_workload_platform.Postgres.Sound.Sessions.{
  register_worker-IsSound, heartbeat-IsSound, reap_expired-IsSound, drain_worker-IsSound,
  create_dispatches-IsSound,
}
use ai_workload_platform.Postgres.Tables.{VersionRow, IdempotencyRow, Tables, Host, Options}

same-IsSound :
    (t t' : Tables) → t'.dispatches ≡ t.dispatches → t'.workers ≡ t.workers → IsSound t → IsSound t'
same-IsSound t t' d w sound =
    Effect-IsSound {w = ""} {m = 0} t t'
      (record {
        advances = subst (Advances "" t.dispatches 0 0) (sym d) Advances.start;
        same_workers = w;
      })
      sound

-- The dispatches and workers of the one are those of the other.
abbrev SameWork : Tables → Tables → Type 0
SameWork t t' = (t'.dispatches ≡ t.dispatches) × (t'.workers ≡ t.workers)

insert_snapshot-same :
    (host : Host) (s : RunSnapshot) (definition : WorkflowDefinition) (created_by : Option String)
    (t : Tables) {t' : Tables}
    → insert_snapshot host s definition created_by t ≡ ok t'
    → SameWork t t'
unfolding insert_snapshot
insert_snapshot-same host s definition created_by t h =
    let (_, _, h₁) = >>=-eq-ok _ _ h in
    let (_, _, h₂) = >>=-eq-ok _ _ h₁ in
    let (_, _, e) = >>=-eq-ok _ _ h₂ in ok-subst (SameWork t) e (refl, refl)

insert_run-same :
    (host : Host) (s : RunSnapshot) (definition : WorkflowDefinition)
    (principal key request_hash : String) (t : Tables) {r : Tables × (String × Bool)}
    → insert_run host s definition principal key request_hash t ≡ ok r
    → SameWork t r.0
unfolding insert_run insert_snapshot insert_idempotency
insert_run-same host s definition principal key request_hash t h =
    let (inserted, put, h₁) = >>=-eq-ok _ _ h in
    let (recorded, kept, e) = >>=-eq-ok _ _ h₁ in
    let (_, _, e₂) = >>=-eq-ok _ _ kept in
    let first = insert_snapshot-same host s definition (some principal) t put in
    let second : SameWork t recorded = ok-subst (SameWork t) e₂ first in
    ok-subst (λ (x : Tables × (String × Bool)). SameWork t x.0) e second

replayed-same :
    (host : Host) (s : RunSnapshot) (definition : WorkflowDefinition)
    (principal key request_hash : String) (t : Tables) (found : Option IdempotencyRow)
    {r : Tables × (String × Bool)}
    → replay_or found
        (λ row. without_change t (replayed_run request_hash row))
        (insert_run host s definition principal key request_hash t)
      ≡ ok r
    → SameWork t r.0
replayed-same host s definition principal key request_hash t none h =
    insert_run-same host s definition principal key request_hash t h
replayed-same host s definition principal key request_hash t (some row) h =
    let (_, _, e) = >>=-eq-ok _ _ h in
    ok-subst (λ (x : Tables × (String × Bool)). SameWork t x.0) e (refl, refl)

create_stored-same :
    (host : Host) (s : RunSnapshot) (t : Tables) {t' : Tables}
    → create_stored host s t ≡ ok t'
    → SameWork t t'
unfolding create_stored
create_stored-same host s t h =
    let (definition, _, h₁) = >>=-eq-ok _ _ h in insert_snapshot-same host s definition none t h₁

-- The rows of a version and of its record, after those of the workflow.
versioned-same :
    (row : VersionRow) (record_row : IdempotencyRow) (answer : String × ℕ) (t : Tables)
    {r : Tables × (String × ℕ)}
    → (do
      versioned ← insert_version row t
      recorded ← insert_idempotency record_row versioned
      ok (recorded, answer))
      ≡ ok r
    → SameWork t r.0
unfolding insert_version insert_idempotency
versioned-same row record_row answer t h =
    let (versioned, put, h₁) = >>=-eq-ok _ _ h in
    let (recorded, kept, e) = >>=-eq-ok _ _ h₁ in
    let (_, _, e₁) = >>=-eq-ok _ _ put in
    let (_, _, e₂) = >>=-eq-ok _ _ kept in
    let first : SameWork t versioned = ok-subst (SameWork t) e₁ (refl, refl) in
    let second : SameWork t recorded = ok-subst (SameWork t) e₂ first in
    ok-subst (λ (x : Tables × (String × ℕ)). SameWork t x.0) e second

replay-same :
    (found : Option IdempotencyRow) (replay : IdempotencyRow → Result (String × ℕ))
    (first : Result (Tables × (String × ℕ))) (t : Tables) {r : Tables × (String × ℕ)}
    → ((r' : Tables × (String × ℕ)) → first ≡ ok r' → SameWork t r'.0)
    → replay_or found (λ row. without_change t (replay row)) first ≡ ok r
    → SameWork t r.0
replay-same none replay first t {r = r} same h = same r h
replay-same (some row) replay first t same h =
    let (_, _, e) = >>=-eq-ok _ _ h in
    ok-subst (λ (x : Tables × (String × ℕ)). SameWork t x.0) e (refl, refl)

create_definition-same :
    (host : Host) (at : ℕ) (definition : WorkflowDefinition) (principal key request_hash : String)
    (t : Tables) {r : Tables × (String × ℕ)}
    → create_definition host at definition principal key request_hash t ≡ ok r
    → SameWork t r.0
unfolding create_definition insert_definition
create_definition-same host at definition principal key request_hash t h =
    let (_, _, h₁) = >>=-eq-ok _ _ h in
    let (body, _, h₂) = >>=-eq-ok _ _ h₁ in
    replay-same (load_idempotency t principal "create_workflow" key) _
      (insert_definition at definition body principal key request_hash t) t
      (λ r made. let (_, _, m) = >>=-eq-ok _ _ made in versioned-same _ _ _ _ m) h₂

create_version-same :
    (host : Host) (at : ℕ) (id : String) (definition : WorkflowDefinition)
    (principal key request_hash : String) (t : Tables) {r : Tables × (String × ℕ)}
    → create_version host at id definition principal key request_hash t ≡ ok r
    → SameWork t r.0
unfolding create_version append_version
create_version-same host at id definition principal key request_hash t h =
    let (_, _, h₁) = >>=-eq-ok _ _ h in
    let (_, _, h₂) = >>=-eq-ok _ _ h₁ in
    let (body, _, h₃) = >>=-eq-ok _ _ h₂ in
    replay-same (load_idempotency t principal "create_workflow_version" key) _
      (append_version at id body principal key request_hash t) t
      (λ r made. let (_, _, m) = >>=-eq-ok _ _ made in versioned-same _ _ _ _ m) h₃

start_run-same :
    (host : Host) (s : RunSnapshot) (principal key request_hash : String) (t : Tables)
    {r : Tables × (String × Bool)}
    → start_run host s principal key request_hash t ≡ ok r
    → SameWork t r.0
unfolding start_run
start_run-same host s principal key request_hash t h =
    let (definition, _, h₁) = >>=-eq-ok _ _ h in
    let (_, _, h₂) = >>=-eq-ok _ _ h₁ in
    replayed-same host s definition principal key request_hash t
      (load_idempotency t principal "start_run" key) h₂

request_stored_cancel-same :
    (host : Host) (at : ℕ) (id : String) (t : Tables) {r : Tables × WorkflowRun}
    → request_stored_cancel host at id t ≡ ok r
    → SameWork t r.0
unfolding request_stored_cancel
request_stored_cancel-same host at id t h =
    let (stored, _, h₁) = >>=-eq-ok _ _ h in
    let (s, _, e) = >>=-eq-ok _ _ h₁ in
    ok-subst (λ (x : Tables × WorkflowRun). SameWork t x.0) e
      (either_way (takes_request stored)
        (record t { runs = update_where (has_run_id id) (request_stored at) t.runs }) t (refl, refl)
        (refl, refl))
  where
    either_way :
        (b : Bool) (x y : Tables) → SameWork t x → SameWork t y → SameWork t (if b then x else y)
    either_way true x y p q = p
    either_way false x y p q = q

-- Every method that commits one transaction (CancelRequestedRuns is a sequence of CancelRun) keeps
-- the tables sound: dispatches have distinct identifiers, a lease
-- ends no later than its attempt, and each worker holds no more leases than its capacity.
pub Method-IsSound :
    (host : Host) (options : Options) (t t' : Tables)
    → Method host options t t'
    → IsSound t
    → IsSound t'
unfolding apply_stored
Method-IsSound host options t t' (Method.registers request at tokens session token h) sound =
    register_worker-IsSound host request at tokens t h sound
Method-IsSound host options t t' (Method.claims locked at w slots tokens granted h) sound =
    claim-IsSound host options locked at w slots tokens t h sound
Method-IsSound host options t t' (Method.beats at w refs answers h) sound =
    heartbeat-IsSound host options at w refs t h sound
Method-IsSound host options t t' (Method.completes at w id token response applied h) sound =
    Effect-IsSound {w = w} t t' (complete-Effect host at w id token response t h) sound
Method-IsSound host options t t' (Method.reaps locked at clock limit n h) sound =
    reap_expired-IsSound host options locked at clock limit t h sound
Method-IsSound host options t t' (Method.cancels at id h) sound =
    Effect-IsSound {w = id} t t' (cancel_distributed_run-Effect host at id t h) sound
Method-IsSound host options t t' (Method.dispatches locked at limit suffixes n h) sound =
    create_dispatches-IsSound host locked at limit suffixes t h sound
Method-IsSound host options t t' (Method.drains at w session leases h) sound =
    drain_worker-IsSound at w t h sound
Method-IsSound host options t t' (Method.starts s principal key request_hash answer h) sound =
    let (d, w) = start_run-same host s principal key request_hash t h in same-IsSound t t' d w sound
Method-IsSound host options t t' (Method.creates s h) sound =
    let (d, w) = create_stored-same host s t h in same-IsSound t t' d w sound
Method-IsSound host options t t' (Method.defines at definition principal key hash answer h) sound =
    let (d, w) = create_definition-same host at definition principal key hash t h in
    same-IsSound t t' d w sound
Method-IsSound host options t t' (Method.versions at id definition principal key hash answer h)
      sound =
    let (d, w) = create_version-same host at id definition principal key hash t h in
    same-IsSound t t' d w sound
Method-IsSound host options t t' (Method.applies change h) sound =
    let (_, _, applied) = >>=-eq-ok _ _ h in
    Effect-IsSound {w = ""} {m = 0} t t'
      (runs-Effect t (apply_change_set_tx-only_runs t change applied)) sound
Method-IsSound host options t t' (Method.requests at id run h) sound =
    let (d, w) = request_stored_cancel-same host at id t h in same-IsSound t t' d w sound

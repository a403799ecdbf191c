-- ===== src/Store/Requests.antt =====
-- Requests for a cancellation (`RequestCancel` of workflow/filestore/store.go).
use ai_workload_platform.Common.{
  if◌then◌else◌, is_some, by_branch, Result, ok, err, >>=-eq-ok, guard-eq-ok, ok-subst, ℕ, String,
  ◌≡◌, refl, ap, subst, ◌∙◌, Bool, true, false, ◌||◌, Option, none, some, arith, eq_iff,
}
use ai_workload_platform.Model.{WorkflowDefinition, WorkflowRun, RunSnapshot}
use ai_workload_platform.State.{is_workflow_terminal}
use ai_workload_platform.Store.{
  WriteOutcome, replaces, succeeds, request_row, answer_row, write_text, write_locked, load,
  request_row_of, request_result, request_cancel,
}
use ai_workload_platform.Store.Commits.{read_back, load-replace_file}
use ai_workload_platform.Store.Directory.{Files, is_run_id}

answer_row-eq-ok :
    (w : Files × Result (Unit {0})) (run : WorkflowRun) {files' : Files} {run' : WorkflowRun}
    → answer_row w run ≡ (files', ok run')
    → (w ≡ (files', ok tt)) × (run ≡ run')
answer_row-eq-ok (files, ok done) run h = (cc, cc)
answer_row-eq-ok (files, err e) run h = (cc, cc)

succeeds-replaces : (outcome : WriteOutcome) → succeeds outcome ≡ ok tt → replaces outcome ≡ true
succeeds-replaces outcome h = ground arith

then_branch :
    {A : Type 0} {x z : A} (b : Bool) (y : A) → b ≡ true → (if b then x else y) ≡ z → x ≡ z
then_branch true y e h = h
then_branch false y e h = cc

module _ (encode : RunSnapshot → Option String) (decode : String → Option RunSnapshot)
    (reread : Option WorkflowDefinition → Option WorkflowDefinition)
    (codec : (s : RunSnapshot) (text : String)
      → encode s ≡ some text
      → decode text ≡ some (read_back reread s)) where
  written_text-loaded :
      (outcome : WriteOutcome) (files : Files) (s : RunSnapshot) (o : Option String)
      {files' : Files}
      → is_run_id s.run.id ≡ true
      → encode s ≡ o
      → write_text encode decode outcome files s.run.id o ≡ (files', ok tt)
      → load encode decode files' s.run.id ≡ ok (read_back reread s)
  unfolding write_text
  written_text-loaded outcome files s none valid encoded h = cc
  written_text-loaded outcome files s (some text) valid encoded h =
      let replaced = succeeds-replaces outcome (ap (λ w. w.1) h) in
      let same = then_branch _ _ replaced (ap (λ w. w.0) h) in
      rw (← same) (load-replace_file encode decode reread codec files s text valid encoded)

  pub loaded-run_id :
      (files : Files) (id : String) {s : RunSnapshot}
      → load encode decode files id ≡ ok s
      → (is_run_id id ≡ true) × (s.run.id ≡ id)
  unfolding load
  loaded-run_id files id h =
      let (_, valid, h₁) = >>=-eq-ok _ _ h in
      let (_, _, h₂) = >>=-eq-ok _ _ h₁ in
      let (s, _, h₃) = >>=-eq-ok _ _ h₂ in
      let (_, same, e) = >>=-eq-ok _ _ h₃ in
      (
        guard-eq-ok _ _ valid,
        ok-subst (λ t. t.run.id ≡ id) e ((eq_iff s.run.id id).0 (guard-eq-ok _ _ same)),
      )

  request_written :
      (files files' : Files) (id : String) (at at' : ℕ) (outcome outcome' : WriteOutcome)
      (s : RunSnapshot) (run : WorkflowRun)
      → load encode decode files id ≡ ok s
      → answer_row
          (write_locked encode decode outcome files (request_row s at))
          (request_row s at).run
        ≡ (files', ok run)
      → request_cancel encode decode outcome' files' id at' ≡ (files', ok run)
  unfolding request_cancel request_row_of write_locked
  request_written files files' id at at' outcome outcome' s run loaded h =
      let (valid, same) = loaded-run_id files id loaded in
      let (done, row) = answer_row-eq-ok _ _ h in
      let stored : load encode decode files' s.run.id ≡ ok (read_back reread (request_row s at)) =
        written_text-loaded outcome files (request_row s at) (encode (request_row s at))
          (rw same valid) refl done in
      let again : load encode decode files' id ≡ ok (read_back reread (request_row s at)) =
        rw (← same) stored in
      rw again (ground (arith, row))

  request_again :
      (files files' : Files) (id : String) (at at' : ℕ) (outcome outcome' : WriteOutcome)
      (run : WorkflowRun) (r : Result RunSnapshot)
      → load encode decode files id ≡ r
      → request_result encode decode outcome files at r ≡ (files', ok run)
      → request_cancel encode decode outcome' files' id at' ≡ (files', ok run)
  unfolding request_cancel request_row_of
  request_again files files' id at at' outcome outcome' run (err e) loaded h = cc
  request_again files files' id at at' outcome outcome' run (ok s) loaded h =
      by_branch (is_workflow_terminal s.run.status || is_some s.run.cancel_requested_at) _ _ h
        (λ settled same.
          subst (λ f. request_cancel encode decode outcome' f id at' ≡ (files', ok run))
            (ap (λ w. w.0) same) (rw loaded (rw settled refl) ∙ same))
        (λ fresh answered.
          request_written files files' id at at' outcome outcome' s run loaded answered)

  -- The codec decodes what it encoded, but for the definition. A request for a cancellation that was answered is answered
  -- the same when it is repeated, and the repetition writes nothing, however its own write would
  -- go.
  pub request_cancel-request_cancel :
      (files files' : Files) (id : String) (at at' : ℕ) (outcome outcome' : WriteOutcome)
      (run : WorkflowRun)
      → request_cancel encode decode outcome files id at ≡ (files', ok run)
      → request_cancel encode decode outcome' files' id at' ≡ (files', ok run)
  unfolding request_cancel request_row_of write_locked write_text
  request_cancel-request_cancel files files' id at at' outcome outcome' run h =
      request_again files files' id at at' outcome outcome' run (load encode decode files id) refl h

-- ===== src/Postgres/Accepted/Repeats.antt =====
-- Repeated and late reports (`Complete` of internal/postgres/dispatch_complete.go).
use ai_workload_platform.Common.{
  Bool-cases, is_some, by_branch, result_conflict, Result, ok, err, guard, ◌>>=◌, ◌>>◌, >>=-eq-ok,
  or_fail-eq-ok, guard-eq-ok, ok-eq-ok, ok-subst, ℕ, String, ◌≡◌, refl, sym, ap, subst, ◌∙◌, ◌≢◌,
  ◌⊎◌, inl, inr, Bool, true, false, ◌&&◌, Option, none, some, eq_iff, str_eq,
}
use ai_workload_platform.Model.{ExecutionResponse}
use ai_workload_platform.Postgres.Accepted.{IsAccepted, settled-IsAccepted}
use ai_workload_platform.Postgres.Report.{
  digest_worker_result, prove_owner, has_hash_of, complete_owned, complete,
}
use ai_workload_platform.Postgres.Runs.{find_run}
use ai_workload_platform.Postgres.Tables.{
  Ownership, Dispatch, Tables, Host, is_leased, is_completed, find_dispatch,
}

-- The parts of a completion that succeeds.
completed-IsAccepted :
    (host : Host) (at : ℕ) (worker_id dispatch_id token hash : String) (d : Dispatch)
    (owner : Ownership) (response : ExecutionResponse) (t : Tables) {t' : Tables} {applied : Bool}
    → find_dispatch t dispatch_id ≡ some d
    → prove_owner host worker_id token d ≡ ok owner
    → is_some (find_run t d.run_id) ≡ true
    → complete_owned host at worker_id d owner hash response t ≡ ok (t', applied)
    → IsAccepted host worker_id dispatch_id token hash t' × (applied ≡ true)
unfolding complete_owned
completed-IsAccepted host at worker_id dispatch_id token hash d owner response t found proved there
      h =
    by_branch (is_completed d.status) _ _ h
      (λ done same.
        let (_, matching, e) = >>=-eq-ok _ _ same in
        ok-subst
          (λ (x : Tables × Bool).
            IsAccepted host worker_id dispatch_id token hash x.0 × (x.1 ≡ true))
          e
          (
            record {
              row = d;
              owner = owner;
              found = found;
              completed = done;
              hashed = has_hash_of-eq hash d.result_hash (guard-eq-ok _ _ matching);
              proved = proved;
              run_there = there;
            },
            refl,
          ))
      (λ open_still rest.
        let (_, current, k) = >>=-eq-ok _ _ rest in
        let (after, settled, e) = >>=-eq-ok _ _ k in
        let leased : is_leased d.status ≡ true = and_first _ _ (guard-eq-ok _ _ current) in
        ok-subst
          (λ (x : Tables × Bool).
            IsAccepted host worker_id dispatch_id token hash x.0 × (x.1 ≡ true))
          e
          (
            settled-IsAccepted host at worker_id dispatch_id token hash d owner response t found
                leased proved there settled,
            refl,
          ))
  where
    has_hash_of-eq : (hash : String) (o : Option String) → has_hash_of hash o ≡ true → o ≡ some hash
    has_hash_of-eq hash none e = cc
    has_hash_of-eq hash (some stored) e = ap some ((eq_iff stored hash).0 e)

    and_first : (a b : Bool) → (a && b) ≡ true → a ≡ true
    and_first true b e = refl
    and_first false b e = cc

complete-IsAccepted :
    (host : Host) (at : ℕ) (worker_id dispatch_id token hash : String)
    (response : ExecutionResponse) (t : Tables) {t' : Tables} {applied : Bool}
    → digest_worker_result host response ≡ ok hash
    → complete host at worker_id dispatch_id token response t ≡ ok (t', applied)
    → IsAccepted host worker_id dispatch_id token hash t' × (applied ≡ true)
unfolding complete
complete-IsAccepted host at worker_id dispatch_id token hash response t {t'} {applied} digested h =
    let (hash', hashed, h₁) = >>=-eq-ok _ _ h in
    let (d, found, h₂) = >>=-eq-ok _ _ h₁ in
    let (_, there, h₃) = >>=-eq-ok _ _ h₂ in
    let (owner, proved, h₄) = >>=-eq-ok _ _ h₃ in
    let same : hash' ≡ hash = ok-eq-ok (sym digested ∙ hashed) in
    subst (λ (x : String). IsAccepted host worker_id dispatch_id token x t' × (applied ≡ true)) same
      (completed-IsAccepted host at worker_id dispatch_id token hash' d owner response t
        (or_fail-eq-ok _ _ found) proved (guard-eq-ok _ _ there) h₄)

-- The answer to a repetition whose result has another digest or the same.
abbrev compare_hashes : String → String → Tables → Result (Tables × Bool)
compare_hashes hash hash' t = do guard (str_eq hash hash') result_conflict; ok (t, true)

-- What a repetition meets.
accepted-again :
    (host : Host) (at : ℕ) (worker_id dispatch_id token hash hash' : String)
    (response : ExecutionResponse) (t : Tables)
    → IsAccepted host worker_id dispatch_id token hash t
    → digest_worker_result host response ≡ ok hash'
    → complete host at worker_id dispatch_id token response t ≡ compare_hashes hash hash' t
unfolding complete complete_owned ◌>>=◌
accepted-again host at worker_id dispatch_id token hash hash' response t accepted digested =
    let there = accepted.run_there in
    let proved = accepted.proved in
    let completed = accepted.completed in
    let hashed = accepted.hashed in
    rw digested (rw accepted.found (rw there (rw proved (rw completed (rw hashed refl)))))

-- A result that was accepted is accepted again, at any later time, and the repetition changes
-- nothing.
pub complete-complete :
    (host : Host) (at at' : ℕ) (worker_id dispatch_id token : String) (response : ExecutionResponse)
    (t t' : Tables) (applied : Bool)
    → complete host at worker_id dispatch_id token response t ≡ ok (t', applied)
    → complete host at' worker_id dispatch_id token response t' ≡ ok (t', true)
unfolding complete ◌>>=◌
complete-complete host at at' worker_id dispatch_id token response t t' applied h =
    let (hash, digested, _) = >>=-eq-ok _ _ h in
    let (accepted, _) =
      complete-IsAccepted host at worker_id dispatch_id token hash response t digested h in
    accepted-again host at' worker_id dispatch_id token hash hash response t' accepted digested
    ∙ rw ((eq_iff hash hash).1 refl) refl

-- After a result was accepted, another valid result whose digest differs is a conflict.
pub complete-complete_conflict :
    (host : Host) (at at' : ℕ) (worker_id dispatch_id token hash hash' : String)
    (response response' : ExecutionResponse) (t t' : Tables) (applied : Bool)
    → complete host at worker_id dispatch_id token response t ≡ ok (t', applied)
    → digest_worker_result host response ≡ ok hash
    → digest_worker_result host response' ≡ ok hash'
    → hash ≢ hash'
    → complete host at' worker_id dispatch_id token response' t' ≡ err result_conflict
unfolding ◌>>=◌
complete-complete_conflict host at at' worker_id dispatch_id token hash hash' response response' t
      t' applied h digested digested' differ =
    let (accepted, _) =
      complete-IsAccepted host at worker_id dispatch_id token hash response t digested h in
    accepted-again host at' worker_id dispatch_id token hash hash' response' t' accepted digested'
    ∙ conflict (Bool-cases (str_eq hash hash'))
  where
    conflict :
        ((str_eq hash hash' ≡ true) ⊎ (str_eq hash hash' ≡ false))
        → compare_hashes hash hash' t' ≡ err result_conflict
    conflict (inl same) = absurd (differ ((eq_iff hash hash').0 same))
    conflict (inr other) = rw other refl

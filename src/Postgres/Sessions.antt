-- ===== src/Postgres/Sessions.antt =====
-- The life of a worker's session (internal/postgres/worker_repository.go).
use ai_workload_platform.Common.{
  ℤ, pos, by_branch, not-is_some, and_true, ok, ◌>>=◌, >>=-eq-ok, or_fail-eq-ok, guard-eq-ok,
  ok-subst, ℕ, zero, suc, String, ◌≡◌, refl, ◌≢◌, ◌↔◌, ◌⊎◌, inl, inr, Bool, true, false, none, some,
  List, [], ◌∷◌, ◌++◌, arith, eq_iff, str_eq,
}
use ai_workload_platform.Postgres.Advances.Leases.{claim-Effect}
use ai_workload_platform.Postgres.Claim.{Lease, claim}
use ai_workload_platform.Postgres.Query.{find, update_where}
use ai_workload_platform.Postgres.Tables.{
  WorkerStatus, WorkerOperation, Dispatch, Session, Tables, Host, Options, is_active_worker,
  is_worker, find_worker, active_leases, digest_token, matches_token,
}
use ai_workload_platform.Postgres.Workers.{
  RegisterRequest, is_version, normalize_worker_registration, new_session, is_free, worker_prefix,
  insert_session, register_worker, is_known, permit, authenticate_worker, drain_row, drain_worker,
}

pub find-append {ℓ} :
    {A : Type ℓ} (key : A → Bool) (rows : List A) (row : A)
    → find key rows ≡ none
    → key row ≡ true
    → find key (rows ++ row ∷ []) ≡ some row
unfolding find
find-append key [] row missing mine = rw mine refl
find-append key (r ∷ rows) row missing mine = ground (arith, find-append key rows row, mine)

-- What a session that was just inserted looks like.
inserted_session :
    (host : Host) (request : RegisterRequest) (at tries : ℕ) (tokens : List (String × String))
    (t t' : Tables) (session : Session) (token : String)
    → insert_session host request at tries tokens t ≡ ok (t', session, token)
    → (find_worker t' session.worker_id ≡ some session)
      × (session.token_hash ≡ host.digest token)
      × (session.status ≡ WorkerStatus.active)
      × (session.protocol_version ≡ request.protocol_version)
unfolding insert_session is_free find_worker digest_token
inserted_session host request at zero tokens t t' session token h = cc
inserted_session host request at (suc tries) [] t t' session token h = cc
inserted_session host request at (suc tries) ((suffix, secret) ∷ tokens) t t' session token h =
    let made = new_session request (worker_prefix suffix) (host.digest secret) at in
    by_branch (is_free t made.worker_id made.token_hash) _ _ h
      (λ free e.
        let missing : find (is_worker made.worker_id) t.workers ≡ none =
          not-is_some _ (and_true _ _ free).0 in
        let stored : find (is_worker made.worker_id) (t.workers ++ made ∷ []) ≡ some made =
          find-append (is_worker made.worker_id) t.workers made missing
            ((eq_iff made.worker_id made.worker_id).1 refl) in
        ok-subst
          (λ (x : Tables × Session × String).
            (find (is_worker x.1.worker_id) x.0.workers ≡ some x.1)
            × (x.1.token_hash ≡ host.digest x.2)
            × (x.1.status ≡ WorkerStatus.active)
            × (x.1.protocol_version ≡ request.protocol_version))
          e (stored, refl, refl, refl))
      (λ taken rest. inserted_session host request at tries tokens t t' session token rest)

normalized_version :
    (request : RegisterRequest) {r : RegisterRequest}
    → normalize_worker_registration request ≡ ok r
    → is_version r.protocol_version ≡ true
unfolding normalize_worker_registration
normalized_version request h =
    let (_, version, h₁) = >>=-eq-ok _ _ h in
    let (_, _, h₂) = >>=-eq-ok _ _ h₁ in
    let (_, _, h₃) = >>=-eq-ok _ _ h₂ in
    let (_, _, h₄) = >>=-eq-ok _ _ h₃ in
    let (kinds, _, e) = >>=-eq-ok _ _ h₄ in
    ok-subst (λ (x : RegisterRequest). is_version x.protocol_version ≡ true) e
      (guard-eq-ok _ _ version)

permit-active :
    (operation : WorkerOperation) (status : WorkerStatus)
    → status ≡ WorkerStatus.active
    → permit operation status ≡ ok tt
unfolding permit
permit-active WorkerOperation.claim status e = rw e refl
permit-active WorkerOperation.heartbeat status e = rw e refl
permit-active WorkerOperation.complete status e = rw e refl
permit-active WorkerOperation.drain status e = rw e refl
permit-active (WorkerOperation.unknown text) status e = rw e refl

authenticate_active :
    (host : Host) (operation : WorkerOperation) (t : Tables) (session : Session) (token : String)
    → find_worker t session.worker_id ≡ some session
    → is_version session.protocol_version ≡ true
    → matches_token host token session.token_hash ≡ true
    → session.status ≡ WorkerStatus.active
    → is_known operation ≡ true
    → authenticate_worker host t session.worker_id token (pos 1) operation ≡ ok session
unfolding authenticate_worker ◌>>=◌
authenticate_active host operation t session token found version matching active known =
    rw found (
      rw version (rw matching (rw known (rw (permit-active operation session.status active) refl))))

-- A worker that registers can authenticate with the token it was given for each of the four
-- operations, and finds the session that it was answered with; the token is not empty.
pub authenticate_worker-register_worker :
    (host : Host) (request : RegisterRequest) (at : ℕ) (tokens : List (String × String))
    (operation : WorkerOperation) (t t' : Tables) (session : Session) (token : String)
    → register_worker host request at tokens t ≡ ok (t', session, token)
    → str_eq token "" ≡ false
    → is_known operation ≡ true
    → authenticate_worker host t' session.worker_id token (pos 1) operation ≡ ok session
unfolding register_worker matches_token
authenticate_worker-register_worker host request at tokens operation t t' session token h nonempty
      known =
    let (normalized, valid, made) = >>=-eq-ok _ _ h in
    let (found, hashed, active, version) =
      inserted_session host normalized at 3 tokens t t' session token made in
    let matching : matches_token host token session.token_hash ≡ true =
      rw nonempty (rw hashed ((eq_iff (host.digest token) (host.digest token)).1 refl)) in
    authenticate_active host operation t' session token found
      (rw version (normalized_version request valid)) matching active known

permit-ok :
    (operation : WorkerOperation) (status : WorkerStatus) {u : Unit {0}}
    → permit operation status ≡ ok u
    → (status ≡ WorkerStatus.active)
      ⊎ ((status ≡ WorkerStatus.draining) × (operation ≢ WorkerOperation.claim))
unfolding permit
permit-ok operation WorkerStatus.active h = inl refl
permit-ok WorkerOperation.claim WorkerStatus.draining h = cc
permit-ok WorkerOperation.heartbeat WorkerStatus.draining h = inr (refl, λ e. cc)
permit-ok WorkerOperation.complete WorkerStatus.draining h = inr (refl, λ e. cc)
permit-ok WorkerOperation.drain WorkerStatus.draining h = inr (refl, λ e. cc)
permit-ok (WorkerOperation.unknown text) WorkerStatus.draining h = inr (refl, λ e. cc)
permit-ok operation WorkerStatus.offline h = cc
permit-ok operation WorkerStatus.stopped h = cc

-- A session that authenticates is stored under its identifier with the digest of the token; it is
-- active, or it is draining and does not ask to claim.
pub authenticate_worker-allowed :
    (host : Host) (t : Tables) (worker_id token : String) (version : ℤ)
    (operation : WorkerOperation) (session : Session)
    → authenticate_worker host t worker_id token version operation ≡ ok session
    → (find_worker t worker_id ≡ some session)
      × (matches_token host token session.token_hash ≡ true)
      × ((session.status ≡ WorkerStatus.active)
          ⊎ ((session.status ≡ WorkerStatus.draining) × (operation ≢ WorkerOperation.claim)))
unfolding authenticate_worker
authenticate_worker-allowed host t worker_id token version operation session h =
    let (_, _, h₁) = >>=-eq-ok _ _ h in
    let (session', found, h₂) = >>=-eq-ok _ _ h₁ in
    let (_, _, h₃) = >>=-eq-ok _ _ h₂ in
    let (_, matching, h₄) = >>=-eq-ok _ _ h₃ in
    let (_, _, h₅) = >>=-eq-ok _ _ h₄ in
    let (_, permitted, e) = >>=-eq-ok _ _ h₅ in
    ok-subst
      (λ (x : Session).
        (find_worker t worker_id ≡ some x)
        × (matches_token host token x.token_hash ≡ true)
        × ((x.status ≡ WorkerStatus.active)
            ⊎ ((x.status ≡ WorkerStatus.draining) × (operation ≢ WorkerOperation.claim))))
      e
      (
        or_fail-eq-ok _ _ found,
        guard-eq-ok _ _ matching,
        permit-ok operation session'.status permitted,
      )

drained_status :
    (leases at : ℕ) (session : Session)
    → is_active_worker (drain_row leases at session).status ≡ false
drained_status leases at session = ground arith

drained_rows :
    (leases at : ℕ) (w : String) (rows : List Session) {session : Session}
    → find (is_worker w) (update_where (is_worker w) (drain_row leases at) rows) ≡ some session
    → is_active_worker session.status ≡ false
unfolding find update_where
drained_rows leases at w [] found = cc
drained_rows leases at w (r ∷ rows) {session} found =
    ground (arith, found, drained_rows leases at w rows {session = session})

-- The answer of a drain: no claim after it is answered by `r`, and the worker is stopped when idle.
abbrev Drained :
    Host
    → Options
    → (Dispatch → Bool)
    → ℕ
    → String
    → ℕ
    → List String
    → Tables
    → Tables × List Lease
    → Tables × Session × ℕ
    → Type 0
Drained host options locked at w slots tokens t r answer =
    (claim host options locked at w slots tokens answer.0 ≢ ok r)
    × (answer.2 ≡ active_leases t w)
    × ((answer.1.status ≡ WorkerStatus.stopped) ↔ (answer.2 ≡ 0))

drain_row-stopped :
    (leases at : ℕ) (session : Session)
    → ((drain_row leases at session).status ≡ WorkerStatus.stopped) ↔ (leases ≡ 0)
drain_row-stopped leases at session = (λ e. ground (arith, e), λ e. ground (arith, e))

-- A worker that was drained claims nothing more; it is stopped exactly when it held no lease.
pub claim-drain_worker :
    (host : Host) (options : Options) (locked : Dispatch → Bool) (at at' : ℕ) (w : String)
    (slots leases : ℕ) (tokens : List String) (t t' : Tables) (session : Session)
    (r : Tables × List Lease)
    → drain_worker at w t ≡ ok (t', session, leases)
    → (claim host options locked at' w slots tokens t' ≢ ok r)
      × (leases ≡ active_leases t w)
      × ((session.status ≡ WorkerStatus.stopped) ↔ (leases ≡ 0))
unfolding drain_worker find_worker
claim-drain_worker host options locked at at' w slots leases tokens t t' session r h =
    let (before, found, e) = >>=-eq-ok _ _ h in
    ok-subst (Drained host options locked at' w slots tokens t r) e (
      λ granted.
          let (claimer, stored, active, _, _, _) =
            claim-Effect host options locked at' w slots tokens _ granted in
          cc (drained_rows (active_leases t w) at w t.workers stored),
      refl,
      drain_row-stopped (active_leases t w) at before,
    )

-- ===== src/Postgres/Registration.antt =====
-- What a registration is normalised to (`normalizeWorkerRegistration` of
-- internal/postgres/worker_repository.go).
use ai_workload_platform.Common.{
  leb, if◌then◌else◌, Bool-cases, and_true, length, ok, ◌>>=◌, >>=-eq-ok, guard-eq-ok, ok-eq-ok,
  ok-subst, String, ◌≡◌, refl, ap, ◌∙◌, ◌⊎◌, inl, inr, Bool, true, false, ◌&&◌, List, [], ◌∷◌,
  arith, eq_iff, str_eq,
}
use ai_workload_platform.Compiler.Names.{codes, is_space}
use ai_workload_platform.Postgres.Workers.{
  trim_left, trim_right, trim_space, RegisterRequest, is_version, from_one_to, contains_text,
  normalize_kinds, normalize_worker_registration,
}
use Prim.Native.Char.{Char, code}

normalize_kinds-seen :
    (kinds seen : List String) {r : List String}
    → contains_text "mock" seen ≡ true
    → normalize_kinds seen kinds ≡ ok r
    → r ≡ []
unfolding normalize_kinds
normalize_kinds-seen [] seen h e = ok-eq-ok e
normalize_kinds-seen (kind ∷ kinds) seen h e =
    let (_, mock, e₁) = >>=-eq-ok _ _ e in
    let (rest, later, e₂) = >>=-eq-ok _ _ e₁ in
    let same : kind ≡ "mock" = (eq_iff kind "mock").0 (guard-eq-ok _ _ mock) in
    let repeated : contains_text kind seen ≡ true = rw same h in
    let again : contains_text "mock" (kind ∷ seen) ≡ true = ground (arith, h) in
    let empty : rest ≡ [] = normalize_kinds-seen kinds (kind ∷ seen) again later in
    skipped (contains_text kind seen) repeated e₂ empty
  where
    skipped :
        {x rest : List String} (b : Bool)
        → b ≡ true
        → ok (if b then rest else kind ∷ rest) ≡ ok x
        → rest ≡ []
        → x ≡ []
    skipped b chosen e empty = ground (arith, chosen, e, empty)

trim_left-letter :
    (c : Char) (text : String)
    → is_space (code c) ≡ false
    → trim_left (String.◌∷◌ c text) ≡ String.◌∷◌ c text
unfolding trim_left
trim_left-letter c text h = rw h refl

trim_left-space :
    (c : Char) (text : String)
    → is_space (code c) ≡ true
    → trim_left (String.◌∷◌ c text) ≡ trim_left text
unfolding trim_left
trim_left-space c text h = rw h refl

trim_right-letter :
    (c : Char) (text : String)
    → is_space (code c) ≡ false
    → trim_right (String.◌∷◌ c text) ≡ String.◌∷◌ c (trim_right text)
unfolding trim_right
trim_right-letter c text h = rw h refl

by_first :
    (c : Char) (text : String)
    → trim_left (trim_right (trim_left text)) ≡ trim_right (trim_left text)
    → (is_space (code c) ≡ true) ⊎ (is_space (code c) ≡ false)
    → trim_left (trim_right (trim_left (String.◌∷◌ c text)))
      ≡ trim_right (trim_left (String.◌∷◌ c text))
by_first c text again (inl space) = rw (trim_left-space c text space) again
by_first c text again (inr letter) =
    rw (trim_left-letter c text letter)
      (rw (trim_right-letter c text letter) (trim_left-letter c (trim_right text) letter))

trim_left-trim_right :
    (text : String) → trim_left (trim_right (trim_left text)) ≡ trim_right (trim_left text)
unfolding trim_left trim_right
trim_left-trim_right String.[] = refl
trim_left-trim_right (String.◌∷◌ c text) =
    by_first c text (trim_left-trim_right text) (Bool-cases (is_space (code c)))

trim_right-trim_right : (text : String) → trim_right (trim_right text) ≡ trim_right text
unfolding trim_right
trim_right-trim_right String.[] = refl
trim_right-trim_right (String.◌∷◌ c text) =
    elim (Bool-cases (is_space (code c) && str_eq (trim_right text) "")) [
      | inl gone ↦ rw gone refl
      | inr kept ↦ rw kept (rw (trim_right-trim_right text) (rw kept refl))
    ]

trim_space-trim_space : (text : String) → trim_space (trim_space text) ≡ trim_space text
unfolding trim_space
trim_space-trim_space text = rw (trim_left-trim_right text) (trim_right-trim_right (trim_left text))

normalize_kinds-some :
    (kind : String) (kinds : List String) {r : List String}
    → normalize_kinds [] (kind ∷ kinds) ≡ ok r
    → r ≡ "mock" ∷ []
unfolding normalize_kinds
normalize_kinds-some kind kinds e =
    let (_, mock, e₁) = >>=-eq-ok _ _ e in
    let (rest, later, e₂) = >>=-eq-ok _ _ e₁ in
    let same : kind ≡ "mock" = (eq_iff kind "mock").0 (guard-eq-ok _ _ mock) in
    let seen : contains_text "mock" (kind ∷ []) ≡ true = rw same refl in
    let empty : rest ≡ [] = normalize_kinds-seen kinds (kind ∷ []) seen later in
    ok-eq-ok e₂ ∙ (ap (λ (x : List String). kind ∷ x) empty ∙ ap (λ (x : String). x ∷ []) same)

normalize_kinds-length :
    (kinds : List String) {r : List String}
    → leb 1 (length kinds) ≡ true
    → normalize_kinds [] kinds ≡ ok r
    → r ≡ "mock" ∷ []
normalize_kinds-length [] filled e = cc
normalize_kinds-length (kind ∷ kinds) filled e = normalize_kinds-some kind kinds e

-- What is normalised meets every test again.
normal-again :
    (r : RegisterRequest)
    → trim_space r.display_name ≡ r.display_name
    → r.executor_kinds ≡ "mock" ∷ []
    → is_version r.protocol_version ≡ true
    → (leb 1 (length (codes r.display_name)) && leb (length (codes r.display_name)) 128) ≡ true
    → from_one_to 1024 r.max_concurrency ≡ true
    → normalize_worker_registration r ≡ ok r
unfolding normalize_worker_registration normalize_kinds ◌>>=◌
normal-again r trimmed kinds version named sized =
    rw version (rw trimmed (rw named (rw sized (rw kinds refl))))

-- A registration that is accepted offers the mock executor and no other, a name of 1 to 128
-- characters without white space at its ends, and 1 to 1024 slots; accepted once, it is accepted
-- again unchanged.
pub normalize_worker_registration-again :
    (request r : RegisterRequest)
    → normalize_worker_registration request ≡ ok r
    → (r.executor_kinds ≡ "mock" ∷ [])
      × ((leb 1 (length (codes r.display_name)) && leb (length (codes r.display_name)) 128) ≡ true)
      × (trim_space r.display_name ≡ r.display_name)
      × (from_one_to 1024 r.max_concurrency ≡ true)
      × (normalize_worker_registration r ≡ ok r)
unfolding normalize_worker_registration
normalize_worker_registration-again request r h =
    let (_, version, h₁) = >>=-eq-ok _ _ h in
    let (_, named, h₂) = >>=-eq-ok _ _ h₁ in
    let (_, sized, h₃) = >>=-eq-ok _ _ h₂ in
    let (_, filled, h₄) = >>=-eq-ok _ _ h₃ in
    let (kinds, normal, e) = >>=-eq-ok _ _ h₄ in
    let only : kinds ≡ "mock" ∷ [] =
      normalize_kinds-length request.executor_kinds (and_true _ _ (guard-eq-ok _ _ filled)).0
        normal in
    let name = trim_space request.display_name in
    let trimmed = trim_space-trim_space request.display_name in
    let made = record request { display_name = name; executor_kinds = kinds } in
    let again : normalize_worker_registration made ≡ ok made =
      normal-again made trimmed only (guard-eq-ok _ _ version) (guard-eq-ok _ _ named)
        (guard-eq-ok _ _ sized) in
    ok-subst
      (λ (x : RegisterRequest).
        (x.executor_kinds ≡ "mock" ∷ [])
        × ((leb 1 (length (codes x.display_name)) && leb (length (codes x.display_name)) 128)
            ≡ true)
        × (trim_space x.display_name ≡ x.display_name)
        × (from_one_to 1024 x.max_concurrency ≡ true)
        × (normalize_worker_registration x ≡ ok x))
      e (only, guard-eq-ok _ _ named, trimmed, guard-eq-ok _ _ sized, again)

-- ===== src/Examples/Codec.antt =====
-- A codec for the examples. It knows two snapshots, under the texts "a" and "b", and one definition
-- with an input, by its identifier; the input is read back with other pointers.
use ai_workload_platform.Common.{
  ◌==◌, if◌then◌else◌, String-discrete, ℕ, suc, String, ◌≡◌, refl, sym, ap, subst, Bool, true,
  false, ◌&&◌, Option, none, some, List, [], ◌∷◌, arith, str_eq, ℕ_discrete, decide,
}
use ai_workload_platform.Change.Rows.{of_decide}
use ai_workload_platform.Examples.Runs.{fetch_definition, store_definition, two_steps}
use ai_workload_platform.Model.{WorkflowDefinition, StateEvent, WorkflowRun, RunSnapshot}
use ai_workload_platform.Model.Input.{Value, Items, Fields}
use ai_workload_platform.Store.Commits.{read_back}

Run-discrete : Discrete WorkflowRun
Run-discrete = hlevel (ℕ_discrete, String-discrete)

Events-discrete : Discrete (List StateEvent)
Events-discrete = hlevel (ℕ_discrete, String-discrete)

-- The input at a place in memory.
abbrev input_at : ℕ → Value
input_at place = Value.object place (
    Fields.field "tries" (Value.number "3") (
      Fields.field "urls" (Value.slice (suc place) (Items.item (Value.text "u") Items.end))
        Fields.no_fields))

abbrev pub steps_at : ℕ → WorkflowDefinition
steps_at place = record two_steps {
  tasks = record fetch_definition { input = input_at place } ∷ store_definition ∷ [];
}

abbrev has_definition : Option WorkflowDefinition → Bool
has_definition none = false
has_definition (some definition) = str_eq definition.id "two_steps"

abbrev pub reread_steps : Option WorkflowDefinition → Option WorkflowDefinition
reread_steps none = none
reread_steps (some definition) = some (steps_at 8)

abbrev pub with_steps : RunSnapshot → RunSnapshot
with_steps s = record s { definition = some (steps_at 8) }

unfoldable pub is_snapshot : RunSnapshot → RunSnapshot → Bool
unfolding Run-discrete Events-discrete
is_snapshot s t =
    (s.version == t.version && has_definition s.definition)
    && (decide (Run-discrete s.run t.run) && decide (Events-discrete s.events t.events))

and_left : (a b : Bool) → (a && b) ≡ true → a ≡ true
and_left true b h = refl
and_left false b h = cc

and_right : (a b : Bool) → (a && b) ≡ true → b ≡ true
and_right true b h = h
and_right false b h = cc

reread_known :
    (o : Option WorkflowDefinition) → has_definition o ≡ true → reread_steps o ≡ some (steps_at 8)
reread_known none h = cc
reread_known (some d) h = refl

is_snapshot-eq :
    (s t : RunSnapshot) → is_snapshot s t ≡ true → read_back reread_steps s ≡ with_steps t
unfolding is_snapshot
is_snapshot-eq s t h =
    let heads = and_left _ _ h in
    let rests = and_right _ _ h in
    let version : s.version ≡ t.version =
      ground (arith, and_left (s.version == t.version) _ heads) in
    let known = reread_known s.definition (and_right (s.version == t.version) _ heads) in
    let run = of_decide (Run-discrete s.run t.run) (and_left _ _ rests) in
    let events = of_decide (Events-discrete s.events t.events) (and_right _ _ rests) in cc

module _ (a b : RunSnapshot) where
  unfoldable pub encode_two : RunSnapshot → Option String
  unfolding is_snapshot
  encode_two s = if is_snapshot s a then some "a" else if is_snapshot s b then some "b" else none

  unfoldable pub decode_two : String → Option RunSnapshot
  decode_two text =
      if str_eq text "a"
      then some (with_steps a)
      else if str_eq text "b"
      then some (with_steps b)
      else none

  decode-chosen :
      (s : RunSnapshot) (text : String) (p q : Bool)
      → (p ≡ true → read_back reread_steps s ≡ with_steps a)
      → (q ≡ true → read_back reread_steps s ≡ with_steps b)
      → (if p then some "a" else if q then some "b" else none) ≡ some text
      → decode_two text ≡ some (read_back reread_steps s)
  unfolding decode_two
  decode-chosen s text true q first second h =
      let e : "a" ≡ text = cc in
      subst (λ t. decode_two t ≡ some (read_back reread_steps s)) e (ap some (sym (first refl)))
  decode-chosen s text false true first second h =
      let e : "b" ≡ text = cc in
      subst (λ t. decode_two t ≡ some (read_back reread_steps s)) e (ap some (sym (second refl)))
  decode-chosen s text false false first second h = cc

  pub decode_two-encode_two :
      (s : RunSnapshot) (text : String)
      → encode_two s ≡ some text
      → decode_two text ≡ some (read_back reread_steps s)
  unfolding encode_two
  decode_two-encode_two s text h =
      decode-chosen s text (is_snapshot s a) (is_snapshot s b) (is_snapshot-eq s a)
        (is_snapshot-eq s b) h

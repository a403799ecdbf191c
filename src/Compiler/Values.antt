-- ===== src/Compiler/Values.antt =====
-- `validateJSONValue` of workflow/compiler.go. What is being visited is a list of maps (true) and
-- slices (false) with their pointers.
use ai_workload_platform.Common.{
  ◌==◌, rejected_input, Result, ok, err, guard, ◌>>◌, ℕ, Bool, true, false, not, ◌&&◌, ◌||◌, List,
  [], ◌∷◌,
}
use ai_workload_platform.Model.Input.{Value, Items, Fields}

unfoldable pub is_visiting : Bool → ℕ → List (Bool × ℕ) → Bool
is_visiting kind pointer [] = false
is_visiting kind pointer ((other, seen) ∷ rest) =
    (not (kind && not other || other && not kind) && pointer == seen)
    || is_visiting kind pointer rest

unfoldable mutual
  unfolding is_visiting

  pub validate_value : List (Bool × ℕ) → Value → Result (Unit {0})
  validate_value visiting Value.null = ok tt
  validate_value visiting (Value.bool b) = ok tt
  validate_value visiting (Value.number digits) = ok tt
  validate_value visiting (Value.text s) = ok tt
  validate_value visiting Value.marshaler = err rejected_input
  validate_value visiting Value.nil_collection = ok tt
  validate_value visiting (Value.object pointer fields) = do
    guard (not (is_visiting true pointer visiting)) rejected_input
    validate_fields ((true, pointer) ∷ visiting) fields
  validate_value visiting Value.keyed = err rejected_input
  validate_value visiting (Value.slice pointer items) = do
    guard (not (is_visiting false pointer visiting)) rejected_input
    validate_items ((false, pointer) ∷ visiting) items
  validate_value visiting Value.byte_slice = err rejected_input
  validate_value visiting (Value.array items) = validate_items visiting items
  validate_value visiting Value.unsupported = err rejected_input

  pub validate_items : List (Bool × ℕ) → Items → Result (Unit {0})
  validate_items visiting Items.end = ok tt
  validate_items visiting (Items.item value rest) = do
    validate_value visiting value
    validate_items visiting rest

  pub validate_fields : List (Bool × ℕ) → Fields → Result (Unit {0})
  validate_fields visiting Fields.no_fields = ok tt
  validate_fields visiting (Fields.field name value rest) = do
    validate_value visiting value
    validate_fields visiting rest

-- ===== src/Model/Input.antt =====
-- The Go values that a task input can hold (workflow/definition.go, workflow/compiler.go), as
-- trees. A map or a slice carries its pointer, which the cycle check of the compiler reads.
use ai_workload_platform.Common.{ℕ, String, Bool}

mutual
  pub data Value : Type 0 where
    null : Value
    bool : Bool → Value
    -- A number by its digits, as JSON writes it.
    number : String → Value
    text : String → Value
    -- A value with a JSON or a text marshaler of its own.
    marshaler : Value
    -- A nil map or a nil slice.
    nil_collection : Value
    object : ℕ → Fields → Value
    -- A non-nil map whose keys are no strings.
    keyed : Value
    slice : ℕ → Items → Value
    byte_slice : Value
    array : Items → Value
    -- Channels, functions, structs and the other kinds.
    unsupported : Value

  pub data Items : Type 0 where
    end : Items
    item : Value → Items → Items

  pub data Fields : Type 0 where
    no_fields : Fields
    field : String → Value → Fields → Fields

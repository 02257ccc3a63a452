-- ===== src/Validate.antt =====
-- The validation methods of pkg/apis/vihara/v1alpha1/types_maintenance.go; `nil` is `none`.
use vihara.Prelude.{String, not, Option, none, some, List, [], ◌∷◌, ◌==◌, if◌then◌else◌}
use vihara.Api.{
  ValueFrom, ObjectNameRef, ObjectNameKeyRef, NodeSpecificEnvValueFrom, NodeSpecificEnvVar,
  NodeSpecificEnvFromSource,
}
use vihara.Env.{Error, errorf}

-- the test on a name or key and its `ValueFrom`
abbrev value_available : String → Option ValueFrom → String → Option Error
value_available value from message = if not (value == "") then none else elim from [
  | none ↦ some (errorf message)
  | some f ↦ if f.field_path == "" then some (errorf message) else none
]

-- `ObjectNameRef.ValidateName`
unfoldable pub validate_name : ObjectNameRef → Option Error
validate_name r = value_available r.name r.name_from "no value available for name"

-- `ObjectNameKeyRef.ValidateNameAndValue`
unfoldable pub validate_name_and_value : ObjectNameKeyRef → Option Error
unfolding validate_name
validate_name_and_value r = elim (validate_name r.name_ref) [
  | some x ↦ some x
  | none ↦ value_available r.key r.key_from "no value available for key"
]

abbrev no_source : Option Error
no_source = some (errorf "must provide at least one value source")

-- `NodeSpecificEnvValueFrom.Validate`
unfoldable pub validate_value_from : NodeSpecificEnvValueFrom → Option Error
unfolding validate_name_and_value
validate_value_from f = elim f.config_map_key_ref [
  | some r ↦ validate_name_and_value r
  | none ↦ elim f.secret_key_ref [ some r ↦ validate_name_and_value r | none ↦ no_source ]
]

-- `NodeSpecificEnvVar.Validate`
unfoldable pub validate_env : NodeSpecificEnvVar → Option Error
unfolding validate_value_from
validate_env v =
    if v.name == ""
    then some (errorf "must provide name")
    else if not (v.value == "")
    then none
    else validate_value_from v.value_from

-- `NodeSpecificEnvFromSource.Validate`
unfoldable pub validate_env_from : NodeSpecificEnvFromSource → Option Error
unfolding validate_name
validate_env_from src = elim src.config_map_ref [
  | some r ↦ validate_name r
  | none ↦ elim src.secret_ref [ some r ↦ validate_name r | none ↦ no_source ]
]

-- The first error of a loop that validates each entry.
unfoldable pub first_error {ℓ} : {A : Type ℓ} → (A → Option Error) → List A → Option Error
first_error validate [] = none
first_error validate (x ∷ xs) = elim (validate x) [
  | some error ↦ some error
  | none ↦ first_error validate xs
]

-- ===== src/Core/Ids.antt =====
-- The identifiers and the errors of packages/core/src/domain.ts. A `StableId` is a text.
use Prim.Native.Char.{code}
use dark_kitchen_orchestrato.Prelude.{
  ℕ, String, Bool, true, ◌&&◌, ◌||◌, leb, nat_eq, Result, ok, err, if◌then◌else◌,
}

-- `DomainValidationError`, one constructor for each message. `out_of_fuel` is of the model alone.
pub data DomainError : Type 0 where
  empty_identifier empty_field : DomainError
  duplicate_tasks unknown_task self_dependency : DomainError
  duplicate_dependency_ids duplicate_dependencies cyclic : DomainError
  duplicate_active : DomainError
  second_primary shared_path no_primary : String → DomainError
  illegal_transition : String → String → String → DomainError
  out_of_fuel : DomainError

-- What `String.prototype.trim` removes: white space and line terminators of ECMAScript.
unfoldable pub is_space : ℕ → Bool
is_space c =
    (leb 9 c && leb c 13)
    || nat_eq c 32
    || nat_eq c 160
    || nat_eq c 0x1680
    || (leb 0x2000 c && leb c 0x200a)
    || nat_eq c 0x2028
    || nat_eq c 0x2029
    || nat_eq c 0x202f
    || nat_eq c 0x205f
    || nat_eq c 0x3000
    || nat_eq c 0xfeff

-- `value.trim().length === 0`
unfoldable pub is_blank : String → Bool
unfolding is_space
is_blank String.[] = true
is_blank (String.◌∷◌ c s) = is_space (code c) && is_blank s

-- `createStableId`, and with it `createTaskId`, `createRunId` and the other constructors.
unfoldable pub create_stable_id : String → Result DomainError String
unfolding is_blank
create_stable_id value = if is_blank value then err empty_identifier else ok value

-- `assertNonEmpty`
unfoldable pub assert_non_empty : String → Result DomainError (Unit {0})
unfolding is_blank
assert_non_empty value = if is_blank value then err empty_field else ok tt

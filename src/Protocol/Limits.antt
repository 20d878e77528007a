-- ===== src/Protocol/Limits.antt =====
-- `validate_tree` against the size, the height and the strings of a tree.
use Prim.Native.Nat.{max}
use ocaml_temporal.Base.{
  ℕ, ◌+◌, ◌≤◌, ◌≡◌, Bool, true, ◌&&◌, Option, none, some, Result, ok, err, length, leb,
  if◌then◌else◌, arith,
}
use ocaml_temporal.Protocol.Json.{
  max_nodes, max_depth, ProtocolError, JsonValue, json_null, json_bool, json_signed, json_unsigned,
  json_string, json_array, json_object, JsonValues, no_values, value_then, JsonEntries, no_entries,
  entry_then, validate_tree, validate_values, validate_entries,
}

-- The values of a tree, itself included; its height; whether its strings and keys are short.
unfoldable mutual
  pub size : JsonValue → ℕ
  size json_null = 1
  size (json_bool b) = 1
  size (json_signed s n) = 1
  size (json_unsigned n) = 1
  size (json_string s) = 1
  size (json_array vs) = 1 + size_values vs
  size (json_object es) = 1 + size_entries es

  pub size_values : JsonValues → ℕ
  size_values no_values = 0
  size_values (value_then v vs) = size v + size_values vs

  pub size_entries : JsonEntries → ℕ
  size_entries no_entries = 0
  size_entries (entry_then k v es) = size v + size_entries es

unfoldable mutual
  pub height : JsonValue → ℕ
  height json_null = 1
  height (json_bool b) = 1
  height (json_signed s n) = 1
  height (json_unsigned n) = 1
  height (json_string s) = 1
  height (json_array vs) = 1 + height_values vs
  height (json_object es) = 1 + height_entries es

  pub height_values : JsonValues → ℕ
  height_values no_values = 0
  height_values (value_then v vs) = max (height v) (height_values vs)

  pub height_entries : JsonEntries → ℕ
  height_entries no_entries = 0
  height_entries (entry_then k v es) = max (height v) (height_entries es)

unfoldable mutual
  pub is_short : ℕ → JsonValue → Bool
  is_short limit json_null = true
  is_short limit (json_bool b) = true
  is_short limit (json_signed s n) = true
  is_short limit (json_unsigned n) = true
  is_short limit (json_string s) = leb (length s) limit
  is_short limit (json_array vs) = are_short limit vs
  is_short limit (json_object es) = entries_short limit es

  pub are_short : ℕ → JsonValues → Bool
  are_short limit no_values = true
  are_short limit (value_then v vs) = is_short limit v && are_short limit vs

  pub entries_short : ℕ → JsonEntries → Bool
  entries_short limit no_entries = true
  entries_short limit (entry_then k v es) =
      leb (length k) limit && (is_short limit v && entries_short limit es)

abbrev pub accepted : Result ProtocolError ℕ → Option ℕ
accepted (ok n) = some n
accepted (err e) = none

-- The verdict for a part with a size, a height and short strings.
abbrev pub verdict : ℕ → ℕ → ℕ → ℕ → Bool → Option ℕ
verdict depth nodes s h short =
    if leb (nodes + s) max_nodes && (leb (depth + h) (max_depth + 1) && short)
    then some (nodes + s)
    else none

-- The three functions, by induction on the tree.
mutual
  unfolding validate_tree size height is_short

  validate_tree_lem :
      (v : JsonValue) (depth nodes limit : ℕ)
      → accepted (validate_tree v depth nodes limit)
        ≡ verdict depth nodes (size v) (height v) (is_short limit v)
  validate_tree_lem json_null d n l = ground arith
  validate_tree_lem (json_bool b) d n l = ground arith
  validate_tree_lem (json_signed s k) d n l = ground arith
  validate_tree_lem (json_unsigned k) d n l = ground arith
  validate_tree_lem (json_string s) d n l = ground arith
  validate_tree_lem (json_array vs) d n l = ground (arith, validate_values_lem vs (d + 1) (n + 1) l)
  validate_tree_lem (json_object es) d n l =
      ground (arith, validate_entries_lem es (d + 1) (n + 1) l)

  validate_values_lem :
      (vs : JsonValues) (depth nodes limit : ℕ)
      → depth ≤ max_depth + 1
      → nodes ≤ max_nodes
      → accepted (validate_values vs depth nodes limit)
        ≡ verdict depth nodes (size_values vs) (height_values vs) (are_short limit vs)
  validate_values_lem no_values d n l p q = ground arith
  validate_values_lem (value_then v vs) d n l p q =
      ground (arith, validate_tree_lem v d n l, validate_values_lem vs d (n + size v) l)

  validate_entries_lem :
      (es : JsonEntries) (depth nodes limit : ℕ)
      → depth ≤ max_depth + 1
      → nodes ≤ max_nodes
      → accepted (validate_entries es depth nodes limit)
        ≡ verdict depth nodes (size_entries es) (height_entries es) (entries_short limit es)
  validate_entries_lem no_entries d n l p q = ground arith
  validate_entries_lem (entry_then k v es) d n l p q =
      ground (arith, validate_tree_lem v d n l, validate_entries_lem es d (n + size v) l)

-- The trees that `validate_tree` accepts are exactly those whose values fit in what is left of the
-- limit on values, whose height fits in what is left of the limit on nesting, and whose strings and
-- keys are within the limit; the count it returns is that before and the values of the tree.
pub accepted-validate_tree :
    (v : JsonValue) (depth nodes limit : ℕ)
    → accepted (validate_tree v depth nodes limit)
      ≡ verdict depth nodes (size v) (height v) (is_short limit v)
accepted-validate_tree v depth nodes limit = validate_tree_lem v depth nodes limit

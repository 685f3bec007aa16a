-- ===== src/Json.antt =====
-- `serde_json::Value`, as the models read and write it.
pub mod Data
pub mod Equality
pub use Data.{
  Value, null, bool, num, other_num, str, arr, obj, Values, nil, cons, Members, end, member,
  to_list, of_list, array, get, as_str, as_array, as_object, as_u64, is_string, is_number,
  is_boolean, is_array, is_object, to_members, to_list-of_list,
}
unfoldable pub use Data.{object}
unfoldable pub use Equality.{value_eq}
pub use Equality.{value_eq_iff}

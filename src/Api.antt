-- ===== src/Api.antt =====
-- The JMAP surface: result references (crates/jmapserver/src/refs.rs) and the batch of calls of
-- crates/jmapserver/src/server.rs, over any handler with a state. An object of JSON is the list of its
-- members in the order of their keys.
use jmapsmtp.Prelude.{
  ℕ, zero, suc, ◌<◌, ◌^◌, Bool, true, false, Option, none, some, List, [], ◌∷◌, ◌++◌, Str, codes,
  ◌==◌, not, ◌&&◌, ltb, if◌then◌else◌, is_empty, keep_if, map, split, starts_with, strip_prefix,
  text_eq, trim_start_by, trim_end_by,
}
use jmapsmtp.Result.{Result, ok, err, ◌>>=◌}
use jmapsmtp.Decimal.{print, parse_digits}
use jmapsmtp.Map
use jmapsmtp.Map.{Map}
use jmapsmtp.Keys.{text_ord}
use jmapsmtp.JmapTypes.{
  Value, null, bool, number, string, array, object, Items, nil, cons, Fields, done, field,
  JsonObject,
}
use jmapsmtp.Methods.{
  MethodError, MethodResult, cannot_calculate_changes, unknown_method, server_fail,
}
use jmapsmtp.Accounts
use jmapsmtp.Accounts.{AccountStore, Accounts}
pub mod References
pub mod Batch

-- The members of an object, and an object of members.
unfoldable pub members : Fields → JsonObject
members done = []
members (field k v fs) = (k, v) ∷ members fs

unfoldable pub fields_of : JsonObject → Fields
fields_of [] = done
fields_of ((k, v) ∷ m) = field k v (fields_of m)

unfoldable pub item_at : ℕ → Items → Option Value
item_at i nil = none
item_at zero (cons v vs) = some v
item_at (suc i) (cons v vs) = item_at i vs

unfoldable pub count_items : Items → ℕ
count_items nil = 0
count_items (cons v vs) = suc (count_items vs)

-- `usize::from_str`.
abbrev fits_usize : Option ℕ → Option ℕ
fits_usize none = none
fits_usize (some n) = if ltb n (2 ^ 64) then some n else none

unfoldable pub parse_usize : Str → Option ℕ
unfolding parse_digits
parse_usize [] = none
parse_usize (c ∷ s) = fits_usize (if c == b'+' then parse_digits s else parse_digits (c ∷ s))

-- `ResultReference`.
pub record ResultReference : Type 0 where
  pub result_of : Str
  pub path : Str

-- What the crates supply: the text of `{:?}`, and the reading of a reference from its value.
pub record Json : Type 0 where
  pub debug : Str → Str
  pub reference : Value → Result Str ResultReference

abbrev pub Results : Type 0
Results = Map Str Value

-- `strip_prefix('#')`.
abbrev pub without_hash : Str → Option Str
without_hash [] = none
without_hash (c ∷ s) = if c == b'#' then some s else none

unfoldable pub has_reference : JsonObject → Bool
has_reference [] = false
has_reference ((k, v) ∷ args) =
    let rest = has_reference args in elim (without_hash k) [ none ↦ rest | some name ↦ true ]

module _ (j : Json) where
  abbrev found_at : ℕ → Items → Option Value → Result Str Value
  found_at i items (some v) = ok v
  found_at i items none = err (
      codes "index "
      ++ print i
      ++ codes " out of range (len "
      ++ print (count_items items)
      ++ codes ")")

  unfoldable pub step : Str → Value → Result Str Value
  unfolding members item_at parse_usize
  step seg (object fs) = elim (Map.lookup seg (members fs)) [
    | some v ↦ ok v
    | none ↦ err (codes "key " ++ j.debug seg ++ codes " not found")
  ]
  step seg (array items) = elim (parse_usize seg) [
    | none ↦ err (codes "expected array index at " ++ j.debug seg)
    | some i ↦ found_at i items (item_at i items)
  ]
  step seg _ = err (codes "expected object or array at " ++ j.debug seg)

  unfoldable pub walk : List Str → Value → Result Str Value
  unfolding step
  walk [] cur = ok cur
  walk (seg ∷ segs) cur =
      let skipped = walk segs cur in
      let next = step seg cur >>= walk segs in if is_empty seg then skipped else next

  unfoldable pub json_path : Value → Str → Result Str Value
  unfolding walk split trim_start_by
  json_path v path = walk (split b'/' (trim_start_by (λ c. c == b'/') path)) v

  -- The value of one reference.
  unfoldable pub resolve_one : Results → Str → Value → Result Str Value
  unfolding json_path
  resolve_one results k v = elim (j.reference v) [
    | err e ↦ err (codes "bad result reference " ++ k ++ codes ": " ++ e)
    | ok ref ↦ elim (Map.lookup ref.result_of results) [
      | none ↦ err (codes "no result for callId " ++ j.debug ref.result_of)
      | some prev ↦ elim (json_path prev ref.path) [
        | ok value ↦ ok value
        | err e ↦ err (
            codes "path "
            ++ j.debug ref.path
            ++ codes " in "
            ++ j.debug ref.result_of
            ++ codes ": "
            ++ e)
      ]
    ]
  ]

  unfoldable pub resolve_members : Results → JsonObject → JsonObject → Result Str JsonObject
  unfolding resolve_one
  resolve_members results [] out = ok out
  resolve_members results ((k, v) ∷ args) out = elim (without_hash k) [
    | none ↦ resolve_members results args (Map.insert k v out)
    | some name ↦ resolve_one results k v >>= λ value.
        resolve_members results args (Map.insert name value out)
  ]

  unfoldable pub resolve : Results → Value → Result Str Value
  unfolding members fields_of has_reference resolve_members
  resolve results (object fs) =
      if has_reference (members fs)
      then (resolve_members results (members fs) [] >>= λ out. ok (object (fields_of out)))
      else ok (object fs)
  resolve results v = ok v

-- `as_str().unwrap_or("")`.
abbrev as_text : Value → Str
as_text (string s) = s
as_text _ = []

unfoldable pub error_response : Str → Str → Str → Str → Value
error_response name call_id err_type desc = array (
    cons (string name) (
      cons
        (object
          (field (codes "description") (string desc) (field (codes "type") (string err_type) done)))
        (cons (string call_id) nil)))

unfoldable pub success_response : Str → Value → Str → Value
success_response name result call_id =
    array (cons (string name) (cons result (cons (string call_id) nil)))

unfoldable pub error_type : MethodError → Str
error_type cannot_calculate_changes = codes "cannotCalculateChanges"
error_type _ = codes "serverFail"

unfoldable pub error_text : MethodError → Str
error_text cannot_calculate_changes = codes "cannotCalculateChanges"
error_text (unknown_method m) = codes "unknown method: " ++ m
error_text (server_fail m) = m

-- A method call: an array of a name, arguments and an id. What is no such array is skipped.
unfoldable pub call_of : Value → Option (Str × Value × Str)
call_of (array (cons name (cons args (cons id rest)))) = some (as_text name, args, as_text id)
call_of _ = none

-- The state that the handler keeps, and the results so far.
module _ {S : Type 0} (j : Json) (handle : Str → Value → S → S × MethodResult Value) where
  abbrev after_call : Str → Str → S × MethodResult Value → Map Str Value → S × Map Str Value × Value
  after_call name id (s, ok result) results =
      (s, Map.insert id result results, success_response name result id)
  after_call name id (s, err e) results =
      (s, results, error_response name id (error_type e) (error_text e))

  unfoldable pub run_call : Str → Value → Str → S → Map Str Value → S × Map Str Value × Value
  unfolding resolve success_response error_response error_type error_text
  run_call name args id s results = elim (resolve j results args) [
    | err e ↦ (s, results, error_response name id (codes "serverFail") e)
    | ok resolved ↦ after_call name id (handle name resolved s) results
  ]

  unfoldable pub run_calls : List Value → S → Map Str Value → S × List Value
  unfolding call_of run_call
  run_calls [] s results = (s, [])
  run_calls (raw ∷ calls) s results =
      let skipped = run_calls calls s results in
      elim (call_of raw) [
        | none ↦ skipped
        | some (name, args, id) ↦
            let (s', results', response) = run_call name args id s results in
            let (s'', responses) = run_calls calls s' results' in (s'', response ∷ responses)
      ]

  unfoldable pub run_batch : List Value → S → S × List Value
  unfolding run_calls
  run_batch calls s = run_calls calls s []

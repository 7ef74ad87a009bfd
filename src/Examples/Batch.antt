-- ===== src/Examples/Batch.antt =====
-- A batch with a reference.
use jmapsmtp.Prelude.{
  ℕ, ◌+◌, some, List, [], ◌∷◌, Str, codes, ◌≡◌, refl, inl, if◌then◌else◌, text_eq, text_compare,
}
use jmapsmtp.Result.{ok, err}
use jmapsmtp.Map
use jmapsmtp.Keys.{same, text_ord}
use jmapsmtp.JmapTypes.{Value, null, string, array, object, nil, cons, done, field}
use jmapsmtp.Methods.{MethodResult, unknown_method}
use jmapsmtp.Api.{Json, resolve, run_batch, call_of}
use jmapsmtp.Api.References.{lookup-resolve, argument}
use jmapsmtp.Api.Batch.{answered-run_batch, answered, asked}

abbrev json : Json
json = record {
  debug = λ s. s;
  reference = λ v. ok (record { result_of = codes "c0"; path = codes "/list/1/id" });
}

abbrev listed : Value
listed = object (
    field (codes "list")
      (array (cons null (cons (object (field (codes "id") (string (codes "m2")) done)) nil))) done)

lookup-resolve_example :
    Map.lookup
      (codes "ids")
      ((codes "ids", string (codes "m2")) ∷ (codes "max", string (codes "x")) ∷ [])
    ≡ some (string (codes "m2"))
unfolding resolve Map.lookup argument same text_compare Map.insert
lookup-resolve_example =
    lookup-resolve json ((codes "c0", listed) ∷ []) (codes "ids")
      (field (codes "#ids") null (field (codes "max") (string (codes "x")) done))
      (field (codes "ids") (string (codes "m2")) (field (codes "max") (string (codes "x")) done))
      refl refl (refl, (refl, tt)) (inl refl)

-- A handler that counts its calls and fails on `b`.
abbrev handle : Str → Value → ℕ → ℕ × MethodResult Value
handle name args n =
    if text_eq name (codes "b") then (n + 1, err (unknown_method name)) else (n + 1, ok listed)

abbrev call : Str → Value → Str → Value
call name args id = array (cons (string name) (cons args (cons (string id) nil)))

abbrev calls : List Value
calls = call (codes "a") null (codes "c0") ∷ null ∷ call (codes "b") null (codes "c1") ∷ []

answered-run_batch_example :
    answered (run_batch json handle calls 0).1
    ≡ some (codes "a", codes "c0") ∷ some (codes "b", codes "c1") ∷ []
unfolding asked call_of
answered-run_batch_example = answered-run_batch json handle calls 0

run_batch_counts : (run_batch json handle calls 0).0 ≡ 2
unfolding run_batch resolve text_eq
run_batch_counts = refl

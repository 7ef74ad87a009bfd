-- ===== src/Api/Batch.antt =====
-- The responses of a batch (crates/jmapserver/src/server.rs).
use jmapsmtp.Prelude.{Option, none, some, List, [], ◌∷◌, Str, ◌≡◌, refl, Option-cases, inl, inr}
use jmapsmtp.Result.{Result-cases, ok, err}
use jmapsmtp.JmapTypes.{Value, string, array, nil, cons}
use jmapsmtp.Methods.{MethodResult}
use jmapsmtp.Api.{
  Json, Results, call_of, resolve, run_call, run_calls, run_batch, after_call, success_response,
  error_response,
}

-- The name and the id of each well-formed call, in order.
abbrev asked_by : Option (Str × Value × Str) → List (Option (Str × Str)) → List (Option (Str × Str))
asked_by none rest = rest
asked_by (some (name, args, id)) rest = some (name, id) ∷ rest

unfoldable pub asked : List Value → List (Option (Str × Str))
asked [] = []
asked (raw ∷ calls) = asked_by (call_of raw) (asked calls)

-- The name and the id that a response stands under; `none` if it is no name, result and id.
abbrev under : Value → Option (Str × Str)
under (array (cons (string name) (cons result (cons (string id) nil)))) = some (name, id)
under _ = none

unfoldable pub answered : List Value → List (Option (Str × Str))
answered [] = []
answered (response ∷ responses) = under response ∷ answered responses

module _ {S : Type 0} (j : Json) (handle : Str → Value → S → S × MethodResult Value) where
  under-after_call :
      (name id : Str) (r : S × MethodResult Value) (results : Results)
      → under (after_call j handle name id r results).2 ≡ some (name, id)
  unfolding success_response error_response
  under-after_call name id (s, ok v) results = refl
  under-after_call name id (s, err e) results = refl

  under-run_call :
      (name id : Str) (args : Value) (s : S) (results : Results)
      → under (run_call j handle name args id s results).2 ≡ some (name, id)
  unfolding run_call error_response
  under-run_call name id args s results = elim (Result-cases (resolve j results args)) [
    | inl (resolved, r) ↦
        rw (under, run_call, r) (under-after_call name id (handle name resolved s) results)
    | inr (message, r) ↦ rw (under, run_call, r) refl
  ]

  answered-run_calls :
      (calls : List Value) (s : S) (results : Results)
      → answered (run_calls j handle calls s results).1 ≡ asked calls
  unfolding run_calls answered asked
  answered-run_calls [] s results = refl
  answered-run_calls (raw ∷ calls) s results = elim (Option-cases (call_of raw)) [
    | inl e ↦ rw (run_calls, asked, e) (answered-run_calls calls s results)
    | inr ((name, args, id), e) ↦
        let after = run_call j handle name args id s results in
        rw (run_calls, asked, answered, e)
          (λ i.
            under-run_call name id args s results i ∷ answered-run_calls calls after.0 after.1 i)
  ]

  -- The responses of a batch are one for each well-formed call and none beside, in the order of the
  -- calls, each an array of the name of the call, a result and the id of the call, whether the call
  -- succeeds, fails or has a reference that cannot be resolved.
  pub answered-run_batch :
      (calls : List Value) (s : S) → answered (run_batch j handle calls s).1 ≡ asked calls
  unfolding run_batch
  answered-run_batch calls s = answered-run_calls calls s []

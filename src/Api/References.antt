-- ===== src/Api/References.antt =====
-- The arguments of a call once its references are resolved (crates/jmapserver/src/refs.rs).
use jmapsmtp.Prelude.{
  false, Option, none, some, [], ◌∷◌, Str, ==_iff, ◌≡◌, ◌⊎◌, refl, ap, ◌∙◌, arith, Bool-cases,
  Option-cases, inl, inr, if◌then◌else◌,
}
use jmapsmtp.Result.{Result, Result-cases, ok, err}
use jmapsmtp.Map
use jmapsmtp.Map.{Map, lookup-insert}
use jmapsmtp.Keys.{text_ord, same, same_iff}
use jmapsmtp.JmapTypes.{Value, object, Fields, JsonObject}
use jmapsmtp.Api.{
  Json, Results, members, fields_of, resolve_one, without_hash, resolve_members, has_reference,
  resolve,
}

-- No key stands twice.
abbrev pub IsDistinct : JsonObject → Type 0
IsDistinct [] = Unit
IsDistinct ((k, v) ∷ m) = (Map.lookup k m ≡ none) × IsDistinct m

abbrev value_of : Result Str Value → Option Value
value_of (ok v) = some v
value_of (err e) = none

abbrev pub hashed : Str → Str
hashed name = b'#' ∷ name

hashed-without_hash : (k name : Str) → without_hash k ≡ some name → k ≡ hashed name
hashed-without_hash [] name h = cc
hashed-without_hash (c ∷ k) name h = ground (arith, ==_iff c b'#')

module _ (j : Json) (results : Results) where
  abbrev referred : Str → Option Value → Option Value
  referred name none = none
  referred name (some v) = value_of (resolve_one j results (hashed name) v)

  -- An argument by its name: given plainly, or by a reference.
  unfoldable pub argument : Str → JsonObject → Option Value
  argument name args = elim (Map.lookup name args) [
    | some v ↦ some v
    | none ↦ referred name (Map.lookup (hashed name) args)
  ]

  abbrev or_old : Option Value → Option Value → Option Value
  or_old (some v) old = some v
  or_old none old = old

  -- At most one of the two forms of an argument is given.
  abbrev pub IsGivenOnce : Str → JsonObject → Type 0
  IsGivenOnce name args = (Map.lookup name args ≡ none) ⊎ (Map.lookup (hashed name) args ≡ none)

  lookup-tail :
      (x k : Str) (v : Value) (args : JsonObject)
      → Map.lookup x ((k, v) ∷ args) ≡ none
      → Map.lookup x args ≡ none
  unfolding Map.lookup
  lookup-tail x k v args h = ground arith

  IsGivenOnce-tail :
      (name k : Str) (v : Value) (args : JsonObject)
      → IsGivenOnce name ((k, v) ∷ args)
      → IsGivenOnce name args
  IsGivenOnce-tail name k v args (inl h) = inl (lookup-tail name k v args h)
  IsGivenOnce-tail name k v args (inr h) = inr (lookup-tail (hashed name) k v args h)

  argument-plain :
      (name k : Str) (v : Value) (args : JsonObject) (old : Option Value)
      → without_hash k ≡ none
      → IsDistinct ((k, v) ∷ args)
      → IsGivenOnce name ((k, v) ∷ args)
      → or_old (argument name args) (if same name k then some v else old)
        ≡ or_old (argument name ((k, v) ∷ args)) old
  unfolding argument Map.lookup
  argument-plain name k v args old e d one =
      ground (arith, same_iff name k, same_iff (hashed name) k)

  argument-hashed :
      (name n : Str) (v value : Value) (args : JsonObject) (old : Option Value)
      → without_hash name ≡ none
      → resolve_one j results (hashed n) v ≡ ok value
      → IsDistinct ((hashed n, v) ∷ args)
      → IsGivenOnce name ((hashed n, v) ∷ args)
      → or_old (argument name args) (if same name n then some value else old)
        ≡ or_old (argument name ((hashed n, v) ∷ args)) old
  unfolding argument Map.lookup
  argument-hashed name n v value args old plain r d one =
      ground (arith, same_iff name n, same_iff name (hashed n), same_iff (hashed name) (hashed n))

  lookup-resolve_members :
      (name : Str) (args out out' : JsonObject)
      → resolve_members j results args out ≡ ok out'
      → without_hash name ≡ none
      → IsDistinct args
      → IsGivenOnce name args
      → Map.lookup name out' ≡ or_old (argument name args) (Map.lookup name out)
  unfolding resolve_members
  lookup-resolve_members name [] out out' h plain d one = unfold argument Map.lookup in ground arith
  lookup-resolve_members name ((k, v) ∷ args) out out' h plain d one =
      elim (Option-cases (without_hash k)) [
        | inl e ↦
            lookup-resolve_members name args (Map.insert k v out) out'
              (rw (resolve_members, e) at h) plain d.1 (IsGivenOnce-tail name k v args one)
            ∙ rw (lookup-insert k name v out)
                (argument-plain name k v args (Map.lookup name out) e d one)
        | inr (n, e) ↦ elim (Result-cases (resolve_one j results k v)) [
          | inl (value, r) ↦
              let key = hashed-without_hash k n e in
              lookup-resolve_members name args (Map.insert n value out) out'
                (rw (resolve_members, e, r) at h) plain d.1 (IsGivenOnce-tail name k v args one)
              ∙ rw (lookup-insert n name value out, key)
                  (argument-hashed name n v value args (Map.lookup name out) plain (rw key at r)
                    (rw key at d) (rw key at one))
          | inr (message, r) ↦
              let stopped : err message ≡ ok out' = rw (resolve_members, e, r) at h in cc
        ]
      ]

  has_reference-none :
      (name : Str) (args : JsonObject)
      → has_reference args ≡ false
      → Map.lookup (hashed name) args ≡ none
  unfolding has_reference Map.lookup
  has_reference-none name [] h = refl
  has_reference-none name ((k, v) ∷ args) h =
      ground (arith, same_iff (hashed name) k, has_reference-none name args)

  or_old-none : (o : Option Value) → or_old o none ≡ o
  or_old-none none = refl
  or_old-none (some v) = refl

  argument-unreferenced :
      (name : Str) (args : JsonObject)
      → has_reference args ≡ false
      → Map.lookup name args ≡ argument name args
  unfolding argument
  argument-unreferenced name args h = ground (arith, has_reference-none name args)

  members-fields_of : (m : JsonObject) → members (fields_of m) ≡ m
  unfolding members fields_of
  members-fields_of [] = refl
  members-fields_of ((k, v) ∷ m) = ap (λ t. (k, v) ∷ t) (members-fields_of m)

  -- Once the references of an object of arguments are resolved, an argument whose name has no hash in
  -- front is the one that was given plainly, or what its reference stands for, or absent, as long as
  -- no key is given twice and the argument not in both forms.
  pub lookup-resolve :
      (name : Str) (args resolved : Fields)
      → resolve j results (object args) ≡ ok (object resolved)
      → without_hash name ≡ none
      → IsDistinct (members args)
      → IsGivenOnce name (members args)
      → Map.lookup name (members resolved) ≡ argument name (members args)
  unfolding resolve
  lookup-resolve name args resolved h plain d one =
      elim (Bool-cases (has_reference (members args))) [
        | inl e ↦ elim (Result-cases (resolve_members j results (members args) [])) [
          | inl (out, r) ↦
              let whole : ok (object (fields_of out)) ≡ ok (object resolved) =
                rw (resolve, e, r) at h in
              let same_fields : fields_of out ≡ resolved = cc whole in
              rw (← same_fields, members-fields_of out)
                (lookup-resolve_members name (members args) [] out r plain d one
                  ∙ unfold Map.lookup in or_old-none (argument name (members args)))
          | inr (message, r) ↦
              let stopped : err message ≡ ok (object resolved) = rw (resolve, e, r) at h in cc
        ]
        | inr e ↦
            let whole : ok (object args) ≡ ok (object resolved) = rw (resolve, e) at h in
            let same_fields : args ≡ resolved = cc whole in
            rw (← same_fields) (argument-unreferenced name (members args) e)
      ]

-- ===== src/Methods/Query.antt =====
-- `Email/query` of crates/jmapserver/src/methods/email.rs, over `matching_ids` of
-- crates/jmapserver/src/store.rs. `sort_key` stands for the receive time of a message as a number,
-- which is read from its text by the `time` crate.
use jmapsmtp.Prelude.{
  ℕ, zero, suc, ◌+◌, ◌-◌, ◌*◌, ◌%◌, ◌^◌, ◌≤◌, ◌<◌, Bool, true, false, Option, none, some, List, [],
  ◌∷◌, ◌++◌, Str, not, ◌&&◌, ◌||◌, ltb, leb, if◌then◌else◌, is_empty, any, keep_if, take, drop,
  length, min, strip_prefix, is_some,
}
use jmapsmtp.Result.{Result, ok, err}
use jmapsmtp.Words.{ltb_i64}
use jmapsmtp.Decimal.{print_i64}
use jmapsmtp.Map
use jmapsmtp.Map.{Map}
use jmapsmtp.Keys.{text_ord}
use jmapsmtp.JmapTypes.{Email, Address, BodyValue}
use jmapsmtp.Store.{Store}
use jmapsmtp.Smtp.{Panic, panic, Checked}
pub mod Pages

-- `str::contains`.
unfoldable pub contains : Str → Str → Bool
contains q [] = is_empty q
contains q (c ∷ s) = let rest = contains q s in is_some (strip_prefix q (c ∷ s)) || rest

-- The stable sort by a key, the greatest first.
unfoldable pub insert_by : ℕ × Str → List (ℕ × Str) → List (ℕ × Str)
insert_by x [] = x ∷ []
insert_by x (y ∷ ys) = let rest = insert_by x ys in if ltb x.0 y.0 then y ∷ rest else x ∷ y ∷ ys

unfoldable pub newest_first : List (ℕ × Str) → List (ℕ × Str)
unfolding insert_by
newest_first [] = []
newest_first (x ∷ xs) = insert_by x (newest_first xs)

abbrev ids_of : List (ℕ × Str) → List Str
ids_of [] = []
ids_of ((k, id) ∷ xs) = id ∷ ids_of xs

unfoldable pub hits : (Email → ℕ) → (Email → Bool) → Map Str Email → List (ℕ × Str)
hits sort_key keep [] = []
hits sort_key keep ((id, m) ∷ msgs) =
    let rest = hits sort_key keep msgs in if keep m then (sort_key m, m.id) ∷ rest else rest

unfoldable pub matching_ids : (Email → ℕ) → (Email → Bool) → Store → List Str
unfolding newest_first hits
matching_ids sort_key keep s = ids_of (newest_first (hits sort_key keep s.msgs))

pub record QueryFilter : Type 0 where
  pub in_mailbox : Str
  pub text : Str

-- The arguments; the position is an `i64` and the limit a `u64`.
pub record QueryArgs : Type 0 where
  pub filter : Option QueryFilter
  pub position : ℕ
  pub limit : ℕ

pub record QueryResponse : Type 0 where
  pub account_id : Str
  pub query_state : Str
  pub position : ℕ
  pub total : ℕ
  pub ids : List Str

-- `&xs[start..end]`, which panics out of range.
unfoldable pub slice {ℓ} : {A : Type ℓ} → ℕ → ℕ → List A → Option (List A)
slice start end xs =
    if leb start end && leb end (length xs) then some (take (end - start) (drop start xs)) else none

-- The page of the matching ids. The sum is of 64 bits, and wraps around in a release build.
unfoldable pub page_end : ℕ → ℕ → ℕ → ℕ
page_end start limit total = if ltb 0 limit then min ((start + limit) % 2 ^ 64) total else total

unfoldable pub page : ℕ → ℕ → List Str → Option (List Str)
unfolding slice page_end
page start limit filtered =
    if leb (length filtered) start
    then some []
    else slice start (page_end start limit (length filtered)) filtered

-- `position.max(0) as usize`.
abbrev start_of : ℕ → ℕ
start_of position = if ltb position (2 ^ 63) then position else 0

module _ (to_lowercase : Str → Str) (sort_key : Email → ℕ) where
  abbrev address_matches : Str → Address → Bool
  address_matches q a = contains q (to_lowercase a.name) || contains q (to_lowercase a.email)

  unfoldable pub matches_text : Email → Str → Bool
  unfolding contains Map.values
  matches_text m query =
      let q = to_lowercase query in
      contains q (to_lowercase m.subject)
      || any (address_matches q) m.from
      || any (address_matches q) m.to
      || any (address_matches q) m.cc
      || any (λ bv. contains q (to_lowercase bv.value)) (Map.values m.body_values)

  abbrev is_true : Option Bool → Bool
  is_true none = false
  is_true (some b) = b

  unfoldable pub keeps : Option QueryFilter → Email → Bool
  unfolding matches_text Map.lookup
  keeps none m = true
  keeps (some f) m =
      (is_empty f.in_mailbox || is_true (Map.lookup f.in_mailbox m.mailbox_ids))
      && (is_empty f.text || matches_text m f.text)

  abbrev response : Store → Str → ℕ → ℕ → Option (List Str) → Checked QueryResponse
  response s account_id start total none = err panic
  response s account_id start total (some ids) = ok (record {
    account_id = account_id;
    query_state = print_i64 s.state;
    position = start;
    total = total;
    ids = ids;
  })

  unfoldable pub query : Store → Str → QueryArgs → Checked QueryResponse
  unfolding matching_ids keeps page print_i64
  query s account_id req =
      let filtered = matching_ids sort_key (keeps req.filter) s in
      let start = start_of req.position in
      response s account_id start (length filtered) (page start req.limit filtered)

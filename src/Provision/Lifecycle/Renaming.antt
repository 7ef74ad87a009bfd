-- ===== src/Provision/Lifecycle/Renaming.antt =====
-- What a directory that is renamed leaves where (crates/jmapsmtp/src/server.rs).
use jmapsmtp.Prelude.{
  Option, none, some, [], ◌∷◌, Str, ◌≡◌, ◌≢◌, ap, ◌∙◌, arith, text_eq, text_eq_iff, text_eq_refl,
  if◌then◌else◌,
}
use jmapsmtp.Map
use jmapsmtp.Map.{
  Map, lookup-insert, lookup-remove, lookup-insert_self, lookup-remove_self, lookup-insert_ne,
}
use jmapsmtp.Keys.{text_ord, same_iff}
use jmapsmtp.Login.{account_dir}
use jmapsmtp.Provision.Lifecycle.{put_entry, moved}

lookup-put_entry :
    {V : Type 0} (k j : Str) (o : Option V) (m : Map Str V)
    → Map.lookup j (put_entry k o m) ≡ (if text_eq j k then o else Map.lookup j m)
lookup-put_entry k j none m = ground (arith, lookup-remove k j m, same_iff j k, text_eq_iff j k)
lookup-put_entry k j (some v) m =
    ground (arith, lookup-insert k j v m, same_iff j k, text_eq_iff j k)

-- A directory that is renamed has its files under the new name, none under the old one, and every other
-- directory has what it had.
pub lookup-moved :
    {V : Type 0} (old new j : Str) (m : Map Str V)
    → Map.lookup j (moved old new m)
      ≡ (if text_eq j new then Map.lookup old m else if text_eq j old then none else Map.lookup j m)
lookup-moved old new j m =
    lookup-put_entry new j (Map.lookup old m) (Map.remove old m)
    ∙ ap (λ o. if text_eq j new then Map.lookup old m else o) (lookup-put_entry old j none m)

-- Renamed there and back, a directory whose new name was free is as it was, and so is every other.
pub lookup-moved_back :
    {V : Type 0} (old new j : Str) (m : Map Str V)
    → old ≢ new
    → Map.lookup new m ≡ none
    → Map.lookup j (moved new old (moved old new m)) ≡ Map.lookup j m
lookup-moved_back old new j m apart free = ground (
  arith,
  lookup-moved new old j (moved old new m),
  lookup-moved old new j m,
  lookup-moved old new new m,
  text_eq_iff j old,
  text_eq_iff j new,
  text_eq_refl new,
)

pub dirs-apart : (domain a b : Str) → account_dir domain a ≡ account_dir domain b → a ≡ b
unfolding account_dir
dirs-apart [] a b h = cc
dirs-apart (x ∷ domain) a b h = dirs-apart domain a b cc

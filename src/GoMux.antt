-- ===== src/GoMux.antt =====
-- crates/jmapsmtp/src/gomux.rs: the routing table, and the cleaning of paths that comes before it.
use jmapsmtp.Prelude.{
  ℕ, Bool, true, false, Option, none, some, List, [], ◌∷◌, ◌++◌, Str, codes, ◌==◌, not, ◌&&◌, ◌||◌,
  if◌then◌else◌, is_empty, is_some, ltb, length, text_eq, split, join, starts_with,
}
use jmapsmtp.Map
use jmapsmtp.Map.{Map}
use jmapsmtp.Keys.{text_ord}
use jmapsmtp.Smtp.Payload.{ends_with}
pub mod Segments
pub mod Clean

abbrev pub slash : ℕ
slash = b'/'

-- `out.pop()` and `out.push(seg)`, for one segment.
unfoldable pub pop : List Str → List Str
pop [] = []
pop (s ∷ []) = []
pop (s ∷ t ∷ out) = s ∷ pop (t ∷ out)

unfoldable pub visit : List Str → Str → List Str
unfolding pop
visit out seg =
    if is_empty seg || text_eq seg (codes ".")
    then out
    else if text_eq seg (codes "..")
    then pop out
    else out ++ seg ∷ []

unfoldable pub clean_segments : List Str → List Str → List Str
unfolding visit
clean_segments out [] = out
clean_segments out (seg ∷ segs) = clean_segments (visit out seg) segs

unfoldable pub rooted : List Str → Str
rooted out = if is_empty out then slash ∷ [] else slash ∷ join (slash ∷ []) out

unfoldable pub lexical_clean : Str → Str
unfolding clean_segments rooted
lexical_clean p = rooted (clean_segments [] (split slash p))

abbrev starts_with_slash : Str → Bool
starts_with_slash [] = false
starts_with_slash (c ∷ s) = c == slash

unfoldable pub clean_rooted : Str → Str
unfolding lexical_clean ends_with
clean_rooted p =
    let np = lexical_clean p in
    if ends_with slash p && not (text_eq np (slash ∷ [])) then np ++ slash ∷ [] else np

unfoldable pub clean_path : Str → Str
unfolding clean_rooted
clean_path p =
    if is_empty p then slash ∷ [] else clean_rooted (if starts_with_slash p then p else slash ∷ p)

-- `Route`: what a path resolves to.
pub data Answer (H : Type 0) : Type 0 where
  found : Str → H → Answer H
  redirect : Str → Answer H
  not_found : Answer H

-- The longest subtree pattern that the path starts with, the last of several.
abbrev longer : Str → Option Str → Option Str
longer p none = some p
longer p (some q) = if ltb (length q) (length p) then some p else some q

unfoldable pub with_query : Str → Str → Str
with_query path raw_query = if is_empty raw_query then path else path ++ codes "?" ++ raw_query

abbrev pub matches : Str → Option Str → Bool
matches path none = false
matches path (some p) = text_eq p path

module _ {H : Type 0} where
  -- `handle`, which panics on a pattern that is empty, not rooted, or registered already.
  unfoldable pub handle : Str → H → Map Str H → Option (Map Str H)
  unfolding Map.contains_key
  handle pattern handler routes =
      if is_empty pattern || not (starts_with_slash pattern) || Map.contains_key pattern routes
      then none
      else some (Map.insert pattern handler routes)

  unfoldable pub longest_prefix : Str → Map Str H → Option Str
  longest_prefix path [] = none
  longest_prefix path ((p, h) ∷ routes) =
      let rest = longest_prefix path routes in
      if ends_with slash p && starts_with p path then longer p rest else rest

  unfoldable pub match_path : Map Str H → Str → Option Str
  unfolding longest_prefix Map.contains_key
  match_path routes path =
      if Map.contains_key path routes then some path else longest_prefix path routes

  abbrev pub lookup_route : Map Str H → Option Str → Answer H
  lookup_route routes none = not_found
  lookup_route routes (some p) = elim (Map.lookup p routes) [
    | none ↦ not_found
    | some h ↦ found p h
  ]

  -- A slash is missing: the path matches nothing exactly, and with the slash it does.
  unfoldable pub wants_slash : Map Str H → Str → Bool
  unfolding match_path ends_with
  wants_slash routes cleaned =
      let with_slash = cleaned ++ slash ∷ [] in
      not (matches cleaned (match_path routes cleaned))
      && not (ends_with slash cleaned)
      && not (is_empty cleaned)
      && matches with_slash (match_path routes with_slash)

  unfoldable pub route : Map Str H → Str → Str → Answer H
  unfolding clean_path match_path with_query wants_slash
  route routes path raw_query =
      let cleaned = clean_path path in
      if wants_slash routes cleaned
      then redirect (with_query (cleaned ++ slash ∷ []) raw_query)
      else if not (text_eq cleaned path)
      then redirect (with_query cleaned raw_query)
      else lookup_route routes (match_path routes cleaned)

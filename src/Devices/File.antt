-- ===== src/Devices/File.antt =====
-- The file that the id of a device leads to: `device_file` of crates/jmapserver/src/did/devicekeys.rs,
-- which joins the id as it is, so that one with a `/` is a path.
use jmapsmtp.Prelude.{
  [], ◌∷◌, ◌++◌, Str, codes, ◌≡◌, ◌≢◌, refl, sym, ◌∙◌, true, false, Bool, ◌==◌, ◌||◌, arith,
  if◌then◌else◌, is_empty, text_eq, starts_with, strip_prefix, not, any, append_assoc, append-nil,
}

-- Where a path stands: in the directory of the account, in one of the two that it has, or elsewhere.
pub data Folder : Type 0 where
  account : Folder
  devices : Folder
  sessions : Folder
  elsewhere : Folder

-- The name of a file in devices/ or sessions/, without its `.json`, or the path to one elsewhere.
pub data DeviceFile : Type 0 where
  in_devices : Str → DeviceFile
  in_sessions : Str → DeviceFile
  outside : Str → DeviceFile

unfoldable pub enter : Folder → Str → Folder
unfolding text_eq
enter account segment =
    if is_empty segment || text_eq segment (codes ".")
    then account
    else if text_eq segment (codes "devices")
    then devices
    else if text_eq segment (codes "sessions")
    then sessions
    else elsewhere
enter devices segment =
    if is_empty segment || text_eq segment (codes ".")
    then devices
    else if text_eq segment (codes "..")
    then account
    else elsewhere
enter sessions segment =
    if is_empty segment || text_eq segment (codes ".")
    then sessions
    else if text_eq segment (codes "..")
    then account
    else elsewhere
enter elsewhere segment = elsewhere

abbrev pub file_in : Str → Folder → Str → DeviceFile
file_in path devices name = in_devices name
file_in path sessions name = in_sessions name
file_in path _ name = outside path

-- The segments of a path in turn; the last one is the name of the file.
unfoldable pub follow : Str → Folder → Str → Str → DeviceFile
unfolding enter
follow path at segment [] = file_in path at segment
follow path at segment (c ∷ s) =
    follow path (if c == b'/' then enter at segment else at)
      (if c == b'/' then [] else segment ++ c ∷ []) s

-- A path from the root takes the place of the directory.
unfoldable pub device_file : Str → DeviceFile
unfolding follow starts_with
device_file id = if starts_with (codes "/") id then outside id else follow id devices [] id

-- An id without a `/`, as the base64 of a key is.
abbrev pub is_plain : Str → Bool
is_plain id = not (any (λ c. c == b'/') id)

follow-plain :
    (path : Str) (at : Folder) (segment s : Str)
    → is_plain s ≡ true
    → follow path at segment s ≡ file_in path at (segment ++ s)
unfolding follow
follow-plain path at segment [] h = rw (append-nil) refl
follow-plain path at segment (c ∷ s) h =
    let plain : (c == b'/') ≡ false = ground arith in
    let rest : is_plain s ≡ true = ground arith in
    rw
      (
        follow,
        plain,
        follow-plain path at (segment ++ c ∷ []) s rest,
        append_assoc segment (c ∷ []) s,
      )
      refl

device_file-plain : (id : Str) → is_plain id ≡ true → device_file id ≡ in_devices id
unfolding device_file starts_with strip_prefix
device_file-plain [] h = refl
device_file-plain (c ∷ s) h =
    let plain : (c == b'/') ≡ false = ground arith in
    ground (arith, follow-plain (c ∷ s) devices [] (c ∷ s) h)

-- An id without a `/` leads to no file of a session.
pub device_file-ne-in_sessions :
    (id : Str) → is_plain id ≡ true → (hash : Str) → device_file id ≢ in_sessions hash
device_file-ne-in_sessions id h hash e =
    let both : in_devices id ≡ in_sessions hash = sym (device_file-plain id h) ∙ e in cc

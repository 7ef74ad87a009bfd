-- ===== src/ScidLocalpart.antt =====
-- crates/jmapsmtp/src/did/scid_localpart.rs: the local part of an identity's address.
use jmapsmtp.Prelude.{ℕ, Option, none, some, Str, ◌==◌, if◌then◌else◌, length}
use jmapsmtp.Base58
use jmapsmtp.Zbase32
pub mod Reversible

abbrev pub scid_bytes : ℕ
scid_bytes = 34

abbrev pub exactly : Option Str → Option Str
exactly none = none
exactly (some bytes) = if length bytes == scid_bytes then some (Zbase32.encode bytes) else none

unfoldable pub to_localpart : Str → Option Str
unfolding Base58.decode Zbase32.encode
to_localpart scid = exactly (Base58.decode scid)

abbrev pub recoded : Option Str → Option Str
recoded none = none
recoded (some bytes) = some (Base58.encode bytes)

unfoldable pub from_localpart : Str → Option Str
unfolding Base58.encode Zbase32.decode
from_localpart localpart = recoded (Zbase32.decode localpart scid_bytes)

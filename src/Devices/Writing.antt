-- ===== src/Devices/Writing.antt =====
-- A device that is written is there, whatever its id leads to
-- (crates/jmapserver/src/did/devicekeys.rs).
use jmapsmtp.Prelude.{true, ◌≡◌}
use jmapsmtp.Map.{contains_key-insert}
use jmapsmtp.Map.Set.{contains-insert}
use jmapsmtp.Keys.{text_ord, same_refl}
use jmapsmtp.Store.{Write, written, refused, damaged, succeeded}
use jmapsmtp.Devices.File.{DeviceFile, in_devices, in_sessions, outside}
use jmapsmtp.Devices.{DeviceKey, DeviceDir, has_file, written_to}

pub has_file-written_to :
    (outcome : Write) (key : DeviceKey) (file : DeviceFile) (d : DeviceDir)
    → succeeded outcome ≡ true
    → has_file file (written_to outcome key file d) ≡ true
has_file-written_to written key (in_devices name) d h = simp (contains_key-insert, same_refl)
has_file-written_to written key (in_sessions hash) d h = simp (contains_key-insert, same_refl)
has_file-written_to written key (outside path) d h = simp (contains-insert, same_refl)
has_file-written_to refused key file d h = cc
has_file-written_to damaged key file d h = cc

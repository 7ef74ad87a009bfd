-- ===== src/Examples/Routes.antt =====
-- Paths cleaned.
use jmapsmtp.Prelude.{codes, All, split}
use jmapsmtp.Keys.{text_ord}
use jmapsmtp.GoMux.{slash, clean_path}
use jmapsmtp.GoMux.Clean.{StaysBelow, clean_path-StaysBelow}

clean_path-StaysBelow_example :
    All StaysBelow (split slash (clean_path (codes "/../../etc/./passwd")))
clean_path-StaysBelow_example = clean_path-StaysBelow (codes "/../../etc/./passwd")

-- ===== src/Examples/Nonce.antt =====
-- A nonce that is redeemed, and replayed.
use jmapsmtp.Prelude.{◌≤◌, List, [], ◌∷◌, codes, ◌≡◌, refl, text_compare, text_eq}
use jmapsmtp.Map
use jmapsmtp.Keys.{text_ord}
use jmapsmtp.SessionNonce.{issue, consume}
use jmapsmtp.SessionNonce.SingleUse.{Op, issue_op, consume_op, issued, redeemed, redeemed-issued}

abbrev script : List Op
script = issue_op 100 (codes "n") ∷ consume_op 110 (codes "n") ∷ consume_op 111 (codes "n") ∷ []

redeemed-issued_example : redeemed (codes "n") script [] ≤ issued (codes "n") script
redeemed-issued_example = redeemed-issued (codes "n") script

script-redeemed : redeemed (codes "n") script [] ≡ 1
unfolding redeemed issue consume text_eq text_compare Map.lookup Map.insert Map.remove Map.retain
script-redeemed = refl

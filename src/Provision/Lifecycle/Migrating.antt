-- ===== src/Provision/Lifecycle/Migrating.antt =====
-- What an account keeps when it moves to the local part of its identity (crates/jmapsmtp/src/server.rs).
use jmapsmtp.Prelude.{
  Bool, true, false, Option, none, some, Str, ◌≡◌, ◌≢◌, refl, sym, ap, ◌∙◌, arith, ◌||◌, text_eq,
  text_eq_iff, text_eq_refl, if◌then◌else◌, Bool-cases, Option-cases, inl, inr,
}
use jmapsmtp.Map
use jmapsmtp.Map.{
  Map, lookup-insert, lookup-remove, lookup-insert_self, lookup-remove_self, lookup-insert_ne,
}
use jmapsmtp.Keys.{text_ord}
use jmapsmtp.Accounts
use jmapsmtp.Accounts.{AccountStore, Accounts, points_at}
use jmapsmtp.Accounts.Routing.{IsRouted}
use jmapsmtp.Accounts.Delivery.{resolve-migrate_primary}
use jmapsmtp.Login.{account_dir, files_at, authenticate_basic}
use jmapsmtp.Login.Handlers.{Method, get, post, delete, other}
use jmapsmtp.Config.{logins}
use jmapsmtp.Result.{ok, Result-cases}
use jmapsmtp.Provision.Lifecycle.Renaming.{lookup-moved, lookup-moved_back, dirs-apart}
use jmapsmtp.Provision.Service.{Service, World, address}
use jmapsmtp.Provision.Lifecycle.{
  Moves, migrated, rename_dir, renamed_account, swapped, reopened, migrate, scid_of,
  account_migrate_to_scid,
}

-- Two services that have the same accounts, and the same files in every directory.
abbrev pub IsSame : {S : Type 0} → Service S → Service S → Type 0
IsSame s t =
    (s.state.accounts ≡ t.state.accounts)
    × ((dir : Str)
        → (Map.lookup dir s.relay.dirs ≡ Map.lookup dir t.relay.dirs)
          × (Map.lookup dir s.state.files ≡ Map.lookup dir t.state.files)
          × (Map.lookup dir s.envelopes ≡ Map.lookup dir t.envelopes))

IsSame-refl : {S : Type 0} → (s : Service S) → IsSame s s
IsSame-refl s = (refl, λ dir. (refl, refl, refl))

-- No file is in the directory.
abbrev pub IsFree : {S : Type 0} → Str → Service S → Type 0
IsFree dir s =
    (Map.lookup dir s.relay.dirs ≡ none)
    × (Map.lookup dir s.state.files ≡ none)
    × (Map.lookup dir s.envelopes ≡ none)

module _ {S : Type 0} (w : World S) (io : Moves) (domain localpart scid : Str)
    (svc : Service S) where
  abbrev old_dir : Str
  old_dir = account_dir domain localpart

  abbrev new_dir : Str
  new_dir = account_dir domain scid

  abbrev there : Service S
  there = rename_dir true old_dir new_dir svc

  new_dir-old_dir : scid ≢ localpart → old_dir ≢ new_dir
  new_dir-old_dir h = λ e. h (sym (dirs-apart domain localpart scid e))

  files_at-renamed : files_at new_dir there.relay.dirs ≡ files_at old_dir svc.relay.dirs
  unfolding files_at rename_dir
  files_at-renamed =
      rw
        (
          files_at,
          rename_dir,
          lookup-moved old_dir new_dir new_dir svc.relay.dirs,
          text_eq_refl new_dir,
        )
        refl

  -- A move whose steps fare well.
  migrate-migrated :
      (store : S)
      → scid ≢ localpart
      → io.target_exists ≡ false
      → io.renamed ≡ true
      → w.store_at new_dir ≡ some store
      → Map.contains_key (address localpart domain) svc.state.accounts.stores ≡ true
      → Map.contains_key (address scid domain) svc.state.accounts.stores ≡ false
      → ((migrate w io domain localpart scid svc).1 ≡ migrated (address scid domain))
        × ((migrate w io domain localpart scid svc).0.state.accounts
            ≡ (Accounts.migrate_primary
                (address localpart domain)
                (renamed_account w domain scid store)
                svc.state.accounts).0)
        × ((migrate w io domain localpart scid svc).0.relay.dirs ≡ there.relay.dirs)
  unfolding migrate rename_dir Accounts.migrate_primary
  migrate-migrated store apart free renamed opened old new =
      let other : text_eq scid localpart ≡ false = ground (arith, text_eq_iff scid localpart) in
      rw (migrate, other, free, renamed, opened, Accounts.migrate_primary, old, new)
        (refl, refl, refl)

  renamed_back-IsSame :
      scid ≢ localpart → IsFree new_dir svc → IsSame (rename_dir true new_dir old_dir there) svc
  unfolding rename_dir
  renamed_back-IsSame h (dirs, files, envelopes) =
      let apart = new_dir-old_dir h in
      (
        refl,
        λ dir. (
          lookup-moved_back old_dir new_dir dir svc.relay.dirs apart dirs,
          lookup-moved_back old_dir new_dir dir svc.state.files apart files,
          lookup-moved_back old_dir new_dir dir svc.envelopes apart envelopes,
        ),
      )

  -- A move that stops puts everything back.
  swapped-IsSame :
      (t : Accounts S) (done : Bool)
      → ((email : Str) → (swapped w io domain localpart scid there (t, done)).1 ≢ migrated email)
      → io.renamed_back ≡ true
      → scid ≢ localpart
      → IsFree new_dir svc
      → IsSame (swapped w io domain localpart scid there (t, done)).0 svc
  swapped-IsSame t true stops back apart free = absurd (stops (address scid domain) refl)
  swapped-IsSame t false stops back apart free = rw (back) (renamed_back-IsSame apart free)

  reopened-IsSame :
      (o : Option S)
      → ((email : Str) → (reopened w io domain localpart scid there o).1 ≢ migrated email)
      → io.renamed_back ≡ true
      → scid ≢ localpart
      → IsFree new_dir svc
      → IsSame (reopened w io domain localpart scid there o).0 svc
  reopened-IsSame none stops back apart free = rw (back) (renamed_back-IsSame apart free)
  reopened-IsSame (some store) stops back apart free =
      let (t, done) =
        Accounts.migrate_primary (address localpart domain) (renamed_account w domain scid store)
          there.state.accounts in
      swapped-IsSame t done stops back apart free

  migrate-IsSame :
      ((email : Str) → (migrate w io domain localpart scid svc).1 ≢ migrated email)
      → io.renamed_back ≡ true
      → IsFree new_dir svc
      → IsSame (migrate w io domain localpart scid svc).0 svc
  unfolding migrate
  migrate-IsSame stops back free = elim (Bool-cases (text_eq scid localpart)) [
    | inl e ↦ rw (migrate, e) (IsSame-refl svc)
    | inr e ↦ elim (Bool-cases io.target_exists) [
      | inl x ↦ rw (migrate, e, x) (IsSame-refl svc)
      | inr x ↦ elim (Bool-cases io.renamed) [
        | inr r ↦ rw (migrate, e, x, r) (IsSame-refl svc)
        | inl r ↦
            let apart : scid ≢ localpart = ground (arith, text_eq_iff scid localpart) in
            rw (migrate, e, x, r)
              (reopened-IsSame (w.store_at new_dir) (rw (migrate, e, x, r) at stops) back apart
                free)
      ]
    ]
  ]

  -- A migration whose steps fare well is answered with the new address. The old address, the new one and
  -- every alias of the account lead to the account under its new name, every other address leads where
  -- it did, and the credentials and sessions of the old directory are those of the new one. The request
  -- is authenticated, its identity has a local part that is not the present one, the new directory is
  -- not there, the table has the old address and not the new one, and every alias leads to an account.
  pub resolve-account_migrate_to_scid :
      (header did : Option Str) (store : S)
      → authenticate_basic w.codec (logins w.domains) header w.now svc.relay
        ≡ some (domain, localpart)
      → scid_of w did ≡ ok scid
      → scid ≢ localpart
      → io.target_exists ≡ false
      → io.renamed ≡ true
      → w.store_at new_dir ≡ some store
      → Map.contains_key (address localpart domain) svc.state.accounts.stores ≡ true
      → Map.contains_key (address scid domain) svc.state.accounts.stores ≡ false
      → IsRouted svc.state.accounts
      → ((account_migrate_to_scid w post header did io svc).1 ≡ migrated (address scid domain))
        × ((a : Str)
            → Accounts.resolve w.codec.to_lowercase a
                (account_migrate_to_scid w post header did io svc).0.state.accounts
              ≡ (if text_eq (w.codec.to_lowercase a) (address scid domain)
                    || text_eq (w.codec.to_lowercase a) (address localpart domain)
                    || points_at
                        (address localpart domain)
                        (Map.lookup (w.codec.to_lowercase a) svc.state.accounts.aliases)
                  then some (renamed_account w domain scid store)
                  else Accounts.resolve w.codec.to_lowercase a svc.state.accounts))
        × (files_at new_dir (account_migrate_to_scid w post header did io svc).0.relay.dirs
            ≡ files_at old_dir svc.relay.dirs)
  unfolding account_migrate_to_scid
  resolve-account_migrate_to_scid header did store a s apart free renamed opened old new routed =
      let (answer, table, dirs) = migrate-migrated store apart free renamed opened old new in
      rw (account_migrate_to_scid, a, s)
        (
          answer,
          λ b.
              ap (Accounts.resolve w.codec.to_lowercase b) table
              ∙ resolve-migrate_primary w.codec.to_lowercase (address localpart domain) b
                  (renamed_account w domain scid store) svc.state.accounts routed old new,
          ap (files_at new_dir) dirs ∙ files_at-renamed,
        )

-- Whatever the method, the credentials and the identity of a request, a migration that is refused or
-- stops half way leaves every account where it was, and in every directory what was there, if the
-- directory can be renamed back and the directory that the request would move to has no files.
pub account_migrate_to_scid-IsSame :
    {S : Type 0}
    → (w : World S) (io : Moves) (svc : Service S) (method : Method) (header did : Option Str)
    → ((email : Str) → (account_migrate_to_scid w method header did io svc).1 ≢ migrated email)
    → io.renamed_back ≡ true
    → ((domain localpart scid : Str)
        → authenticate_basic w.codec (logins w.domains) header w.now svc.relay
          ≡ some (domain, localpart)
        → scid_of w did ≡ ok scid
        → IsFree (account_dir domain scid) svc)
    → IsSame (account_migrate_to_scid w method header did io svc).0 svc
unfolding account_migrate_to_scid
account_migrate_to_scid-IsSame w io svc post header did stops back free =
    elim (Option-cases (authenticate_basic w.codec (logins w.domains) header w.now svc.relay)) [
      | inl a ↦ rw (account_migrate_to_scid, a) (IsSame-refl svc)
      | inr ((domain, localpart), a) ↦ elim (Result-cases (scid_of w did)) [
        | inl (scid, s) ↦
            rw (account_migrate_to_scid, a, s)
              (migrate-IsSame w io domain localpart scid svc
                (rw (account_migrate_to_scid, a, s) at stops) back (free domain localpart scid a s))
        | inr (e, s) ↦ rw (account_migrate_to_scid, a, s) (IsSame-refl svc)
      ]
    ]
account_migrate_to_scid-IsSame w io svc get header did stops back free = IsSame-refl svc
account_migrate_to_scid-IsSame w io svc delete header did stops back free = IsSame-refl svc
account_migrate_to_scid-IsSame w io svc other header did stops back free = IsSame-refl svc

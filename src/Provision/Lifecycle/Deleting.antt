-- ===== src/Provision/Lifecycle/Deleting.antt =====
-- What is left of an account that was deleted (crates/jmapsmtp/src/server.rs).
use jmapsmtp.Prelude.{
  ℕ, Option, none, some, [], Str, ◌≡◌, ◌≢◌, refl, sym, ap, ◌∙◌, Option-cases, inl, inr,
}
use jmapsmtp.Result.{Result-cases}
use jmapsmtp.Map
use jmapsmtp.Map.{Map, All-lookup, All-remove, lookup-remove_self}
use jmapsmtp.Keys.{text_ord}
use jmapsmtp.CustomDomain.{may_self_delete}
use jmapsmtp.Config.{domain_config, logins}
use jmapsmtp.Accounts
use jmapsmtp.Accounts.{AccountStore, Accounts}
use jmapsmtp.Accounts.Delivery.{resolve-remove}
use jmapsmtp.Login.{no_files, account_dir, files_at, authenticate_basic}
use jmapsmtp.Login.Basic.{authenticate_basic-some, authenticate-no_files}
use jmapsmtp.Login.Handlers.{post}
use jmapsmtp.Provision.Service.{Service, World, address}
use jmapsmtp.Provision.Service.Creation.{IsKeyed}
use jmapsmtp.Provision.Lifecycle.{
  DirRemoval, gone, left, no_content, not_deletable, unrouted, accounts_of, remove_dir,
  delete_account, account_delete,
}

module _ {S : Type 0} (w : World S) where
  -- No address leads to the account that was removed.
  resolve-removed :
      (primary a : Str) (account : AccountStore S) (t : Accounts S)
      → IsKeyed t.stores
      → Accounts.resolve w.codec.to_lowercase a (Accounts.remove primary t).0 ≡ some account
      → account.email ≢ primary
  unfolding Accounts.resolve Accounts.remove
  resolve-removed primary a account t keyed h = λ own.
      elim (Option-cases
        (Map.lookup (w.codec.to_lowercase a) (Accounts.remove primary t).0.aliases)) [
          | inl e ↦ let nowhere : none ≡ some account = rw (Accounts.resolve, e) at h in cc
          | inr (q, e) ↦
              let stored : Map.lookup q (Map.remove primary t.stores) ≡ some account =
                rw (Accounts.resolve, e) at h in
              let key =
                All-lookup (λ x. x.1.email ≡ x.0) q account (Map.remove primary t.stores) stored
                  (All-remove (λ x. x.1.email ≡ x.0) primary t.stores keyed) in
              (resolve-remove w.codec.to_lowercase primary (w.codec.to_lowercase a) q t e).0
                (sym key ∙ own)
        ]

  files_at-remove_dir :
      (dir : Str) (svc : Service S) → files_at dir (remove_dir gone dir svc).relay.dirs ≡ no_files
  unfolding files_at remove_dir
  files_at-remove_dir dir svc = rw (files_at, lookup-remove_self dir svc.relay.dirs) refl

  accounts-remove_dir :
      (dir : Str) (svc : Service S) → (remove_dir gone dir svc).state.accounts ≡ svc.state.accounts
  unfolding remove_dir
  accounts-remove_dir dir svc = refl

  deleted-no_content :
      (removal : DirRemoval) (domain localpart : Str) (svc : Service S)
      → (delete_account w removal domain localpart svc).1 ≡ no_content
      → (delete_account w removal domain localpart svc).0
        ≡ remove_dir gone (account_dir domain localpart) (unrouted w (address localpart domain) svc)
  unfolding delete_account
  deleted-no_content gone domain localpart svc h = refl
  deleted-no_content (left files aliases envelope) domain localpart svc h = cc

  -- What a deletion that is answered with success has done.
  account_delete-no_content :
      (header : Option Str) (removal : DirRemoval) (svc : Service S) (domain localpart : Str)
      → authenticate_basic w.codec (logins w.domains) header w.now svc.relay
        ≡ some (domain, localpart)
      → (account_delete w post header removal svc).1 ≡ no_content
      → (account_delete w post header removal svc).0
        ≡ remove_dir gone (account_dir domain localpart) (unrouted w (address localpart domain) svc)
  unfolding account_delete
  account_delete-no_content header removal svc domain localpart a h =
      elim (Result-cases (
        may_self_delete (accounts_of w (domain_config w.domains svc.dynamic_domains domain))
          localpart)) [
            | inr (e, m) ↦
                let stopped : not_deletable e ≡ no_content = rw (account_delete, a, m) at h in cc
            | inl (u, m) ↦
                rw (account_delete, a, m)
                  (deleted-no_content removal domain localpart svc (rw (account_delete, a, m) at h))
          ]

  -- After a deletion that is answered with success no address leads to the account, and no credentials,
  -- old or new, open it. Every account is under its own address, and trimming nothing gives nothing.
  pub account_delete_lem :
      (header : Option Str) (removal : DirRemoval) (svc : Service S) (domain localpart : Str)
      → authenticate_basic w.codec (logins w.domains) header w.now svc.relay
        ≡ some (domain, localpart)
      → (account_delete w post header removal svc).1 ≡ no_content
      → IsKeyed svc.state.accounts.stores
      → w.codec.trim [] ≡ []
      → ((a : Str) (account : AccountStore S)
          → Accounts.resolve w.codec.to_lowercase a
              (account_delete w post header removal svc).0.state.accounts
            ≡ some account
          → account.email ≢ address localpart domain)
        × ((later : Option Str) (now : ℕ)
            → authenticate_basic w.codec
                (logins w.domains)
                later
                now
                (account_delete w post header removal svc).0.relay
              ≢ some (domain, localpart))
  account_delete_lem header removal svc domain localpart a h keyed t =
      let done = account_delete-no_content header removal svc domain localpart a h in
      let dir = account_dir domain localpart in
      let rest = unrouted w (address localpart domain) svc in
      let no_dir = ap (λ s. files_at dir s.relay.dirs) done ∙ files_at-remove_dir dir rest in
      let table = ap (λ s. s.state.accounts) done ∙ accounts-remove_dir dir rest in
      (
        λ b account led.
            resolve-removed (address localpart domain) b account svc.state.accounts keyed
              (sym (ap (Accounts.resolve w.codec.to_lowercase b) table) ∙ led),
        λ later now accepted.
            let relay = (account_delete w post header removal svc).0.relay in
            let (name, password, id, let_in, parts) =
              authenticate_basic-some w.codec (logins w.domains) later now relay domain localpart
                accepted in
            authenticate-no_files w.codec (logins w.domains) name password id domain localpart now
              relay t no_dir let_in parts,
      )

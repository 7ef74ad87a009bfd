-- ===== src/Provision/Service/Created.antt =====
-- What a provisioned account has, and what the other accounts keep (crates/jmapsmtp/src/server.rs).
use jmapsmtp.Prelude.{
  true, false, none, some, [], Str, ◌≡◌, refl, sym, ap, ◌∙◌, arith, not, text_eq, text_eq_iff,
  Bool-cases, Option-cases, inl, inr,
}
use jmapsmtp.Result.{ok}
use jmapsmtp.Map
use jmapsmtp.Map.{Map, All-lookup, lookup-insert_self}
use jmapsmtp.Keys.{text_ord}
use jmapsmtp.Store.{succeeded}
use jmapsmtp.Accounts
use jmapsmtp.Accounts.{AccountStore, Accounts}
use jmapsmtp.Accounts.Routing.{IsRouted}
use jmapsmtp.Login.{account_dir}
use jmapsmtp.Login.Handlers.{post, dir_at, with_dir, write_device}
use jmapsmtp.Login.Handlers.Session.{dir_at-with_dir}
use jmapsmtp.Devices.File.{device_file}
use jmapsmtp.Devices.{DeviceKey, DeviceDir, has_device_key, write_device_key}
use jmapsmtp.Devices.Writing.{has_file-written_to}
use jmapsmtp.Provision.{ProvisionRequest, did_bound}
use jmapsmtp.Provision.Service.{
  Service, World, Plan, created, address, read_aliases, register_dyn_account, plan_provision,
  alias_name, create_account, account_provision, keep_envelope,
}
use jmapsmtp.Provision.Service.Checked.{plan_provision-ok, admit-ok}
use jmapsmtp.Provision.Service.Creation.{
  IsKeyed, registered, dynamic-registered, alias_name-accounts, alias_name-relay, resolve-named,
  leads,
}

module _ {S : Type 0} (w : World S) (p : Plan) (req : ProvisionRequest) (svc : Service S) where
  -- The key of the device that a request names.
  abbrev new_key : DeviceKey
  new_key = record { id = req.device_pub_key; label = req.device_label; created_at = w.now }

  abbrev new_dir : DeviceDir
  new_dir =
      (write_device_key w.device_write new_key
        (dir_at (account_dir p.domain p.localpart) svc.relay)).0

  -- The service once the device is written, and before the account is registered.
  abbrev prepared : Service S
  prepared = record svc {
    relay = with_dir (account_dir p.domain p.localpart) new_dir svc.relay;
    envelopes = keep_envelope w (account_dir p.domain p.localpart) req.envelope svc.envelopes;
  }

  create_account-settled :
      succeeded w.device_write ≡ true
      → create_account w p req svc ≡ (
        alias_name w p (register_dyn_account w p.localpart p.domain prepared),
        created (address p.localpart p.domain) (did_bound w.anchored req),
      )
  unfolding create_account write_device write_device_key
  create_account-settled h = rw (create_account, write_device, write_device_key, h) refl

  has_device_key-new_dir :
      succeeded w.device_write ≡ true → has_device_key req.device_pub_key new_dir ≡ true
  unfolding has_device_key write_device_key
  has_device_key-new_dir h =
      has_file-written_to w.device_write new_key (device_file req.device_pub_key)
        (dir_at (account_dir p.domain p.localpart) svc.relay) h

  -- Nobody has the address of a plan that was made.
  lookup-primary :
      (host : Str)
      → plan_provision w req host svc ≡ ok p
      → w.codec.to_lowercase (address p.localpart p.domain) ≡ address p.localpart p.domain
      → Map.lookup (address p.localpart p.domain) svc.state.accounts.stores ≡ none
  unfolding Accounts.get
  lookup-primary host h lower =
      let free = (admit-ok w req host svc p (plan_provision-ok w req host svc p h)).0 in
      elim (Option-cases (Map.lookup (address p.localpart p.domain) svc.state.accounts.stores)) [
        | inl e ↦ e
        | inr (account, e) ↦ let taken : true ≡ false = rw (Accounts.get, lower, e) at free in cc
      ]

  -- A request that passes every check and whose writes of the device and of the store fare well makes
  -- the account: its address and the name that was asked for lead to it, every other address where it
  -- led, the device is there, and the answer names the address. The address is in lower case, no file
  -- of aliases is there, and every alias of the table leads to an account.
  pub resolve-account_provision :
      (host : Str) (store : S)
      → plan_provision w req host svc ≡ ok p
      → w.store_at (account_dir p.domain p.localpart) ≡ some store
      → read_aliases w (account_dir p.domain p.localpart) svc.state.files ≡ []
      → succeeded w.device_write ≡ true
      → w.codec.to_lowercase (address p.localpart p.domain) ≡ address p.localpart p.domain
      → IsRouted svc.state.accounts
      → ((account_provision w post (some req) host svc).1
          ≡ created (address p.localpart p.domain) (did_bound w.anchored req))
        × ((a : Str)
            → Accounts.resolve w.codec.to_lowercase a
                (account_provision w post (some req) host svc).0.state.accounts
              ≡ leads w p store a svc.state.accounts)
        × (has_device_key req.device_pub_key (
              dir_at
                (account_dir p.domain p.localpart)
                (account_provision w post (some req) host svc).0.relay)
            ≡ true)
  unfolding account_provision
  resolve-account_provision host store h o f d lower routed =
      let done : account_provision w post (some req) host svc ≡ (
        alias_name w p (register_dyn_account w p.localpart p.domain (prepared)),
        created (address p.localpart p.domain) (did_bound w.anchored req),
      ) =
        rw (account_provision, h) (create_account-settled d) in
      let named : (account_provision w post (some req) host svc).0.state.accounts ≡ _ =
        ap (λ out. out.0.state.accounts) done
        ∙ alias_name-accounts w p (register_dyn_account w p.localpart p.domain prepared) in
      let relayed =
        ap (λ out. out.0.relay) done
        ∙ alias_name-relay w p (register_dyn_account w p.localpart p.domain prepared)
        ∙ dynamic-registered w p store prepared o in
      (
        ap (λ out. out.1) done,
        λ a.
            ap (Accounts.resolve w.codec.to_lowercase a)
              (rw (registered w p store prepared o f) at named)
            ∙ resolve-named w p store a svc.state.accounts routed (lookup-primary host h lower)
                lower,
        ap (λ r. has_device_key req.device_pub_key (dir_at (account_dir p.domain p.localpart) r))
              relayed
            ∙ ap (has_device_key req.device_pub_key)
                (dir_at-with_dir (account_dir p.domain p.localpart) new_dir svc.relay)
            ∙ has_device_key-new_dir d,
      )

  -- Addresses that are the same in lower case lead to the same account.
  resolve-same :
      (a b : Str) (t : Accounts S)
      → w.codec.to_lowercase a ≡ w.codec.to_lowercase b
      → Accounts.resolve w.codec.to_lowercase a t ≡ Accounts.resolve w.codec.to_lowercase b t
  unfolding Accounts.resolve
  resolve-same a b t h = rw (Accounts.resolve, h) refl

  -- The account that an address leads to is in the table under its own address.
  lookup-resolved :
      (a : Str) (account : AccountStore S) (t : Accounts S)
      → IsKeyed t.stores
      → Accounts.resolve w.codec.to_lowercase a t ≡ some account
      → Map.lookup account.email t.stores ≡ some account
  unfolding Accounts.resolve
  lookup-resolved a account t keyed h =
      elim (Option-cases (Map.lookup (w.codec.to_lowercase a) t.aliases)) [
        | inl e ↦ let nowhere : none ≡ some account = rw (Accounts.resolve, e) at h in cc
        | inr (q, e) ↦
            let stored : Map.lookup q t.stores ≡ some account = rw (Accounts.resolve, e) at h in
            let key = All-lookup (λ x. x.1.email ≡ x.0) q account t.stores stored keyed in
            ap (λ k. Map.lookup k t.stores) key ∙ stored
      ]

  -- The name of a plan leads nowhere before.
  resolve-name :
      (host : Str)
      → plan_provision w req host svc ≡ ok p
      → w.codec.to_lowercase (address p.localpart p.domain) ≡ address p.localpart p.domain
      → IsKeyed svc.state.accounts.stores
      → Accounts.resolve w.codec.to_lowercase (address p.username p.domain) svc.state.accounts
        ≡ none
  resolve-name host h lower keyed =
      let free = lookup-primary host h lower in
      let untaken = (admit-ok w req host svc p (plan_provision-ok w req host svc p h)).1 in
      let name = address p.username p.domain in
      elim (Option-cases (Accounts.resolve w.codec.to_lowercase name svc.state.accounts)) [
        | inl e ↦ e
        | inr (account, e) ↦
            let stored = lookup-resolved name account svc.state.accounts keyed e in
            let own : not (text_eq account.email (address p.localpart p.domain)) ≡ false =
              rw (e) at untaken in
            ground (arith, text_eq_iff account.email (address p.localpart p.domain))
      ]

  apart :
      (a b : Str) (account : AccountStore S) (t : Accounts S)
      → Accounts.resolve w.codec.to_lowercase a t ≡ some account
      → Accounts.resolve w.codec.to_lowercase b t ≡ none
      → text_eq (w.codec.to_lowercase a) (w.codec.to_lowercase b) ≡ false
  apart a b account t led free =
      elim (Bool-cases (text_eq (w.codec.to_lowercase a) (w.codec.to_lowercase b))) [
        | inr e ↦ e
        | inl e ↦
            let one =
              resolve-same a b t
                ((text_eq_iff (w.codec.to_lowercase a) (w.codec.to_lowercase b)).0 e) in
            let nowhere : none ≡ some account = sym free ∙ sym one ∙ led in cc
      ]

  -- Nobody loses an address to a new account: an address that led to an account leads to it still,
  -- whatever the request asks for. The writes of the device and of the store fare well, no file of
  -- aliases is there, the new address is in lower case and leads nowhere, every alias
  -- leads to an account, and every account is under its own address.
  pub resolve-kept :
      (host : Str) (store : S) (a : Str) (account : AccountStore S)
      → plan_provision w req host svc ≡ ok p
      → w.store_at (account_dir p.domain p.localpart) ≡ some store
      → read_aliases w (account_dir p.domain p.localpart) svc.state.files ≡ []
      → succeeded w.device_write ≡ true
      → w.codec.to_lowercase (address p.localpart p.domain) ≡ address p.localpart p.domain
      → Accounts.resolve w.codec.to_lowercase (address p.localpart p.domain) svc.state.accounts
        ≡ none
      → IsRouted svc.state.accounts
      → IsKeyed svc.state.accounts.stores
      → Accounts.resolve w.codec.to_lowercase a svc.state.accounts ≡ some account
      → Accounts.resolve w.codec.to_lowercase a
          (account_provision w post (some req) host svc).0.state.accounts
        ≡ some account
  resolve-kept host store a account h o f d lower unused routed keyed led =
      let found = (resolve-account_provision host store h o f d lower routed).1 a in
      let away = apart a (address p.localpart p.domain) account svc.state.accounts led unused in
      let other =
        apart a (address p.username p.domain) account svc.state.accounts led
          (resolve-name host h lower keyed) in
      found ∙ rw (rw (lower) at away, other) led

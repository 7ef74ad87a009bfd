-- ===== src/Provision/Service/Checked.antt =====
-- What a plan that was made has passed (crates/jmapsmtp/src/server.rs).
use jmapsmtp.Prelude.{Bool, true, false, Str, ◌≡◌, refl, arith, is_some, Bool-cases, inl, inr}
use jmapsmtp.Result.{Result, Result-cases, ok, err}
use jmapsmtp.Keys.{text_ord, same}
use jmapsmtp.Accounts
use jmapsmtp.Accounts.{AccountStore, Accounts}
use jmapsmtp.Login.{Relay}
use jmapsmtp.Provision.{ProvisionRequest, Refusal, username_taken, name_is_taken}
use jmapsmtp.Provision.Service.{
  Service, World, Plan, address, plan_provision, is_taken_by_other, admitted, admit, target,
  is_registered,
}

module _ {S : Type 0} (w : World S) where
  admitted-ok :
      (p p' : Plan) (r : Result Refusal Unit) → admitted w p r ≡ ok p' → (p ≡ p') × (r ≡ ok tt)
  admitted-ok p p' (ok tt) h = (cc h, refl)
  admitted-ok p p' (err e) h = cc

  pub plan_provision-ok :
      (req : ProvisionRequest) (host : Str) (svc : Service S) (p : Plan)
      → plan_provision w req host svc ≡ ok p
      → admit w p req host svc ≡ ok tt
  unfolding plan_provision
  plan_provision-ok req host svc p h = elim (Result-cases (target w req svc)) [
    | inr (e, t) ↦ let stopped : err e ≡ ok p = rw (plan_provision, t) at h in cc
    | inl (p', t) ↦
        let (same, e) = admitted-ok p' p (admit w p' req host svc) (rw (plan_provision, t) at h) in
        rw (← same) e
  ]

  untaken :
      (domain localpart : Str) (already : Bool) (r : Relay)
      → name_is_taken w.codec domain localpart already r ≡ false
      → already ≡ false
  unfolding name_is_taken
  untaken domain localpart true r h = cc
  untaken domain localpart false r h = refl

  unregistered :
      (svc : Service S) (primary : Str)
      → is_registered w primary svc ≡ false
      → is_some (Accounts.get w.codec.to_lowercase primary svc.state.accounts) ≡ false
  unfolding is_registered
  unregistered svc primary h = ground arith

  -- What is known of a plan: nobody has the address, and the name leads to nobody else.
  pub admit-ok :
      (req : ProvisionRequest) (host : Str) (svc : Service S) (p : Plan)
      → admit w p req host svc ≡ ok tt
      → (is_some
            (Accounts.get w.codec.to_lowercase (address p.localpart p.domain) svc.state.accounts)
          ≡ false)
        × (is_taken_by_other w (address p.localpart p.domain) (
              Accounts.resolve w.codec.to_lowercase
                (address p.username p.domain)
                svc.state.accounts)
            ≡ false)
  unfolding admit
  admit-ok req host svc p h =
      let primary = address p.localpart p.domain in
      let taken =
        name_is_taken w.codec p.domain p.localpart (is_registered w primary svc) svc.relay in
      elim (Bool-cases taken) [
        | inl t ↦ let stopped : err username_taken ≡ ok tt = rw (admit, t) at h in cc
        | inr t ↦
            elim (Bool-cases (
              is_taken_by_other w primary (
                Accounts.resolve w.codec.to_lowercase (address p.username p.domain)
                  svc.state.accounts))) [
                    | inl o ↦ let stopped : err username_taken ≡ ok tt = rw (admit, t, o) at h in cc
                    | inr o ↦ (
                      unregistered svc primary
                          (untaken p.domain p.localpart (is_registered w primary svc) svc.relay t),
                      o,
                    )
                  ]
      ]

-- ===== src/Aliases/Handler.antt =====
-- `account_alias` of crates/jmapsmtp/src/server.rs. The JSON of the body is read outside the model.
use jmapsmtp.Prelude.{
  ℕ, Bool, true, false, Option, none, some, List, ◌∷◌, ◌++◌, Str, ◌==◌, not, ◌||◌, if◌then◌else◌,
  is_empty, any,
}
use jmapsmtp.Map.{Map}
use jmapsmtp.Accounts.{Accounts, add_alias, remove_alias, aliases_for}
use jmapsmtp.Login.{Codec, Relay, Domains, authenticate_basic}
use jmapsmtp.Login.Handlers.{Method, get, post}
use jmapsmtp.Aliases.{AliasState, write_aliases}

pub data AliasOp : Type 0 where
  add : AliasOp
  remove : AliasOp

pub data AliasResponse : Type 0 where
  no_content : AliasResponse
  unauthorized : AliasResponse
  method_not_allowed : AliasResponse
  invalid_json : AliasResponse
  invalid_address : AliasResponse
  alias_change_refused : AliasResponse
  aliases : List Str → AliasResponse

module _ {S : Type 0} (c : Codec) where
  abbrev changed :
      Bool → Str → Str → Str → Map Str Str → Accounts S × Bool → AliasState S × AliasResponse
  changed written primary domain localpart files (t, false) =
      (record { accounts = t; files = files }, alias_change_refused)
  changed written primary domain localpart files (t, true) = (
    record {
      accounts = t;
      files = write_aliases written domain localpart (aliases_for primary t.aliases) files;
    },
    no_content,
  )

  unfoldable pub change_alias : AliasOp → Str → Str → Accounts S → Accounts S × Bool
  unfolding add_alias remove_alias
  change_alias add address primary t = add_alias c.to_lowercase address primary t
  change_alias remove address primary t = remove_alias address primary t

  abbrev requested :
      Bool → Str → Str → Str → Option (AliasOp × Str) → AliasState S → AliasState S × AliasResponse
  requested written primary domain localpart none st = (st, invalid_json)
  requested written primary domain localpart (some (op, raw_address)) st =
      let address = c.to_lowercase (c.trim raw_address) in
      if is_empty address || not (any (λ b. b == b'@') address)
      then (st, invalid_address)
      else changed written primary domain localpart st.files
          (change_alias op address primary st.accounts)

  -- `request` is what the body is read as, `written` how the file fares.
  unfoldable pub account_alias :
      Domains
      → Bool
      → Method
      → Option Str
      → Option (AliasOp × Str)
      → ℕ
      → Relay
      → AliasState S
      → AliasState S × AliasResponse
  unfolding authenticate_basic aliases_for change_alias write_aliases
  account_alias domains written method header request now r st =
      elim (authenticate_basic c domains header now r) [
        | none ↦ (st, unauthorized)
        | some (domain, localpart) ↦
            let primary = localpart ++ b'@' ∷ domain in
            elim method [
              | get ↦ (st, aliases (aliases_for primary st.accounts.aliases))
              | post ↦ requested written primary domain localpart request st
              | _ ↦ (st, method_not_allowed)
            ]
      ]

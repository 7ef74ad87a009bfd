-- ===== src/Config.antt =====
-- crates/jmapsmtp/src/config.rs: what is configured of a domain, and the lookups of domains. A domain that
-- users bring is kept in a map next to the configuration.
use jmapsmtp.Prelude.{Bool, Option, none, some, List, [], ◌∷◌, Str, codes, if◌then◌else◌, is_empty}
use jmapsmtp.Map
use jmapsmtp.Map.{Map}
use jmapsmtp.Keys.{text_ord}
use jmapsmtp.Login.{Domains}

pub record DomainConfig : Type 0 where
  pub dkim_selector : Str
  pub accounts : Map Str (List Str)
  pub allow_provision : Bool
  pub provision_secret : Str
  pub authorized_did_domain : Bool

unfoldable pub selector : DomainConfig → Str
selector d = if is_empty d.dkim_selector then codes "default" else d.dkim_selector

-- The first domain that anyone may register with.
unfoldable pub provision_domain : Map Str DomainConfig → Option (Str × DomainConfig)
provision_domain [] = none
provision_domain ((name, d) ∷ domains) =
    let rest = provision_domain domains in if d.allow_provision then some (name, d) else rest

abbrev or_else : Option DomainConfig → Option DomainConfig → Option DomainConfig
or_else none b = b
or_else (some d) b = some d

-- The configured domain, or else the one that a user brought.
unfoldable pub domain_config :
    Map Str DomainConfig → Map Str DomainConfig → Str → Option DomainConfig
domain_config domains dynamic domain =
    or_else (Map.lookup domain domains) (Map.lookup domain dynamic)

-- What the login reads of the configuration.
unfoldable pub logins : Map Str DomainConfig → Domains
logins [] = []
logins ((name, d) ∷ domains) = (name, d.accounts) ∷ logins domains

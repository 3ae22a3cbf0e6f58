-- ===== src/Domain/Accounts.antt =====
-- internal/domain/account.go.
use llm_broker.Prelude.{ℕ, String, Bool, true, false, Option, none, some, Map}
use llm_broker.Prelude.Int.{ℤ}
use llm_broker.Domain.Cells.{
  ProxyConfig, EgressCell, Codec, hydrate_proxy, hydrate_strings, print_proxy_or_empty,
  print_strings_or_empty,
}

abbrev pub provider_claude : String
provider_claude = "claude"

-- The status is a free text in the source: `raw` holds any that has no constant.
pub data Status : Type 0 where
  active created error disabled blocked : Status
  raw : String → Status

abbrev pub is_active : Status → Bool
is_active Status.active = true
is_active _ = false

abbrev pub is_blocked : Status → Bool
is_blocked Status.blocked = true
is_blocked _ = false

pub record Account : Type 0 where
  pub id : String
  pub email : String
  pub provider : String
  pub status : Status
  pub priority : ℤ
  pub priority_mode : String
  pub error_message : String
  pub bucket_key : String
  pub refresh_token_enc : String
  pub access_token_enc : String
  pub expires_at : ℕ
  pub created_at : ℕ
  pub last_used_at : Option ℕ
  pub last_refresh_at : Option ℕ
  pub proxy_json : String
  pub cell_id : String
  pub identity_json : String
  pub subject : String
  pub cooldown_until : Option ℕ
  pub provider_state_json : String
  pub proxy : Option ProxyConfig
  pub identity : Option (Map String String)
  pub cell : Option EgressCell

unfoldable pub hydrate_account : Codec → Account → Account
hydrate_account c a = record a {
  proxy = hydrate_proxy c a.proxy_json a.proxy;
  identity = hydrate_strings c a.identity_json a.identity;
}

unfoldable pub persist_account : Codec → Account → Account
persist_account c a = record a {
  proxy_json = print_proxy_or_empty c a.proxy;
  identity_json = print_strings_or_empty c a.identity;
}

-- The proxy of the account's cell goes before its own.
cell_proxy : Option EgressCell → Option ProxyConfig
cell_proxy none = none
cell_proxy (some cell) = cell.proxy

pub transport_proxy : Account → Option ProxyConfig
unfolding cell_proxy
transport_proxy a = elim (cell_proxy a.cell) [ some p ↦ some p | none ↦ a.proxy ]

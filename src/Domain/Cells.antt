-- ===== src/Domain/Cells.antt =====
-- internal/domain/egress_cell.go, and ProxyConfig of account.go.
use llm_broker.Prelude.{ℕ, String, Option, none, some, ◌==◌, string_eq, Map, if◌then◌else◌}
use llm_broker.Prelude.Int.{ℤ}

pub record ProxyConfig : Type 0 where
  pub kind : String
  pub host : String
  pub port : ℤ
  pub username : String
  pub password : String

-- encoding/json, which the repository only calls. A parse answers `none` on an error; the parsed
-- table is `none` for the text `null`.
pub record Codec : Type 0 where
  pub parse_proxy : String → Option ProxyConfig
  pub print_proxy : ProxyConfig → String
  pub parse_strings : String → Option (Option (Map String String))
  pub print_strings : Map String String → String

-- The status is a free text in the source: `raw` holds any that has no constant.
pub data CellStatus : Type 0 where
  unset active disabled error : CellStatus
  raw : String → CellStatus

pub record EgressCell : Type 0 where
  pub id : String
  pub name : String
  pub status : CellStatus
  pub proxy_json : String
  pub labels_json : String
  pub state_json : String
  pub created_at : ℕ
  pub updated_at : ℕ
  pub cooldown_until : Option ℕ
  pub proxy : Option ProxyConfig
  pub labels : Option (Map String String)

-- The proxy that a text describes, if it parses and has a host; otherwise the one at hand.
unfoldable pub hydrate_proxy : Codec → String → Option ProxyConfig → Option ProxyConfig
hydrate_proxy c json old =
    if json == ""
    then old
    else elim (c.parse_proxy json) [ none ↦ old | some p ↦ if p.host == "" then old else some p ]

unfoldable pub hydrate_strings :
    Codec → String → Option (Map String String) → Option (Map String String)
hydrate_strings c json old =
    if json == "" then old else elim (c.parse_strings json) [ none ↦ old | some m ↦ m ]

unfoldable pub hydrate_cell : Codec → EgressCell → EgressCell
hydrate_cell c cell = record cell {
  proxy = hydrate_proxy c cell.proxy_json cell.proxy;
  labels = hydrate_strings c cell.labels_json cell.labels;
}

unfoldable pub print_proxy_or_empty : Codec → Option ProxyConfig → String
print_proxy_or_empty c none = ""
print_proxy_or_empty c (some p) = c.print_proxy p

unfoldable pub print_strings_or_empty : Codec → Option (Map String String) → String
print_strings_or_empty c none = ""
print_strings_or_empty c (some m) = c.print_strings m

abbrev pub or_braces : String → String
or_braces s = if s == "" then "{}" else s

unfoldable pub or_active : CellStatus → CellStatus
or_active CellStatus.unset = CellStatus.active
or_active s = s

unfoldable pub persist_cell : Codec → EgressCell → EgressCell
persist_cell c cell = record cell {
  proxy_json = print_proxy_or_empty c cell.proxy;
  labels_json = print_strings_or_empty c cell.labels;
  state_json = or_braces cell.state_json;
  status = or_active cell.status;
}

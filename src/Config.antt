-- ===== src/Config.antt =====
-- The remote servers and which of them a name is asked of: src/core/config.h and config.cpp.
pub mod Select
pub mod Load
pub mod Loaded
mod Tests
mod LoadTests
use st_dns.Base.{
  ℕ, ◌*◌, List, [], ◌∷◌, ◌++◌, Bool, true, false, not, ◌&&◌, ◌||◌, ◌==◌, if◌then◌else◌,
}
use st_dns.Base.Text.{Text, text_eq, starts_with}
use st_dns.Utils.Ipv4.{to_string}
use st_dns.Protocol.Domain.{get_fi_domain}

-- A `remote_dns_server`; `id` is the value of the method.
pub record RemoteDnsServer : Type 0 where
  pub id : Text
  pub ip : Text
  pub port : ℕ
  pub type : Text
  pub areas : List Text
  pub whitelist : List Text
  pub blacklist : List Text
  pub timeout : ℕ
  pub dns_cache_expire : ℕ
  pub resolve_optimize_areas : List (Text × ℕ)

unfoldable pub replace_dots : Text → Text
replace_dots [] = []
replace_dots (ch ∷ text) = (if ch == b'.' then b'_' else ch) ∷ replace_dots text

-- `generate_server_id`
unfoldable pub generate_server_id : Text → ℕ → Text
generate_server_id ip port = replace_dots ip ++ (b'_' ∷ to_string port)

-- The constructor, with the members' initial values.
abbrev pub new_server : Text → ℕ → Text → RemoteDnsServer
new_server ip port type = record {
  id = generate_server_id ip port;
  ip = ip;
  port = port;
  type = type;
  areas = [];
  whitelist = [];
  blacklist = [];
  timeout = 100;
  dns_cache_expire = 10 * 60;
  resolve_optimize_areas = [];
}

unfoldable pub has_text : Text → List Text → Bool
has_text text [] = false
has_text text (other ∷ texts) =
    let rest = has_text text texts in if text_eq other text then true else rest

-- `text.find(part) != string::npos`
unfoldable pub contains : Text → Text → Bool
contains part [] = starts_with part []
contains part (b ∷ text) = let rest = contains part text in starts_with part (b ∷ text) || rest

abbrev pub lan : Text
lan = b'L' ∷ b'A' ∷ b'N' ∷ []

abbrev pub arpa : Text
arpa = b'A' ∷ b'R' ∷ b'P' ∷ b'A' ∷ []

-- A name of the local network, for a server that does not serve it.
unfoldable pub is_foreign : Text → RemoteDnsServer → Bool
is_foreign domain server =
    let fi_domain = get_fi_domain domain in
    (text_eq fi_domain lan || text_eq fi_domain arpa) && not (has_text lan server.areas)

-- The loop over a whitelist; `regex_match` is the standard library's, with the pattern second.
unfoldable pub in_whitelist : (Text → Text → Bool) → Text → List Text → Bool
in_whitelist regex_match domain [] = false
in_whitelist regex_match domain (regex ∷ regexes) =
    let rest = in_whitelist regex_match domain regexes in
    if text_eq domain regex || contains (b'.' ∷ domain) regex
    then true
    else if regex_match domain regex
    then true
    else rest

-- The loop of `select_servers`, with the result so far.
unfoldable pub select_loop :
    (Text → Text → Bool) → Text → List RemoteDnsServer → List RemoteDnsServer → List RemoteDnsServer
select_loop regex_match domain [] result = result
select_loop regex_match domain (server ∷ servers) result = elim (is_foreign domain server) [
  | true ↦ select_loop regex_match domain servers result
  | false ↦ elim (in_whitelist regex_match domain server.whitelist) [
    | true ↦ server ∷ []
    | false ↦ elim (has_text domain server.blacklist) [
      | true ↦ select_loop regex_match domain servers result
      | false ↦ select_loop regex_match domain servers (result ++ (server ∷ []))
    ]
  ]
]

unfoldable pub select_servers :
    (Text → Text → Bool) → Text → List RemoteDnsServer → List RemoteDnsServer
select_servers regex_match domain servers = select_loop regex_match domain servers []

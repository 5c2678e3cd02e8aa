-- ===== src/Config/Load.antt =====
-- The reading of the configuration: `config::load` of src/core/config.cpp, on a tree of boost's
-- property_tree, whose operations are a record of functions here.
use st_dns.Base.{
  ℕ, ◌*◌, List, [], ◌∷◌, ◌++◌, true, false, Option, none, some, Outcome, ok, err, thrown, ◌>>=◌,
  length, ◌==◌, if◌then◌else◌,
}
use st_dns.Base.Text.{Text, codes, is_empty}
use st_dns.Utils.Ipv4.{to_string}
use st_dns.Config.{RemoteDnsServer, new_server, has_text}

-- What the code uses of a tree: a text below a key, a number below a key with a default for what is
-- missing or no number, the child with a key, the children and the text of a node.
pub record PropertyTree (T : Type 0) : Type 0 where
  pub get_text : T → Text → Option Text
  pub get_number : T → Text → ℕ → ℕ
  pub get_child : T → Text → Option T
  pub children : T → List T
  pub get_value : T → Text

pub record Config : Type 0 where
  pub ip : Text
  pub port : ℕ
  pub console_ip : Text
  pub console_port : ℕ
  pub dns_cache_expire : ℕ
  pub servers : List RemoteDnsServer

abbrev pub localhost_ip : Text
localhost_ip = codes "127.0.0.1"

-- The values that the members begin with.
abbrev pub initial : Config
initial = record {
  ip = localhost_ip;
  port = 53;
  console_ip = localhost_ip;
  console_port = 5757;
  dns_cache_expire = 60 * 10;
  servers = [];
}

unfoldable pub get_or : Option Text → Text → Text
get_or none default = default
get_or (some text) default = text

module _ {T : Type 0} (tree : PropertyTree T) where
  -- `emplace` of each text into a set.
  unfoldable pub emplace_values : List T → List Text → List Text
  emplace_values [] texts = texts
  emplace_values (node ∷ nodes) texts =
      let text = tree.get_value node in
      emplace_values nodes (if has_text text texts then texts else texts ++ (text ∷ []))

  -- The areas that are not empty. Each is also given to `load_area_ips`.
  unfoldable pub read_areas : List T → List Text
  read_areas [] = []
  read_areas (node ∷ nodes) =
      let rest = read_areas nodes in
      if is_empty (tree.get_value node) then rest else tree.get_value node ∷ rest

  abbrev pub children_of : Option T → List T
  children_of none = []
  children_of (some node) = tree.children node

  module _ (stoi : Text → Outcome ℕ) where
    -- One server; `none` is the end of the program.
    unfoldable pub load_server : ℕ → T → Outcome (Option RemoteDnsServer)
    load_server dns_cache_expire node =
        let ip = get_or (tree.get_text node (codes "ip")) [] in
        let port = tree.get_number node (codes "port") 53 in
        let type = get_or (tree.get_text node (codes "type")) (codes "UDP") in
        elim (is_empty ip) [
          | true ↦ ok none
          | false ↦
              stoi (
                get_or (tree.get_text node (codes "dns_cache_expire")) (to_string dns_cache_expire))
              >>= λ expire. ok (
                  some (record (new_server ip port type) {
                    whitelist =
                        emplace_values (children_of (tree.get_child node (codes "whitelist"))) [];
                    dns_cache_expire = expire;
                    timeout = tree.get_number node (codes "timeout") 100;
                    areas = read_areas (children_of (tree.get_child node (codes "areas")));
                  }))
        ]

    -- The loop over the servers, up to the first that ends the program.
    unfoldable pub load_servers :
        ℕ → List T → List RemoteDnsServer → Outcome (Option (List RemoteDnsServer))
    load_servers dns_cache_expire [] servers = ok (some servers)
    load_servers dns_cache_expire (node ∷ nodes) servers =
        load_server dns_cache_expire node >>= λ loaded. (elim loaded [
          | none ↦ ok none
          | some server ↦ load_servers dns_cache_expire nodes (servers ++ (server ∷ []))
        ])

    -- The configuration with these servers, if there are any.
    unfoldable pub with_servers : T → ℕ → Option (List RemoteDnsServer) → Option Config
    with_servers root expire none = none
    with_servers root expire (some servers) =
        if length servers == 0
        then none
        else some (record {
          ip = get_or (tree.get_text root (codes "ip")) localhost_ip;
          port = tree.get_number root (codes "port") initial.port;
          console_ip = get_or (tree.get_text root (codes "console_ip")) localhost_ip;
          console_port = tree.get_number root (codes "console_port") initial.console_port;
          dns_cache_expire = expire;
          servers = servers;
        })

    -- Behind `get_child("servers")`, which throws where there is none.
    unfoldable pub load_nodes : T → ℕ → Option T → Outcome (Option Config)
    load_nodes root expire none = err thrown
    load_nodes root expire (some nodes) =
        load_servers expire (tree.children nodes) initial.servers >>= λ loaded.
        ok (with_servers root expire loaded)

    -- `load`, on the tree of the file: `none` is a file that is missing or no JSON.
    unfoldable pub load : Option T → Outcome (Option Config)
    load none = ok none
    load (some root) =
        stoi (
          get_or (tree.get_text root (codes "dns_cache_expire"))
            (to_string initial.dns_cache_expire))
        >>= λ expire. load_nodes root expire (tree.get_child root (codes "servers"))

-- ===== src/Config/LoadTests.antt =====
-- A configuration with one server, in a tree whose nodes are numbered.
use st_dns.Base.{
  ℕ, ◌<◌, ◌≡◌, refl, [], ◌∷◌, ◌&&◌, none, some, Outcome, ok, length, ◌==◌, if◌then◌else◌, All,
}
use st_dns.Base.Text.{Text, codes, text_eq}
use st_dns.Utils.Ipv4.{number, digits}
use st_dns.Config.{new_server}
use st_dns.Config.Load.{
  PropertyTree, Config, localhost_ip, get_or, emplace_values, read_areas, load_server, load_servers,
  with_servers, load_nodes, load,
}
use st_dns.Config.Loaded.{IsLoaded, load-AllLoaded}

-- 0 is the root, 1 the array of servers, 2 its one server.
abbrev tree : PropertyTree ℕ
tree = record {
  get_text =
      λ node key. if node == 2 && text_eq key (codes "ip") then some (codes "1.1.1.1") else none;
  get_number = λ node key default. default;
  get_child = λ node key. if node == 0 && text_eq key (codes "servers") then some 1 else none;
  children = λ node. if node == 1 then 2 ∷ [] else [];
  get_value = λ node. [];
}

abbrev stoi : Text → Outcome ℕ
stoi text = ok (number 0 text)

abbrev config : Config
config = record {
  ip = localhost_ip;
  port = 53;
  console_ip = localhost_ip;
  console_port = 5757;
  dns_cache_expire = 600;
  servers = new_server (codes "1.1.1.1") 53 (codes "UDP") ∷ [];
}

loaded : load tree stoi (some 0) ≡ ok (some config)
unfolding load load_nodes with_servers load_servers load_server get_or emplace_values read_areas
    number digits
loaded = refl

load-AllLoaded_example :
    All IsLoaded config.servers × (0 < length config.servers) × (length config.servers ≡ 1)
load-AllLoaded_example = load-AllLoaded tree stoi 0 1 config refl loaded

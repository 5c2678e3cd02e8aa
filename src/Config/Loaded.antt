-- ===== src/Config/Loaded.antt =====
-- What a loaded configuration is like: src/core/config.cpp.
use st_dns.Base.{
  ℕ, ◌+◌, ◌<◌, ◌≡◌, refl, sym, List, [], ◌∷◌, ◌++◌, Bool, true, false, Option, none, some, Outcome,
  ok, err, ◌>>=◌, length, length-append, ◌==◌, All, All-append, arith, if_either, subst,
}
use st_dns.Base.Text.{Text, codes, is_empty}
use st_dns.Utils.Ipv4.{to_string}
use st_dns.Config.{RemoteDnsServer, new_server}
use st_dns.Config.Load.{
  PropertyTree, Config, initial, get_or, emplace_values, read_areas, children_of, load_server,
  load_servers, with_servers, load_nodes, load,
}

-- A server as it is loaded: with an address and without an empty area, and no blacklist.
pub record IsLoaded (server : RemoteDnsServer) : Type 0 where
  pub some_ip : is_empty server.ip ≡ false
  pub some_areas : All (λ (area : Text). is_empty area ≡ false) server.areas
  pub no_blacklist : server.blacklist ≡ []

abbrev pub AllLoaded : List RemoteDnsServer → Type 0
AllLoaded servers = All IsLoaded servers

-- What holds of the value, where there is one.
abbrev Gives {ℓ} : {A : Type ℓ} → (A → Type 0) → Outcome (Option A) → Type 0
Gives P (err e) = Unit {0}
Gives P (ok none) = Unit {0}
Gives P (ok (some a)) = P a

bind-Gives {ℓ ℓ'} :
    {A : Type ℓ} {B : Type ℓ'} (P : A → Type 0) (r : Outcome B) (f : B → Outcome (Option A))
    → ((b : B) → Gives P (f b))
    → Gives P (r >>= f)
bind-Gives P (err e) f h = tt
bind-Gives P (ok b) f h = h b

Gives-map {ℓ} :
    {A : Type ℓ} (P Q : A → Type 0) (r : Outcome (Option A))
    → ((a : A) → P a → Q a)
    → Gives P r
    → Gives Q r
Gives-map P Q (err e) f h = tt
Gives-map P Q (ok none) f h = tt
Gives-map P Q (ok (some a)) f h = f a h

module _ {T : Type 0} (tree : PropertyTree T) (stoi : Text → Outcome ℕ) where
  read_areas-All :
      (nodes : List T) → All (λ (area : Text). is_empty area ≡ false) (read_areas tree nodes)
  unfolding read_areas
  read_areas-All [] = tt
  read_areas-All (node ∷ nodes) =
      if_either (All (λ (area : Text). is_empty area ≡ false)) (is_empty (tree.get_value node))
        (λ e. read_areas-All nodes) (λ e. (e, read_areas-All nodes))

  load_server-IsLoaded :
      (expire : ℕ) (node : T) → Gives IsLoaded (load_server tree stoi expire node)
  unfolding load_server
  load_server-IsLoaded expire node = by_ip (is_empty ip) refl
    where
      ip : Text
      ip = get_or (tree.get_text node (codes "ip")) []

      server : ℕ → RemoteDnsServer
      server kept =
          record (new_server ip (tree.get_number node (codes "port") 53)
            (get_or (tree.get_text node (codes "type")) (codes "UDP"))) {
              whitelist =
                  emplace_values tree (children_of tree (tree.get_child node (codes "whitelist")))
                    [];
              dns_cache_expire = kept;
              timeout = tree.get_number node (codes "timeout") 100;
              areas = read_areas tree (children_of tree (tree.get_child node (codes "areas")));
            }

      by_ip :
          (b : Bool)
          → is_empty ip ≡ b
          → Gives IsLoaded (elim b [
            | true ↦ ok none
            | false ↦
                stoi (get_or (tree.get_text node (codes "dns_cache_expire")) (to_string expire))
                >>= λ kept. ok (some (server kept))
          ])
      by_ip true e = tt
      by_ip false e =
          bind-Gives IsLoaded
            (stoi (get_or (tree.get_text node (codes "dns_cache_expire")) (to_string expire)))
            (λ kept. ok (some (server kept)))
            (λ kept. record {
              some_ip = e;
              some_areas = read_areas-All (children_of tree (tree.get_child node (codes "areas")));
              no_blacklist = refl;
            })

  load_servers-AllLoaded :
      (expire : ℕ) (nodes : List T) (servers : List RemoteDnsServer)
      → AllLoaded servers
      → Gives
          (λ (result : List RemoteDnsServer).
            AllLoaded result × (length result ≡ length servers + length nodes))
          (load_servers tree stoi expire nodes servers)
  unfolding load_servers
  load_servers-AllLoaded expire [] servers k = (k, omega arith)
  load_servers-AllLoaded expire (node ∷ nodes) servers k =
      by_server (load_server tree stoi expire node) (load_server-IsLoaded expire node) (λ server h.
        load_servers-AllLoaded expire nodes (servers ++ (server ∷ []))
          (All-append IsLoaded servers (server ∷ []) k (h, tt)))
    where
      Result : List T → List RemoteDnsServer → List RemoteDnsServer → Type 0
      Result left done result = AllLoaded result × (length result ≡ length done + length left)

      by_server :
          (r : Outcome (Option RemoteDnsServer))
          → Gives IsLoaded r
          → ((server : RemoteDnsServer)
              → IsLoaded server
              → Gives
                  (Result nodes (servers ++ (server ∷ [])))
                  (load_servers tree stoi expire nodes (servers ++ (server ∷ []))))
          → Gives (Result (node ∷ nodes) servers) (
              r >>= λ loaded. (elim loaded [
                | none ↦ ok none
                | some server ↦ load_servers tree stoi expire nodes (servers ++ (server ∷ []))
              ]))
      by_server (err e) h later = tt
      by_server (ok none) h later = tt
      by_server (ok (some server)) h later =
          Gives-map (Result nodes (servers ++ (server ∷ []))) (Result (node ∷ nodes) servers)
            (load_servers tree stoi expire nodes (servers ++ (server ∷ [])))
            (λ result r. (r.0, omega (arith, r.1, length-append servers (server ∷ []))))
            (later server h)

  abbrev Good : T → Config → Type 0
  Good nodes c =
      AllLoaded c.servers
      × (0 < length c.servers)
      × (length c.servers ≡ length (tree.children nodes))

  load_nodes-Gives :
      (root nodes : T) (expire : ℕ)
      → Gives (Good nodes) (load_nodes tree stoi root expire (some nodes))
  unfolding load_nodes with_servers
  load_nodes-Gives root nodes expire =
      by_loaded (load_servers tree stoi expire (tree.children nodes) [])
        (load_servers-AllLoaded expire (tree.children nodes) [] tt)
    where
      by_loaded :
          (r : Outcome (Option (List RemoteDnsServer)))
          → Gives
              (λ (result : List RemoteDnsServer).
                AllLoaded result × (length result ≡ 0 + length (tree.children nodes)))
              r
          → Gives (Good nodes) (r >>= λ loaded. ok (with_servers tree stoi root expire loaded))
      by_loaded (err e) h = tt
      by_loaded (ok none) h = tt
      by_loaded (ok (some servers)) h =
          if_either (λ (o : Option Config). Gives (Good nodes) (ok o)) (length servers == 0)
            (λ e. tt) (λ e. (h.0, ground (arith, e), omega (arith, h.1)))

  -- A configuration that is loaded has a server for each node of its tree, at least one, and every
  -- server has an address, no empty area and an empty blacklist.
  pub load-AllLoaded :
      (root nodes : T) (config : Config)
      → tree.get_child root (codes "servers") ≡ some nodes
      → load tree stoi (some root) ≡ ok (some config)
      → AllLoaded config.servers
        × (0 < length config.servers)
        × (length config.servers ≡ length (tree.children nodes))
  unfolding load
  load-AllLoaded root nodes config e h = subst (Gives (Good nodes)) h (
      bind-Gives (Good nodes)
        (stoi (
          get_or (tree.get_text root (codes "dns_cache_expire"))
            (to_string initial.dns_cache_expire)))
        (λ expire. load_nodes tree stoi root expire (tree.get_child root (codes "servers")))
        (λ expire.
          subst (λ (o : Option T). Gives (Good nodes) (load_nodes tree stoi root expire o)) (sym e)
            (load_nodes-Gives root nodes expire)))

-- ===== src/Server/Schedule.antt =====
-- The areas that a remote server is asked through: `schedule` of src/core/dns_server.cpp. The proxy's
-- areas for an address, and the port that it registers for one, are arguments; the areas are also given
-- to `load_area_ips`.
use st_dns.Base.{ℕ, ◌≡◌, List, [], ◌∷◌, true, ltb, if◌then◌else◌, if_either, All}
use st_dns.Base.Text.{Text}
use st_dns.Utils.AreaIp.{is_match_areas}
use st_dns.Config.{RemoteDnsServer, has_text, lan}

-- The loop over the areas of a server.
unfoldable pub area_ports : (Text → ℕ) → List Text → List Text → List (Text × ℕ)
area_ports register areas [] = []
area_ports register areas (area ∷ available) =
    let rest = area_ports register areas available in
    if is_match_areas areas area
    then (if ltb 0 (register area) then (area, register area) ∷ rest else rest)
    else rest

-- One server.
unfoldable pub schedule_server :
    (Text → List Text) → (Text → ℕ → Text → ℕ) → RemoteDnsServer → RemoteDnsServer
schedule_server available register server =
    if has_text lan server.areas then server else record server {
      resolve_optimize_areas =
          area_ports (register server.ip server.port) server.areas (available server.ip);
    }

-- `schedule`, without its timer.
unfoldable pub schedule :
    (Text → List Text) → (Text → ℕ → Text → ℕ) → List RemoteDnsServer → List RemoteDnsServer
schedule available register [] = []
schedule available register (server ∷ servers) =
    schedule_server available register server ∷ schedule available register servers

-- A request for an area goes to a port of its own, and to an area that the server serves.
area_ports-All :
    (register : Text → ℕ) (areas available : List Text)
    → All
        (λ (entry : Text × ℕ). (is_match_areas areas entry.0 ≡ true) × (ltb 0 entry.1 ≡ true))
        (area_ports register areas available)
unfolding area_ports
area_ports-All register areas [] = tt
area_ports-All register areas (area ∷ available) =
    if_either Good (is_match_areas areas area)
      (λ e.
        if_either Good (ltb 0 (register area))
          (λ e'. ((e, e'), area_ports-All register areas available))
          (λ e'. area_ports-All register areas available))
      (λ e. area_ports-All register areas available)
  where
    Good : List (Text × ℕ) → Type 0
    Good entries =
        All (λ (entry : Text × ℕ). (is_match_areas areas entry.0 ≡ true) × (ltb 0 entry.1 ≡ true))
          entries

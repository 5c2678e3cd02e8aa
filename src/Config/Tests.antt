-- ===== src/Config/Tests.antt =====
-- The theorem on the selection of servers at two of them.
use st_dns.Base.{◌≡◌, List, [], ◌∷◌, Bool, false}
use st_dns.Base.Text.{Text}
use st_dns.Config.{RemoteDnsServer, new_server, select_servers}
use st_dns.Config.Select.{filter, expected, select_servers-expected}

abbrev name : Text
name = b'a' ∷ b'.' ∷ b'b' ∷ []

abbrev servers : List RemoteDnsServer
servers =
    record (new_server (1 ∷ []) 53 []) { id = 1 ∷ []; blacklist = name ∷ [] }
    ∷ record (new_server (2 ∷ []) 53 []) { id = 2 ∷ []; blacklist = [] }
    ∷ []

abbrev no_match : Text → Text → Bool
no_match text pattern = false

select_servers-expected_example :
    select_servers no_match name servers
    ≡ expected no_match name (filter no_match name servers) servers
select_servers-expected_example = select_servers-expected no_match name servers

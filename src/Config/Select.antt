-- ===== src/Config/Select.antt =====
-- What `select_servers` chooses.
use st_dns.Base.{
  ◌≡◌, refl, ◌∙◌, sym, ap, List, [], ◌∷◌, ◌++◌, append_assoc, append-nil, Bool, true, false, not,
  ◌&&◌, if◌then◌else◌, Bool-cases, inl, inr,
}
use st_dns.Base.Text.{Text}
use st_dns.Config.{RemoteDnsServer, has_text, is_foreign, in_whitelist, select_loop, select_servers}

module _ (regex_match : Text → Text → Bool) (domain : Text) where
  abbrev pub is_preferred : RemoteDnsServer → Bool
  is_preferred server =
      not (is_foreign domain server) && in_whitelist regex_match domain server.whitelist

  abbrev pub is_usable : RemoteDnsServer → Bool
  is_usable server = not (is_foreign domain server) && not (has_text domain server.blacklist)

  abbrev pub filter : List RemoteDnsServer → List RemoteDnsServer
  filter [] = []
  filter (server ∷ servers) =
      let rest = filter servers in if is_usable server then server ∷ rest else rest

  -- The servers before the first one that has the name in its whitelist are of no account.
  abbrev pub expected : List RemoteDnsServer → List RemoteDnsServer → List RemoteDnsServer
  expected result [] = result
  expected result (server ∷ servers) =
      let rest = expected result servers in if is_preferred server then server ∷ [] else rest

  filter-skip :
      (server : RemoteDnsServer) (servers : List RemoteDnsServer)
      → is_usable server ≡ false
      → filter servers ≡ filter (server ∷ servers)
  filter-skip server servers h = rw h refl

  filter-keep :
      (server : RemoteDnsServer) (servers : List RemoteDnsServer)
      → is_usable server ≡ true
      → server ∷ filter servers ≡ filter (server ∷ servers)
  filter-keep server servers h = rw h refl

  select_loop-expected :
      (servers result : List RemoteDnsServer)
      → select_loop regex_match domain servers result ≡ expected (result ++ filter servers) servers
  unfolding select_loop
  select_loop-expected [] result = sym (append-nil result)
  select_loop-expected (server ∷ servers) result = elim (Bool-cases (is_foreign domain server)) [
    | inl e ↦
        rw (e, select_loop)
          (step (select_loop-expected servers result) (filter-skip server servers (rw e refl)))
    | inr e ↦ elim (Bool-cases (in_whitelist regex_match domain server.whitelist)) [
      | inl e' ↦ rw (e, e', select_loop) refl
      | inr e' ↦ elim (Bool-cases (has_text domain server.blacklist)) [
        | inl e'' ↦
            rw (e, e', e'', select_loop)
              (step (select_loop-expected servers result)
                (filter-skip server servers (rw (e, e'') refl)))
        | inr e'' ↦
            rw (e, e', e'', select_loop)
              (step
                (select_loop-expected servers (result ++ (server ∷ []))
                  ∙ ap (λ (l : List RemoteDnsServer). expected l servers)
                      (append_assoc result (server ∷ []) (filter servers)))
                (filter-keep server servers (rw (e, e'') refl)))
      ]
    ]
  ]
    where
      step :
          {chosen usable usable' : List RemoteDnsServer}
          → chosen ≡ expected (result ++ usable) servers
          → usable ≡ usable'
          → chosen ≡ expected (result ++ usable') servers
      step h k = h ∙ ap (λ (l : List RemoteDnsServer). expected (result ++ l) servers) k

-- If a server that serves the name has it in its whitelist, the first such server is the only one
-- selected; else the servers that serve the name and do not have it in their blacklists are, in order.
pub select_servers-expected :
    (regex_match : Text → Text → Bool) (domain : Text) (servers : List RemoteDnsServer)
    → select_servers regex_match domain servers
      ≡ expected regex_match domain (filter regex_match domain servers) servers
unfolding select_servers
select_servers-expected regex_match domain servers =
    select_loop-expected regex_match domain servers []

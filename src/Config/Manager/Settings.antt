-- ===== src/Config/Manager/Settings.antt =====
-- shared/config/isched_config.cpp: which settings reach the server, and from which providers.
use isched.Common.{
  ◌≡◌, refl, ◌∙◌, true, false, not, List, [], ◌∷◌, ◌++◌, Option, none, some, Text, codes, text_eq,
  text_beq, nat_eq, contains, all, lookup, insert, lookup-insert, text_beq_iff, arith, Option-cases,
  inl, inr,
}
use mathlib.Core.List.{append_assoc, append-nil}
use isched.Config
use isched.Config.{Provider}
use isched.Config.Values.{pos, ConfigValue, boolean, double, parse_value}
use isched.Config.Providers.{
  JsonConfigProvider, EnvironmentConfigProvider, AnyProvider, json, environment, providers,
  set_entry, load_environment, load_file, read_lines, lines, parse_line, is_blank, trim_left,
  trim_right,
}
use isched.Config.Providers.Environment.{load_environment-unreachable, contains-eq}
use isched.Config.Providers.Saving.{
  newline, lines-line, split_at-mark, trim-unblank, contains-append,
}
use isched.Config.Manager.{
  ServerConfig, ConfigManager, no_ssl_cert_path, no_ssl_key_path, server_problems, tenant_problems,
  server_config_of, get_server_config, validate_configuration,
}

server_problems-ssl :
    (c : ServerConfig)
    → c.enable_ssl ≡ true
    → c.ssl_cert_path ≡ []
    → c.ssl_key_path ≡ []
    → server_problems c
      ≡ server_problems (record c { enable_ssl = false })
        ++ (no_ssl_cert_path ∷ (no_ssl_key_path ∷ []))
unfolding server_problems
server_problems-ssl c on cert key = rw (on, cert, key) (simp (append_assoc, append-nil))

-- If a provider turns SSL on, the validation reports, besides the problems that there are without SSL,
-- that both paths are missing, whatever else the providers hold.
pub validate_configuration-ssl :
    {P F C : Type 0} (provider : Provider P (ConfigValue F)) (m : ConfigManager P F C)
    → Config.get provider (codes "server.enable_ssl") m.providers ≡ some (boolean true)
    → (validate_configuration provider m).0
      ≡ server_problems (record (server_config_of provider m.providers) { enable_ssl = false })
        ++ (no_ssl_cert_path ∷ (no_ssl_key_path ∷ tenant_problems m.tenant_configs))
unfolding validate_configuration get_server_config
validate_configuration-ssl provider m on =
    let c = server_config_of provider m.providers in
    rw
      (server_problems-ssl c (unfold server_config_of in rw on refl)
        (unfold server_config_of in refl) (unfold server_config_of in refl))
      (simp append_assoc)

-- What a file says of the host.
abbrev pub host_line : Text → Text
host_line host = codes "server.host" ++ (b'=' ∷ host)

module _ {F : Type 0} (stod : Text → Option F) (show_double : F → Text) (environ : List Text) where
  abbrev these : Provider (AnyProvider F) (ConfigValue F)
  these = providers stod show_double environ

  -- What a key is in the environment providers before the first file.
  unfoldable pub shadow : Text → List (AnyProvider F) → Option (ConfigValue F)
  shadow key [] = none
  shadow key (json p ∷ ps) = none
  shadow key (environment p ∷ ps) = elim (lookup key p.entries) [
    | some w ↦ some w
    | none ↦ shadow key ps
  ]

  abbrev pub or_value : Option (ConfigValue F) → ConfigValue F → ConfigValue F
  or_value none v = v
  or_value (some w) v = w

  -- A value that a provider has taken is read back, unless an environment provider before the first
  -- file has the key: then it is that one's value that is read, although the writing succeeded.
  pub get-set :
      (key : Text) (v : ConfigValue F) (ps qs : List (AnyProvider F))
      → Config.set these key v ps ≡ some qs
      → Config.get these key qs ≡ some (or_value (shadow key ps) v)
  unfolding Config.get Config.set shadow set_entry
  get-set key v [] qs h = cc
  get-set key v (json p ∷ ps) qs h =
      ground (arith, lookup-insert key key v p.entries, text_beq_iff key key)
  get-set key v (environment p ∷ ps) qs h = elim (Option-cases (Config.set these key v ps)) [
    | inl e ↦ ground (arith, e)
    | inr (rs, e) ↦ ground (arith, e, get-set key v ps rs)
  ]

  abbrev pub loaded : List (EnvironmentConfigProvider F) → List (AnyProvider F)
  loaded [] = []
  loaded (p ∷ ps) = environment (load_environment stod environ p) ∷ loaded ps

  get-loaded :
      (key : Text) (ps : List (EnvironmentConfigProvider F))
      → contains key b'_' ≡ true
      → Config.get these key (loaded ps) ≡ none
  unfolding Config.get
  get-loaded key [] h = refl
  get-loaded key (p ∷ ps) h =
      rw (Config.get, load_environment-unreachable stod environ p key h) (get-loaded key ps h)

  -- A server that is configured by its environment alone has the built-in number of connections and
  -- log level, and no SSL, whatever the environment holds.
  pub server_config_of-environment :
      (ps : List (EnvironmentConfigProvider F))
      → let config = server_config_of these (loaded ps) in
        (config.max_connections ≡ pos 1000)
        × (config.log_level ≡ codes "info")
        × (config.enable_ssl ≡ false)
  unfolding server_config_of
  server_config_of-environment ps =
      rw
        (
          get-loaded (codes "server.max_connections") ps refl,
          get-loaded (codes "server.log_level") ps refl,
          get-loaded (codes "server.enable_ssl") ps refl,
        )
        (refl, refl, refl)

  parse_value-point :
      (s : Text) (x : F)
      → contains s b'.' ≡ true
      → stod s ≡ some x
      → parse_value stod s [] ≡ double x
  unfolding parse_value text_beq
  parse_value-point s x point number = ground (
    arith,
    contains-eq s (codes "true") b'.' point refl,
    contains-eq s (codes "false") b'.' point refl,
  )

  parse_line-host :
      (host : Text) (x : F)
      → contains host b'.' ≡ true
      → all (λ c. not (is_blank c)) host ≡ true
      → stod host ≡ some x
      → parse_line stod (host_line host) ≡ some (codes "server.host", double x)
  unfolding parse_line
  parse_line-host host x point clean number =
      rw
        (
          split_at-mark (codes "server.host") host b'=' refl,
          trim-unblank host clean,
          parse_value-point host x point number,
        )
        (unfold trim_right trim_left in refl)

  -- A host with a point that starts like a number, such as an address, is read from a file as a number,
  -- and the server keeps the built-in host.
  pub server_config_of-numeric_host :
      (p : JsonConfigProvider F) (host : Text) (x : F)
      → p.file.readable ≡ true
      → p.file.content ≡ some (host_line host ++ (newline ∷ []))
      → contains host b'.' ≡ true
      → contains host newline ≡ false
      → all (λ c. not (is_blank c)) host ≡ true
      → stod host ≡ some x
      → let read = load_file stod p in
        (read.0 ≡ true) × ((server_config_of these (json read.1 ∷ [])).host ≡ codes "localhost")
  unfolding load_file server_config_of Config.get lookup read_lines lines insert text_beq
  server_config_of-numeric_host p host x readable content point on_line clean number =
      let one =
        lines-line (host_line host) []
          (contains-append (codes "server.host") (b'=' ∷ host) newline ∙ ground (arith, on_line)) in
      rw (content, readable) (rw (one, parse_line-host host x point clean number) (refl, refl))

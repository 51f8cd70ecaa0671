-- ===== src/Config/Checks.antt =====
-- What a configuration that is accepted has passed.
use groot_share.Prelude.{
  ◌≢◌, text_eq_iff, Bool-cases, ◌≡◌, ◌⊎◌, inl, inr, refl, arith, Text, codes, text_eq, true, [],
  Option, none, some, ℤ,
}
use mathlib.Core.Path.{subst}
use groot_share.Blob.Keys.{has_prefix}
use groot_share.Store.Names.{trim_space}
use groot_share.Config.{
  Url, absolute_http, Config, Topology, vps, vps_s3, LimitSpec, config_of, checked, with_limit,
  load_from_env, env_or, validate, validate_s3, validate_base_url, s3_creds_present, topology_valid,
}
use groot_share.Config.Limits.{Bounded, parse_limit_spec-Parsed, config_of-Bounded, Parsed}

module _ (to_lower : Text → Text) (atoi parse_duration : Text → Option ℤ)
    (parse_url : Text → Option Url) (env : Text → Text) where
  -- A configuration to start with: its numbers are in bounds, it has a data directory, a known
  -- topology, with a bucket and credentials that are not blank where the topology has one, a base URL that is empty
  -- or a URL of http or https with a host, and an inbox that is empty or an absolute path.
  pub record Accepted (c : Config) : Type 0 where
    pub bounds : Bounded to_lower atoi parse_duration parse_url c
    pub data_dir : c.data_dir ≢ []
    pub topology :
        (c.topology ≡ vps)
        ⊎ ((c.topology ≡ vps_s3)
            × (c.s3_bucket ≢ [])
            × (trim_space (env (codes "AWS_ACCESS_KEY_ID")) ≢ [])
            × (trim_space (env (codes "AWS_SECRET_ACCESS_KEY")) ≢ []))
    pub base_url :
        (c.base_url ≡ [])
        ⊎ ((u : Url) × (parse_url c.base_url ≡ some u)
            × (u.host ≢ [])
            × ((u.scheme ≡ codes "http") ⊎ (u.scheme ≡ codes "https")))
    pub sftp_inbox : (c.sftp_inbox ≡ []) ⊎ (has_prefix c.sftp_inbox (codes "/") ≡ true)

  known_topology :
      (c : Config) (t : Topology)
      → topology_valid to_lower atoi parse_duration parse_url env c t ≡ true
      → (t ≡ vps)
        ⊎ ((t ≡ vps_s3)
            × (c.s3_bucket ≢ [])
            × (trim_space (env (codes "AWS_ACCESS_KEY_ID")) ≢ [])
            × (trim_space (env (codes "AWS_SECRET_ACCESS_KEY")) ≢ []))
  unfolding validate_s3 s3_creds_present
  known_topology c vps h = inl refl
  known_topology c vps_s3 h = inr (
    refl,
    λ e. ground (arith, h, (text_eq_iff c.s3_bucket []).1 e),
    λ e. ground (arith, h, (text_eq_iff (trim_space (env (codes "AWS_ACCESS_KEY_ID"))) []).1 e),
    λ e. ground (arith, h, (text_eq_iff (trim_space (env (codes "AWS_SECRET_ACCESS_KEY"))) []).1 e),
  )
  known_topology c (Topology.other t) h = cc

  web_url :
      (o : Option Url)
      → absolute_http o ≡ true
      → (u : Url) × (o ≡ some u)
        × (u.host ≢ [])
        × ((u.scheme ≡ codes "http") ⊎ (u.scheme ≡ codes "https"))
  web_url none h = cc
  web_url (some u) h = (
    u,
    refl,
    λ e. ground (arith, h, (text_eq_iff u.host []).1 e),
    ground (arith, h, text_eq_iff u.scheme (codes "http"), text_eq_iff u.scheme (codes "https")),
  )

  known_base_url :
      (c : Config)
      → validate_base_url to_lower atoi parse_duration parse_url env c ≡ true
      → (c.base_url ≡ [])
        ⊎ ((u : Url) × (parse_url c.base_url ≡ some u)
            × (u.host ≢ [])
            × ((u.scheme ≡ codes "http") ⊎ (u.scheme ≡ codes "https")))
  unfolding validate_base_url
  known_base_url c h = elim (Bool-cases (text_eq c.base_url [])) [
    | inl e ↦ inl ((text_eq_iff c.base_url []).0 e)
    | inr e ↦ inr (web_url (parse_url c.base_url) (ground (arith, h, e)))
  ]

  checked-Accepted :
      (c d : Config)
      → Bounded to_lower atoi parse_duration parse_url c
      → checked to_lower atoi parse_duration parse_url env c ≡ some d
      → Accepted d
  unfolding validate validate_s3
  checked-Accepted c d b h = subst Accepted (same h) (record {
    bounds = b;
    data_dir = λ e. ground (arith, h, (text_eq_iff c.data_dir []).1 e);
    topology = known_topology c c.topology (ground (arith, h));
    base_url = known_base_url c (ground (arith, h));
    sftp_inbox = ground (arith, h, text_eq_iff c.sftp_inbox []);
  })
    where
      same : checked to_lower atoi parse_duration parse_url env c ≡ some d → c ≡ d
      same k = ground (arith, k)

  limit-Accepted :
      (limit : Option LimitSpec) (c : Config)
      → Parsed limit
      → with_limit to_lower atoi parse_duration parse_url env limit ≡ some c
      → Accepted c
  limit-Accepted none c p h = cc
  limit-Accepted (some l) c p h =
      checked-Accepted (config_of to_lower atoi parse_duration parse_url env l) c
        (config_of-Bounded to_lower atoi parse_duration parse_url env l p) h

  -- Whatever the environment is, the server only starts with a configuration whose numbers are in
  -- bounds, that has a data directory, a known topology (with a bucket and credentials that are not blank where
  -- it uses one), a base URL that is empty or parses to a URL of http or https with a host, and an
  -- inbox that is empty or an absolute path.
  pub load_from_env-Accepted :
      (c : Config) → load_from_env to_lower atoi parse_duration parse_url env ≡ some c → Accepted c
  unfolding load_from_env
  load_from_env-Accepted c h =
      limit-Accepted _ c
        (parse_limit_spec-Parsed to_lower atoi parse_duration parse_url (
          env_or to_lower atoi parse_duration parse_url env (codes "GFS_LOGIN_RATE_LIMIT")
            (codes "20/1m")))
        h

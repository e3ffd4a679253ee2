-- ===== src/Config/ServerJson.antt =====
-- The JSON of ServerConfig in src/common/config.cpp.
use kirdi.Base.{Text, Bytes, codes, [], ◌∷◌, Option, none, some, Result, ok, or_throw, ◌>>=◌}
use kirdi.Base.{json_failure, file_open, List}
use kirdi.Config.{ServerConfig, default_server_config}
use kirdi.Config.Json.{json_get, strip_cidr}
use kirdi.Json.{JsonLib}

module _ (j : JsonLib) where
  open j use {
    Json, parse, object, from_text, from_number, from_bool, get_text, get_number, get_bool,
  }

  abbrev pub fields : ServerConfig → List (Text × Json)
  fields c =
      (codes "listen_addr", from_text c.listen_addr)
      ∷ ((codes "listen_port", from_number c.listen_port)
          ∷ ((codes "ws_path", from_text c.ws_path)
              ∷ ((codes "tls_enabled", from_bool c.tls_enabled)
                  ∷ ((codes "tls_cert_path", from_text c.tls_cert_path)
                      ∷ ((codes "tls_key_path", from_text c.tls_key_path)
                          ∷ ((codes "tun_subnet", from_text c.tun_subnet)
                              ∷ ((codes "tun_mask", from_text c.tun_mask)
                                  ∷ ((codes "tun_server_ip", from_text c.tun_server_ip)
                                      ∷ ((codes "mtu", from_number c.mtu)
                                          ∷ ((codes "auth_secret", from_text c.auth_secret)
                                              ∷ ((codes "max_clients", from_number c.max_clients)
                                                  ∷ ((
                                                    codes "keepalive_sec",
                                                    from_number c.keepalive_sec,
                                                  )
                                                      ∷ ((
                                                        codes "session_timeout_sec",
                                                        from_number c.session_timeout_sec,
                                                      )
                                                          ∷ ((
                                                            codes "log_level",
                                                            from_text c.log_level,
                                                          )
                                                            ∷ []))))))))))))))

  unfoldable pub to_json : ServerConfig → Json
  to_json c = object (fields c)

  -- The configuration `c` with the entries of a JSON value; it throws where one is ill typed.
  unfoldable pub from_json : Json → ServerConfig → Result ServerConfig
  from_json json c = do
    listen_addr ←
        json_get j get_text (codes "listen_addr") (some (codes "listen_address")) json c.listen_addr
    listen_port ← json_get j (get_number 16) (codes "listen_port") none json c.listen_port
    ws_path ← json_get j get_text (codes "ws_path") none json c.ws_path
    tls_enabled ← json_get j get_bool (codes "tls_enabled") none json c.tls_enabled
    tls_cert_path ←
        json_get j get_text (codes "tls_cert_path") (some (codes "tls_cert")) json c.tls_cert_path
    tls_key_path ←
        json_get j get_text (codes "tls_key_path") (some (codes "tls_key")) json c.tls_key_path
    tun_subnet ← json_get j get_text (codes "tun_subnet") none json c.tun_subnet
    tun_mask ← json_get j get_text (codes "tun_mask") (some (codes "tun_netmask")) json c.tun_mask
    tun_server_ip ← json_get j get_text (codes "tun_server_ip") none json c.tun_server_ip
    mtu ← json_get j (get_number 32) (codes "mtu") none json c.mtu
    auth_secret ←
        json_get j get_text (codes "auth_secret") (some (codes "auth_token")) json c.auth_secret
    max_clients ← json_get j (get_number 32) (codes "max_clients") none json c.max_clients
    keepalive_sec ←
        json_get j (get_number 32) (codes "keepalive_sec") (some (codes "keepalive_interval")) json
          c.keepalive_sec
    session_timeout_sec ←
        json_get j (get_number 32) (codes "session_timeout_sec") none json c.session_timeout_sec
    log_level ← json_get j get_text (codes "log_level") none json c.log_level
    ok (record {
      listen_addr = listen_addr;
      listen_port = listen_port;
      ws_path = ws_path;
      tls_enabled = tls_enabled;
      tls_cert_path = tls_cert_path;
      tls_key_path = tls_key_path;
      tun_subnet = strip_cidr tun_subnet;
      tun_mask = tun_mask;
      tun_server_ip = tun_server_ip;
      mtu = mtu;
      auth_secret = auth_secret;
      max_clients = max_clients;
      keepalive_sec = keepalive_sec;
      session_timeout_sec = session_timeout_sec;
      log_level = log_level;
    })

  -- `content`: what the file holds, none if it cannot be opened.
  unfoldable pub parse_server_config : Option Bytes → Result ServerConfig
  unfolding from_json
  parse_server_config content = do
    text ← or_throw content file_open
    json ← or_throw (parse text) json_failure
    from_json json default_server_config

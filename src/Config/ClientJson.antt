-- ===== src/Config/ClientJson.antt =====
-- The JSON of ClientConfig in src/common/config.cpp.
use kirdi.Base.{Text, Bytes, codes, [], ◌∷◌, Option, none, some, Result, ok, or_throw, ◌>>=◌}
use kirdi.Base.{json_failure, file_open, List}
use kirdi.Config.{ClientConfig, default_client_config}
use kirdi.Config.Json.{json_get}
use kirdi.Json.{JsonLib}

module _ (j : JsonLib) where
  open j use {
    Json, parse, object, from_text, from_number, from_bool, get_text, get_number, get_bool,
  }

  abbrev pub fields : ClientConfig → List (Text × Json)
  fields c =
      (codes "server_host", from_text c.server_host)
      ∷ ((codes "server_port", from_number c.server_port)
          ∷ ((codes "ws_path", from_text c.ws_path)
              ∷ ((codes "tls_enabled", from_bool c.tls_enabled)
                  ∷ ((codes "sni_override", from_text c.sni_override)
                      ∷ ((codes "auth_user", from_text c.auth_user)
                          ∷ ((codes "auth_token", from_text c.auth_token)
                              ∷ ((codes "mtu", from_number c.mtu)
                                  ∷ ((codes "auto_route", from_bool c.auto_route)
                                      ∷ ((codes "dns_server", from_text c.dns_server)
                                          ∷ ((codes "transport", from_text c.transport)
                                              ∷ ((
                                                codes "keepalive_sec",
                                                from_number c.keepalive_sec,
                                              )
                                                  ∷ ((codes "log_level", from_text c.log_level)
                                                      ∷ []))))))))))))

  unfoldable pub to_json : ClientConfig → Json
  to_json c = object (fields c)

  -- The configuration `c` with the entries of a JSON value; it throws where one is ill typed.
  unfoldable pub from_json : Json → ClientConfig → Result ClientConfig
  from_json json c = do
    server_host ← json_get j get_text (codes "server_host") (some (codes "host")) json c.server_host
    server_port ←
        json_get j (get_number 16) (codes "server_port") (some (codes "port")) json c.server_port
    ws_path ← json_get j get_text (codes "ws_path") (some (codes "path")) json c.ws_path
    tls_enabled ← json_get j get_bool (codes "tls_enabled") none json c.tls_enabled
    sni_override ←
        json_get j get_text (codes "sni_override") (some (codes "sni")) json c.sni_override
    auth_user ← json_get j get_text (codes "auth_user") (some (codes "user")) json c.auth_user
    auth_token ← json_get j get_text (codes "auth_token") (some (codes "token")) json c.auth_token
    mtu ← json_get j (get_number 32) (codes "mtu") none json c.mtu
    auto_route ← json_get j get_bool (codes "auto_route") none json c.auto_route
    dns_server ← json_get j get_text (codes "dns_server") (some (codes "dns")) json c.dns_server
    transport ← json_get j get_text (codes "transport") none json c.transport
    keepalive_sec ←
        json_get j (get_number 32) (codes "keepalive_sec") (some (codes "keepalive")) json
          c.keepalive_sec
    log_level ← json_get j get_text (codes "log_level") none json c.log_level
    ok (record {
      server_host = server_host;
      server_port = server_port;
      ws_path = ws_path;
      tls_enabled = tls_enabled;
      sni_override = sni_override;
      auth_user = auth_user;
      auth_token = auth_token;
      mtu = mtu;
      auto_route = auto_route;
      dns_server = dns_server;
      transport = transport;
      keepalive_sec = keepalive_sec;
      log_level = log_level;
    })

  -- `content`: what the file holds, none if it cannot be opened.
  unfoldable pub parse_client_config : Option Bytes → Result ClientConfig
  unfolding from_json
  parse_client_config content = do
    text ← or_throw content file_open
    json ← or_throw (parse text) json_failure
    from_json json default_client_config

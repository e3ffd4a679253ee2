-- ===== src/Config/RoundTrip.antt =====
-- The configurations of src/common/config.cpp, written as JSON and read back.
use kirdi.Base.{◌<◌, ◌^◌, ◌≡◌, refl, ap, Text, codes, Bytes, Option, none, some, ok, or_throw, List}
use kirdi.Base.{json_failure, same_bytes}
use kirdi.Config.{ServerConfig, ClientConfig, default_server_config, default_client_config}
use kirdi.Config.ClientJson.{parse_client_config}
use kirdi.Config.Json.{json_get, strip_cidr}
use kirdi.Config.ServerJson.{from_json, to_json, parse_server_config}
use kirdi.Json.{JsonLib, JsonLaws, field}
use kirdi.Config.ServerJson
use kirdi.Config.ClientJson

-- A key that stands in the object is read from there, whatever its alias.
json_get_found {ℓ} :
    {A : Type ℓ} (j : JsonLib)
    → JsonLaws j
    → (get : j.Json → Option A) (key : Text) (alias : Option Text) (fields : List (Text × j.Json))
      (out : A) (x : j.Json) (v : A)
    → field key fields ≡ some x
    → get x ≡ some v
    → json_get j get key alias (j.object fields) out ≡ ok v
unfolding json_get
json_get_found j laws get key alias fields out x v e g =
    rw (laws.lookup-object key fields, json_get)
      (rw (e, json_get) (ap (λ o. or_throw o json_failure) g))

-- The numbers fit the types of the fields.
pub record IsServerConfig (c : ServerConfig) : Type 0 where
  pub listen_port : c.listen_port < 2 ^ 16
  pub mtu : c.mtu < 2 ^ 32
  pub max_clients : c.max_clients < 2 ^ 32
  pub keepalive_sec : c.keepalive_sec < 2 ^ 32
  pub session_timeout_sec : c.session_timeout_sec < 2 ^ 32

server_config-to_json :
    (j : JsonLib)
    → JsonLaws j
    → (c old : ServerConfig) → IsServerConfig c
    → ServerJson.from_json j (ServerJson.to_json j c) old
      ≡ ok (record c { tun_subnet = strip_cidr c.tun_subnet })
unfolding ServerJson.from_json ServerJson.to_json field same_bytes
server_config-to_json j laws c old is = rw (
  json_get_found j laws j.get_text (codes "listen_addr") (some (codes "listen_address"))
      (ServerJson.fields j c) old.listen_addr (j.from_text c.listen_addr) c.listen_addr refl
      (laws.get_text-from_text c.listen_addr),
  json_get_found j laws (j.get_number 16) (codes "listen_port") none (ServerJson.fields j c)
      old.listen_port (j.from_number c.listen_port) c.listen_port refl
      (laws.get_number-from_number 16 c.listen_port is.listen_port),
  json_get_found j laws j.get_text (codes "ws_path") none (ServerJson.fields j c) old.ws_path
      (j.from_text c.ws_path) c.ws_path refl (laws.get_text-from_text c.ws_path),
  json_get_found j laws j.get_bool (codes "tls_enabled") none (ServerJson.fields j c)
      old.tls_enabled (j.from_bool c.tls_enabled) c.tls_enabled refl
      (laws.get_bool-from_bool c.tls_enabled),
  json_get_found j laws j.get_text (codes "tls_cert_path") (some (codes "tls_cert"))
      (ServerJson.fields j c) old.tls_cert_path (j.from_text c.tls_cert_path) c.tls_cert_path refl
      (laws.get_text-from_text c.tls_cert_path),
  json_get_found j laws j.get_text (codes "tls_key_path") (some (codes "tls_key"))
      (ServerJson.fields j c) old.tls_key_path (j.from_text c.tls_key_path) c.tls_key_path refl
      (laws.get_text-from_text c.tls_key_path),
  json_get_found j laws j.get_text (codes "tun_subnet") none (ServerJson.fields j c) old.tun_subnet
      (j.from_text c.tun_subnet) c.tun_subnet refl (laws.get_text-from_text c.tun_subnet),
  json_get_found j laws j.get_text (codes "tun_mask") (some (codes "tun_netmask"))
      (ServerJson.fields j c) old.tun_mask (j.from_text c.tun_mask) c.tun_mask refl
      (laws.get_text-from_text c.tun_mask),
  json_get_found j laws j.get_text (codes "tun_server_ip") none (ServerJson.fields j c)
      old.tun_server_ip (j.from_text c.tun_server_ip) c.tun_server_ip refl
      (laws.get_text-from_text c.tun_server_ip),
  json_get_found j laws (j.get_number 32) (codes "mtu") none (ServerJson.fields j c) old.mtu
      (j.from_number c.mtu) c.mtu refl (laws.get_number-from_number 32 c.mtu is.mtu),
  json_get_found j laws j.get_text (codes "auth_secret") (some (codes "auth_token"))
      (ServerJson.fields j c) old.auth_secret (j.from_text c.auth_secret) c.auth_secret refl
      (laws.get_text-from_text c.auth_secret),
  json_get_found j laws (j.get_number 32) (codes "max_clients") none (ServerJson.fields j c)
      old.max_clients (j.from_number c.max_clients) c.max_clients refl
      (laws.get_number-from_number 32 c.max_clients is.max_clients),
  json_get_found j laws (j.get_number 32) (codes "keepalive_sec")
      (some (codes "keepalive_interval")) (ServerJson.fields j c) old.keepalive_sec
      (j.from_number c.keepalive_sec) c.keepalive_sec refl
      (laws.get_number-from_number 32 c.keepalive_sec is.keepalive_sec),
  json_get_found j laws (j.get_number 32) (codes "session_timeout_sec") none (ServerJson.fields j c)
      old.session_timeout_sec (j.from_number c.session_timeout_sec) c.session_timeout_sec refl
      (laws.get_number-from_number 32 c.session_timeout_sec is.session_timeout_sec),
  json_get_found j laws j.get_text (codes "log_level") none (ServerJson.fields j c) old.log_level
      (j.from_text c.log_level) c.log_level refl (laws.get_text-from_text c.log_level),
)

-- A server configuration that is written to a file as JSON is read back as it was, but for the
-- subnet, which loses what stands behind a slash. Its numbers fit their fields, its texts can be
-- written, and the JSON library behaves as documented.
pub parse_server_config-dump :
    (j : JsonLib)
    → JsonLaws j
    → (c : ServerConfig) (text : Bytes) → IsServerConfig c
    → j.dump (ServerJson.to_json j c) ≡ some text
    → parse_server_config j (some text) ≡ ok (record c { tun_subnet = strip_cidr c.tun_subnet })
unfolding parse_server_config
parse_server_config-dump j laws c text is e =
    rw (laws.parse-dump (ServerJson.to_json j c) text e)
      (server_config-to_json j laws c default_server_config is)

-- The numbers fit the types of the fields.
pub record IsClientConfig (c : ClientConfig) : Type 0 where
  pub server_port : c.server_port < 2 ^ 16
  pub mtu : c.mtu < 2 ^ 32
  pub keepalive_sec : c.keepalive_sec < 2 ^ 32

client_config-to_json :
    (j : JsonLib)
    → JsonLaws j
    → (c old : ClientConfig) → IsClientConfig c
    → ClientJson.from_json j (ClientJson.to_json j c) old ≡ ok c
unfolding ClientJson.from_json ClientJson.to_json field same_bytes
client_config-to_json j laws c old is = rw (
  json_get_found j laws j.get_text (codes "server_host") (some (codes "host"))
      (ClientJson.fields j c) old.server_host (j.from_text c.server_host) c.server_host refl
      (laws.get_text-from_text c.server_host),
  json_get_found j laws (j.get_number 16) (codes "server_port") (some (codes "port"))
      (ClientJson.fields j c) old.server_port (j.from_number c.server_port) c.server_port refl
      (laws.get_number-from_number 16 c.server_port is.server_port),
  json_get_found j laws j.get_text (codes "ws_path") (some (codes "path")) (ClientJson.fields j c)
      old.ws_path (j.from_text c.ws_path) c.ws_path refl (laws.get_text-from_text c.ws_path),
  json_get_found j laws j.get_bool (codes "tls_enabled") none (ClientJson.fields j c)
      old.tls_enabled (j.from_bool c.tls_enabled) c.tls_enabled refl
      (laws.get_bool-from_bool c.tls_enabled),
  json_get_found j laws j.get_text (codes "sni_override") (some (codes "sni"))
      (ClientJson.fields j c) old.sni_override (j.from_text c.sni_override) c.sni_override refl
      (laws.get_text-from_text c.sni_override),
  json_get_found j laws j.get_text (codes "auth_user") (some (codes "user")) (ClientJson.fields j c)
      old.auth_user (j.from_text c.auth_user) c.auth_user refl
      (laws.get_text-from_text c.auth_user),
  json_get_found j laws j.get_text (codes "auth_token") (some (codes "token"))
      (ClientJson.fields j c) old.auth_token (j.from_text c.auth_token) c.auth_token refl
      (laws.get_text-from_text c.auth_token),
  json_get_found j laws (j.get_number 32) (codes "mtu") none (ClientJson.fields j c) old.mtu
      (j.from_number c.mtu) c.mtu refl (laws.get_number-from_number 32 c.mtu is.mtu),
  json_get_found j laws j.get_bool (codes "auto_route") none (ClientJson.fields j c) old.auto_route
      (j.from_bool c.auto_route) c.auto_route refl (laws.get_bool-from_bool c.auto_route),
  json_get_found j laws j.get_text (codes "dns_server") (some (codes "dns")) (ClientJson.fields j c)
      old.dns_server (j.from_text c.dns_server) c.dns_server refl
      (laws.get_text-from_text c.dns_server),
  json_get_found j laws j.get_text (codes "transport") none (ClientJson.fields j c) old.transport
      (j.from_text c.transport) c.transport refl (laws.get_text-from_text c.transport),
  json_get_found j laws (j.get_number 32) (codes "keepalive_sec") (some (codes "keepalive"))
      (ClientJson.fields j c) old.keepalive_sec (j.from_number c.keepalive_sec) c.keepalive_sec refl
      (laws.get_number-from_number 32 c.keepalive_sec is.keepalive_sec),
  json_get_found j laws j.get_text (codes "log_level") none (ClientJson.fields j c) old.log_level
      (j.from_text c.log_level) c.log_level refl (laws.get_text-from_text c.log_level),
)

-- A client configuration that is written to a file as JSON is read back as it was. Its numbers
-- fit their fields, its texts can be written, and the JSON library behaves as documented.
pub parse_client_config-dump :
    (j : JsonLib)
    → JsonLaws j
    → (c : ClientConfig) (text : Bytes) → IsClientConfig c
    → j.dump (ClientJson.to_json j c) ≡ some text
    → parse_client_config j (some text) ≡ ok c
unfolding parse_client_config
parse_client_config-dump j laws c text is e =
    rw (laws.parse-dump (ClientJson.to_json j c) text e)
      (client_config-to_json j laws c default_client_config is)

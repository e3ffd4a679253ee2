-- ===== src/Config.antt =====
-- src/common/config.hpp: the two configurations and their defaults.
pub mod Json
pub mod ServerJson
pub mod ClientJson
pub mod RoundTrip
use kirdi.Base.{ℕ, Bool, true, false, Text, codes, []}

pub record ServerConfig : Type 0 where
  pub listen_addr : Text
  pub listen_port : ℕ
  pub ws_path : Text
  pub tls_enabled : Bool
  pub tls_cert_path : Text
  pub tls_key_path : Text
  pub tun_subnet : Text
  pub tun_mask : Text
  pub tun_server_ip : Text
  pub mtu : ℕ
  pub auth_secret : Text
  pub max_clients : ℕ
  pub keepalive_sec : ℕ
  pub session_timeout_sec : ℕ
  pub log_level : Text

abbrev pub default_server_config : ServerConfig
default_server_config = record {
  listen_addr = codes "0.0.0.0";
  listen_port = 7777;
  ws_path = codes "/tunnel/";
  tls_enabled = false;
  tls_cert_path = [];
  tls_key_path = [];
  tun_subnet = codes "10.8.0.0";
  tun_mask = codes "255.255.255.0";
  tun_server_ip = codes "10.8.0.1";
  mtu = 1400;
  auth_secret = [];
  max_clients = 64;
  keepalive_sec = 25;
  session_timeout_sec = 300;
  log_level = codes "info";
}

pub record ClientConfig : Type 0 where
  pub server_host : Text
  pub server_port : ℕ
  pub ws_path : Text
  pub tls_enabled : Bool
  pub sni_override : Text
  pub auth_user : Text
  pub auth_token : Text
  pub mtu : ℕ
  pub auto_route : Bool
  pub dns_server : Text
  pub transport : Text
  pub keepalive_sec : ℕ
  pub log_level : Text

abbrev pub default_client_config : ClientConfig
default_client_config = record {
  server_host = [];
  server_port = 443;
  ws_path = codes "/tunnel/";
  tls_enabled = true;
  sni_override = [];
  auth_user = codes "kirdi";
  auth_token = [];
  mtu = 1400;
  auto_route = true;
  dns_server = codes "1.1.1.1";
  transport = codes "websocket";
  keepalive_sec = 25;
  log_level = codes "info";
}

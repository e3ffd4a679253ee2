-- ===== src/Examples/Config.antt =====
-- Examples for src/common/config.cpp.
use kirdi.Base.{◌≡◌, refl, arith, codes, some, ok}
use kirdi.Config.{default_server_config, default_client_config, ServerConfig}
use kirdi.Config.ClientJson.{parse_client_config}
use kirdi.Config.Json.{strip_cidr}
use kirdi.Config.RoundTrip.{parse_server_config-dump, parse_client_config-dump}
use kirdi.Config.ServerJson.{parse_server_config}
use kirdi.Examples.{json, json-JsonLaws}
use kirdi.Config.ServerJson
use kirdi.Config.ClientJson

-- A subnet with its prefix length.
abbrev with_suffix : ServerConfig
with_suffix = record default_server_config { tun_subnet = codes "10.9.0.0/24" }

parse_server_config-dump_example :
    parse_server_config json (some (ServerJson.to_json json with_suffix))
    ≡ ok (record with_suffix { tun_subnet = strip_cidr (codes "10.9.0.0/24") })
parse_server_config-dump_example =
    parse_server_config-dump json json-JsonLaws with_suffix (ServerJson.to_json json with_suffix)
      (record {
        listen_port = omega arith;
        mtu = omega arith;
        max_clients = omega arith;
        keepalive_sec = omega arith;
        session_timeout_sec = omega arith;
      })
      refl

parse_client_config-dump_example :
    parse_client_config json (some (ClientJson.to_json json default_client_config))
    ≡ ok default_client_config
parse_client_config-dump_example =
    parse_client_config-dump json json-JsonLaws default_client_config
      (ClientJson.to_json json default_client_config)
      (record { server_port = omega arith; mtu = omega arith; keepalive_sec = omega arith }) refl

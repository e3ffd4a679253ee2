-- ===== src/Client/Messages.antt =====
-- What src/client/client.cpp does with a connection and with each message: the request, the answer and
-- the packets.
use kirdi.Base.{ℕ, ◌+◌, if◌then◌else◌, Bool, true, false, Bytes, Text, codes, [], ◌∷◌, ◌++◌, Option}
use kirdi.Base.{none, some, Result, ok, thrown, or_throw, ◌>>=◌, json_failure}
use kirdi.Client.{configure_network, stop, send_built, write_tun, ws_is_connected, called_back}
use kirdi.Client.{read_again, Client}
use kirdi.Config.{ClientConfig}
use kirdi.Crypto.{build_auth_token}
use kirdi.Json.{JsonLib, value}
use kirdi.Protocol.{MsgType, PacketHeader, build_packet, build_keepalive}
use kirdi.Session.{Outcome, returned}
use kirdi.Transport.{dispatch_packet}
use kirdi.Transport.ClientTransport.{WsClientTransport}
use kirdi.Tun.{TunConfig}
use kirdi.Transport.ClientTransport

module _ (j : JsonLib) (hmac : Bytes → Bytes → Option Bytes) where
  open j use {Json, parse, dump, get_text, get_number, get_bool, object, from_text, from_number}

  -- The JSON of the AuthRequest at time `now`.
  unfoldable pub auth_json : ClientConfig → Text → ℕ → Json
  auth_json config token now = object (
      (codes "user", from_text config.auth_user)
      ∷ ((codes "token", from_text token) ∷ ((codes "timestamp", from_number now) ∷ [])))

  -- The text of the request.
  unfoldable pub auth_request : ClientConfig → ℕ → Result Bytes
  unfolding auth_json
  auth_request config now = do
    token ← build_auth_token hmac config.auth_user config.auth_token now
    or_throw (dump (auth_json config token now)) json_failure

  unfoldable pub send_auth : ℕ → Client → Outcome Client
  unfolding auth_request send_built
  send_auth now c =
      send_built (auth_request c.config now >>= λ text. build_packet MsgType.auth_request text) c

  unfoldable pub on_connected : ℕ → Client → Outcome Client
  unfolding send_auth
  on_connected now c = send_auth now (record c { connected = true; reconnect_attempt = 0 })

  -- What follows `virtual_ip_ = …` in the reading of an AuthResponse.
  unfoldable pub read_tun_config : Json → ℕ → Text → Result TunConfig
  read_tun_config json default_mtu virtual_ip = do
    server_tun_ip ← value j get_text (codes "tun_server_ip") (codes "10.8.0.1") json
    tun_mask ← value j get_text (codes "tun_mask") (codes "255.255.255.0") json
    tun_mtu ← value j (get_number 32) (codes "mtu") default_mtu json
    ok (record {
      name = codes "kirdi0";
      address = virtual_ip;
      peer_address = server_tun_ip;
      netmask = tun_mask;
      mtu = tun_mtu;
    })

  -- `opened`: `open` of the new device succeeds.
  unfoldable pub open_tunnel : Bool → TunConfig → Client → Client
  unfolding stop configure_network
  open_tunnel true tun_config c = record c {
    tun = some true;
    tun_opened = c.tun_opened ++ (tun_config ∷ []);
    commands = configure_network (c.tun_opened ++ (tun_config ∷ [])) c;
    tun_threads = c.tun_threads + 1;
  }
  open_tunnel false tun_config c = stop (record c { tun = some false })

  unfoldable pub accept_response : Bool → Json → Client → Client
  unfolding read_tun_config open_tunnel
  accept_response opened json c = elim (value j get_text (codes "tun_ip") (codes "10.8.0.2") json) [
    | thrown e ↦ c
    | ok ip ↦ elim (read_tun_config json c.config.mtu ip) [
      | thrown e ↦ record c { virtual_ip = ip }
      | ok tun_config ↦ open_tunnel opened tun_config (record c { virtual_ip = ip })
    ]
  ]

  unfoldable pub on_auth_response : Bool → Bytes → Client → Client
  unfolding accept_response stop
  on_auth_response opened payload c = elim (parse payload) [
    | none ↦ c
    | some json ↦ elim (value j get_bool (codes "ok") false json) [
      | thrown e ↦ c
      | ok true ↦ accept_response opened json c
      | ok false ↦ stop c
    ]
  ]

  unfoldable pub on_packet : Bool → PacketHeader → Bytes → Client → Outcome Client
  unfolding on_auth_response write_tun send_built ws_is_connected
  on_packet opened hdr payload c = elim hdr.type [
    | MsgType.auth_response ↦ returned (on_auth_response opened payload c)
    | MsgType.ip_packet ↦ returned (write_tun payload c)
    | MsgType.keepalive ↦ if ws_is_connected c then send_built build_keepalive c else returned c
    | _ ↦ returned c
  ]

  -- A message has been read: `on_read` of the transport, with `on_packet` for callback.
  unfoldable pub on_read : Bool → Bytes → Client → Outcome Client
  unfolding on_packet read_again
  on_read opened buf c = elim (dispatch_packet true buf) [
    | none ↦ read_again (returned c)
    | some (hdr, payload) ↦ read_again (on_packet opened hdr payload c)
  ]

  -- An operation of `connect` ends: the error callback, the callback of a connection and the first
  -- read, or the next operation.
  unfoldable pub connect_step : ℕ → Bool → Bool → Client → Outcome Client
  unfolding on_connected called_back read_again
  connect_step now failed named c = elim c.ws [
    | none ↦ returned c
    | some w ↦
        let c' = called_back (ClientTransport.advance failed named w) c in
        elim (ClientTransport.just_connected w.stage failed) [
          | true ↦ read_again (on_connected now c')
          | false ↦ returned c'
        ]
  ]

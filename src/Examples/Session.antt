-- ===== src/Examples/Session.antt =====
-- Examples for src/server/session.cpp.
use kirdi.Base.{ℕ, ◌-◌, ◌^◌, ◌<◌, ◌≡◌, ◌≢◌, ◌⊎◌, refl, arith, true, false, Bool, Bytes, Text, codes}
use kirdi.Base.{List, [], ◌∷◌, ◌++◌, none, some, ok, same_bytes}
use kirdi.Crypto.{hex_encode, build_auth_token, hmac_sha256, auth_message}
use kirdi.Crypto.Window.{Fits}
use kirdi.Examples.{hmac, hmac-HmacWorks, json, find, entries}
use kirdi.Json.{value}
use kirdi.Protocol.{MsgType, zeros}
use kirdi.Protocol.Packet.{packet_bytes, build_packet_fits}
use kirdi.Session.{Link, Credentials, returned, endless, read_credentials, auth_ok, handle_packet}
use kirdi.Session.{on_read, auth_response, response_packet, check_credentials, or_false}
use kirdi.Session.Auth.{IsNear, auth_ok_sound, auth_ok_replay, auth_ok_ends, handle_packet_endless}
use kirdi.Session.Gate.{IsRead, on_read-IsRead, state_of}
use kirdi.Session.Refusal.{refusal_unsent}
use kirdi.Transport.ServerSession.{WsServerSession}
use kirdi.Transport.ServerSession.Order.{Runs, flying}
use kirdi.Transport.ServerSession

abbrev pub moment : ℕ
moment = 1700000000

abbrev pub secret : Text
secret = codes "secret"

-- A new session with a secret.
abbrev pub joined : Link
joined = record {
  ws = ServerSession.start (ServerSession.on_packet (ServerSession.construct 7));
  client = record {
    id = 7;
    virtual_ip = codes "10.8.0.2";
    virtual_ip_n = none;
    authenticated = false;
    has_ip_callback = true;
    tun_info = record { server_ip = codes "10.8.0.1"; mask = codes "255.255.255.0"; mtu = 1400 };
    auth_secret = secret;
  };
  passed = [];
}

joined_connected : joined.ws.connected ≡ true
unfolding ServerSession.start ServerSession.on_packet ServerSession.construct
joined_connected = refl

-- The token for alice at that moment, and her request.
abbrev token : Text
token = hex_encode (48 ∷ zeros 31)

abbrev request : Text → ℕ → Bytes
request t time = json.object (
    (codes "user", json.from_text (codes "alice"))
    ∷ ((codes "token", json.from_text t) ∷ ((codes "timestamp", json.from_number time) ∷ [])))

abbrev alice : Text → ℕ → Credentials
alice t time = record { user = codes "alice"; token = t; timestamp = time }

token-Fits : Fits hmac (codes "alice") secret token moment
unfolding build_auth_token hmac_sha256 auth_message hmac hex_encode
token-Fits = refl

request_read : read_credentials json hmac 62 0 (request token moment) ≡ ok (alice token moment)
unfolding read_credentials value find entries same_bytes hex_encode zeros
request_read = refl

-- The request is accepted at the epoch's start, by its own timestamp.
auth_ok_replay_example : auth_ok json hmac 62 0 secret (request token moment) ≡ some true
unfolding hex_encode zeros
auth_ok_replay_example =
    auth_ok_replay json hmac 62 0 secret (request token moment) (alice token moment) hmac-HmacWorks
      (omega arith) refl refl (omega arith) (omega arith) request_read token-Fits

accepted : auth_ok json hmac 62 0 secret (request token moment) ≡ some true
unfolding hex_encode zeros
accepted =
    auth_ok_replay json hmac 62 0 secret (request token moment) (alice token moment) hmac-HmacWorks
      (omega arith) refl refl (omega arith) (omega arith) request_read token-Fits

auth_ok_sound_example :
    (t : ℕ) × (IsNear t moment ⊎ IsNear t 0) × Fits hmac (codes "alice") secret token t
auth_ok_sound_example =
    auth_ok_sound json hmac 62 0 secret (request token moment) (alice token moment) hmac-HmacWorks
      refl (omega arith) (omega arith) request_read accepted

-- A request with a short token and the last timestamp.
bad_request_read :
    read_credentials json hmac 62 0 (request (codes "x") (2 ^ 64 - 31))
    ≡ ok (alice (codes "x") (2 ^ 64 - 31))
unfolding read_credentials value find entries same_bytes
bad_request_read = refl

handle_packet_endless_example :
    handle_packet json hmac 62 0
      (record { type = MsgType.auth_request; length = 5 })
      (request (codes "x") (2 ^ 64 - 31))
      joined
    ≡ endless joined
handle_packet_endless_example =
    handle_packet_endless json hmac 62 0 5 (request (codes "x") (2 ^ 64 - 31))
      (alice (codes "x") (2 ^ 64 - 31)) joined hmac-HmacWorks refl refl (λ e. ground (arith, e))
      refl bad_request_read

auth_ok_ends_example : (b : Bool) × (auth_ok json hmac 62 0 secret (request token moment) ≡ some b)
auth_ok_ends_example =
    auth_ok_ends json hmac 62 0 secret (request token moment) hmac-HmacWorks (omega arith)
      (omega arith) in_range
  where
    in_range :
        (c : Credentials)
        → read_credentials json hmac 62 0 (request token moment) ≡ ok c
        → (c.timestamp < 2 ^ 64) × (c.timestamp ≢ 2 ^ 64 - 31)
    in_range c e = ground (arith, request_read, e)

on_read-IsRead_example :
    IsRead json hmac 62 0
      (packet_bytes MsgType.ping (1 ∷ []))
      joined
      (state_of (on_read json hmac 62 0 (packet_bytes MsgType.ping (1 ∷ [])) joined))
on_read-IsRead_example = on_read-IsRead json hmac 62 0 (packet_bytes MsgType.ping (1 ∷ [])) joined

-- A request without a token.
empty_refused : auth_ok json hmac 62 0 secret (json.object []) ≡ some false
unfolding auth_ok read_credentials value find entries check_credentials or_false
empty_refused = refl

abbrev refusal : Bytes
refusal = auth_response json hmac 62 0 false joined.client

refusal_built :
    response_packet json hmac 62 0 false joined.client
    ≡ ok (packet_bytes MsgType.auth_response refusal)
unfolding response_packet auth_response entries
refusal_built = build_packet_fits MsgType.auth_response refusal (omega arith)

refusal_unsent_example :
    (l' : Link) × (handle_packet json hmac 62 0
        (record { type = MsgType.auth_request; length = 2 })
        (json.object [])
        joined
      ≡ returned l')
    × (l'.ws.write_queue
        ≡ joined.ws.write_queue ++ (packet_bytes MsgType.auth_response refusal ∷ []))
    × ((w : WsServerSession) (ms : List Bytes)
        → Runs l'.ws w ms
        → (w.wire ≡ joined.ws.wire) ⊎ (w.wire ≡ joined.ws.wire ++ flying joined.ws))
refusal_unsent_example =
    refusal_unsent json hmac 62 0 2 (json.object []) (packet_bytes MsgType.auth_response refusal)
      joined joined_connected empty_refused refusal_built

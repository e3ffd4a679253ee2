-- ===== src/Session.antt =====
-- src/server/session.cpp: one client of the server. The transport session that `ws_` points to and
-- the ClientSession are the two objects of a Link.
pub mod Gate
pub mod Outgoing
pub mod Auth
pub mod Refusal
use kirdi.Base.{ℕ, if◌then◌else◌, not, Bool, true, false, ◌&&◌, Bytes, Text, codes, is_empty, List}
use kirdi.Base.{[], ◌∷◌, ◌++◌, Option, none, some, Result, ok, thrown, Exception, json_failure}
use kirdi.Base.{or_throw, ◌>>=◌}
use kirdi.Crypto.{verify_auth_token}
use kirdi.Json.{JsonLib, value}
use kirdi.Protocol.{MsgType, PacketHeader, build_packet, build_keepalive, build_ip_packet}
use kirdi.Transport.{dispatch_packet}
use kirdi.Transport.ServerSession.{WsServerSession}
use kirdi.Transport.ServerSession

pub record TunInfo : Type 0 where
  pub server_ip : Text
  pub mask : Text
  pub mtu : ℕ

pub record ClientSession : Type 0 where
  pub id : ℕ
  pub virtual_ip : Text
  -- None: `inet_pton` failed, and the field was never written.
  pub virtual_ip_n : Option ℕ
  pub authenticated : Bool
  pub has_ip_callback : Bool
  pub tun_info : TunInfo
  pub auth_secret : Text

-- `passed`: the calls of `on_ip_packet_`, in order.
pub record Link : Type 0 where
  pub ws : WsServerSession
  pub client : ClientSession
  pub passed : List (ℕ × Bytes)

-- How a handler ends: it returns, an exception leaves it, or it runs without end (the fuel of a
-- loop is used up). The state is the one at that time.
pub data Outcome {ℓ} (S : Type ℓ) : Type ℓ where
  returned : S → Outcome S
  escaped : Exception → S → Outcome S
  endless : S → Outcome S

-- `inet_pton`: the address in network byte order, as the machine reads it into a uint32_t.
unfoldable pub new_session : (Text → Option ℕ) → ℕ → Text → ClientSession
new_session inet_pton id virtual_ip = record {
  id = id;
  virtual_ip = virtual_ip;
  virtual_ip_n = inet_pton virtual_ip;
  authenticated = false;
  has_ip_callback = false;
  tun_info = record { server_ip = []; mask = []; mtu = 1400 };
  auth_secret = [];
}

-- `start` of ClientSession: the callback, then the transport.
unfoldable pub start : Link → Link
start l = record l { ws = ServerSession.start (ServerSession.on_packet l.ws) }

unfoldable pub send : Bytes → Link → Link
send message l = record l { ws = ServerSession.send message l.ws }

unfoldable pub close : Link → Link
close l = record l { ws = ServerSession.close l.ws }

-- `ws_->send(build…)`: a packet that cannot be built is an exception.
unfoldable pub send_packet : Result Bytes → Link → Outcome Link
unfolding send
send_packet (ok pkt) l = returned (send pkt l)
send_packet (thrown e) l = escaped e l

unfoldable pub send_ip_packet : Bytes → Link → Outcome Link
unfolding send_packet
send_ip_packet packet l = send_packet (build_ip_packet packet) l

-- A result that may throw, of code that may not end.
abbrev pub Attempt : Type 0 → Type 0
Attempt A = Option (Result A)

-- `catch (const std::exception&)`, where the flag is still false.
unfoldable pub or_false : Attempt Bool → Option Bool
or_false none = none
or_false (some (ok b)) = some b
or_false (some (thrown e)) = some false

-- The three fields of an AuthRequest.
pub record Credentials : Type 0 where
  pub user : Text
  pub token : Text
  pub timestamp : ℕ

module _ (j : JsonLib) (hmac : Bytes → Bytes → Option Bytes) (fuel now : ℕ) where
  open j use {parse, dump, get_text, get_number, object, from_text, from_number, from_bool}

  unfoldable pub read_credentials : Bytes → Result Credentials
  read_credentials payload = do
    json ← or_throw (parse payload) json_failure
    user ← value j get_text (codes "user") [] json
    token ← value j get_text (codes "token") [] json
    timestamp ← value j (get_number 64) (codes "timestamp") 0 json
    ok (record { user = user; token = token; timestamp = timestamp })

  -- The second try, with the server's clock.
  unfoldable pub check_now : Text → Credentials → Attempt Bool → Attempt Bool
  check_now secret c none = none
  check_now secret c (some (thrown e)) = some (thrown e)
  check_now secret c (some (ok true)) = some (ok true)
  check_now secret c (some (ok false)) = verify_auth_token hmac fuel c.user secret c.token now 30

  unfoldable pub check_credentials : Text → Credentials → Attempt Bool
  unfolding check_now
  check_credentials secret c =
      if not (is_empty secret) && not (is_empty c.token)
      then check_now secret c (verify_auth_token hmac fuel c.user secret c.token c.timestamp 30)
      else if is_empty secret
      then some (ok true)
      else some (ok false)

  -- `auth_ok` at the end of the `try` block and its handler.
  unfoldable pub auth_ok : Text → Bytes → Option Bool
  unfolding or_false read_credentials check_credentials
  auth_ok secret payload = elim (read_credentials payload) [
    | thrown e ↦ some false
    | ok c ↦ or_false (check_credentials secret c)
  ]

  unfoldable pub auth_response : Bool → ClientSession → j.Json
  auth_response true c = object (
      (codes "ok", from_bool true)
      ∷ ((codes "tun_ip", from_text c.virtual_ip)
          ∷ ((codes "tun_server_ip", from_text c.tun_info.server_ip)
              ∷ ((codes "tun_mask", from_text c.tun_info.mask)
                  ∷ ((codes "mtu", from_number c.tun_info.mtu) ∷ [])))))
  auth_response false c = object (
      (codes "ok", from_bool false)
      ∷ ((codes "error", from_text (codes "authentication failed")) ∷ []))

  -- The response packet; `dump` and `build_packet` stand outside the `try` block.
  unfoldable pub response_packet : Bool → ClientSession → Result Bytes
  unfolding auth_response
  response_packet accepted c = do
    text ← or_throw (dump (auth_response accepted c)) json_failure
    build_packet MsgType.auth_response text

  unfoldable pub close_unless : Bool → Outcome Link → Outcome Link
  unfolding close
  close_unless true r = r
  close_unless false (returned l) = returned (close l)
  close_unless false (escaped e l) = escaped e l
  close_unless false (endless l) = endless l

  unfoldable pub answer_auth : Bool → Link → Outcome Link
  unfolding response_packet close_unless send_packet
  answer_auth accepted l =
      let l' : Link = record l { client = record (l.client) { authenticated = accepted } } in
      close_unless accepted (send_packet (response_packet accepted l'.client) l')

  unfoldable pub handle_auth_request : Bytes → Link → Outcome Link
  unfolding auth_ok answer_auth
  handle_auth_request payload l = elim (auth_ok l.client.auth_secret payload) [
    | none ↦ endless l
    | some accepted ↦ answer_auth accepted l
  ]

  unfoldable pub handle_ip_packet : Bytes → Link → Link
  handle_ip_packet payload l =
      if l.client.authenticated && l.client.has_ip_callback
      then record l { passed = l.passed ++ ((l.client.id, payload) ∷ []) }
      else l

  unfoldable pub handle_packet : PacketHeader → Bytes → Link → Outcome Link
  unfolding handle_auth_request handle_ip_packet send_packet close
  handle_packet hdr payload l = elim hdr.type [
    | MsgType.auth_request ↦ handle_auth_request payload l
    | MsgType.ip_packet ↦ returned (handle_ip_packet payload l)
    | MsgType.keepalive ↦ send_packet build_keepalive l
    | MsgType.ping ↦ send_packet (build_packet MsgType.pong payload) l
    | MsgType.disconnect ↦ returned (close l)
    | _ ↦ returned l
  ]

  -- The rest of `on_read` after the callback: `consume` and `do_read`.
  unfoldable pub read_again : Outcome Link → Outcome Link
  read_again (returned l) = returned (record l { ws = ServerSession.do_read l.ws })
  read_again (escaped e l) = escaped e l
  read_again (endless l) = endless l

  -- `on_read` of the transport, on a message that has been read, with `handle_packet` for callback.
  unfoldable pub on_read : Bytes → Link → Outcome Link
  unfolding read_again handle_packet
  on_read buf l = elim (dispatch_packet l.ws.has_packet_callback buf) [
    | none ↦ read_again (returned l)
    | some (hdr, payload) ↦ read_again (handle_packet hdr payload l)
  ]

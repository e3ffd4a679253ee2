-- ===== src/Client/Handshake.antt =====
-- The two ends of the handshake: the AuthRequest of src/client/client.cpp against the check of
-- src/server/session.cpp, and the answer against the client's reader.
use kirdi.Base.{ℕ, ◌+◌, ◌^◌, ◌≤◌, ◌<◌, ◌≡◌, refl, ap, arith, true, false, Bool, Bytes, Text, codes}
use kirdi.Base.{is_empty, List, [], ◌∷◌, ◌++◌, Option, some, ok, or_throw, json_failure, same_bytes}
use kirdi.Base.{◌∙◌}
use kirdi.Client.{Client, TunConfig, stop, configure_network}
use kirdi.Client.Messages.{auth_request, auth_json, on_auth_response, accept_response}
use kirdi.Client.Messages.{read_tun_config, open_tunnel}
use kirdi.Config.{ClientConfig}
use kirdi.Crypto.{hex_encode}
use kirdi.Crypto.Token.{HmacWorks, build_auth_token_form}
use kirdi.Json.{JsonLib, JsonLaws, value, field}
use kirdi.Session.{ClientSession, auth_ok, auth_response, read_credentials}
use kirdi.Session.Auth.{auth_ok_replay}

-- The device that a client opens for a session.
abbrev pub device_of : ClientSession → TunConfig
device_of s = record {
  name = codes "kirdi0";
  address = s.virtual_ip;
  peer_address = s.tun_info.server_ip;
  netmask = s.tun_info.mask;
  mtu = s.tun_info.mtu;
}

module _ (j : JsonLib) (laws : JsonLaws j) where
  open j use {Json, object, from_text, from_number, from_bool, get_text, get_number, get_bool}

  value-object :
      {A : Type 0} (get : Json → Option A) (key : Text) (fallback : A) (fields : List (Text × Json))
      (x : Json) (v : A)
      → field key fields ≡ some x
      → get x ≡ some v
      → value j get key fallback (object fields) ≡ ok v
  unfolding value
  value-object get key fallback fields x v e g =
      ap (λ o. or_throw o json_failure) (laws.value_or-object get key fallback fields x e ∙ g)

  -- What the server reads from the text of a request.
  read_credentials-auth_request :
      (hmac : Bytes → Bytes → Option Bytes) (fuel server_now now : ℕ) (config : ClientConfig)
      (token : Text) (text : Bytes)
      → now < 2 ^ 64
      → j.dump (auth_json j hmac config token now) ≡ some text
      → read_credentials j hmac fuel server_now text
        ≡ ok (record { user = config.auth_user; token = token; timestamp = now })
  unfolding read_credentials auth_json field same_bytes
  read_credentials-auth_request hmac fuel server_now now config token text w e = rw (
    laws.parse-dump (auth_json j hmac config token now) text e,
    value-object get_text (codes "user") [] fields (from_text config.auth_user) config.auth_user
        refl (laws.get_text-from_text config.auth_user),
    value-object get_text (codes "token") [] fields (from_text token) token refl
        (laws.get_text-from_text token),
    value-object (get_number 64) (codes "timestamp") 0 fields (from_number now) now refl
        (laws.get_number-from_number 64 now w),
  )
    where
      fields : List (Text × Json)
      fields =
          (codes "user", from_text config.auth_user)
          ∷ ((codes "token", from_text token) ∷ ((codes "timestamp", from_number now) ∷ []))

  -- The request that a client builds is accepted by a server with the same secret, whatever the
  -- server's clock shows. The secret is not empty and the client's clock is not within 30 seconds
  -- of an end of uint64_t.
  pub auth_request-accepted :
      (hmac : Bytes → Bytes → Option Bytes) (fuel server_now now : ℕ) (config : ClientConfig)
      (text : Bytes)
      → HmacWorks hmac
      → 61 < fuel
      → is_empty config.auth_token ≡ false
      → 30 ≤ now
      → now + 31 < 2 ^ 64
      → auth_request j hmac config now ≡ ok text
      → auth_ok j hmac fuel server_now config.auth_token text ≡ some true
  unfolding auth_request
  auth_request-accepted hmac fuel server_now now config text works f s lo hi e =
      let (digest, _, built, len, _) =
        build_auth_token_form hmac config.auth_user config.auth_token now works in
      let token : Text = hex_encode digest in
      let written : or_throw (j.dump (auth_json j hmac config token now)) json_failure ≡ ok text =
        ground (arith, built, e) in
      auth_ok_replay j hmac fuel server_now config.auth_token text
        (record { user = config.auth_user; token = token; timestamp = now }) works f s
        (ground (arith, len)) lo hi
        (read_credentials-auth_request hmac fuel server_now now config token text (omega arith)
          (ground (arith, written)))
        built

  -- The answer of a server to an accepted request makes the client open a device with the
  -- address of its session, the server's address, the mask and the MTU, and start its thread;
  -- the answer to a refused one makes it stop. The JSON library behaves as documented, the MTU
  -- is a uint32_t, and the device can be opened.
  pub auth_response-read :
      (hmac : Bytes → Bytes → Option Bytes) (fuel server_now : ℕ) (s : ClientSession)
      (accepted : Bool) (text : Bytes) (c : Client)
      → s.tun_info.mtu < 2 ^ 32
      → j.dump (auth_response j hmac fuel server_now accepted s) ≡ some text
      → on_auth_response j hmac true text c ≡ elim accepted [
        | false ↦ stop c
        | true ↦ record c {
          virtual_ip = s.virtual_ip;
          tun = some true;
          tun_opened = c.tun_opened ++ (device_of s ∷ []);
          commands = configure_network (c.tun_opened ++ (device_of s ∷ [])) c;
          tun_threads = c.tun_threads + 1;
        }
      ]
  unfolding on_auth_response auth_response accept_response read_tun_config open_tunnel field
      same_bytes
  auth_response-read hmac fuel server_now s false text c w e =
      rw (laws.parse-dump (auth_response j hmac fuel server_now false s) text e, on_auth_response)
        (rw
          (
            value-object get_bool (codes "ok") false fields (from_bool false) false refl
                (laws.get_bool-from_bool false),
            on_auth_response,
          )
          refl)
    where
      fields : List (Text × Json)
      fields =
          (codes "ok", from_bool false)
          ∷ ((codes "error", from_text (codes "authentication failed")) ∷ [])
  auth_response-read hmac fuel server_now s true text c w e =
      rw (laws.parse-dump (auth_response j hmac fuel server_now true s) text e, on_auth_response)
        (rw
          (
            value-object get_bool (codes "ok") false fields (from_bool true) true refl
                (laws.get_bool-from_bool true),
            on_auth_response,
          )
          (rw
            (
              value-object get_text (codes "tun_ip") (codes "10.8.0.2") fields
                  (from_text s.virtual_ip) s.virtual_ip refl (laws.get_text-from_text s.virtual_ip),
              accept_response,
            )
            (rw
              (
                value-object get_text (codes "tun_server_ip") (codes "10.8.0.1") fields
                    (from_text s.tun_info.server_ip) s.tun_info.server_ip refl
                    (laws.get_text-from_text s.tun_info.server_ip),
                value-object get_text (codes "tun_mask") (codes "255.255.255.0") fields
                    (from_text s.tun_info.mask) s.tun_info.mask refl
                    (laws.get_text-from_text s.tun_info.mask),
                value-object (get_number 32) (codes "mtu") c.config.mtu fields
                    (from_number s.tun_info.mtu) s.tun_info.mtu refl
                    (laws.get_number-from_number 32 s.tun_info.mtu w),
                accept_response,
              )
              refl)))
    where
      fields : List (Text × Json)
      fields =
          (codes "ok", from_bool true)
          ∷ ((codes "tun_ip", from_text s.virtual_ip)
              ∷ ((codes "tun_server_ip", from_text s.tun_info.server_ip)
                  ∷ ((codes "tun_mask", from_text s.tun_info.mask)
                      ∷ ((codes "mtu", from_number s.tun_info.mtu) ∷ []))))

-- ===== src/Programs/ClientOptions.antt =====
-- The command line of src/client/main.cpp, printed and read.
use kirdi.Base.{ap, ◌∙◌, same_bytes, Bool, Bytes, Option, true, if◌then◌else◌, ℕ, ◌<◌, ◌^◌, ◌≡◌}
use kirdi.Base.{refl, arith, false, Text, codes, is_empty, List, [], ◌∷◌, All, ok, ◌*◌, ◌+◌, ◌-◌}
use kirdi.Base.Decimal.{to_string, read_decimal, read-to_string, IsDigit, to_string-IsDigit}
use kirdi.Base.Decimal.{to_string-is_empty}
use kirdi.Config.{default_client_config, ClientConfig}
use kirdi.Crypto.{is_blank}
use kirdi.Json.{JsonLib}
use kirdi.Logger.{Logger}
use kirdi.Programs.{level_of}
use kirdi.Programs.ClientMain.{runs, main, read_options, finish, asked, parse_port, signed_port}
use kirdi.Programs.ClientMain.{cast_int, digits_from}

-- The options that set these entries of a configuration: the host, the port, and the others.
abbrev others_of : ClientConfig → List Text
others_of c =
    codes "--path"
    ∷ (c.ws_path
        ∷ (codes "--token"
            ∷ (c.auth_token
                ∷ (codes "--user"
                    ∷ (c.auth_user
                        ∷ (codes "--dns"
                            ∷ (c.dns_server
                                ∷ (codes "--log-level"
                                    ∷ (c.log_level
                                        ∷ (if c.auto_route
                                            then []
                                            else (codes "--no-route" ∷ [])))))))))))

pub options_of : ClientConfig → List Text
options_of c =
    codes "--host" ∷ (c.server_host ∷ (codes "--port" ∷ (to_string c.server_port ∷ others_of c)))

digits_from-read_decimal :
    (acc : ℕ) (text : Text) → All IsDigit text → digits_from acc text ≡ read_decimal acc text
unfolding digits_from
digits_from-read_decimal acc [] h = refl
digits_from-read_decimal acc (c ∷ text) (h, hs) =
    ground (arith, digits_from-read_decimal (acc * 10 + (c - 48)) text hs)

parse_port-digits :
    (text : Text)
    → All IsDigit text
    → is_empty text ≡ false
    → read_decimal 0 text < 2 ^ 16
    → parse_port text ≡ ok (read_decimal 0 text)
unfolding parse_port is_blank signed_port cast_int
parse_port-digits [] h some_digit fits = absurd (cc)
parse_port-digits (c ∷ text) (h, hs) some_digit fits =
    ground (arith, digits_from-read_decimal 0 (c ∷ text) (h, hs))

parse_port-to_string : (n : ℕ) → n < 2 ^ 16 → parse_port (to_string n) ≡ ok n
parse_port-to_string n h =
    let same = read-to_string n (omega arith) in
    rw same at (
      parse_port-digits (to_string n) (to_string-IsDigit n) (to_string-is_empty n)
        (omega (arith, same)))

-- What the command line sets.
abbrev pub configured : ClientConfig → ClientConfig
configured c = record default_client_config {
  server_host = c.server_host;
  server_port = c.server_port;
  ws_path = c.ws_path;
  auth_token = c.auth_token;
  auth_user = c.auth_user;
  dns_server = c.dns_server;
  auto_route = c.auto_route;
  log_level = c.log_level;
}

route_option :
    (logger : Logger) (c : ClientConfig) (auto_route : Bool)
    → c.auto_route ≡ true
    → is_empty c.server_host ≡ false
    → is_empty c.auth_token ≡ false
    → read_options logger c (if auto_route then [] else (codes "--no-route" ∷ []))
      ≡ runs
          (record logger { level = level_of c.log_level logger.level })
          (record c { auto_route = auto_route })
unfolding read_options asked finish same_bytes
route_option logger c true on host token =
    simp (host, token)
      (ap
        (λ b.
          runs (record logger { level = level_of c.log_level logger.level })
            (record c { auto_route = b }))
        on)
route_option logger c false on host token = simp (host, token) refl

port_option :
    (logger : Logger) (c : ClientConfig) (value : Text) (port : ℕ) (rest : List Text)
    → parse_port value ≡ ok port
    → read_options logger c (codes "--port" ∷ (value ∷ rest))
      ≡ read_options logger (record c { server_port = port }) rest
unfolding read_options asked same_bytes
port_option logger c value port rest e = rw (e, read_options) refl

-- The client's command line reads back: the options that print a configuration with a host, a token
-- and a port below 2 ^ 16 make the program run a client with these entries, the defaults elsewhere
-- and the log level that the configuration names, whatever the values are, also where they look like
-- options.
pub main-options_of :
    (j : JsonLib) (read_file : Text → Option Bytes) (logger : Logger) (c : ClientConfig)
    → is_empty c.server_host ≡ false
    → is_empty c.auth_token ≡ false
    → c.server_port < 2 ^ 16
    → main j read_file logger (options_of c)
      ≡ runs (record logger { level = level_of c.log_level logger.level }) (configured c)
unfolding main read_options asked options_of same_bytes
main-options_of j read_file logger c host token port =
    port_option logger (record default_client_config { server_host = c.server_host })
      (to_string c.server_port) c.server_port (others_of c)
      (parse_port-to_string c.server_port port)
    ∙ (route_option logger (record (configured c) { auto_route = true }) c.auto_route refl host
        token)

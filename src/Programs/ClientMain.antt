-- ===== src/Programs/ClientMain.antt =====
-- src/client/main.cpp.
use kirdi.Base.{ℕ, ◌+◌, ◌-◌, ◌*◌, ◌%◌, ◌^◌, leb, ltb, ◌==◌, Bool, true, false, ◌&&◌, ◌||◌, not}
use kirdi.Base.{if◌then◌else◌, Bytes, Text, codes, is_empty, List, [], ◌∷◌, Option, Result, ok}
use kirdi.Base.{thrown, number_format, number_range, Exception, same_bytes}
use kirdi.Config.{ClientConfig, default_client_config}
use kirdi.Config.ClientJson.{parse_client_config}
use kirdi.Crypto.{is_blank}
use kirdi.Json.{JsonLib}
use kirdi.Logger.{Logger}
use kirdi.Programs.{level_of}

-- How the reading of the command line ends: an exit code, an exception that nothing catches, or a
-- client that runs with a configuration.
pub data Ended : Type 0 where
  exits : ℕ → Ended
  aborts : Exception → Ended
  runs : Logger → ClientConfig → Ended

-- Decimal digits up to the first other character; none if there is none.
unfoldable pub digits_from : ℕ → Text → ℕ
digits_from acc [] = acc
digits_from acc (c ∷ text) =
    let rest = digits_from (acc * 10 + (c - 48)) text in if leb 48 c && leb c 57 then rest else acc

abbrev pub starts_digit : Text → Bool
starts_digit [] = false
starts_digit (c ∷ text) = leb 48 c && leb c 57

-- `static_cast<uint16_t>` of an int, by its sign and its absolute value, which has to fit.
unfoldable pub cast_int : Bool → Text → Result ℕ
unfolding digits_from
cast_int negative text =
    let n = digits_from 0 text in
    if not (starts_digit text)
    then thrown number_format
    else if negative
    then if leb n (2 ^ 31) then ok ((2 ^ 32 - n) % 2 ^ 16) else thrown number_range
    else if ltb n (2 ^ 31)
    then ok (n % 2 ^ 16)
    else thrown number_range

unfoldable pub signed_port : Text → Result ℕ
unfolding cast_int
signed_port [] = thrown number_format
signed_port (c ∷ text) =
    if c == 45
    then cast_int true text
    else if c == 43
    then cast_int false text
    else cast_int false (c ∷ text)

-- `static_cast<uint16_t>(std::stoi(text))`
unfoldable pub parse_port : Text → Result ℕ
unfolding signed_port
parse_port [] = thrown number_format
parse_port (c ∷ text) = elim (is_blank c) [
  | true ↦ parse_port text
  | false ↦ signed_port (c ∷ text)
]

-- What an argument asks for.
pub data Asked : Type 0 where
  help : Asked
  takes : (Text → ClientConfig → Result ClientConfig) → Asked
  no_route : Asked
  unknown : Asked

abbrev pub set_port : Text → ClientConfig → Result ClientConfig
set_port value c = elim (parse_port value) [
  | thrown e ↦ thrown e
  | ok port ↦ ok (record c { server_port = port })
]

unfoldable pub asked : Text → Asked
unfolding same_bytes
asked arg =
    if same_bytes arg (codes "--help") || same_bytes arg (codes "-h")
    then help
    else if same_bytes arg (codes "--host")
    then takes (λ value c. ok (record c { server_host = value }))
    else if same_bytes arg (codes "--port")
    then takes set_port
    else if same_bytes arg (codes "--path")
    then takes (λ value c. ok (record c { ws_path = value }))
    else if same_bytes arg (codes "--token")
    then takes (λ value c. ok (record c { auth_token = value }))
    else if same_bytes arg (codes "--user")
    then takes (λ value c. ok (record c { auth_user = value }))
    else if same_bytes arg (codes "--dns")
    then takes (λ value c. ok (record c { dns_server = value }))
    else if same_bytes arg (codes "--no-route")
    then no_route
    else if same_bytes arg (codes "--log-level")
    then takes (λ value c. ok (record c { log_level = value }))
    else unknown

-- What follows the loop.
unfoldable pub finish : Logger → ClientConfig → Ended
unfolding level_of
finish logger c =
    if is_empty c.server_host
    then exits 1
    else if is_empty c.auth_token
    then exits 1
    else runs (record logger { level = level_of c.log_level logger.level }) c

-- The loop over the arguments.
unfoldable pub read_options : Logger → ClientConfig → List Text → Ended
unfolding asked finish
read_options logger c [] = finish logger c
read_options logger c (arg ∷ []) = elim (asked arg) [
  | help ↦ exits 0
  | takes set ↦ exits 1
  | no_route ↦ finish logger (record c { auto_route = false })
  | unknown ↦ exits 1
]
read_options logger c (arg ∷ (value ∷ rest)) = elim (asked arg) [
  | help ↦ exits 0
  | takes set ↦ elim (set value c) [ thrown e ↦ aborts e | ok c' ↦ read_options logger c' rest ]
  | no_route ↦ read_options logger (record c { auto_route = false }) (value ∷ rest)
  | unknown ↦ exits 1
]

abbrev pub is_option : Text → Bool
is_option [] = false
is_option (c ∷ text) = c == 45

-- `args`: the arguments behind the program's name. `read_file`: what a file holds.
module _ (j : JsonLib) (read_file : Text → Option Bytes) where
  unfoldable pub main : Logger → List Text → Ended
  unfolding read_options asked
  main logger [] = read_options logger default_client_config []
  main logger (arg ∷ rest) =
      let options = read_options logger default_client_config (arg ∷ rest) in
      elim (asked arg) [
        | help ↦ exits 0
        | _ ↦ if is_option arg then options else elim (parse_client_config j (read_file arg)) [
          | ok config ↦ read_options logger config rest
          | thrown e ↦ options
        ]
      ]

-- ===== src/Network/Firewall.antt =====
-- `ensure_system_config` of src/server/server.cpp: packet forwarding and the packet filter. Its commands
-- are run with `std::system`, as in the parent.
use kirdi.Base.{ℕ, zero, suc, ◌+◌, ◌≤◌, ◌≡◌, arith, ltb, if◌then◌else◌, Bool, true, ◌&&◌, Text}
use kirdi.Base.{codes, is_empty, List, [], ◌∷◌, ◌++◌, Option, some, same_bytes, same_bytes→eq}
use kirdi.Base.{Bool-cases, inl, inr, All, ◌<◌, ap, same_bytes_refl}
use kirdi.Network.{Machine, system, succeeds, read_line}
use kirdi.Tun.{Platform, c_str}
use Prim.Native.Nat.{max}

-- `ip_forward`: the number that /proc/sys/net/ipv4/ip_forward begins with, if it can be read.
unfoldable pub enable_forwarding : Option ℕ → List Text → List Text
unfolding c_str
enable_forwarding (some (suc zero)) done = done
enable_forwarding _ done = system (codes "sysctl -w net.ipv4.ip_forward=1 >/dev/null 2>&1") done

unfoldable pub default_interface : Machine → Text
unfolding read_line
default_interface m =
    let iface = read_line 63 (
      m.popen (codes "ip route show default 2>/dev/null | awk '/default/ {print $5}' | head -1")) in
    if is_empty iface then codes "eth0" else iface

unfoldable pub ensure_rule : Machine → Text → Text → List Text → List Text
unfolding c_str
ensure_rule m check add done =
    if succeeds m check done then system check done else system add (system check done)

-- The command that checks for a rule and the one that adds it, by the chain and the rule.
abbrev pub check_rule : Text → Text → Text → Text
check_rule table chain rule =
    codes "iptables " ++ table ++ codes "-C " ++ chain ++ codes " " ++ rule ++ codes " 2>/dev/null"

abbrev pub add_rule : Text → Text → Text → Text
add_rule table chain rule = codes "iptables " ++ table ++ codes "-A " ++ chain ++ codes " " ++ rule

-- The four rules: table, chain and rule.
pub record Rule : Type 0 where
  pub table : Text
  pub chain : Text
  pub rule : Text

unfoldable pub ensure : Machine → Rule → List Text → List Text
unfolding ensure_rule
ensure m r done =
    ensure_rule m (check_rule r.table r.chain r.rule) (add_rule r.table r.chain r.rule) done

abbrev pub forward_in : Rule
forward_in = record { table = []; chain = codes "FORWARD"; rule = codes "-i kirdi0 -j ACCEPT" }

abbrev pub forward_out : Rule
forward_out = record {
  table = [];
  chain = codes "FORWARD";
  rule = codes "-o kirdi0 -m state --state RELATED,ESTABLISHED -j ACCEPT";
}

abbrev pub masquerade : Text → Rule
masquerade iface = record {
  table = codes "-t nat ";
  chain = codes "POSTROUTING";
  rule = codes "-s 10.8.0.0/24 -o " ++ iface ++ codes " -j MASQUERADE";
}

abbrev pub clamp_mss : Rule
clamp_mss = record {
  table = codes "-t mangle ";
  chain = codes "FORWARD";
  rule = codes "-p tcp --tcp-flags SYN,RST SYN -j TCPMSS --clamp-mss-to-pmtu";
}

-- The calls of `ensure_rule`, in order.
abbrev pub rules : Text → List Rule
rules iface = forward_in ∷ (forward_out ∷ (masquerade iface ∷ (clamp_mss ∷ [])))

unfoldable pub ensure_rules : Machine → List Rule → List Text → List Text
unfolding ensure
ensure_rules m [] done = done
ensure_rules m (r ∷ rest) done = ensure_rules m rest (ensure m r done)

unfoldable pub ensure_system_config : Machine → Option ℕ → List Text → List Text
unfolding enable_forwarding default_interface ensure_rules
ensure_system_config m ip_forward done = elim m.platform [
  | Platform.linux ↦
      ensure_rules m (rules (default_interface m)) (enable_forwarding ip_forward done)
  | Platform.macos ↦ done
  | Platform.windows ↦ done
]

-- How often a rule stands in its chain, after commands.
abbrev pub Counts : Type 0
Counts = List Text → Rule → ℕ

abbrev pub same_rule : Rule → Rule → Bool
same_rule r r' =
    same_bytes r.table r'.table && same_bytes r.chain r'.chain && same_bytes r.rule r'.rule

-- What `iptables` is documented to do about a rule: `-C` succeeds if and only if it is there, and
-- `-A` appends it, if it succeeds, and touches no other rule.
pub record RuleLaws (m : Machine) (count : Counts) (r : Rule) : Type 0 where
  pub found :
      (done : List Text)
      → succeeds m (check_rule r.table r.chain r.rule) done ≡ ltb 0 (count done r)
  pub checked :
      (done : List Text) (r' : Rule)
      → count (system (check_rule r.table r.chain r.rule) done) r' ≡ count done r'
  pub added :
      (done : List Text) (r' : Rule)
      → count (system (add_rule r.table r.chain r.rule) done) r'
        ≡ count done r'
          + (if succeeds m (add_rule r.table r.chain r.rule) done && same_rule r' r then 1 else 0)

same_rule→eq : (r r' : Rule) → same_rule r r' ≡ true → r ≡ r'
same_rule→eq r r' h = λ i. record {
  table = same_bytes→eq r.table r'.table (ground arith) i;
  chain = same_bytes→eq r.chain r'.chain (ground arith) i;
  rule = same_bytes→eq r.rule r'.rule (ground arith) i;
}

same_rule_refl : (r : Rule) → same_rule r r ≡ true
same_rule_refl r =
    ground (arith, same_bytes_refl r.table, same_bytes_refl r.chain, same_bytes_refl r.rule)

abbrev pub Succeeds : Machine → Rule → Type 0
Succeeds m r = (done : List Text) → succeeds m (add_rule r.table r.chain r.rule) done ≡ true

module _ (m : Machine) (count : Counts) where
  ensure-once :
      (r r' : Rule) (done : List Text)
      → RuleLaws m count r
      → count (ensure m r done) r' ≤ max 1 (count done r')
  unfolding ensure ensure_rule
  ensure-once r r' done laws =
      let check = check_rule r.table r.chain r.rule in
      elim (Bool-cases (same_rule r' r)) [
        | inl e ↦
            let same = ap (count done) (same_rule→eq r' r e) in
            ground (arith, laws.found done, laws.checked done r', laws.added (system check done) r')
        | inr n ↦ ground (arith, laws.checked done r', laws.added (system check done) r')
      ]

  ensure-keeps :
      (r r' : Rule) (done : List Text)
      → RuleLaws m count r
      → count done r' ≤ count (ensure m r done) r'
  unfolding ensure ensure_rule
  ensure-keeps r r' done laws =
      let check = check_rule r.table r.chain r.rule in
      ground (arith, laws.checked done r', laws.added (system check done) r')

  ensure-adds :
      (r : Rule) (done : List Text)
      → RuleLaws m count r
      → Succeeds m r
      → 0 < count (ensure m r done) r
  unfolding ensure ensure_rule
  ensure-adds r done laws works =
      let check = check_rule r.table r.chain r.rule in
      ground (
        arith,
        laws.found done,
        laws.checked done r,
        laws.added (system check done) r,
        works (system check done),
        same_rule_refl r,
      )

  ensure_rules-once :
      (rs : List Rule) (r' : Rule) (done : List Text)
      → All (RuleLaws m count) rs
      → count (ensure_rules m rs done) r' ≤ max 1 (count done r')
  unfolding ensure_rules
  ensure_rules-once [] r' done laws = omega arith
  ensure_rules-once (r ∷ rs) r' done (law, laws) =
      omega (arith, ensure-once r r' done law, ensure_rules-once rs r' (ensure m r done) laws)

  ensure_rules-keeps :
      (rs : List Rule) (r' : Rule) (done : List Text)
      → All (RuleLaws m count) rs
      → count done r' ≤ count (ensure_rules m rs done) r'
  unfolding ensure_rules
  ensure_rules-keeps [] r' done laws = omega arith
  ensure_rules-keeps (r ∷ rs) r' done (law, laws) =
      omega (arith, ensure-keeps r r' done law, ensure_rules-keeps rs r' (ensure m r done) laws)

  ensure_rules-adds :
      (rs : List Rule) (done : List Text)
      → All (RuleLaws m count) rs
      → All (Succeeds m) rs
      → All (λ r. 0 < count (ensure_rules m rs done) r) rs
  unfolding ensure_rules
  ensure_rules-adds [] done laws works = tt
  ensure_rules-adds (r ∷ rs) done (law, laws) (work, works) = (
    omega (arith, ensure-adds r done law work, ensure_rules-keeps rs r (ensure m r done) laws),
    ensure_rules-adds rs (ensure m r done) laws works,
  )

  -- On Linux, with a firewall that behaves as iptables does about the four rules, and where the
  -- command that turns on forwarding leaves it alone and those that add the rules succeed: a rule that stood at most once in its chain
  -- before `ensure_system_config` stands there at most once afterwards, and a rule that
  -- stood there more often not more often than before; no rule is taken away; and each of the four
  -- is there.
  pub ensure_system_config-rules :
      (ip_forward : Option ℕ) (done : List Text) (r : Rule)
      → m.platform ≡ Platform.linux
      → ((before : List Text) (r' : Rule)
          → count (enable_forwarding ip_forward before) r' ≡ count before r')
      → All (RuleLaws m count) (rules (default_interface m))
      → All (Succeeds m) (rules (default_interface m))
      → let after = ensure_system_config m ip_forward done in
        (count after r ≤ max 1 (count done r))
        × (count done r ≤ count after r)
        × All (λ r'. 0 < count after r') (rules (default_interface m))
  unfolding ensure_system_config
  ensure_system_config-rules ip_forward done r linux aside laws works =
      let ready = enable_forwarding ip_forward done in
      let four = rules (default_interface m) in
      let same = aside done r in
      rw (linux, ensure_system_config)
        (
          omega (arith, ensure_rules-once four r ready laws),
          omega (arith, ensure_rules-keeps four r ready laws),
          ensure_rules-adds four ready laws works,
        )

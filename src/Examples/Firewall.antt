-- ===== src/Examples/Firewall.antt =====
-- A machine with the packet filter that src/server/server.cpp sets up, for the examples.
use kirdi.Base.{◌==◌, ℕ, ◌+◌, ◌<◌, ◌≤◌, ◌≡◌, refl, ◌∙◌, arith, if◌then◌else◌, ltb, Bool, true}
use kirdi.Base.{false, Text, codes, List, [], ◌∷◌, ◌++◌, Option, none, some, same_bytes, All}
use kirdi.Network.{Machine}
use kirdi.Network.Firewall.{forward_in, forward_out, masquerade, clamp_mss, Rule, Counts, RuleLaws}
use kirdi.Network.Firewall.{Succeeds, same_rule, rules, check_rule, add_rule, ensure_system_config}
use kirdi.Network.Firewall.{enable_forwarding, default_interface, ensure_system_config-rules}
use kirdi.Tun.{Platform, c_str}
use Prim.Native.Nat.{max}

abbrev four : List Rule
four = rules (codes "eth0")

unfoldable rule_added : List Rule → Text → Option Rule
unfolding same_bytes
rule_added [] command = none
rule_added (r ∷ rs) command =
    let later = rule_added rs command in
    if same_bytes command (add_rule r.table r.chain r.rule) then some r else later

unfoldable rule_checked : List Rule → Text → Option Rule
unfolding same_bytes
rule_checked [] command = none
rule_checked (r ∷ rs) command =
    let later = rule_checked rs command in
    if same_bytes command (check_rule r.table r.chain r.rule) then some r else later

abbrev one : Rule → Option Rule → ℕ
one r none = 0
one r (some r') = if same_rule r r' then 1 else 0

unfoldable count : Counts
unfolding rule_added
count [] r = 0
count (command ∷ done) r = one r (rule_added four command) + count done r

count-append :
    (done : List Text) (command : Text) (r : Rule)
    → count (done ++ (command ∷ [])) r ≡ count done r + one r (rule_added four command)
unfolding count
count-append [] command r = omega arith
count-append (first ∷ done) command r = omega (arith, count-append done command r)

-- A check fails if the rule is not there; other commands succeed.
abbrev gateway_box : Machine
gateway_box = record {
  platform = Platform.linux;
  exit_code = λ done command. elim (rule_checked four command) [
    | none ↦ 0
    | some r ↦ if ltb 0 (count done r) then 0 else 1
  ];
  getaddrinfo = λ host. none;
  popen = λ command. none;
  interface_name = λ devices. [];
}

flag : (b : Bool) → ((if b then 0 else 1) == 0) ≡ b
flag true = refl
flag false = refl

plus_zero : (n : ℕ) → n + 0 ≡ n
plus_zero n = omega arith

four-RuleLaws : All (RuleLaws gateway_box count) (rules (default_interface gateway_box))
unfolding rule_checked rule_added count c_str same_bytes default_interface
four-RuleLaws = (
  record {
    found = λ done. flag (ltb 0 (count done forward_in));
    checked = λ done r. count-append done _ r ∙ plus_zero (count done r);
    added = λ done r. count-append done _ r;
  },
  (
    record {
      found = λ done. flag (ltb 0 (count done forward_out));
      checked = λ done r. count-append done _ r ∙ plus_zero (count done r);
      added = λ done r. count-append done _ r;
    },
    (
      record {
        found = λ done. flag (ltb 0 (count done (masquerade (codes "eth0"))));
        checked = λ done r. count-append done _ r ∙ plus_zero (count done r);
        added = λ done r. count-append done _ r;
      },
      (
        record {
          found = λ done. flag (ltb 0 (count done clamp_mss));
          checked = λ done r. count-append done _ r ∙ plus_zero (count done r);
          added = λ done r. count-append done _ r;
        },
        tt,
      ),
    ),
  ),
)

four-Succeeds : All (Succeeds gateway_box) (rules (default_interface gateway_box))
unfolding rule_checked count c_str same_bytes default_interface
four-Succeeds = ((λ done. refl), ((λ done. refl), ((λ done. refl), ((λ done. refl), tt))))

aside : (before : List Text) (r : Rule) → count (enable_forwarding none before) r ≡ count before r
unfolding enable_forwarding rule_added c_str same_bytes
aside before r = count-append before _ r ∙ plus_zero (count before r)

ensure_system_config-rules_example :
    let after = ensure_system_config gateway_box none [] in
    (count after forward_in ≤ max 1 (count [] forward_in))
    × (count [] forward_in ≤ count after forward_in)
    × All (λ r. 0 < count after r) (rules (default_interface gateway_box))
ensure_system_config-rules_example =
    ensure_system_config-rules gateway_box count none [] forward_in refl aside four-RuleLaws
      four-Succeeds

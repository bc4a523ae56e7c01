-- ===== src/Privfs/Firewall.antt =====
-- internal/privfs/firewall.go: firewall grants, the check of a rule, and the commands of a verb.
pub mod Address
pub mod Rules
pub mod Sources
pub mod Words
use maid_cafe.Base.{
  ltb, leb, ◌==◌, if◌then◌else◌, ltb→lt, leb→le, ==_iff, Bool-cases, &&_split, length, get_elem?,
  take, drop, All, filter, length-append, length-drop, drop-append, drop-drop, take-append-drop,
  All-append, Result, ok, err, ◌>>=◌, ◌>>◌, guard, Option-cases, Result-cases, ℕ, zero, suc, ◌+◌,
  ◌-◌, ◌*◌, ◌/◌, ◌%◌, ◌^◌, ◌≤◌, ◌<◌, ◌≡◌, refl, sym, ap, ◌∙◌, ◌≢◌, ◌↔◌, ◌⊎◌, inl, inr, Bool, true,
  false, not, ◌&&◌, ◌||◌, Option, none, some, List, [], ◌∷◌, ◌++◌, map, append-nil, append_assoc,
  arith,
}
use maid_cafe.Base.Text.{
  Bytes, codes, str_eq, mem, trim_space, to_lower, all_bytes, cut, split, join,
}
use maid_cafe.Privfs.Names.{is_digit, is_lower, is_upper, is_alnum, matches}
use maid_cafe.Privfs.Packages.{add_verb}
use maid_cafe.Privfs.Firewall.Address.{
  is_ip, is_cidr, parse_addr, parse_cidr, to_four, block_to_four,
}

pub data FirewallError : Type 0 where
  backend_required backend_unknown no_verbs verb_unknown verb_not_granted : FirewallError
  bad_action bad_port port_range bad_protocol bad_source protocol_required : FirewallError

-- `firewallBackends`
abbrev pub firewall_backends : List Bytes
firewall_backends = codes "ufw" ∷ codes "firewalld" ∷ []

-- `allowedFirewallVerbs`
abbrev pub allowed_firewall_verbs : List Bytes
allowed_firewall_verbs =
    codes "enable" ∷ codes "disable" ∷ codes "allow" ∷ codes "deny" ∷ codes "delete" ∷ []

-- `firewallProtocols`
abbrev pub firewall_protocols : List Bytes
firewall_protocols = codes "tcp" ∷ codes "udp" ∷ codes "any" ∷ []

-- `validFirewallVerb`, `ValidFirewallVerb`
unfoldable pub valid_firewall_verb : Bytes → Bool
valid_firewall_verb verb = mem verb allowed_firewall_verbs

-- `ValidFirewallBackend`
unfoldable pub valid_firewall_backend : Bytes → Bool
valid_firewall_backend backend = mem backend firewall_backends

-- one to five digits
unfoldable pub port_number : Bytes → Bool
port_number = matches is_digit is_digit 4

-- `firewallPortPattern`
unfoldable pub port_pattern : Bytes → Bool
unfolding port_number
port_pattern port = elim (cut b':' port) [
  | none ↦ port_number port
  | some (first, last) ↦ port_number first && port_number last
]

abbrev pub is_service_rest : ℕ → Bool
is_service_rest c = is_alnum c || (c == b'_' || c == b'-')

-- `firewallServicePattern`
unfoldable pub service_pattern : Bytes → Bool
service_pattern = matches (λ c. is_lower c || is_upper c) is_service_rest 31

-- `FirewallGrant`
pub record FirewallGrant : Type 0 where
  pub backend : Bytes
  pub verbs : List Bytes

-- the loop over the declared verbs
unfoldable pub collect_firewall_verbs : List Bytes → List Bytes → Result FirewallError (List Bytes)
collect_firewall_verbs [] allowed = ok allowed
collect_firewall_verbs (raw ∷ rest) allowed =
    let verb = to_lower (trim_space raw) in
    let next = collect_firewall_verbs rest (add_verb verb allowed) in
    if not (valid_firewall_verb verb) then err verb_unknown else next

-- `buildFirewallGrant`
unfoldable pub build_firewall_grant : Bytes → List Bytes → Result FirewallError FirewallGrant
unfolding collect_firewall_verbs
build_firewall_grant raw verbs = do
  let backend = to_lower (trim_space raw)
  guard (str_eq backend []) backend_required
  guard (not (valid_firewall_backend backend)) backend_unknown
  guard (elim verbs [ [] ↦ true | v ∷ vs ↦ false ]) no_verbs
  allowed ← collect_firewall_verbs verbs []
  ok (record { backend = backend; verbs = allowed })

-- `CheckVerb`
unfoldable pub check_firewall_verb : FirewallGrant → Bytes → Result FirewallError (Unit {0})
check_firewall_verb g verb = do
  guard (not (valid_firewall_verb verb)) verb_unknown
  guard (not (mem verb g.verbs)) verb_not_granted
  ok tt

-- `FirewallRule`
pub record FirewallRule : Type 0 where
  pub action : Bytes
  pub port : Bytes
  pub protocol : Bytes
  pub source : Bytes

-- `strconv.Atoi` on at most five digits
unfoldable pub atoi : Bytes → ℕ → ℕ
atoi [] n = n
atoi (c ∷ s) n = atoi s (n * 10 + (c - b'0'))

-- the loop over the bounds of a port
unfoldable pub bounds_fit : List Bytes → Bool
unfolding atoi
bounds_fit [] = true
bounds_fit (bound ∷ bounds) =
    not (ltb (atoi bound 0) 1 || ltb 65535 (atoi bound 0)) && bounds_fit bounds

-- `validFirewallSource`
unfoldable pub valid_firewall_source : Bytes → Bool
valid_firewall_source source = is_ip source || is_cidr source

-- `if s == "" { s = "any" }`
unfoldable pub or_any : Bytes → Bytes
or_any s = if str_eq s [] then codes "any" else s

-- `ParseFirewallRule`
unfoldable pub parse_firewall_rule :
    Bytes → Bytes → Bytes → Bytes → Result FirewallError FirewallRule
unfolding or_any
parse_firewall_rule raw_action raw_port raw_protocol raw_source = do
  let action = to_lower (trim_space raw_action)
  let port = trim_space raw_port
  let protocol = or_any (to_lower (trim_space raw_protocol))
  let source = or_any (trim_space raw_source)
  guard (not (str_eq action (codes "allow")) && not (str_eq action (codes "deny"))) bad_action
  guard (not (port_pattern port) && not (service_pattern port)) bad_port
  guard (port_pattern port && not (bounds_fit (split b':' port))) port_range
  guard (not (mem protocol firewall_protocols)) bad_protocol
  guard (not (str_eq source (codes "any")) && not (valid_firewall_source source)) bad_source
  ok (record { action = action; port = port; protocol = protocol; source = source })

-- `FirewallBinaryFor`
unfoldable pub firewall_binary_for : Bytes → Bytes
firewall_binary_for backend =
    if str_eq backend (codes "firewalld") then codes "firewall-cmd" else codes "ufw"

-- `toggleCommands`
unfoldable pub toggle_commands : Bytes → Bytes → List (List Bytes)
toggle_commands backend verb =
    if str_eq backend (codes "ufw")
    then (if str_eq verb (codes "enable")
        then (codes "ufw" ∷ codes "--force" ∷ codes "enable" ∷ []) ∷ []
        else (codes "ufw" ∷ codes "disable" ∷ []) ∷ [])
    else (codes "systemctl"
        ∷ (if str_eq verb (codes "disable") then codes "stop" else codes "start")
        ∷ codes "firewalld.service"
        ∷ [])
      ∷ []

-- the rule in the words of ufw
unfoldable pub ufw_spec : FirewallRule → List Bytes
ufw_spec rule =
    let narrowed = not (str_eq rule.protocol (codes "any")) in
    if not (str_eq rule.source (codes "any"))
    then codes "from"
      ∷ rule.source
      ∷ codes "to"
      ∷ codes "any"
      ∷ codes "port"
      ∷ rule.port
      ∷ (if narrowed then codes "proto" ∷ rule.protocol ∷ [] else [])
    else (if narrowed then rule.port ++ (codes "/" ++ rule.protocol) else rule.port) ∷ []

-- `ufwRuleCommands`
unfoldable pub ufw_rule_commands : Bytes → FirewallRule → List (List Bytes)
unfolding ufw_spec
ufw_rule_commands verb rule =
    if str_eq verb (codes "allow") || str_eq verb (codes "deny")
    then (codes "ufw" ∷ verb ∷ ufw_spec rule) ∷ []
    else (codes "ufw" ∷ codes "--force" ∷ codes "delete" ∷ rule.action ∷ ufw_spec rule) ∷ []

-- `%q`, for a text of printable characters without quotes and backslashes
abbrev pub quoted : Bytes → Bytes
quoted s = b'"' ∷ (s ++ (b'"' ∷ []))

-- the function `render` of `richRules`
unfoldable pub rich_rule : FirewallRule → Bytes → Bytes → Bytes
rich_rule rule family source =
    let target = if str_eq rule.action (codes "deny") then codes "drop" else codes "accept" in
    let ports =
      codes "port port=" ++ (quoted rule.port ++ (codes " protocol=" ++ quoted rule.protocol)) in
    let head = codes "rule family=" ++ quoted family in
    join (codes " ") (
      if str_eq source []
      then head ∷ ports ∷ target ∷ []
      else head ∷ (codes "source address=" ++ quoted source) ∷ ports ∷ target ∷ [])

-- whether a source is of the IPv6 family
unfoldable pub is_six : Bytes → Bool
is_six source =
    let block : Bool = elim (parse_cidr source) [ none ↦ false | some b ↦ not (block_to_four b) ] in
    elim (parse_addr source) [ none ↦ block | some a ↦ if to_four a then block else true ]

-- `richRules`
unfoldable pub rich_rules : FirewallRule → List Bytes
unfolding rich_rule is_six
rich_rules rule =
    if not (str_eq rule.source (codes "any"))
    then rich_rule rule (if is_six rule.source then codes "ipv6" else codes "ipv4") rule.source ∷ []
    else rich_rule rule (codes "ipv4") [] ∷ rich_rule rule (codes "ipv6") [] ∷ []

-- `reload`
unfoldable pub reload : List (List Bytes) → List (List Bytes)
reload commands = commands ++ ((codes "firewall-cmd" ∷ codes "--reload" ∷ []) ∷ [])

-- the loop over the rich rules
unfoldable pub permanent : Bytes → List Bytes → List (List Bytes)
permanent flag [] = []
permanent flag (one ∷ rest) =
    (codes "firewall-cmd" ∷ codes "--permanent" ∷ (flag ++ one) ∷ []) ∷ permanent flag rest

-- `firewalldRuleCommands`
unfoldable pub firewalld_rule_commands :
    Bytes → FirewallRule → Result FirewallError (List (List Bytes))
unfolding rich_rules reload permanent
firewalld_rule_commands verb rule = do
  guard (str_eq rule.protocol (codes "any")) protocol_required
  let delete = str_eq verb (codes "delete")
  let port_flag = if delete then codes "--remove-port=" else codes "--add-port="
  let rich_flag = if delete then codes "--remove-rich-rule=" else codes "--add-rich-rule="
  if str_eq rule.action (codes "allow") && str_eq rule.source (codes "any")
      then ok (
          reload (
            (codes "firewall-cmd"
              ∷ codes "--permanent"
              ∷ (port_flag ++ (rule.port ++ (codes "/" ++ rule.protocol)))
              ∷ [])
            ∷ []))
      else ok (permanent rich_flag (rich_rules rule) ++ reload [])

-- `ruleCommands`
unfoldable pub rule_commands :
    Bytes → Bytes → FirewallRule → Result FirewallError (List (List Bytes))
unfolding ufw_rule_commands firewalld_rule_commands
rule_commands backend verb rule =
    if str_eq backend (codes "ufw")
    then ok (ufw_rule_commands verb rule)
    else firewalld_rule_commands verb rule

-- `FirewallCommand`
unfoldable pub firewall_command :
    Bytes → Bytes → FirewallRule → Result FirewallError (List (List Bytes))
unfolding toggle_commands rule_commands
firewall_command backend verb rule = do
  guard (not (valid_firewall_backend backend)) backend_unknown
  guard (not (valid_firewall_verb verb)) verb_unknown
  if str_eq verb (codes "enable") || str_eq verb (codes "disable")
      then ok (toggle_commands backend verb)
      else rule_commands backend verb rule

-- `FirewallCommands`
unfoldable pub firewall_commands :
    FirewallGrant → Bytes → FirewallRule → Result FirewallError (List (List Bytes))
unfolding check_firewall_verb firewall_command
firewall_commands g verb rule = do check_firewall_verb g verb; firewall_command g.backend verb rule

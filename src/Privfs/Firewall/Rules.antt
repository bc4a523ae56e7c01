-- ===== src/Privfs/Firewall/Rules.antt =====
-- What the firewall commands do, on every branch.
use maid_cafe.Base.{
  if◌then◌else◌, Bool-cases, ok, ◌≡◌, refl, ap, ◌⊎◌, inl, inr, false, ◌&&◌, List, [], ◌∷◌, ◌++◌,
  map, append_assoc, err, err, ◌≢◌,
}
use maid_cafe.Base.Text.{eq_of_str_eq, str_eq_refl, Bytes, codes, str_eq}
use maid_cafe.Privfs.Firewall.{
  protocol_required, FirewallRule, firewalld_rule_commands, permanent, rich_rules, reload,
}

-- the change that firewalld is told to make: each object is named by an option, the word after
-- `--add-` or `--remove-`
pub changes : Bytes → List Bytes → List (List Bytes)
changes word [] = (codes "firewall-cmd" ∷ codes "--reload" ∷ []) ∷ []
changes word (object ∷ objects) =
    (codes "firewall-cmd" ∷ codes "--permanent" ∷ (word ++ object) ∷ []) ∷ changes word objects

permanent-changes :
    (word option : Bytes) (rules : List Bytes)
    → permanent (word ++ option) rules ++ reload [] ≡ changes word (map (λ r. option ++ r) rules)
unfolding permanent changes reload
permanent-changes word option [] = refl
permanent-changes word option (r ∷ rs) =
    rw (append_assoc word option r, permanent-changes word option rs) refl

-- Allowing or denying a rule adds objects, and deleting it removes the same.
pub Mirrored : FirewallRule → Type 0
Mirrored rule =
    (objects : List Bytes) × ((verb : Bytes)
      → firewalld_rule_commands verb rule
        ≡ ok (
            changes (if str_eq verb (codes "delete") then codes "--remove-" else codes "--add-")
              objects))

-- a rule for one protocol
narrow-mirror : (rule : FirewallRule) → (str_eq rule.protocol (codes "any") ≡ false) → Mirrored rule
unfolding Mirrored firewalld_rule_commands changes
narrow-mirror rule narrow =
    elim (Bool-cases (str_eq rule.action (codes "allow") && str_eq rule.source (codes "any"))) [
      | inl plain ↦ (
        (codes "port=" ++ (rule.port ++ (codes "/" ++ rule.protocol))) ∷ [],
        λ verb. elim (Bool-cases (str_eq verb (codes "delete"))) [
          | inl delete ↦ rw (narrow, plain, delete) refl
          | inr add ↦ rw (narrow, plain, add) refl
        ],
      )
      | inr rich ↦ (
        map (λ r. codes "rich-rule=" ++ r) (rich_rules rule),
        λ verb. elim (Bool-cases (str_eq verb (codes "delete"))) [
          | inl delete ↦
              rw (narrow, rich, delete)
                (ap ok
                  (permanent-changes (codes "--remove-") (codes "rich-rule=") (rich_rules rule)))
          | inr add ↦
              rw (narrow, rich, add)
                (ap ok (permanent-changes (codes "--add-") (codes "rich-rule=") (rich_rules rule)))
        ],
      )
    ]

-- For firewalld, a rule for any protocol is refused, whatever is to be done with it. Every other
-- rule, its port a number, a range or a name, has objects that allowing or denying it adds, and that
-- deleting it removes: the same ones in the same order, with one reload at the end.
pub firewalld_rule_commands-mirror :
    (rule : FirewallRule)
    → ((rule.protocol ≡ codes "any")
        × ((verb : Bytes) → firewalld_rule_commands verb rule ≡ err protocol_required))
      ⊎ ((rule.protocol ≢ codes "any") × Mirrored rule)
unfolding firewalld_rule_commands
firewalld_rule_commands-mirror rule = elim (Bool-cases (str_eq rule.protocol (codes "any"))) [
  | inl both ↦ inl (eq_of_str_eq rule.protocol (codes "any") both, λ verb. rw both refl)
  | inr narrow ↦
      inr ((λ same. cc (rw (same, str_eq_refl (codes "any")) at narrow)), narrow-mirror rule narrow)
]

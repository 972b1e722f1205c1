-- ===== src/Rules.antt =====
-- admin/api_rules.go: `handleRuleAdd`, `handleRuleRemove` and `handleToggleFiltering`, with
-- `reloadRulesFast` of admin/config_blocklist.go, which they call.
-- A request is given decoded; a body that is no JSON is `none`. `net.ParseIP` is `parse_ip`, and
-- `disk_ok` says whether the configuration file can be written.
pub mod Lists
pub mod Reload
pub mod Ends
pub mod Effects
pub mod Tests
use shield_dns.Prelude.{
  ℕ, ◌≡◌, refl, Bool, true, false, not, ◌&&◌, ◌||◌, List, [], ◌∷◌, ◌++◌, keep, Option, none, some,
  if◌then◌else◌,
}
use shield_dns.Text.{Text, lit, text_eq, is_empty, equal_fold, trim_space, has_prefix}
use shield_dns.Table.{Table, lookup, insert, delete, member, add}
use shield_dns.Domain.{normalize_domain, is_valid_domain}
use shield_dns.Adblock.{AdblockRule, parse_adblock_rule}
use shield_dns.Blocklist.{Attribution, wildcard, apply_rules, test_source}
use shield_dns.ListFile.{append_list}
use shield_dns.Server.{ClientRule, Config, Server, is_replica, save_config}

unfoldable pub custom_source : Text
custom_source = lit "Custom Blocklist"

-- The loop of `reloadRulesFastNoLock` that drops the sources it is about to write again.
unfoldable pub without_custom : Attribution → Attribution
without_custom [] = []
without_custom ((d, lists) ∷ m) =
    let rest = without_custom m in
    elim (keep (λ l. not (text_eq l custom_source) && not (text_eq l test_source)) lists) [
      | [] ↦ rest
      | l ∷ ls ↦ (d, l ∷ ls) ∷ rest
    ]

unfoldable pub add_custom : Text → Attribution → Attribution
add_custom d m =
    let named = append_list d custom_source m in
    if has_prefix (lit "*.") d then named else append_list (wildcard d) custom_source named

unfoldable pub add_customs : List Text → Attribution → Attribution
add_customs [] m = m
add_customs (d ∷ ds) m = add_customs ds (add_custom d m)

-- `allowDomains`
unfoldable pub allow_custom : List Text → List Text → List Text
allow_custom [] allow = allow
allow_custom (d ∷ ds) allow =
    allow_custom ds
      (if has_prefix (lit "*.") d then add d allow else add (wildcard d) (add d allow))

-- The attribution map that a reload computes from the present one.
unfoldable pub reloaded : Config → Attribution → Attribution
reloaded c m =
    apply_rules (add_customs c.custom_blocked (without_custom m)) (allow_custom c.custom_allowed [])

unfoldable pub reload_rules_fast : Server → Server
reload_rules_fast s = elim s.attribution [
  | none ↦ record s { updating = true }
  | some m ↦ record s { attribution = some (reloaded s.config m) }
]

pub record RuleRequest : Type 0 where
  pub domain : Text
  pub kind : Text  -- "block", "allow", "mapping"
  pub ip : Text
  pub client_ip : Text

pub record Target : Type 0 where
  pub domain : Text
  pub kind : Text
  pub client_ip : Text

-- What a request is about: filter syntax is read as a rule, anything else is normalised.
unfoldable pub rule_target : RuleRequest → Target
rule_target req =
    let client = trim_space req.client_ip in
    let plain : Target = record {
      domain = normalize_domain (trim_space req.domain);
      kind = req.kind;
      client_ip = client;
    } in
    elim (parse_adblock_rule (trim_space req.domain)) [
      | none ↦ plain
      | some rule ↦ if is_empty rule.domain then plain else record {
        domain = rule.domain;
        kind =
            if rule.is_allowlist && text_eq req.kind (lit "block") then lit "allow" else req.kind;
        client_ip =
            if not (is_empty rule.client_ip) && is_empty client then rule.client_ip else client;
      }
    ]

-- `for _, d := range list { if d != domain { clean = append(clean, d) } }`
unfoldable pub remove_text : Text → List Text → List Text
remove_text d l = keep (λ e. not (text_eq e d)) l

abbrev pub same_client_rule : Text → Text → ClientRule → Bool
same_client_rule d client r = equal_fold r.domain d && text_eq r.client_ip client

unfoldable pub with_client_rule : Target → Config → Config
with_client_rule t c = record c {
  client_rules =
      keep (λ r. not (same_client_rule t.domain t.client_ip r)) c.client_rules
      ++ (record {
        domain = t.domain;
        client_ip = t.client_ip;
        is_allowlist = text_eq t.kind (lit "allow");
      }
          ∷ []);
}

unfoldable pub with_blocked : Text → Config → Config
with_blocked d c = record c {
  custom_allowed = remove_text d c.custom_allowed;
  custom_blocked = add d c.custom_blocked;
}

unfoldable pub with_allowed : Text → Config → Config
with_allowed d c = record c {
  custom_blocked = remove_text d c.custom_blocked;
  custom_allowed = add d c.custom_allowed;
}

unfoldable pub with_mapping : Text → Text → Config → Config
with_mapping d ip c = record c {
  custom_blocked = remove_text d c.custom_blocked;
  custom_allowed = remove_text d c.custom_allowed;
  custom_mappings = insert d ip c.custom_mappings;
}

-- The branches on the rule's type; `none` is a bad request.
unfoldable pub apply_kind : (Text → Bool) → Target → Text → Config → Option Config
apply_kind parse_ip t raw_ip c =
    let ip = trim_space raw_ip in
    if text_eq t.kind (lit "block")
    then some (with_blocked t.domain c)
    else if text_eq t.kind (lit "allow")
    then some (with_allowed t.domain c)
    else if text_eq t.kind (lit "mapping")
    then (if is_empty ip
        then none
        else if parse_ip ip
        then some (with_mapping t.domain ip c)
        else none)
    else none

unfoldable pub new_config : (Text → Bool) → Target → Text → Config → Option Config
new_config parse_ip t raw_ip c =
    if is_empty t.client_ip then apply_kind parse_ip t raw_ip c else some (with_client_rule t c)

-- The end of both handlers: save, and reload if that succeeded. The new configuration stays in memory
-- when it did not.
unfoldable pub save_and_reload : Bool → Server → Server × ℕ
save_and_reload disk_ok s =
    let (s', done) = save_config disk_ok s in
    if done then (reload_rules_fast s', 200) else (s', 500)

unfoldable pub install : Bool → Server → Option Config → Server × ℕ
install disk_ok s none = (s, 400)
install disk_ok s (some c) = save_and_reload disk_ok (record s { config = c })

unfoldable pub add_rule : (Text → Bool) → Bool → RuleRequest → Server → Server × ℕ
add_rule parse_ip disk_ok req s =
    let t = rule_target req in
    if is_empty t.domain
    then (s, 422)
    else if not (is_valid_domain parse_ip t.domain)
    then (s, 400)
    else if is_replica s.config
    then (s, 403)
    else install disk_ok s (new_config parse_ip t req.ip s.config)

-- `is_post` is the test of the method.
unfoldable pub handle_rule_add :
    (Text → Bool) → Bool → Bool → Option RuleRequest → Server → Server × ℕ
handle_rule_add parse_ip disk_ok false body s = (s, 405)
handle_rule_add parse_ip disk_ok true none s = (s, 400)
handle_rule_add parse_ip disk_ok true (some req) s = add_rule parse_ip disk_ok req s

unfoldable pub without_rules : Target → Config → Config
without_rules t c = record c {
  client_rules =
      if is_empty t.client_ip
      then keep (λ r. not (equal_fold r.domain t.domain)) c.client_rules
      else keep (λ r. not (same_client_rule t.domain t.client_ip r)) c.client_rules;
  custom_blocked = remove_text t.domain c.custom_blocked;
  custom_allowed = remove_text t.domain c.custom_allowed;
  custom_mappings = delete t.domain c.custom_mappings;
}

unfoldable pub remove_rule : Bool → RuleRequest → Server → Server × ℕ
remove_rule disk_ok req s =
    let t = rule_target req in
    if is_empty t.domain
    then (s, 422)
    else if is_replica s.config
    then (s, 403)
    else save_and_reload disk_ok (record s { config = without_rules t s.config })

unfoldable pub handle_rule_remove : Bool → Bool → Option RuleRequest → Server → Server × ℕ
handle_rule_remove disk_ok false body s = (s, 405)
handle_rule_remove disk_ok true none s = (s, 400)
handle_rule_remove disk_ok true (some req) s = remove_rule disk_ok req s

-- `updateCorefile`, which follows, writes a file only.
unfoldable pub handle_toggle_filtering : Bool → Bool → Option Bool → Server → Server × ℕ
handle_toggle_filtering disk_ok false body s = (s, 405)
handle_toggle_filtering disk_ok true none s = (s, 400)
handle_toggle_filtering disk_ok true (some enabled) s =
    if is_replica s.config
    then (s, 403)
    else let (s', done) =
        save_config disk_ok
          (record s { config = record s.config { filtering_enabled = enabled } }) in
      (s', if done then 200 else 500)

-- ===== src/Rules/Ends.antt =====
-- How a request to the rule handlers ends, and what a replica lets through.
use shield_dns.Prelude.{
  ℕ, ◌≡◌, refl, Bool, true, false, not, ◌||◌, arith, Option, none, some, Bool-cases, inl, inr, ◌≢◌,
}
use shield_dns.Text.{Text, is_empty}
use shield_dns.Domain.{is_valid_domain}
use shield_dns.Server.{Config, Server, is_replica, is_unsafe, save_config}
use shield_dns.Rules.{
  RuleRequest, rule_target, new_config, save_and_reload, reload_rules_fast, install, add_rule,
  handle_rule_add, remove_rule, handle_rule_remove, handle_toggle_filtering,
}

-- The three ways a request ends: refused with nothing changed, done and reloaded, or failed at the
-- save with the attribution map and the disk as they were.
pub data Ends (s : Server) (r : Server × ℕ) : Type 0 where
  refused : r.1 ≢ 200 → r.0 ≡ s → Ends s r
  done : r.1 ≡ 200 → r.0.saved ≡ some r.0.config → Ends s r
  failed : r.1 ≡ 500 → r.0.saved ≡ s.saved → r.0.attribution ≡ s.attribution → Ends s r

save_and_reload-Ends :
    (disk_ok : Bool) (s s' : Server)
    → s'.saved ≡ s.saved
    → s'.attribution ≡ s.attribution
    → Ends s (save_and_reload disk_ok s')
unfolding save_and_reload save_config
save_and_reload-Ends disk_ok s s' d a = elim (Bool-cases (is_unsafe s'.config || not disk_ok)) [
  | inl bad ↦ rw bad (failed refl d a)
  | inr good ↦ rw good (done refl (unfold reload_rules_fast in ground arith))
]

install-Ends : (disk_ok : Bool) (s : Server) (o : Option Config) → Ends s (install disk_ok s o)
unfolding install
install-Ends disk_ok s none = refused (ground arith) refl
install-Ends disk_ok s (some c) = save_and_reload-Ends disk_ok s (record s { config = c }) refl refl

add_rule-Ends :
    (parse_ip : Text → Bool) (disk_ok : Bool) (req : RuleRequest) (s : Server)
    → Ends s (add_rule parse_ip disk_ok req s)
unfolding add_rule
add_rule-Ends parse_ip disk_ok req s =
    let t = rule_target req in
    elim (Bool-cases (is_empty t.domain)) [
      | inl e ↦ rw e (refused (ground arith) refl)
      | inr full ↦ elim (Bool-cases (is_valid_domain parse_ip t.domain)) [
        | inr bad ↦ rw (full, bad) (refused (ground arith) refl)
        | inl valid ↦ elim (Bool-cases (is_replica s.config)) [
          | inl replica ↦ rw (full, valid, replica) (refused (ground arith) refl)
          | inr primary ↦
              rw (full, valid, primary)
                (install-Ends disk_ok s (new_config parse_ip t req.ip s.config))
        ]
      ]
    ]

-- Adding a rule either is refused and changes nothing, or answers 200 with the configuration on disk
-- equal to the one in memory, or answers 500 with the disk and the attribution map as they were.
pub handle_rule_add-Ends :
    (parse_ip : Text → Bool) (disk_ok is_post : Bool) (body : Option RuleRequest) (s : Server)
    → Ends s (handle_rule_add parse_ip disk_ok is_post body s)
unfolding handle_rule_add
handle_rule_add-Ends parse_ip disk_ok false body s = refused (ground arith) refl
handle_rule_add-Ends parse_ip disk_ok true none s = refused (ground arith) refl
handle_rule_add-Ends parse_ip disk_ok true (some req) s = add_rule-Ends parse_ip disk_ok req s

-- On a replica no request to these handlers changes the state.
pub replica_unchanged :
    (parse_ip : Text → Bool) (disk_ok is_post : Bool) (add_body remove_body : Option RuleRequest)
    (toggle_body : Option Bool) (s : Server)
    → is_replica s.config ≡ true
    → ((handle_rule_add parse_ip disk_ok is_post add_body s).0 ≡ s)
      × ((handle_rule_remove disk_ok is_post remove_body s).0 ≡ s)
      × ((handle_toggle_filtering disk_ok is_post toggle_body s).0 ≡ s)
replica_unchanged parse_ip disk_ok is_post add_body remove_body toggle_body s h = (
  unchanged_by_add is_post add_body,
  unchanged_by_remove is_post remove_body,
  unchanged_by_toggle is_post toggle_body,
)
  where
    add_step : (req : RuleRequest) → (add_rule parse_ip disk_ok req s).0 ≡ s
    add_step req =
        unfold add_rule in
        elim (Bool-cases (is_empty (rule_target req).domain)) [
          | inl e ↦ rw e
          | inr full ↦ elim (Bool-cases (is_valid_domain parse_ip (rule_target req).domain)) [
            | inl valid ↦ rw (full, valid, h)
            | inr bad ↦ rw (full, bad)
          ]
        ]

    remove_step : (req : RuleRequest) → (remove_rule disk_ok req s).0 ≡ s
    remove_step req =
        unfold remove_rule in
        elim (Bool-cases (is_empty (rule_target req).domain)) [
          | inl e ↦ rw e
          | inr full ↦ rw (full, h)
        ]

    unchanged_by_add :
        (is_post : Bool) (body : Option RuleRequest)
        → (handle_rule_add parse_ip disk_ok is_post body s).0 ≡ s
    unchanged_by_add false body = unfold handle_rule_add in refl
    unchanged_by_add true none = unfold handle_rule_add in refl
    unchanged_by_add true (some req) = unfold handle_rule_add in add_step req

    unchanged_by_remove :
        (is_post : Bool) (body : Option RuleRequest)
        → (handle_rule_remove disk_ok is_post body s).0 ≡ s
    unchanged_by_remove false body = unfold handle_rule_remove in refl
    unchanged_by_remove true none = unfold handle_rule_remove in refl
    unchanged_by_remove true (some req) = unfold handle_rule_remove in remove_step req

    unchanged_by_toggle :
        (is_post : Bool) (body : Option Bool)
        → (handle_toggle_filtering disk_ok is_post body s).0 ≡ s
    unchanged_by_toggle false body = unfold handle_toggle_filtering in refl
    unchanged_by_toggle true none = unfold handle_toggle_filtering in refl
    unchanged_by_toggle true (some b) = unfold handle_toggle_filtering in rw h

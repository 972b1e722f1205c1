-- ===== src/Routing/Undone.antt =====
-- A routing rule that is posted and deleted again: admin/api_routing.go.
use shield_dns.Prelude.{
  ℕ, ◌≡◌, inl, inr, refl, ap, ◌∙◌, arith, Bool, true, false, not, List, [], ◌∷◌, keep, any, some,
  Bool-cases,
}
use shield_dns.Text.{Text, text_eq, is_empty}
use shield_dns.Text.Equality.{text_eq_refl}
use shield_dns.Server.{served, RoutingRule, Config, Server, is_replica, save_config-config}
use shield_dns.Routing.{
  Net, RoutingRequest, checked_rule, put_rule, with_gateway, store_rule, handle_routing_post,
  is_meant, handle_routing_delete,
}
use shield_dns.Routing.Kept.{has_id, with_gateway-rules}

keep-put_rule :
    (new : RoutingRule) (rs : List RoutingRule)
    → is_empty new.id ≡ false
    → has_id new.id rs ≡ false
    → keep (λ r. not (is_meant new.id [] r)) (put_rule new rs) ≡ rs
unfolding put_rule is_meant
keep-put_rule new [] given fresh = rw (given, text_eq_refl new.id) refl
keep-put_rule new (r ∷ rs) given fresh =
    let other : text_eq r.id new.id ≡ false = ground (arith, fresh) in
    let rest = keep-put_rule new rs given (ground (arith, fresh)) in
    rw (other, given, other) (ap (λ l. r ∷ l) rest)

any-put_rule :
    (new : RoutingRule) (rs : List RoutingRule)
    → is_empty new.id ≡ false
    → any (is_meant new.id []) (put_rule new rs) ≡ true
unfolding put_rule is_meant
any-put_rule new [] given = rw (given, text_eq_refl new.id) refl
any-put_rule new (r ∷ rs) given = elim (Bool-cases (text_eq r.id new.id)) [
  | inl same ↦ rw (same, given, text_eq_refl new.id) refl
  | inr other ↦ rw (other, given, other) (any-put_rule new rs given)
]

with_gateway-role :
    (disk_ok : Bool) (gateway : Text) (s : Server)
    → (with_gateway disk_ok gateway s).config.cluster_role ≡ s.config.cluster_role
unfolding with_gateway
with_gateway-role disk_ok gateway s = elim (Bool-cases (is_empty gateway)) [
  | inl e ↦ rw e refl
  | inr e ↦ rw (e, save_config-config) refl
]

store_rule-config :
    (disk_ok : Bool) (rule : RoutingRule) (s : Server)
    → (store_rule disk_ok (served rule) s).0.config
      ≡ record s.config { routing_rules = put_rule rule s.config.routing_rules }
unfolding store_rule
store_rule-config disk_ok rule s = save_config-config disk_ok _

delete-rules :
    (disk_ok : Bool) (id : Text) (s : Server)
    → is_replica s.config ≡ false
    → is_empty id ≡ false
    → any (is_meant id []) s.config.routing_rules ≡ true
    → (handle_routing_delete disk_ok id [] s).0.config.routing_rules
      ≡ keep (λ r. not (is_meant id [] r)) s.config.routing_rules
unfolding handle_routing_delete
delete-rules disk_ok id s own given found = rw (own, given, found, save_config-config) refl

-- A rule that is posted under a new ID and then deleted by it leaves the rules as they were, whether or not
-- either request could save them. The server is no replica, and the rule passes the checks.
pub posted_deleted :
    (net : Net) (now : ℕ) (fresh : Text) (disk_ok disk_ok' : Bool) (req : RoutingRequest)
    (s : Server) (rule : RoutingRule)
    → is_replica s.config ≡ false
    → checked_rule net now fresh req ≡ served rule
    → is_empty rule.id ≡ false
    → has_id rule.id s.config.routing_rules ≡ false
    → (handle_routing_delete disk_ok' rule.id []
        (handle_routing_post net now fresh disk_ok (some req) s).0).0.config.routing_rules
      ≡ s.config.routing_rules
posted_deleted net now fresh disk_ok disk_ok' req s rule own good given new =
    let s' = with_gateway disk_ok req.wireguard_gateway s in
    let t = (handle_routing_post net now fresh disk_ok (some req) s).0 in
    let posted : t.config
        ≡ record s'.config { routing_rules = put_rule rule s'.config.routing_rules } =
      unfold handle_routing_post in rw (own, good) (store_rule-config disk_ok rule s') in
    let rules : t.config.routing_rules ≡ put_rule rule s.config.routing_rules =
      ap (λ (c : Config). c.routing_rules) posted
      ∙ ap (put_rule rule) (with_gateway-rules disk_ok req.wireguard_gateway s) in
    let role : t.config.cluster_role ≡ s.config.cluster_role =
      ap (λ (c : Config). c.cluster_role) posted
      ∙ with_gateway-role disk_ok req.wireguard_gateway s in
    let still : is_replica t.config ≡ false =
      unfold is_replica in rw role (unfold is_replica in own) in
    delete-rules disk_ok' rule.id t still given
      (rw rules (any-put_rule rule s.config.routing_rules given))
    ∙ ap (keep (λ r. not (is_meant rule.id [] r))) rules
    ∙ keep-put_rule rule s.config.routing_rules given new

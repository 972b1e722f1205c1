-- ===== src/Routing/Kept.antt =====
-- What holds of the routing rules under any sequence of requests to admin/api_routing.go.
use shield_dns.Prelude.{
  ℕ, ◌≡◌, ◌⊎◌, inl, inr, refl, sym, arith, Bool, true, false, not, ◌&&◌, ◌||◌, List, [], ◌∷◌, keep,
  any, All, Option, none, some, Bool-cases,
}
use shield_dns.Text.{Text, lit, text_eq, is_empty, trim_space}
use shield_dns.Text.Equality.{text_eq_iff, text_eq_sound}
use shield_dns.Domain.{is_valid_domain, normalize_domain}
use shield_dns.Server.{
  Reply, refused, served, Reply-cases, RoutingRule, Server, is_replica, save_config-config,
}
use shield_dns.Routing.{
  Net, RoutingRequest, match_type, target_kind, is_target, is_address, checked_match, lacks_host,
  made_rule, rule_at, checked_rule, put_rule, with_gateway, store_rule, handle_routing_post,
  is_meant, handle_routing_delete,
}

-- A rule as the checks let it through.
pub record IsRule (net : Net) (r : RoutingRule) : Type 0 where
  pub target : is_target r.target ≡ true
  pub host : text_eq r.target (lit "host") ≡ true → is_empty r.host_target ≡ false
  pub matches :
      ((text_eq r.match_type (lit "domain") ≡ true)
        × (is_valid_domain net.parse_ip r.match_text ≡ true))
      ⊎ ((text_eq r.match_type (lit "client_ip") ≡ true) × (is_address net r.match_text ≡ true))

-- No two rules have the same ID.
abbrev pub has_id : Text → List RoutingRule → Bool
has_id id rs = any (λ (r : RoutingRule). text_eq r.id id) rs

abbrev pub IsNamed : List RoutingRule → Type 0
IsNamed [] = Unit
IsNamed (r ∷ rs) = (has_id r.id rs ≡ false) × IsNamed rs

-- The rules are as the checks let them through, and no two have the same ID.
pub record IsRuleSet (net : Net) (rs : List RoutingRule) : Type 0 where
  pub valid : All (IsRule net) rs
  pub named : IsNamed rs

abbrev IsMatch : Net → Text → Text → Type 0
IsMatch net t m =
    ((text_eq t (lit "domain") ≡ true) × (is_valid_domain net.parse_ip m ≡ true))
    ⊎ ((text_eq t (lit "client_ip") ≡ true) × (is_address net m ≡ true))

checked_match-IsMatch :
    (net : Net) (req : RoutingRequest) (m : Text)
    → checked_match net req ≡ served m
    → IsMatch net (match_type net req) m
unfolding checked_match
checked_match-IsMatch net req m ok =
    let t = match_type net req in
    let s = trim_space req.match_text in
    let d = normalize_domain s in
    elim (Bool-cases (is_empty s)) [
      | inl empty ↦ cc (rw empty at ok)
      | inr full ↦ elim (Bool-cases (text_eq t (lit "domain"))) [
        | inl domain ↦ elim (Bool-cases (is_empty d || not (is_valid_domain net.parse_ip d))) [
          | inl bad ↦ cc (rw (full, domain, bad) at ok)
          | inr good ↦
              let same : d ≡ m = cc (rw (full, domain, good) at ok) in
              inl (domain, rw (sym same) (ground (arith, good)))
        ]
        | inr other ↦ elim (Bool-cases (text_eq t (lit "client_ip"))) [
          | inr unknown ↦ cc (rw (full, other, unknown) at ok)
          | inl client ↦ elim (Bool-cases (is_address net s)) [
            | inr bad ↦ cc (rw (full, other, client, bad) at ok)
            | inl good ↦
                let same : s ≡ m = cc (rw (full, other, client, good) at ok) in
                inr (client, rw (sym same) good)
          ]
        ]
      ]
    ]

made_rule-IsRule :
    (net : Net) (now : ℕ) (fresh m : Text) (req : RoutingRequest)
    → (not (is_target (target_kind req)) || lacks_host req) ≡ false
    → IsMatch net (match_type net req) m
    → IsRule net (made_rule net now fresh m req)
unfolding made_rule lacks_host
made_rule-IsRule net now fresh m req fine matches = record {
  target = ground (arith, fine);
  host = λ h. ground (arith, fine, h);
  matches = matches;
}

rule_at-IsRule :
    (net : Net) (now : ℕ) (fresh : Text) (req : RoutingRequest) (o : Reply Text) (r : RoutingRule)
    → ((m : Text) → o ≡ served m → IsMatch net (match_type net req) m)
    → rule_at net now fresh req o ≡ served r
    → IsRule net r
unfolding rule_at
rule_at-IsRule net now fresh req (refused code) r matches ok = cc ok
rule_at-IsRule net now fresh req (served m) r matches ok =
    elim (Bool-cases (not (is_target (target_kind req)) || lacks_host req)) [
      | inl bad ↦ cc (rw bad at ok)
      | inr fine ↦
          let same : made_rule net now fresh m req ≡ r = cc (rw fine at ok) in
          rw (sym same) (made_rule-IsRule net now fresh m req fine (matches m refl))
    ]

checked_rule-IsRule :
    (net : Net) (now : ℕ) (fresh : Text) (req : RoutingRequest) (r : RoutingRule)
    → checked_rule net now fresh req ≡ served r
    → IsRule net r
unfolding checked_rule
checked_rule-IsRule net now fresh req r ok =
    rule_at-IsRule net now fresh req (checked_match net req) r (checked_match-IsMatch net req) ok

has_id-put_rule :
    (id : Text) (new : RoutingRule) (rs : List RoutingRule)
    → text_eq new.id id ≡ false
    → has_id id rs ≡ false
    → has_id id (put_rule new rs) ≡ false
unfolding put_rule
has_id-put_rule id new [] other gone = rw other refl
has_id-put_rule id new (r ∷ rs) other gone = ground (arith, has_id-put_rule id new rs other)

put_rule-IsNamed :
    (new : RoutingRule) (rs : List RoutingRule) → IsNamed rs → IsNamed (put_rule new rs)
unfolding put_rule
put_rule-IsNamed new [] named = (refl, tt)
put_rule-IsNamed new (r ∷ rs) named = elim (Bool-cases (text_eq r.id new.id)) [
  | inl same ↦ rw same ((rw (text_eq_sound r.id new.id same) at named.0), named.1)
  | inr other ↦
      let other' : text_eq new.id r.id ≡ false =
        ground (arith, other, text_eq_iff r.id new.id, text_eq_iff new.id r.id) in
      rw other (has_id-put_rule r.id new rs other' named.0, put_rule-IsNamed new rs named.1)
]

put_rule-IsRule :
    (net : Net) (new : RoutingRule) (rs : List RoutingRule)
    → IsRule net new
    → All (IsRule net) rs
    → All (IsRule net) (put_rule new rs)
unfolding put_rule
put_rule-IsRule net new [] good valid = (good, tt)
put_rule-IsRule net new (r ∷ rs) good valid = elim (Bool-cases (text_eq r.id new.id)) [
  | inl same ↦
      rw same (record { target = good.target; host = good.host; matches = good.matches }, valid.1)
  | inr other ↦ rw other (valid.0, put_rule-IsRule net new rs good valid.1)
]

has_id-keep :
    (p : RoutingRule → Bool) (id : Text) (rs : List RoutingRule)
    → has_id id rs ≡ false
    → has_id id (keep p rs) ≡ false
has_id-keep p id [] gone = refl
has_id-keep p id (r ∷ rs) gone = ground (arith, has_id-keep p id rs)

keep-IsRuleSet :
    (net : Net) (p : RoutingRule → Bool) (rs : List RoutingRule)
    → IsRuleSet net rs
    → IsRuleSet net (keep p rs)
keep-IsRuleSet net p [] set = set
keep-IsRuleSet net p (r ∷ rs) set =
    let tail = keep-IsRuleSet net p rs (record { valid = set.valid.1; named = set.named.1 }) in
    elim (Bool-cases (p r)) [
      | inl e ↦ rw e (record {
        valid = (set.valid.0, tail.valid);
        named = (has_id-keep p r.id rs set.named.0, tail.named);
      })
      | inr e ↦ rw e tail
    ]

-- The states that the requests to the routing rules lead to.
pub data Reaches (net : Net) (s : Server) : Server → Type 0 where
  start : Reaches net s s
  posts :
      {t : Server} (now : ℕ) (fresh : Text) (disk_ok : Bool) (req : Option RoutingRequest)
      → Reaches net s t
      → Reaches net s (handle_routing_post net now fresh disk_ok req t).0
  deletes :
      {t : Server} (disk_ok : Bool) (id m : Text)
      → Reaches net s t
      → Reaches net s (handle_routing_delete disk_ok id m t).0

pub with_gateway-rules :
    (disk_ok : Bool) (gateway : Text) (s : Server)
    → (with_gateway disk_ok gateway s).config.routing_rules ≡ s.config.routing_rules
unfolding with_gateway
with_gateway-rules disk_ok gateway s = elim (Bool-cases (is_empty gateway)) [
  | inl e ↦ rw e refl
  | inr e ↦ rw (e, save_config-config) refl
]

store_rule-IsRuleSet :
    (net : Net) (disk_ok : Bool) (rule : RoutingRule) (s : Server)
    → IsRule net rule
    → IsRuleSet net s.config.routing_rules
    → IsRuleSet net (store_rule disk_ok (served rule) s).0.config.routing_rules
unfolding store_rule
store_rule-IsRuleSet net disk_ok rule s good set = rw save_config-config (record {
  valid = put_rule-IsRule net rule s.config.routing_rules good set.valid;
  named = put_rule-IsNamed rule s.config.routing_rules set.named;
})

post-IsRuleSet :
    (net : Net) (now : ℕ) (fresh : Text) (disk_ok : Bool) (req : Option RoutingRequest) (s : Server)
    → IsRuleSet net s.config.routing_rules
    → IsRuleSet net (handle_routing_post net now fresh disk_ok req s).0.config.routing_rules
unfolding handle_routing_post
post-IsRuleSet net now fresh disk_ok none s set = elim (Bool-cases (is_replica s.config)) [
  | inl e ↦ rw e set
  | inr e ↦ rw e set
]
post-IsRuleSet net now fresh disk_ok (some req) s set =
    let s' = with_gateway disk_ok req.wireguard_gateway s in
    let set' : IsRuleSet net s'.config.routing_rules = rw with_gateway-rules set in
    elim (Bool-cases (is_replica s.config)) [
      | inl e ↦ rw e set
      | inr e ↦ elim (Reply-cases (checked_rule net now fresh req)) [
        | inl (code, bad) ↦ rw (e, bad) (unfold store_rule in set')
        | inr (rule, good) ↦
            rw (e, good)
              (store_rule-IsRuleSet net disk_ok rule s'
                (checked_rule-IsRule net now fresh req rule good) set')
      ]
    ]

delete-IsRuleSet :
    (net : Net) (disk_ok : Bool) (id m : Text) (s : Server)
    → IsRuleSet net s.config.routing_rules
    → IsRuleSet net (handle_routing_delete disk_ok id m s).0.config.routing_rules
unfolding handle_routing_delete
delete-IsRuleSet net disk_ok id m s set = elim (Bool-cases (is_replica s.config)) [
  | inl e ↦ rw e set
  | inr e ↦ elim (Bool-cases (is_empty id && is_empty m)) [
    | inl bare ↦ rw (e, bare) set
    | inr given ↦ elim (Bool-cases (any (is_meant id m) s.config.routing_rules)) [
      | inr missing ↦ rw (e, given, missing) set
      | inl found ↦
          rw (e, given, found, save_config-config)
            (keep-IsRuleSet net (λ r. not (is_meant id m r)) s.config.routing_rules set)
    ]
  ]
]

-- Whatever sequence of POST and DELETE requests to `handleRoutingRules` the routing rules go through, failed
-- saves among them, each rule that is stored has passed every check, and no two have the same ID, if this was
-- so at the start. The rules that the assistant's tools, a primary or the file bring are not among them.
pub reachable-IsRuleSet :
    (net : Net) (s t : Server)
    → Reaches net s t
    → IsRuleSet net s.config.routing_rules
    → IsRuleSet net t.config.routing_rules
reachable-IsRuleSet net s _ start set = set
reachable-IsRuleSet net s _ (posts {t} now fresh disk_ok req path) set =
    post-IsRuleSet net now fresh disk_ok req t (reachable-IsRuleSet net s t path set)
reachable-IsRuleSet net s _ (deletes {t} disk_ok id m path) set =
    delete-IsRuleSet net disk_ok id m t (reachable-IsRuleSet net s t path set)

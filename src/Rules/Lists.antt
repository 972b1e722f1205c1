-- ===== src/Rules/Lists.antt =====
-- The custom lists keep apart: no domain is both blocked and allowed, and none is listed twice.
use shield_dns.Prelude.{
  ◌≡◌, refl, subst, Bool, true, false, not, ◌&&◌, List, [], ◌∷◌, ◌++◌, any-append, arith, Option,
  none, some, Bool-cases, inl, inr, some_injective,
}
use shield_dns.Text.{Text, lit, text_eq, is_empty, trim_space}
use shield_dns.Text.Equality.{text_eq_iff}
use shield_dns.Table.{member, add, member-add}
use shield_dns.Domain.{is_valid_domain}
use shield_dns.Server.{Config, Server, is_replica, save_config}
use shield_dns.Rules.{
  remove_text, with_blocked, with_allowed, with_mapping, with_client_rule, without_rules, Target,
  RuleRequest, apply_kind, new_config, save_and_reload, reload_rules_fast, install, add_rule,
  handle_rule_add, remove_rule, handle_rule_remove, rule_target,
}

pub member-remove_text :
    (d k : Text) (l : List Text) → member k (remove_text d l) ≡ (not (text_eq d k) && member k l)
unfolding remove_text member
member-remove_text d k [] = ground arith
member-remove_text d k (x ∷ l) =
    ground (arith, member-remove_text d k l, text_eq_iff x d, text_eq_iff x k, text_eq_iff d k)

abbrev pub IsDistinct : List Text → Type 0
IsDistinct [] = Unit {0}
IsDistinct (x ∷ l) = (member x l ≡ false) × IsDistinct l

pub remove_text-IsDistinct :
    (d : Text) (l : List Text) → IsDistinct l → IsDistinct (remove_text d l)
unfolding remove_text
remove_text-IsDistinct d [] h = h
remove_text-IsDistinct d (x ∷ l) h = elim (Bool-cases (text_eq x d)) [
  | inl e ↦ rw e (remove_text-IsDistinct d l h.1)
  | inr e ↦
      rw e ((rw (member-remove_text d x l, h.0) (ground arith)), remove_text-IsDistinct d l h.1)
]

pub append-IsDistinct :
    (d : Text) (l : List Text) → member d l ≡ false → IsDistinct l → IsDistinct (l ++ (d ∷ []))
append-IsDistinct d [] new h = (unfold member in refl, tt)
append-IsDistinct d (x ∷ l) new h = (
  unfold member in rw any-append (ground (arith, h.0, text_eq_iff x d, text_eq_iff d x)),
  append-IsDistinct d l (unfold member in ground (arith, new)) h.1,
)

pub add-IsDistinct : (d : Text) (l : List Text) → IsDistinct l → IsDistinct (add d l)
unfolding add
add-IsDistinct d l h = elim (Bool-cases (member d l)) [
  | inl e ↦ rw e h
  | inr e ↦ rw e (append-IsDistinct d l e h)
]

pub record IsApart (c : Config) : Type 0 where
  pub blocked_once : IsDistinct c.custom_blocked
  pub allowed_once : IsDistinct c.custom_allowed
  pub apart : (d : Text) → member d c.custom_blocked ≡ true → member d c.custom_allowed ≡ false

with_blocked-IsApart : (d : Text) (c : Config) → IsApart c → IsApart (with_blocked d c)
unfolding with_blocked
with_blocked-IsApart d c h = record {
  blocked_once = add-IsDistinct d c.custom_blocked h.blocked_once;
  allowed_once = remove_text-IsDistinct d c.custom_allowed h.allowed_once;
  apart = λ k.
      rw (member-add d k c.custom_blocked, member-remove_text d k c.custom_allowed)
        (λ e. ground (arith, h.apart k));
}

with_allowed-IsApart : (d : Text) (c : Config) → IsApart c → IsApart (with_allowed d c)
unfolding with_allowed
with_allowed-IsApart d c h = record {
  blocked_once = remove_text-IsDistinct d c.custom_blocked h.blocked_once;
  allowed_once = add-IsDistinct d c.custom_allowed h.allowed_once;
  apart = λ k.
      rw (member-add d k c.custom_allowed, member-remove_text d k c.custom_blocked)
        (λ e. ground (arith, h.apart k));
}

removed-IsApart :
    (d : Text) (c c' : Config)
    → c'.custom_blocked ≡ remove_text d c.custom_blocked
    → c'.custom_allowed ≡ remove_text d c.custom_allowed
    → IsApart c
    → IsApart c'
removed-IsApart d c c' b a h = record {
  blocked_once = rw b (remove_text-IsDistinct d c.custom_blocked h.blocked_once);
  allowed_once = rw a (remove_text-IsDistinct d c.custom_allowed h.allowed_once);
  apart = λ k.
      rw (b, a, member-remove_text d k c.custom_blocked, member-remove_text d k c.custom_allowed)
        (λ e. ground (arith, h.apart k));
}

apply_kind-IsApart :
    (parse_ip : Text → Bool) (t : Target) (ip : Text) (c c' : Config)
    → apply_kind parse_ip t ip c ≡ some c'
    → IsApart c
    → IsApart c'
unfolding apply_kind
apply_kind-IsApart parse_ip t ip c c' found h = elim (Bool-cases (text_eq t.kind (lit "block"))) [
  | inl block ↦
      subst IsApart (some_injective (rw block at found)) (with_blocked-IsApart t.domain c h)
  | inr no_block ↦ elim (Bool-cases (text_eq t.kind (lit "allow"))) [
    | inl allow ↦
        subst IsApart (some_injective (rw (no_block, allow) at found))
          (with_allowed-IsApart t.domain c h)
    | inr no_allow ↦
        elim (Bool-cases (
          text_eq t.kind (lit "mapping")
          && (not (is_empty (trim_space ip)) && parse_ip (trim_space ip)))) [
            | inl mapping ↦
                removed-IsApart t.domain c c' (unfold with_mapping in ground arith)
                  (unfold with_mapping in ground arith) h
            | inr bad ↦ cc (bad_mapping no_block no_allow bad)
          ]
  ]
]
  where
    bad_mapping :
        text_eq t.kind (lit "block") ≡ false
        → text_eq t.kind (lit "allow") ≡ false
        → (text_eq t.kind (lit "mapping")
            && (not (is_empty (trim_space ip)) && parse_ip (trim_space ip)))
          ≡ false
        → none ≡ some c'
    bad_mapping b a m = ground arith

new_config-IsApart :
    (parse_ip : Text → Bool) (t : Target) (ip : Text) (c c' : Config)
    → new_config parse_ip t ip c ≡ some c'
    → IsApart c
    → IsApart c'
unfolding new_config
new_config-IsApart parse_ip t ip c c' found h = elim (Bool-cases (is_empty t.client_ip)) [
  | inl global ↦ apply_kind-IsApart parse_ip t ip c c' (rw global at found) h
  | inr client ↦ subst IsApart (some_injective (rw client at found)) (
      unfold with_client_rule in
      record { blocked_once = h.blocked_once; allowed_once = h.allowed_once; apart = h.apart })
]

-- Saving and reloading leave the configuration in memory as it is.
pub config-save_and_reload :
    (disk_ok : Bool) (s : Server) → (save_and_reload disk_ok s).0.config ≡ s.config
unfolding save_and_reload save_config reload_rules_fast
config-save_and_reload disk_ok s = ground arith

install-IsApart :
    (disk_ok : Bool) (s : Server) (o : Option Config)
    → ((c : Config) → o ≡ some c → IsApart c)
    → IsApart s.config
    → IsApart (install disk_ok s o).0.config
unfolding install
install-IsApart disk_ok s none new h = h
install-IsApart disk_ok s (some c) new h =
    rw (config-save_and_reload disk_ok (record s { config = c })) (new c refl)

add_rule-IsApart :
    (parse_ip : Text → Bool) (disk_ok : Bool) (req : RuleRequest) (s : Server)
    → IsApart s.config
    → IsApart (add_rule parse_ip disk_ok req s).0.config
unfolding add_rule
add_rule-IsApart parse_ip disk_ok req s h =
    let t = rule_target req in
    elim (Bool-cases (is_empty t.domain)) [
      | inl e ↦ rw e h
      | inr full ↦ elim (Bool-cases (is_valid_domain parse_ip t.domain)) [
        | inr bad ↦ rw (full, bad) h
        | inl valid ↦ elim (Bool-cases (is_replica s.config)) [
          | inl replica ↦ rw (full, valid, replica) h
          | inr primary ↦
              rw (full, valid, primary)
                (install-IsApart disk_ok s (new_config parse_ip t req.ip s.config)
                  (λ c e. new_config-IsApart parse_ip t req.ip s.config c e h) h)
        ]
      ]
    ]

-- Whatever the request and whether or not it succeeds, adding a rule keeps the custom lists without
-- repetition and no domain in both of them.
pub handle_rule_add-IsApart :
    (parse_ip : Text → Bool) (disk_ok is_post : Bool) (body : Option RuleRequest) (s : Server)
    → IsApart s.config
    → IsApart (handle_rule_add parse_ip disk_ok is_post body s).0.config
unfolding handle_rule_add
handle_rule_add-IsApart parse_ip disk_ok false body s h = h
handle_rule_add-IsApart parse_ip disk_ok true none s h = h
handle_rule_add-IsApart parse_ip disk_ok true (some req) s h =
    add_rule-IsApart parse_ip disk_ok req s h

remove_rule-IsApart :
    (disk_ok : Bool) (req : RuleRequest) (s : Server)
    → IsApart s.config
    → IsApart (remove_rule disk_ok req s).0.config
unfolding remove_rule
remove_rule-IsApart disk_ok req s h =
    let t = rule_target req in
    elim (Bool-cases (is_empty t.domain)) [
      | inl e ↦ rw e h
      | inr full ↦ elim (Bool-cases (is_replica s.config)) [
        | inl replica ↦ rw (full, replica) h
        | inr primary ↦
            rw
              (
                full,
                primary,
                config-save_and_reload disk_ok (record s { config = without_rules t s.config }),
              )
              (unfold without_rules in removed-IsApart t.domain s.config _ refl refl h)
      ]
    ]

-- Whatever the request and whether or not it succeeds, removing a rule keeps the custom lists without
-- repetition and no domain in both of them.
pub handle_rule_remove-IsApart :
    (disk_ok is_post : Bool) (body : Option RuleRequest) (s : Server)
    → IsApart s.config
    → IsApart (handle_rule_remove disk_ok is_post body s).0.config
unfolding handle_rule_remove
handle_rule_remove-IsApart disk_ok false body s h = h
handle_rule_remove-IsApart disk_ok true none s h = h
handle_rule_remove-IsApart disk_ok true (some req) s h = remove_rule-IsApart disk_ok req s h

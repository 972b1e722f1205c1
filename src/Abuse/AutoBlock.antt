-- ===== src/Abuse/AutoBlock.antt =====
-- `blockClientAuto` of admin/abuse.go: whom it blocks, and that nobody is listed twice.
use shield_dns.Prelude.{
  ◌≡◌, refl, arith, Bool, true, not, ◌&&◌, ◌||◌, List, [], ◌∷◌, ◌++◌, any-append, Bool-cases, inl,
  inr, is_some,
}
use shield_dns.Text.{Text, text_eq}
use shield_dns.Text.Equality.{text_eq_sound}
use shield_dns.Table.{lookup, insert, member, lookup-insert}
use shield_dns.Server.{save_config-config, Config, Server, is_critical_ip}
use shield_dns.Rules.Lists.{IsDistinct, append-IsDistinct}
use shield_dns.Abuse.Blocking.{Feeds, block_info, with_blocked_client, block_client_auto}

abbrev pub is_protected : Text → Config → Bool
is_protected ip c = is_critical_ip ip c.block_page_ip c.autoblock_whitelist

member-append_one :
    (j ip : Text) (s : List Text) → member j (s ++ (ip ∷ [])) ≡ (member j s || text_eq ip j)
unfolding member
member-append_one j ip s = rw any-append (ground arith)

-- `blockClientAuto` blocks the client exactly when its address is not critical, and no other client.
pub block_client_auto-member :
    (f : Feeds) (ip j reason : Text) (s : Server)
    → member j (block_client_auto f ip reason s).config.blocked_clients
      ≡ (member j s.config.blocked_clients || text_eq ip j && not (is_protected ip s.config))
unfolding block_client_auto with_blocked_client
block_client_auto-member f ip j reason s = elim (Bool-cases (is_protected ip s.config)) [
  | inl e ↦ rw e (ground arith)
  | inr e ↦ elim (Bool-cases (member ip s.config.blocked_clients)) [
    | inl old ↦ elim (Bool-cases (text_eq ip j)) [
      | inl same ↦ rw (e, old, ← text_eq_sound ip j same, old) refl
      | inr other ↦ rw (e, old, other) (ground arith)
    ]
    | inr new ↦ rw (e, new, save_config-config, member-append_one) (ground arith)
  ]
]

-- The blocked clients are listed once each, and each has its information.
pub record IsRegistered (c : Config) : Type 0 where
  pub distinct : IsDistinct c.blocked_clients
  pub informed :
      (j : Text)
      → member j c.blocked_clients ≡ true
      → is_some (lookup j c.blocked_clients_info) ≡ true

with_blocked_client-informed :
    (f : Feeds) (ip reason : Text) (c : Config)
    → IsRegistered c
    → (j : Text) → member j (c.blocked_clients ++ (ip ∷ [])) ≡ true
    → is_some (lookup j (insert ip (block_info f ip reason) c.blocked_clients_info)) ≡ true
with_blocked_client-informed f ip reason c h j m =
    rw lookup-insert (elim (Bool-cases (text_eq ip j)) [
      | inl same ↦ rw same refl
      | inr other ↦
          rw other (h.informed j (ground (arith, member-append_one j ip c.blocked_clients)))
    ])

-- `blockClientAuto` keeps the list of blocked clients free of repetitions, and every blocked client
-- with its information, whatever the feeds and the disk say.
pub block_client_auto-IsRegistered :
    (f : Feeds) (ip reason : Text) (s : Server)
    → IsRegistered s.config
    → IsRegistered (block_client_auto f ip reason s).config
unfolding block_client_auto with_blocked_client
block_client_auto-IsRegistered f ip reason s h = elim (Bool-cases (is_protected ip s.config)) [
  | inl e ↦ rw e h
  | inr e ↦ elim (Bool-cases (member ip s.config.blocked_clients)) [
    | inl old ↦ rw (e, old) h
    | inr new ↦
        rw (e, new, save_config-config)
          (record {
            distinct = append-IsDistinct ip s.config.blocked_clients new h.distinct;
            informed = with_blocked_client-informed f ip reason s.config h;
          })
  ]
]

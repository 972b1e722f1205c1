-- ===== src/Clients/Blocked.antt =====
-- The blocked clients after `handleClientBlock` of admin/api_client_handlers.go.
use shield_dns.Prelude.{
  ℕ, ◌≡◌, refl, arith, Bool, true, false, not, ◌&&◌, ◌||◌, some, if◌then◌else◌, Bool-cases, inl,
  inr, sym, subst, ◌≤◌, ◌<◌,
}
use shield_dns.Text.{Text, lit, text_eq, is_empty, trim_space}
use shield_dns.Table.{member, member-add, lookup-insert, lookup-delete}
use shield_dns.Server.{Config, Server, is_replica}
use shield_dns.Rules.Lists.{member-remove_text, remove_text-IsDistinct, add-IsDistinct}
use shield_dns.Abuse.AutoBlock.{IsRegistered, is_protected}
use shield_dns.Clients.{
  ClientRequest, block_client, unblock_client, save_change-config, change_client,
  handle_client_block,
}

-- The ways in which a request to block or unblock a client can end.
data Change (now : ℕ) (country_of : Text → Text) (req : ClientRequest) (s : Server)
    : Server × ℕ → Type 0 where
  refused :
      {s' : Server} {status : ℕ}
      → 400 ≤ status
      → status < 500
      → s' ≡ s
      → Change now country_of req s (s', status)
  blocked :
      {s' : Server} {status : ℕ}
      → text_eq req.action (lit "block") ≡ true
      → is_protected (trim_space req.ip) s.config ≡ false
      → s'.config ≡ block_client now (country_of (trim_space req.ip)) (trim_space req.ip) s.config
      → Change now country_of req s (s', status)
  unblocked :
      {s' : Server} {status : ℕ}
      → text_eq req.action (lit "block") ≡ false
      → s'.config ≡ unblock_client (trim_space req.ip) s.config
      → Change now country_of req s (s', status)

change_client-Change :
    (now : ℕ) (country_of : Text → Text) (disk_ok : Bool) (req : ClientRequest) (s : Server)
    → Change now country_of req s (change_client now country_of disk_ok req s)
unfolding change_client
change_client-Change now country_of disk_ok req s =
    elim (Bool-cases (is_empty (trim_space req.ip))) [
      | inl e ↦ rw e (refused (omega arith) (omega arith) refl)
      | inr e ↦ elim (Bool-cases (text_eq req.action (lit "block"))) [
        | inr un ↦ rw (e, un) (unblocked un (save_change-config disk_ok _ s))
        | inl bl ↦ elim (Bool-cases (is_protected (trim_space req.ip) s.config)) [
          | inl crit ↦ rw (e, bl, crit) (refused (omega arith) (omega arith) refl)
          | inr free ↦ rw (e, bl, free) (blocked bl free (save_change-config disk_ok _ s))
        ]
      ]
    ]

handle_client_block-Change :
    (now : ℕ) (country_of : Text → Text) (disk_ok : Bool) (req : ClientRequest) (s : Server)
    → Change now country_of req s (handle_client_block now country_of disk_ok (some req) s)
unfolding handle_client_block
handle_client_block-Change now country_of disk_ok req s = elim (Bool-cases (is_replica s.config)) [
  | inl e ↦ rw e (refused (omega arith) (omega arith) refl)
  | inr e ↦ rw e (change_client-Change now country_of disk_ok req s)
]

block_client-IsRegistered :
    (now : ℕ) (country ip : Text) (c : Config)
    → IsRegistered c
    → IsRegistered (block_client now country ip c)
unfolding block_client
block_client-IsRegistered now country ip c h = record {
  distinct = add-IsDistinct ip c.blocked_clients h.distinct;
  informed = λ j m. rw lookup-insert (elim (Bool-cases (text_eq ip j)) [
    | inl same ↦ rw same refl
    | inr other ↦
        rw other (h.informed j (ground (arith, member-add ip j c.blocked_clients, m, other)))
  ]);
}

unblock_client-IsRegistered :
    (ip : Text) (c : Config) → IsRegistered c → IsRegistered (unblock_client ip c)
unfolding unblock_client
unblock_client-IsRegistered ip c h = record {
  distinct = remove_text-IsDistinct ip c.blocked_clients h.distinct;
  informed = λ j m. rw lookup-delete (elim (Bool-cases (text_eq ip j)) [
    | inl same ↦ absurd (ground (arith, member-remove_text ip j c.blocked_clients, m, same))
    | inr other ↦
        rw other
          (h.informed j (ground (arith, member-remove_text ip j c.blocked_clients, m, other)))
  ]);
}

Change-IsRegistered :
    (now : ℕ) (country_of : Text → Text) (req : ClientRequest) (s : Server) (r : Server × ℕ)
    → Change now country_of req s r
    → IsRegistered s.config
    → IsRegistered r.0.config
Change-IsRegistered now country_of req s (s', status) (refused lo hi same) h =
    subst (λ (t : Server). IsRegistered t.config) (sym same) h
Change-IsRegistered now country_of req s (s', status) (blocked bl free e) h =
    subst IsRegistered (sym e) (block_client-IsRegistered now _ (trim_space req.ip) s.config h)
Change-IsRegistered now country_of req s (s', status) (unblocked un e) h =
    subst IsRegistered (sym e) (unblock_client-IsRegistered (trim_space req.ip) s.config h)

-- Blocking and unblocking a client keep the list of blocked clients free of repetitions, and every blocked
-- client with its information, whether or not the request succeeds.
pub handle_client_block-IsRegistered :
    (now : ℕ) (country_of : Text → Text) (disk_ok : Bool) (req : ClientRequest) (s : Server)
    → IsRegistered s.config
    → IsRegistered (handle_client_block now country_of disk_ok (some req) s).0.config
handle_client_block-IsRegistered now country_of disk_ok req s h =
    Change-IsRegistered now country_of req s _
      (handle_client_block-Change now country_of disk_ok req s) h

-- What the list of blocked clients holds after a request.
abbrev pub expected : ClientRequest → Text → Config → Bool
expected req j c =
    if text_eq req.action (lit "block")
    then text_eq (trim_space req.ip) j || member j c.blocked_clients
    else not (text_eq (trim_space req.ip) j) && member j c.blocked_clients

Change-member :
    (now : ℕ) (country_of : Text → Text) (req : ClientRequest) (s : Server) (j : Text)
    (r : Server × ℕ)
    → Change now country_of req s r
    → r.1 ≡ 200
    → member j r.0.config.blocked_clients ≡ expected req j s.config
Change-member now country_of req s j (s', status) (refused lo hi same) ok =
    absurd (omega (arith, lo, ok))
Change-member now country_of req s j (s', status) (blocked bl free e) ok =
    rw (bl, e) (unfold block_client in member-add (trim_space req.ip) j s.config.blocked_clients)
Change-member now country_of req s j (s', status) (unblocked un e) ok =
    rw (un, e)
      (unfold unblock_client in member-remove_text (trim_space req.ip) j s.config.blocked_clients)

-- After a request to block a client that was answered with 200, that client is listed as well; after any
-- other that was answered so, it is not; and every other client is listed as before.
pub handle_client_block-member :
    (now : ℕ) (country_of : Text → Text) (disk_ok : Bool) (req : ClientRequest) (s : Server)
    (j : Text)
    → (handle_client_block now country_of disk_ok (some req) s).1 ≡ 200
    → member j (handle_client_block now country_of disk_ok (some req) s).0.config.blocked_clients
      ≡ expected req j s.config
handle_client_block-member now country_of disk_ok req s j ok =
    Change-member now country_of req s j _ (handle_client_block-Change now country_of disk_ok req s)
      ok

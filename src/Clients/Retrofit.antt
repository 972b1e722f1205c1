-- ===== src/Clients/Retrofit.antt =====
-- `handleClientBlock` of admin/api_client_handlers.go on GET: every blocked client gets its information.
use shield_dns.Prelude.{
  ℕ, ◌≡◌, refl, Bool, true, false, List, [], ◌∷◌, Option, none, some, Bool-cases, Option-cases, inl,
  inr, is_some,
}
use shield_dns.Text.{Text, text_eq}
use shield_dns.Text.Equality.{text_eq_sound}
use shield_dns.Table.{Table, lookup, insert, member, lookup-insert}
use shield_dns.Server.{BlockedClientInfo, Server, save_config, save_config-config}
use shield_dns.Clients.{retrofit_entry, retrofit, handle_client_list}

module _ (now : ℕ) (country_of : Text → Text) where
  retrofit-keeps :
      (j : Text) (ips : List Text) (infos : Table BlockedClientInfo)
      → is_some (lookup j infos) ≡ true
      → is_some (lookup j (retrofit now country_of ips infos).0) ≡ true
  unfolding retrofit
  retrofit-keeps j [] infos h = h
  retrofit-keeps j (ip ∷ ips) infos h =
      elim (Option-cases (retrofit_entry now (country_of ip) (lookup ip infos))) [
        | inl e ↦ rw (e, retrofit) (retrofit-keeps j ips infos h)
        | inr (info, e) ↦
            rw (e, retrofit)
              (retrofit-keeps j ips (insert ip info infos) (
                rw lookup-insert (elim (Bool-cases (text_eq ip j)) [
                  | inl same ↦ rw same refl
                  | inr other ↦ rw other h
                ])))
      ]

  -- Where nothing is written, there was an entry.
  retrofit_entry-none :
      (country : Text) (o : Option BlockedClientInfo)
      → retrofit_entry now country o ≡ none
      → is_some o ≡ true
  unfolding retrofit_entry
  retrofit_entry-none country none h = cc h
  retrofit_entry-none country (some info) h = refl

  retrofit-informed :
      (j : Text) (ips : List Text) (infos : Table BlockedClientInfo)
      → member j ips ≡ true
      → is_some (lookup j (retrofit now country_of ips infos).0) ≡ true
  unfolding retrofit member
  retrofit-informed j [] infos h = cc h
  retrofit-informed j (ip ∷ ips) infos h =
      elim (Option-cases (retrofit_entry now (country_of ip) (lookup ip infos))) [
        | inl e ↦
            let known = retrofit_entry-none (country_of ip) (lookup ip infos) e in
            rw (e, retrofit)
              (elim (Bool-cases (text_eq ip j)) [
                | inl same ↦ retrofit-keeps j ips infos (rw (text_eq_sound ip j same) at known)
                | inr other ↦ retrofit-informed j ips infos (unfold member in rw other at h)
              ])
        | inr (info, e) ↦
            rw (e, retrofit)
              (elim (Bool-cases (text_eq ip j)) [
                | inl same ↦
                    retrofit-keeps j ips (insert ip info infos) (rw (lookup-insert, same) refl)
                | inr other ↦
                    retrofit-informed j ips (insert ip info infos) (unfold member in rw other at h)
              ])
      ]

  unchanged :
      (ips : List Text) (infos : Table BlockedClientInfo)
      → (retrofit now country_of ips infos).1 ≡ false
      → (retrofit now country_of ips infos).0 ≡ infos
  unfolding retrofit
  unchanged [] infos h = refl
  unchanged (ip ∷ ips) infos h =
      elim (Option-cases (retrofit_entry now (country_of ip) (lookup ip infos))) [
        | inl e ↦ rw (e, retrofit) (unchanged ips infos (rw (e, retrofit) at h))
        | inr (info, e) ↦ cc (rw (e, retrofit) at h)
      ]

-- A listing of the blocked clients that is answered leaves the list itself as it is, and each of them with
-- its information.
pub handle_client_list-informed :
    (now : ℕ) (country_of : Text → Text) (disk_ok : Bool) (s t : Server) (code : ℕ)
    → handle_client_list now country_of disk_ok s ≡ some (t, code)
    → (t.config.blocked_clients ≡ s.config.blocked_clients)
      × ((j : Text)
          → member j s.config.blocked_clients ≡ true
          → is_some (lookup j t.config.blocked_clients_info) ≡ true)
unfolding handle_client_list
handle_client_list-informed now country_of disk_ok s t code answered =
    let ips = s.config.blocked_clients in
    let infos = s.config.blocked_clients_info in
    let (infos', changed) = retrofit now country_of ips infos in
    let s' : Server = record s { config = record s.config { blocked_clients_info = infos' } } in
    elim (Bool-cases changed) [
      | inr e ↦
          let same : s ≡ t = cc (rw e at answered) in
          rw (← same) (
            refl,
            λ j listed.
                let known = retrofit-informed now country_of j ips infos listed in
                rw (unchanged now country_of ips infos e) at known,
          )
      | inl e ↦ elim (Bool-cases (save_config disk_ok s').1) [
        | inr failed ↦ cc (rw (e, failed) at answered)
        | inl done ↦
            let same : (save_config disk_ok s').0 ≡ t = cc (rw (e, done) at answered) in
            rw (← same, save_config-config)
              (refl, λ j listed. retrofit-informed now country_of j ips infos listed)
      ]
    ]

-- ===== src/Cluster/Revoked.antt =====
-- A replica before and after its registration and its revocation: admin/api_cluster.go.
use shield_dns.Prelude.{
  ℕ, suc, ◌≡◌, refl, sym, ap, ◌∙◌, Bool, true, false, not, List, [], ◌∷◌, keep, length, none, some,
  Bool-cases, inl, inr, some_injective,
}
use shield_dns.Text.{Text, text_eq, is_empty}
use shield_dns.Text.Equality.{text_eq_refl, text_eq_sound}
use shield_dns.Server.{refused, served, ClusterReplica, Config, Server, save_config-config}
use shield_dns.Auth.{Request, Clock}
use shield_dns.Cluster.{ClusterConfigExport, build_export}
use shield_dns.Cluster.Primary.{
  RegisterRequest, normal_type, replica_token, find_replica, put_replica, new_replica, registered,
  id_or, registered_id, handle_register, handle_get_config, without_replica, handle_revoke,
  primary_url,
}
use shield_dns.Cluster.Replicas.{IsSingle, Reaches, reachable-IsSingle, find_replica-keep}
use shield_dns.Cluster.Joined.{turned_away, accepted, handle_register-IsRegistration}

revoked_replica :
    (h id : Text) (rep : ClusterReplica) (rs : List ClusterReplica)
    → IsSingle rs
    → find_replica h rs ≡ some rep
    → rep.id ≡ id
    → find_replica h (keep (λ (r : ClusterReplica). not (text_eq r.id id)) rs) ≡ none
unfolding find_replica
revoked_replica h id rep [] single found same = refl
revoked_replica h id rep (r ∷ rs) single found same = elim (Bool-cases (text_eq r.token_hash h)) [
  | inl here ↦
      let this : r ≡ rep = some_injective (rw here at found) in
      let its : text_eq r.id id ≡ true = rw (this, same) (text_eq_refl id) in
      let rest : find_replica h rs ≡ none = rw (text_eq_sound r.token_hash h here) at single.0 in
      rw its (find_replica-keep (λ (r : ClusterReplica). not (text_eq r.id id)) h rs rest)
  | inr there ↦
      let rest = revoked_replica h id rep rs single.1 (rw there at found) same in
      elim (Bool-cases (text_eq r.id id)) [ inl e ↦ rw e rest | inr e ↦ rw (e, there) rest ]
]

pub handle_get_config-refused :
    (w : Clock) (host : Text) (r : Request) (node_name : Text) (s : Server)
    → is_empty (replica_token r) ≡ false
    → find_replica (w.hash (replica_token r)) s.config.cluster_replicas ≡ none
    → (handle_get_config w host r node_name s).1 ≡ refused 403
unfolding handle_get_config
handle_get_config-refused w host r node_name s given gone = rw (given, gone) refl

handle_revoke-replicas :
    (disk_ok : Bool) (id : Text) (s : Server)
    → is_empty id ≡ false
    → (handle_revoke disk_ok id s).0.config.cluster_replicas
      ≡ keep (λ (r : ClusterReplica). not (text_eq r.id id)) s.config.cluster_replicas
unfolding handle_revoke without_replica
handle_revoke-replicas disk_ok id s given = rw given (
    ap (λ (c : Config). c.cluster_replicas)
      (save_config-config disk_ok (record s { config = without_replica id s.config })))

-- After a replica is revoked by its ID, its token no longer gets the configuration: the primary answers 403,
-- even if the revocation could not be saved. This holds in every state that the handlers of the primary
-- lead to from one where each token is that of one replica.
pub revoked-refused :
    (s t : Server) (disk_ok : Bool) (w : Clock) (host : Text) (r : Request) (node_name : Text)
    (rep : ClusterReplica)
    → Reaches s t
    → IsSingle s.config.cluster_replicas
    → is_empty (replica_token r) ≡ false
    → find_replica (w.hash (replica_token r)) t.config.cluster_replicas ≡ some rep
    → is_empty rep.id ≡ false
    → (handle_get_config w host r node_name (handle_revoke disk_ok rep.id t).0).1 ≡ refused 403
revoked-refused s t disk_ok w host r node_name rep path single given known named =
    handle_get_config-refused w host r node_name (handle_revoke disk_ok rep.id t).0 given (
      ap (find_replica (w.hash (replica_token r))) (handle_revoke-replicas disk_ok rep.id t named)
      ∙ revoked_replica (w.hash (replica_token r)) rep.id rep t.config.cluster_replicas
          (reachable-IsSingle s t path single) known refl)

-- The replica that a list has for the token of a replica that was put there.
put_replica-found :
    (new : ClusterReplica) (rs : List ClusterReplica)
    → (rep : ClusterReplica) × (find_replica new.token_hash (put_replica new rs) ≡ some rep)
      × (rep.instance_type ≡ new.instance_type)
      × (rep.id ≡ id_or new.id (find_replica new.token_hash rs))
unfolding find_replica put_replica
put_replica-found new [] = rw (text_eq_refl new.token_hash) (new, refl, refl, refl)
put_replica-found new (r ∷ rs) = elim (Bool-cases (text_eq r.token_hash new.token_hash)) [
  | inl same ↦ rw (same, text_eq_refl new.token_hash) (_, refl, refl, refl)
  | inr other ↦ rw (other, other) (put_replica-found new rs)
]

length-put_replica :
    (a b : ClusterReplica) (rs : List ClusterReplica)
    → a.token_hash ≡ b.token_hash
    → length (put_replica b (put_replica a rs)) ≡ length (put_replica a rs)
unfolding put_replica
length-put_replica a b [] same = rw (same, text_eq_refl b.token_hash) refl
length-put_replica a b (r ∷ rs) same = elim (Bool-cases (text_eq r.token_hash b.token_hash)) [
  | inl here ↦ rw (same, here, text_eq_refl b.token_hash) refl
  | inr there ↦ rw (same, there, there) (ap suc (length-put_replica a b rs same))
]

handle_get_config-served :
    (w : Clock) (host : Text) (r : Request) (node_name : Text) (s : Server) (rep : ClusterReplica)
    → is_empty (replica_token r) ≡ false
    → find_replica (w.hash (replica_token r)) s.config.cluster_replicas ≡ some rep
    → (c : Config) × ((handle_get_config w host r node_name s).0.config ≡ c)
      × ((handle_get_config w host r node_name s).1
          ≡ served (build_export w.now rep.instance_type (primary_url host c) c))
unfolding handle_get_config
handle_get_config-served w host r node_name s rep given found =
    rw (given, found) (_, save_config-config w.disk_ok _, refl)

registered-found :
    (now : ℕ) (id h : Text) (req : RegisterRequest) (c : Config)
    → (rep : ClusterReplica) × (find_replica h (registered now id h req c).cluster_replicas
        ≡ some rep)
      × (rep.instance_type ≡ normal_type req.instance_type)
      × (rep.id ≡ registered_id id h c)
unfolding registered registered_id new_replica
registered-found now id h req c = put_replica-found (new_replica now id h req) c.cluster_replicas

-- After a replica is registered, its token gets the configuration of the primary, made for the type of
-- instance that it registered.
pub registered-served :
    (w w' : Clock) (id host host' : Text) (r r' : Request) (req : RegisterRequest)
    (node_name : Text) (s : Server) (i : Text) (e : ClusterConfigExport)
    → (handle_register w id host r (some req) s).1 ≡ served (i, e)
    → is_empty (replica_token r') ≡ false
    → w'.hash (replica_token r') ≡ w.hash (replica_token r)
    → (c : Config) × ((handle_get_config w' host' r' node_name
          (handle_register w id host r (some req) s).0).0.config
        ≡ c)
      × ((handle_get_config w' host' r' node_name (handle_register w id host r (some req) s).0).1
          ≡ served (build_export w'.now (normal_type req.instance_type) (primary_url host' c) c))
registered-served w w' id host host' r r' req node_name s i e ok given same =
    elim (handle_register-IsRegistration w id host r req s) [
      | turned_away code big at ↦ cc (ok, at)
      | accepted c made _ may now at ↦
          let h = w.hash (replica_token r) in
          let s1 = (handle_register w id host r (some req) s).0 in
          let (rep, found, typed, _) = registered-found w.now id h req s.config in
          let known : find_replica (w'.hash (replica_token r')) s1.config.cluster_replicas
              ≡ some rep =
            rw (same, now, made) found in
          rw (sym typed) (handle_get_config-served w' host' r' node_name s1 rep given known)
    ]

-- A second registration with the same token answers with the same ID, and adds no replica to the list.
pub registered_twice :
    (w w' : Clock) (id id' host host' : Text) (r r' : Request) (req req' : RegisterRequest)
    (s : Server) (i i' : Text) (e e' : ClusterConfigExport)
    → (handle_register w id host r (some req) s).1 ≡ served (i, e)
    → (handle_register w' id' host' r' (some req') (handle_register w id host r (some req) s).0).1
      ≡ served (i', e')
    → w'.hash (replica_token r') ≡ w.hash (replica_token r)
    → (i' ≡ i)
      × (length
            (handle_register w' id' host' r'
              (some req')
              (handle_register w id host r (some req) s).0).0.config.cluster_replicas
          ≡ length (handle_register w id host r (some req) s).0.config.cluster_replicas)
registered_twice w w' id id' host host' r r' req req' s i i' e e' ok ok' same =
    let h = w.hash (replica_token r) in
    let s1 = (handle_register w id host r (some req) s).0 in
    elim (handle_register-IsRegistration w id host r req s) [
      | turned_away code big at ↦ cc (ok, at)
      | accepted c made _ may now at ↦
          elim (handle_register-IsRegistration w' id' host' r' req' s1) [
            | turned_away code big at' ↦ cc (ok', at')
            | accepted c' made' _ may' now' at' ↦
                let (rep, found, _, kept) = registered-found w.now id h req s.config in
                let second : registered_id id' (w'.hash (replica_token r')) s1.config ≡ rep.id =
                  rw (same, now, made) (unfold registered_id in rw found refl) in
                let first : i ≡ registered_id id h s.config = cc (ok, at) in
                let last : i' ≡ registered_id id' (w'.hash (replica_token r')) s1.config =
                  cc (ok', at') in
                (
                  last ∙ second ∙ kept ∙ sym first,
                  rw (now', now, made', same, now, made)
                      (unfold registered in
                        length-put_replica (new_replica w.now id h req)
                          (new_replica w'.now id' h req') s.config.cluster_replicas
                          (unfold new_replica in refl)),
                )
          ]
    ]

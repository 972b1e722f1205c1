-- ===== src/Cluster/Replicas.antt =====
-- The replicas that a primary knows of, under any sequence of the handlers of admin/api_cluster.go.
use shield_dns.Prelude.{
  ℕ, ◌≡◌, refl, arith, ap, Bool, false, not, List, [], ◌∷◌, keep, Option, none, some, Bool-cases,
  Option-cases, inl, inr,
}
use shield_dns.Text.{Text, text_eq, is_empty, trim_space}
use shield_dns.Text.Equality.{text_eq_iff, text_eq_sound}
use shield_dns.Server.{ClusterReplica, Config, Server, save_config, save_config-config}
use shield_dns.Auth.{Request, Clock}
use shield_dns.Cluster.Primary.{
  RegisterRequest, replica_token, find_replica, put_replica, new_replica, registered, may_register,
  handle_register, touch_replica, handle_get_config, without_replica, handle_revoke,
}

-- Each token is that of one replica.
abbrev pub IsSingle : List ClusterReplica → Type 0
IsSingle [] = Unit
IsSingle (r ∷ rs) = (find_replica r.token_hash rs ≡ none) × IsSingle rs

find_replica-touch_replica :
    (now : ℕ) (reported h g : Text) (rs : List ClusterReplica)
    → find_replica g rs ≡ none
    → find_replica g (touch_replica now reported h rs) ≡ none
unfolding find_replica touch_replica
find_replica-touch_replica now reported h g [] gone = refl
find_replica-touch_replica now reported h g (r ∷ rs) gone =
    ground (arith, find_replica-touch_replica now reported h g rs)

touch_replica-IsSingle :
    (now : ℕ) (reported h : Text) (rs : List ClusterReplica)
    → IsSingle rs
    → IsSingle (touch_replica now reported h rs)
unfolding touch_replica
touch_replica-IsSingle now reported h [] single = single
touch_replica-IsSingle now reported h (r ∷ rs) single = elim (Bool-cases (text_eq r.token_hash h)) [
  | inl here ↦ rw here single
  | inr there ↦ rw there (
    find_replica-touch_replica now reported h r.token_hash rs single.0,
    touch_replica-IsSingle now reported h rs single.1,
  )
]

find_replica-put_replica :
    (g : Text) (new : ClusterReplica) (rs : List ClusterReplica)
    → text_eq new.token_hash g ≡ false
    → find_replica g rs ≡ none
    → find_replica g (put_replica new rs) ≡ none
unfolding find_replica put_replica
find_replica-put_replica g new [] other gone = rw other refl
find_replica-put_replica g new (r ∷ rs) other gone =
    ground (arith, find_replica-put_replica g new rs other)

put_replica-IsSingle :
    (new : ClusterReplica) (rs : List ClusterReplica) → IsSingle rs → IsSingle (put_replica new rs)
unfolding put_replica find_replica
put_replica-IsSingle new [] single = (refl, tt)
put_replica-IsSingle new (r ∷ rs) single = elim (Bool-cases (text_eq r.token_hash new.token_hash)) [
  | inl same ↦ rw same ((rw (text_eq_sound r.token_hash new.token_hash same) at single.0), single.1)
  | inr other ↦
      let other' : text_eq new.token_hash r.token_hash ≡ false = ground (
        arith,
        other,
        text_eq_iff r.token_hash new.token_hash,
        text_eq_iff new.token_hash r.token_hash,
      ) in
      rw other (
        find_replica-put_replica r.token_hash new rs other' single.0,
        put_replica-IsSingle new rs single.1,
      )
]

pub find_replica-keep :
    (p : ClusterReplica → Bool) (g : Text) (rs : List ClusterReplica)
    → find_replica g rs ≡ none
    → find_replica g (keep p rs) ≡ none
unfolding find_replica
find_replica-keep p g [] gone = refl
find_replica-keep p g (r ∷ rs) gone = ground (arith, find_replica-keep p g rs)

keep-IsSingle :
    (p : ClusterReplica → Bool) (rs : List ClusterReplica) → IsSingle rs → IsSingle (keep p rs)
keep-IsSingle p [] single = single
keep-IsSingle p (r ∷ rs) single = elim (Bool-cases (p r)) [
  | inl e ↦ rw e (find_replica-keep p r.token_hash rs single.0, keep-IsSingle p rs single.1)
  | inr e ↦ rw e (keep-IsSingle p rs single.1)
]

-- The states that the handlers of the primary lead to, whether or not they succeed.
pub data Reaches (s : Server) : Server → Type 0 where
  start : Reaches s s
  registers :
      {t : Server} (w : Clock) (id host : Text) (r : Request) (req : Option RegisterRequest)
      → Reaches s t
      → Reaches s (handle_register w id host r req t).0
  pulls :
      {t : Server} (w : Clock) (host : Text) (r : Request) (node_name : Text)
      → Reaches s t
      → Reaches s (handle_get_config w host r node_name t).0
  revokes :
      {t : Server} (disk_ok : Bool) (id : Text)
      → Reaches s t
      → Reaches s (handle_revoke disk_ok id t).0

-- What a handler may do to the replicas.
pub data IsReplicaChange (s s' : Server) : Type 0 where
  no_change : s'.config.cluster_replicas ≡ s.config.cluster_replicas → IsReplicaChange s s'
  put :
      (new : ClusterReplica)
      → s'.config.cluster_replicas ≡ put_replica new s.config.cluster_replicas
      → IsReplicaChange s s'
  touched :
      (now : ℕ) (name h : Text)
      → s'.config.cluster_replicas ≡ touch_replica now name h s.config.cluster_replicas
      → IsReplicaChange s s'
  dropped :
      (id : Text)
      → s'.config.cluster_replicas
        ≡ keep (λ (r : ClusterReplica). not (text_eq r.id id)) s.config.cluster_replicas
      → IsReplicaChange s s'

handle_register-IsReplicaChange :
    (w : Clock) (id host : Text) (r : Request) (req : Option RegisterRequest) (s : Server)
    → IsReplicaChange s (handle_register w id host r req s).0
unfolding handle_register
handle_register-IsReplicaChange w id host r none s = no_change refl
handle_register-IsReplicaChange w id host r (some req) s =
    let c = registered w.now id (w.hash (replica_token r)) req s.config in
    let full = record s { config = c } in
    let same = ap (λ (c : Config). c.cluster_replicas) (save_config-config w.disk_ok full) in
    let change : IsReplicaChange s (save_config w.disk_ok full).0 =
      unfold registered in put (new_replica w.now id (w.hash (replica_token r)) req) same in
    elim (Bool-cases (is_empty (replica_token r))) [
      | inl bare ↦ rw bare (no_change refl)
      | inr given ↦ elim (Bool-cases (may_register (w.hash (replica_token r)) s.config)) [
        | inr no_key ↦ rw (given, no_key) (no_change refl)
        | inl key ↦ elim (Bool-cases (save_config w.disk_ok full).1) [
          | inl done ↦ rw (given, key, done) change
          | inr failed ↦ rw (given, key, failed) change
        ]
      ]
    ]

handle_get_config-IsReplicaChange :
    (w : Clock) (host : Text) (r : Request) (node_name : Text) (s : Server)
    → IsReplicaChange s (handle_get_config w host r node_name s).0
unfolding handle_get_config
handle_get_config-IsReplicaChange w host r node_name s =
    let h = w.hash (replica_token r) in
    let c : Config = record s.config {
      cluster_replicas = touch_replica w.now (trim_space node_name) h s.config.cluster_replicas;
    } in
    let same =
      ap (λ (c : Config). c.cluster_replicas)
        (save_config-config w.disk_ok (record s { config = c })) in
    elim (Bool-cases (is_empty (replica_token r))) [
      | inl bare ↦ rw bare (no_change refl)
      | inr given ↦ elim (Option-cases (find_replica h s.config.cluster_replicas)) [
        | inl unknown ↦ rw (given, unknown) (no_change refl)
        | inr (rep, known) ↦ rw (given, known) (touched w.now (trim_space node_name) h same)
      ]
    ]

handle_revoke-IsReplicaChange :
    (disk_ok : Bool) (id : Text) (s : Server) → IsReplicaChange s (handle_revoke disk_ok id s).0
unfolding handle_revoke without_replica
handle_revoke-IsReplicaChange disk_ok id s =
    let same = save_config-config disk_ok (record s { config = without_replica id s.config }) in
    elim (Bool-cases (is_empty id)) [
      | inl e ↦ rw e (no_change refl)
      | inr e ↦ rw e (dropped id (ap (λ (c : Config). c.cluster_replicas) same))
    ]

change-IsSingle :
    (s s' : Server)
    → IsReplicaChange s s'
    → IsSingle s.config.cluster_replicas
    → IsSingle s'.config.cluster_replicas
change-IsSingle s s' (no_change e) single = rw e single
change-IsSingle s s' (put new e) single =
    rw e (put_replica-IsSingle new s.config.cluster_replicas single)
change-IsSingle s s' (touched now name h e) single =
    rw e (touch_replica-IsSingle now name h s.config.cluster_replicas single)
change-IsSingle s s' (dropped id e) single =
    rw e (
      keep-IsSingle (λ (r : ClusterReplica). not (text_eq r.id id)) s.config.cluster_replicas
        single)

-- Whatever sequence of registrations, pulls and revocations a primary goes through, each token is that of
-- one replica at most, if this was so at the start.
pub reachable-IsSingle :
    (s t : Server)
    → Reaches s t
    → IsSingle s.config.cluster_replicas
    → IsSingle t.config.cluster_replicas
reachable-IsSingle s _ start single = single
reachable-IsSingle s _ (registers {t} w id host r req path) single =
    change-IsSingle t (handle_register w id host r req t).0
      (handle_register-IsReplicaChange w id host r req t) (reachable-IsSingle s t path single)
reachable-IsSingle s _ (pulls {t} w host r node_name path) single =
    change-IsSingle t (handle_get_config w host r node_name t).0
      (handle_get_config-IsReplicaChange w host r node_name t) (reachable-IsSingle s t path single)
reachable-IsSingle s _ (revokes {t} disk_ok id path) single =
    change-IsSingle t (handle_revoke disk_ok id t).0 (handle_revoke-IsReplicaChange disk_ok id t)
      (reachable-IsSingle s t path single)

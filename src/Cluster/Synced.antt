-- ===== src/Cluster/Synced.antt =====
-- What `performReplicaSync` of admin/api_cluster_sync.go does with what the primary answers.
use shield_dns.Prelude.{
  ◌≡◌, ◌≢◌, ◌||◌, not, refl, Bool, true, false, Option, none, some, Bool-cases, Option-cases, inl,
  inr,
}
use shield_dns.Text.{Text, lit, trim_space}
use shield_dns.Server.{Config, Server, is_unsafe, save_config}
use shield_dns.Cluster.{ClusterConfigExport, Link, applied, apply_export}
use shield_dns.Cluster.Mirror.{apply_export-config}
use shield_dns.Cluster.Node.{
  Answer, unreachable, status, garbled, exported, World, endpoint, link_of, asked, answered,
  replica_sync,
}

-- What a node hears when it asks its primary for the configuration: an export, or no export.
pub data Hears (w : World) (ask : Text → Text → Text → Answer) (c : Config)
    : Option ClusterConfigExport → Type 0 where
  hears_export :
      (target : Text) (e : ClusterConfigExport)
      → endpoint w.lib (lit "/api/cluster/replicas/sync") c.cluster_primary_url ≡ some target
      → ask target c.cluster_primary_token (trim_space c.cluster_node_name) ≡ exported e
      → Hears w ask c (some e)
  bad_url :
      endpoint w.lib (lit "/api/cluster/replicas/sync") c.cluster_primary_url ≡ none
      → Hears w ask c none
  no_export :
      (target : Text) (a : Answer)
      → endpoint w.lib (lit "/api/cluster/replicas/sync") c.cluster_primary_url ≡ some target
      → ask target c.cluster_primary_token (trim_space c.cluster_node_name) ≡ a
      → ((e : ClusterConfigExport) → a ≢ exported e)
      → Hears w ask c none

-- How a synchronisation ends. Without an export of the primary nothing changes.
pub data IsSync (w : World) (ask : Text → Text → Text → Answer) (s : Server) (out : Server × Bool)
    : Type 0 where
  unchanged : Hears w ask s.config none → out.0 ≡ s → out.1 ≡ false → IsSync w ask s out
  updated :
      (e : ClusterConfigExport)
      → Hears w ask s.config (some e)
      → out.0.config ≡ applied w.ip_host w.now e (link_of s.config) s.config
      → (out.1 ≡ true → out.0.saved ≡ some out.0.config)
      → (out.1 ≡ false → out.0.saved ≡ s.saved)
      → IsSync w ask s out

apply_export-saved :
    (w : World) (e : ClusterConfigExport) (link : Link) (s : Server)
    → (apply_export w.ip_host w.now w.disk_ok e link s).1 ≡ true
    → (apply_export w.ip_host w.now w.disk_ok e link s).0.saved
      ≡ some (apply_export w.ip_host w.now w.disk_ok e link s).0.config
unfolding apply_export save_config
apply_export-saved w e link s h =
    elim (Bool-cases (is_unsafe (applied w.ip_host w.now e link s.config) || not w.disk_ok)) [
      | inl bad ↦ cc (rw bad at h)
      | inr good ↦ rw good refl
    ]

apply_export-failed :
    (w : World) (e : ClusterConfigExport) (link : Link) (s : Server)
    → (apply_export w.ip_host w.now w.disk_ok e link s).1 ≡ false
    → (apply_export w.ip_host w.now w.disk_ok e link s).0.saved ≡ s.saved
unfolding apply_export save_config
apply_export-failed w e link s h =
    elim (Bool-cases (is_unsafe (applied w.ip_host w.now e link s.config) || not w.disk_ok)) [
      | inl bad ↦ rw bad refl
      | inr good ↦ cc (rw good at h)
    ]

answered-IsSync :
    (w : World) (ask : Text → Text → Text → Answer) (s : Server) (target : Text) (a : Answer)
    → endpoint w.lib (lit "/api/cluster/replicas/sync") s.config.cluster_primary_url ≡ some target
    → ask target s.config.cluster_primary_token (trim_space s.config.cluster_node_name) ≡ a
    → IsSync w ask s (answered w (link_of s.config) s a)
unfolding answered link_of
answered-IsSync w ask s target unreachable safe heard =
    unchanged (no_export target unreachable safe heard (λ e h. cc h)) refl refl
answered-IsSync w ask s target (status code) safe heard =
    unchanged (no_export target (status code) safe heard (λ e h. cc h)) refl refl
answered-IsSync w ask s target garbled safe heard =
    unchanged (no_export target garbled safe heard (λ e h. cc h)) refl refl
answered-IsSync w ask s target (exported e) safe heard =
    updated e (hears_export target e safe heard)
      (apply_export-config w.ip_host w.now w.disk_ok e (link_of s.config) s)
      (apply_export-saved w e (link_of s.config) s) (apply_export-failed w e (link_of s.config) s)

pub replica_sync-IsSync :
    (w : World) (ask : Text → Text → Text → Answer) (s : Server)
    → IsSync w ask s (replica_sync w ask (link_of s.config) s)
unfolding replica_sync asked link_of
replica_sync-IsSync w ask s =
    elim (Option-cases
      (endpoint w.lib (lit "/api/cluster/replicas/sync") s.config.cluster_primary_url)) [
        | inl bad ↦ rw bad (unchanged (bad_url bad) refl refl)
        | inr (target, safe) ↦ rw safe (answered-IsSync w ask s target _ safe refl)
      ]

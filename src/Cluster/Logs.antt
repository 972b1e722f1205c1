-- ===== src/Cluster/Logs.antt =====
-- admin/api_cluster_sync.go: `SyncClusterLogs`, by which a replica pushes its query log to the primary.
-- The table `queries` is the list of its rows in the order of their IDs, which `ORDER BY id ASC` gives.
-- Whether a row can be scanned and whether the primary answers 200 are given.
use shield_dns.Prelude.{
  ℕ, Bool, false, ◌&&◌, ◌||◌, not, List, [], ◌∷◌, keep, map, take, Option, none, some,
  if◌then◌else◌, ltb,
}
use shield_dns.Text.{Text, lit, text_eq, is_empty}
use shield_dns.Server.{Config}
use shield_dns.Cluster.Primary.{LogEntry, LogBatch}
use shield_dns.Cluster.Node.{UrlLib, endpoint, is_linked}

pub record LogRow : Type 0 where
  pub id : ℕ
  pub domain : Text
  pub client_ip : Text
  pub node_name : Option Text  -- `none` is NULL
  pub readable : Bool

-- `clusterNodeName`, or the name that stands for none.
unfoldable pub own_name : Config → Text
own_name c = if is_empty c.cluster_node_name then lit "ShieldDNS Replica" else c.cluster_node_name

-- The condition `node_name = '' OR node_name = ?`, which no NULL meets.
unfoldable pub is_own : Text → LogRow → Bool
is_own name r = elim r.node_name [ none ↦ false | some n ↦ is_empty n || text_eq n name ]

unfoldable pub pending : Text → ℕ → List LogRow → List LogRow
pending name cursor rows = keep (λ (r : LogRow). ltb cursor r.id && is_own name r) rows

abbrev pub batch_size : ℕ
batch_size = 500

-- The rows that the loop over the result scans.
unfoldable pub scanned : Text → ℕ → List LogRow → List LogRow
scanned name cursor rows =
    keep (λ (r : LogRow). r.readable) (take batch_size (pending name cursor rows))

unfoldable pub entry_of : Text → LogRow → LogEntry
entry_of name r = record {
  id = r.id;
  domain = r.domain;
  client_ip = r.client_ip;
  node_name = elim r.node_name [ none ↦ name | some n ↦ if is_empty n then name else n ];
}

-- `maxSeenID`
unfoldable pub max_seen : ℕ → List LogRow → ℕ
max_seen m [] = m
max_seen m (r ∷ rs) = max_seen (if ltb m r.id then r.id else m) rs

unfoldable pub is_sharing : Config → Bool
is_sharing c =
    not
      (is_empty c.cluster_log_sharing_mode || text_eq c.cluster_log_sharing_mode (lit "local_only"))

-- How a call ends: nothing to do, an error, or a batch that the primary took, with `lastSyncQueryID`.
pub data Pushed : Type 0 where
  idle failed : Pushed
  pushed : LogBatch → ℕ → Pushed

unfoldable pub push_rows :
    UrlLib → (Text → Text → LogBatch → Bool) → Config → ℕ → List LogRow → Pushed
push_rows lib ask c cursor [] = idle
push_rows lib ask c cursor (r ∷ rs) =
    let batch : LogBatch = record {
      node_name = own_name c;
      queries = map (entry_of (own_name c)) (r ∷ rs);
    } in
    elim (endpoint lib (lit "/api/cluster/logs/ingest") c.cluster_primary_url) [
      | none ↦ failed
      | some target ↦
          if ask target c.cluster_primary_token batch
          then pushed batch (max_seen cursor (r ∷ rs))
          else failed
    ]

-- `SyncClusterLogs`
unfoldable pub sync_logs :
    UrlLib → (Text → Text → LogBatch → Bool) → Bool → List LogRow → Config → ℕ → Pushed
sync_logs lib ask db_ok rows c cursor =
    if not (is_sharing c) || not (is_linked c)
    then idle
    else if db_ok
    then push_rows lib ask c cursor (scanned (own_name c) cursor rows)
    else failed

-- `lastSyncQueryID` afterwards.
unfoldable pub next_cursor : ℕ → Pushed → ℕ
next_cursor cursor idle = cursor
next_cursor cursor failed = cursor
next_cursor cursor (pushed batch m) = if ltb cursor m then m else cursor

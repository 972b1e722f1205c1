-- ===== src/Cluster/Delivered.antt =====
-- What `SyncClusterLogs` of admin/api_cluster_sync.go delivers, in one call and in a sequence of calls.
use shield_dns.Prelude.{
  ℕ, zero, suc, ◌≡◌, ◌≤◌, ◌<◌, inl, inr, refl, sym, ap, ◌∙◌, arith, Bool, true, ◌&&◌, ◌||◌, not,
  List, [], ◌∷◌, keep, map, take, drop, All, ltb, leb, Bool-cases, Option-cases, ltb_of_lt,
  le_of_ltb, leb_of_le,
}
use shield_dns.Text.{Text, lit}
use shield_dns.Server.{Config}
use shield_dns.Cluster.Primary.{LogBatch}
use shield_dns.Cluster.Node.{UrlLib, endpoint, is_linked}
use shield_dns.Cluster.Logs.{
  LogRow, own_name, is_own, pending, batch_size, scanned, entry_of, max_seen, is_sharing, pushed,
  push_rows, sync_logs,
}

-- The rows are in the order of their IDs.
abbrev pub IsAscending : List LogRow → Type 0
IsAscending [] = Unit
IsAscending (r ∷ rs) = All (λ (q : LogRow). r.id < q.id) rs × IsAscending rs

All-keep :
    (P : LogRow → Type 0) (p : LogRow → Bool) (rs : List LogRow) → All P rs → All P (keep p rs)
All-keep P p [] h = h
All-keep P p (r ∷ rs) h = elim (Bool-cases (p r)) [
  | inl e ↦ rw e (h.0, All-keep P p rs h.1)
  | inr e ↦ rw e (All-keep P p rs h.1)
]

keep-IsAscending : (p : LogRow → Bool) (rs : List LogRow) → IsAscending rs → IsAscending (keep p rs)
keep-IsAscending p [] h = h
keep-IsAscending p (r ∷ rs) h = elim (Bool-cases (p r)) [
  | inl e ↦ rw e (All-keep (λ q. r.id < q.id) p rs h.0, keep-IsAscending p rs h.1)
  | inr e ↦ rw e (keep-IsAscending p rs h.1)
]

pub le-max_seen : (m : ℕ) (rs : List LogRow) → m ≤ max_seen m rs
unfolding max_seen
le-max_seen m [] = omega arith
le-max_seen m (r ∷ rs) = ground (arith, le-max_seen m rs, le-max_seen r.id rs)

max_seen-cons :
    (m : ℕ) (r : LogRow) (rs : List LogRow) → m < r.id → max_seen m (r ∷ rs) ≡ max_seen r.id rs
unfolding max_seen
max_seen-cons m r rs h = rw (ltb_of_lt m r.id h) refl

-- A row beyond the batch has a greater ID than all that was seen.
pub max_seen-keep-take :
    (n m : ℕ) (p : LogRow → Bool) (rs : List LogRow)
    → IsAscending rs
    → All (λ (r : LogRow). m < r.id) rs
    → All (λ (r : LogRow). max_seen m (keep p (take n rs)) < r.id) (drop n rs)
unfolding max_seen
max_seen-keep-take n m p [] up above = tt
max_seen-keep-take zero m p (r ∷ rs) up above = above
max_seen-keep-take (suc n) m p (r ∷ rs) up above = elim (Bool-cases (p r)) [
  | inl e ↦
      let rest = max_seen-keep-take n r.id p rs up.1 up.0 in
      rw (e, max_seen-cons m r (keep p (take n rs)) above.0) rest
  | inr e ↦ rw e (max_seen-keep-take n m p rs up.1 above.1)
]

pub All-max_seen :
    (m b : ℕ) (rs : List LogRow) → max_seen m rs ≤ b → All (λ (r : LogRow). r.id ≤ b) rs
unfolding max_seen
All-max_seen m b [] h = tt
All-max_seen m b (r ∷ rs) h = elim (Bool-cases (ltb m r.id)) [
  | inl e ↦
      let h' = rw e at h in (omega (arith, h', le-max_seen r.id rs), All-max_seen r.id b rs h')
  | inr e ↦
      let h' = rw e at h in
      (omega (arith, h', le-max_seen m rs, le_of_ltb m r.id e), All-max_seen m b rs h')
]

pub keep-above :
    (m : ℕ) (p : LogRow → Bool) (rs : List LogRow)
    → All (λ (r : LogRow). m < r.id) rs
    → keep (λ (r : LogRow). leb r.id m && p r) rs ≡ []
keep-above m p [] above = refl
keep-above m p (r ∷ rs) above = ground (arith, above.0, keep-above m p rs above.1)

-- The rows up to `m` are those of the batch, where `m` parts the batch from the rest.
keep-window :
    (n m : ℕ) (p : LogRow → Bool) (rs : List LogRow)
    → All (λ (r : LogRow). m < r.id) (drop n rs)
    → All (λ (r : LogRow). r.id ≤ m) (keep p (take n rs))
    → keep (λ (r : LogRow). leb r.id m && p r) rs ≡ keep p (take n rs)
keep-window n m p [] above below = refl
keep-window zero m p (r ∷ rs) above below = keep-above m p (r ∷ rs) above
keep-window (suc n) m p (r ∷ rs) above below = elim (Bool-cases (p r)) [
  | inl e ↦
      let low : leb r.id m ≡ true = leb_of_le r.id m (rw e at below).0 in
      rw (low, e) (ap (λ l. r ∷ l) (keep-window n m p rs above (rw e at below).1))
  | inr e ↦ let rest = keep-window n m p rs above (rw e at below) in ground (arith, e, rest)
]

pub keep-keep :
    (p q : LogRow → Bool) (rs : List LogRow)
    → keep p (keep q rs) ≡ keep (λ (r : LogRow). q r && p r) rs
keep-keep p q [] = refl
keep-keep p q (r ∷ rs) = ground (arith, keep-keep p q rs)

-- The rows that wait are in order, and beyond the cursor.
pub pending-IsAscending :
    (name : Text) (cursor : ℕ) (rows : List LogRow)
    → IsAscending rows
    → IsAscending (pending name cursor rows)
unfolding pending
pending-IsAscending name cursor rows up =
    keep-IsAscending (λ r. ltb cursor r.id && is_own name r) rows up

pub pending-above :
    (name : Text) (cursor : ℕ) (rows : List LogRow)
    → All (λ (r : LogRow). cursor < r.id) (pending name cursor rows)
unfolding pending
pending-above name cursor [] = tt
pending-above name cursor (r ∷ rows) = elim (Bool-cases (ltb cursor r.id && is_own name r)) [
  | inl e ↦ rw e (ground (arith, e), pending-above name cursor rows)
  | inr e ↦ rw e (pending-above name cursor rows)
]

scanned-window :
    (name : Text) (cursor : ℕ) (rows : List LogRow)
    → IsAscending rows
    → scanned name cursor rows
      ≡ keep
          (λ (r : LogRow).
            (ltb cursor r.id && is_own name r)
            && (leb r.id (max_seen cursor (scanned name cursor rows)) && r.readable))
          rows
scanned-window name cursor rows up =
    let ps = pending name cursor rows in
    let m = max_seen cursor (scanned name cursor rows) in
    let rest =
      max_seen-keep-take batch_size cursor (λ r. r.readable) ps
        (pending-IsAscending name cursor rows up) (pending-above name cursor rows) in
    let window =
      keep-window batch_size m (λ r. r.readable) ps (unfold scanned in rest)
        (unfold scanned in All-max_seen cursor m (scanned name cursor rows) (omega arith)) in
    unfold scanned pending in
    sym window
    ∙ keep-keep (λ r. leb r.id m && r.readable) (λ r. ltb cursor r.id && is_own name r) rows

push_rows-pushed :
    (lib : UrlLib) (ask : Text → Text → LogBatch → Bool) (c : Config) (cursor m : ℕ)
    (rs : List LogRow) (batch : LogBatch)
    → push_rows lib ask c cursor rs ≡ pushed batch m
    → (batch ≡ record { node_name = own_name c; queries = map (entry_of (own_name c)) rs })
      × (m ≡ max_seen cursor rs)
unfolding push_rows
push_rows-pushed lib ask c cursor m [] batch h = cc h
push_rows-pushed lib ask c cursor m (r ∷ rs) batch h =
    elim (Option-cases (endpoint lib (lit "/api/cluster/logs/ingest") c.cluster_primary_url)) [
      | inl e ↦ cc (rw (push_rows, e) at h)
      | inr (target, e) ↦
          elim (Bool-cases (
            ask target c.cluster_primary_token (record {
              node_name = own_name c;
              queries = map (entry_of (own_name c)) (r ∷ rs);
            }))) [
              | inl yes_ ↦ let h' = rw (push_rows, e, yes_) at h in (sym (cc h'), sym (cc h'))
              | inr no_ ↦ cc (rw (push_rows, e, no_) at h)
            ]
    ]

pub sync_logs-push_rows :
    (lib : UrlLib) (ask : Text → Text → LogBatch → Bool) (db_ok : Bool) (rows : List LogRow)
    (c : Config) (cursor m : ℕ) (batch : LogBatch)
    → sync_logs lib ask db_ok rows c cursor ≡ pushed batch m
    → push_rows lib ask c cursor (scanned (own_name c) cursor rows) ≡ pushed batch m
unfolding sync_logs
sync_logs-push_rows lib ask db_ok rows c cursor m batch h =
    elim (Bool-cases (not (is_sharing c) || not (is_linked c))) [
      | inl e ↦ cc (rw e at h)
      | inr e ↦ elim (Bool-cases db_ok) [
        | inl ok ↦ rw (e, ok) at h
        | inr bad ↦ cc (rw (e, bad) at h)
      ]
    ]

-- A batch that the primary takes holds exactly the node's own readable entries beyond the old cursor and up
-- to the new one, in order: none is left out, and none is sent a second time.
pub sync_logs-exact :
    (lib : UrlLib) (ask : Text → Text → LogBatch → Bool) (db_ok : Bool) (rows : List LogRow)
    (c : Config) (cursor m : ℕ) (batch : LogBatch)
    → IsAscending rows
    → sync_logs lib ask db_ok rows c cursor ≡ pushed batch m
    → batch.queries
      ≡ map (entry_of (own_name c)) (
          keep
            (λ (r : LogRow).
              (ltb cursor r.id && is_own (own_name c) r) && (leb r.id m && r.readable))
            rows)
sync_logs-exact lib ask db_ok rows c cursor m batch up h =
    let (whole, last) =
      push_rows-pushed lib ask c cursor m (scanned (own_name c) cursor rows) batch
        (sync_logs-push_rows lib ask db_ok rows c cursor m batch h) in
    ap (λ (b : LogBatch). b.queries) whole
    ∙ ap (map (entry_of (own_name c))) (rw last (scanned-window (own_name c) cursor rows up))

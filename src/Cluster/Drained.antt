-- ===== src/Cluster/Drained.antt =====
-- That repeated calls of `SyncClusterLogs`, admin/api_cluster_sync.go, deliver every entry.
use shield_dns.Prelude.{
  ℕ, zero, suc, ◌*◌, ◌≡◌, ◌≤◌, ◌<◌, inl, inr, refl, sym, subst, ap, ◌∙◌, arith, Bool, true, ◌&&◌,
  List, [], ◌∷◌, ◌++◌, map, keep, take, drop, length, length-drop, All, some, ltb, Bool-cases,
  ltb_of_lt, ltb_of_le,
}
use shield_dns.Text.{Text, lit}
use shield_dns.Server.{Config}
use shield_dns.Cluster.Primary.{LogBatch, LogEntry}
use shield_dns.Cluster.Node.{UrlLib, endpoint, is_linked}
use shield_dns.Cluster.Logs.{
  LogRow, own_name, is_own, pending, batch_size, scanned, entry_of, max_seen, is_sharing, Pushed,
  idle, failed, pushed, push_rows, sync_logs, next_cursor,
}
use shield_dns.Cluster.Delivered.{
  IsAscending, keep-keep, le-max_seen, All-max_seen, max_seen-keep-take, pending-IsAscending,
  pending-above,
}

keep-All :
    (p : LogRow → Bool) (rs : List LogRow) → All (λ (r : LogRow). p r ≡ true) rs → keep p rs ≡ rs
keep-All p [] h = refl
keep-All p (r ∷ rs) h = rw h.0 (ap (λ l. r ∷ l) (keep-All p rs h.1))

All-keep :
    (P : LogRow → Type 0) (p : LogRow → Bool) (rs : List LogRow) → All P rs → All P (keep p rs)
All-keep P p [] h = h
All-keep P p (r ∷ rs) h = elim (Bool-cases (p r)) [
  | inl e ↦ rw e (h.0, All-keep P p rs h.1)
  | inr e ↦ rw e (All-keep P p rs h.1)
]

All-take : (P : LogRow → Type 0) (n : ℕ) (rs : List LogRow) → All P rs → All P (take n rs)
All-take P n [] h = h
All-take P zero (r ∷ rs) h = tt
All-take P (suc n) (r ∷ rs) h = (h.0, All-take P n rs h.1)

All-weaken :
    {P Q : LogRow → Type 0} (rs : List LogRow) → ((r : LogRow) → P r → Q r) → All P rs → All Q rs
All-weaken [] f h = tt
All-weaken (r ∷ rs) f h = (f r h.0, All-weaken rs f h.1)

keep_same :
    (p q : LogRow → Bool) (rs : List LogRow) → ((r : LogRow) → p r ≡ q r) → keep p rs ≡ keep q rs
keep_same p q [] h = refl
keep_same p q (r ∷ rs) h = rw (h r, keep_same p q rs h) refl

-- Beyond `m` stand the rows behind the batch.
keep-drop :
    (n m : ℕ) (rs : List LogRow)
    → All (λ (r : LogRow). m < r.id) (drop n rs)
    → All (λ (r : LogRow). r.id ≤ m) (take n rs)
    → keep (λ (r : LogRow). ltb m r.id) rs ≡ drop n rs
keep-drop n m [] above below = refl
keep-drop zero m (r ∷ rs) above below =
    keep-All (λ r. ltb m r.id) (r ∷ rs)
      (All-weaken (r ∷ rs) (λ (q : LogRow). ltb_of_lt m q.id) above)
keep-drop (suc n) m (r ∷ rs) above below =
    rw (ltb_of_le m r.id below.0) (keep-drop n m rs above below.1)

pending-later :
    (name : Text) (cursor m : ℕ) (rows : List LogRow)
    → cursor ≤ m
    → pending name m rows ≡ keep (λ (r : LogRow). ltb m r.id) (pending name cursor rows)
unfolding pending
pending-later name cursor m rows h =
    keep_same (λ r. ltb m r.id && is_own name r)
      (λ r. (ltb cursor r.id && is_own name r) && ltb m r.id) rows
      (λ (r : LogRow). ground (arith, h))
    ∙ sym (keep-keep (λ r. ltb m r.id) (λ r. ltb cursor r.id && is_own name r) rows)

scanned-All :
    (name : Text) (cursor : ℕ) (rows : List LogRow)
    → All (λ (r : LogRow). r.readable ≡ true) rows
    → scanned name cursor rows ≡ take batch_size (pending name cursor rows)
unfolding scanned pending
scanned-All name cursor rows readable =
    let P : LogRow → Type 0 = λ r. r.readable ≡ true in
    keep-All (λ r. r.readable) (take batch_size (pending name cursor rows))
      (All-take P batch_size (pending name cursor rows)
        (All-keep P (λ r. ltb cursor r.id && is_own name r) rows readable))

-- What is beyond the greatest ID of the batch is what was not in it.
pending-max_seen :
    (name : Text) (cursor : ℕ) (rows : List LogRow)
    → IsAscending rows
    → All (λ (r : LogRow). r.readable ≡ true) rows
    → pending name (max_seen cursor (scanned name cursor rows)) rows
      ≡ drop batch_size (pending name cursor rows)
pending-max_seen name cursor rows up readable =
    let ps = pending name cursor rows in
    let m = max_seen cursor (scanned name cursor rows) in
    let all_read = scanned-All name cursor rows readable in
    let above =
      max_seen-keep-take batch_size cursor (λ r. r.readable) ps
        (pending-IsAscending name cursor rows up) (pending-above name cursor rows) in
    let below = All-max_seen cursor m (scanned name cursor rows) (omega arith) in
    pending-later name cursor m rows (le-max_seen cursor (scanned name cursor rows))
    ∙ keep-drop batch_size m ps (unfold scanned in above)
        (subst (λ l. All (λ (r : LogRow). r.id ≤ m) l) all_read below)

-- `n` calls in sequence, that all find the same rows: `lastSyncQueryID` afterwards, and the entries of all
-- batches that the primary took, in the order in which it took them.
unfoldable pub rounds : ℕ → UrlLib → (Text → Text → LogBatch → Bool) → List LogRow → Config → ℕ → ℕ
rounds zero lib ask rows c cursor = cursor
rounds (suc n) lib ask rows c cursor =
    rounds n lib ask rows c (next_cursor cursor (sync_logs lib ask true rows c cursor))

abbrev pub taken : Pushed → List LogEntry
taken idle = []
taken failed = []
taken (pushed batch m) = batch.queries

unfoldable pub received :
    ℕ → UrlLib → (Text → Text → LogBatch → Bool) → List LogRow → Config → ℕ → List LogEntry
received zero lib ask rows c cursor = []
received (suc n) lib ask rows c cursor =
    taken (sync_logs lib ask true rows c cursor)
    ++ received n lib ask rows c (next_cursor cursor (sync_logs lib ask true rows c cursor))

next_cursor-push_rows :
    (lib : UrlLib) (ask : Text → Text → LogBatch → Bool) (c : Config) (cursor : ℕ) (target : Text)
    (rs : List LogRow)
    → endpoint lib (lit "/api/cluster/logs/ingest") c.cluster_primary_url ≡ some target
    → ((b : LogBatch) → ask target c.cluster_primary_token b ≡ true)
    → next_cursor cursor (push_rows lib ask c cursor rs) ≡ max_seen cursor rs
unfolding push_rows next_cursor max_seen
next_cursor-push_rows lib ask c cursor target [] safe takes = refl
next_cursor-push_rows lib ask c cursor target (r ∷ rs) safe takes =
    rw (push_rows, safe, takes) (ground (arith, le-max_seen cursor (r ∷ rs)))

round-drop :
    (lib : UrlLib) (ask : Text → Text → LogBatch → Bool) (rows : List LogRow) (c : Config)
    (cursor : ℕ) (target : Text)
    → IsAscending rows
    → All (λ (r : LogRow). r.readable ≡ true) rows
    → is_sharing c ≡ true
    → is_linked c ≡ true
    → endpoint lib (lit "/api/cluster/logs/ingest") c.cluster_primary_url ≡ some target
    → ((b : LogBatch) → ask target c.cluster_primary_token b ≡ true)
    → pending (own_name c) (next_cursor cursor (sync_logs lib ask true rows c cursor)) rows
      ≡ drop batch_size (pending (own_name c) cursor rows)
unfolding sync_logs next_cursor max_seen
round-drop lib ask rows c cursor target up readable sharing linked safe takes =
    let name = own_name c in
    let next : next_cursor cursor (sync_logs lib ask true rows c cursor)
        ≡ max_seen cursor (scanned name cursor rows) =
      rw (sync_logs, sharing, linked)
        (next_cursor-push_rows lib ask c cursor target (scanned name cursor rows) safe takes) in
    ap (λ m. pending name m rows) next ∙ pending-max_seen name cursor rows up readable

taken-push_rows :
    (lib : UrlLib) (ask : Text → Text → LogBatch → Bool) (c : Config) (cursor : ℕ) (target : Text)
    (rs : List LogRow)
    → endpoint lib (lit "/api/cluster/logs/ingest") c.cluster_primary_url ≡ some target
    → ((b : LogBatch) → ask target c.cluster_primary_token b ≡ true)
    → taken (push_rows lib ask c cursor rs) ≡ map (entry_of (own_name c)) rs
unfolding push_rows
taken-push_rows lib ask c cursor target [] safe takes = refl
taken-push_rows lib ask c cursor target (r ∷ rs) safe takes = rw (push_rows, safe, takes) refl

round-taken :
    (lib : UrlLib) (ask : Text → Text → LogBatch → Bool) (rows : List LogRow) (c : Config)
    (cursor : ℕ) (target : Text)
    → All (λ (r : LogRow). r.readable ≡ true) rows
    → is_sharing c ≡ true
    → is_linked c ≡ true
    → endpoint lib (lit "/api/cluster/logs/ingest") c.cluster_primary_url ≡ some target
    → ((b : LogBatch) → ask target c.cluster_primary_token b ≡ true)
    → taken (sync_logs lib ask true rows c cursor)
      ≡ map (entry_of (own_name c)) (take batch_size (pending (own_name c) cursor rows))
unfolding sync_logs
round-taken lib ask rows c cursor target readable sharing linked safe takes =
    let name = own_name c in
    rw (sync_logs, sharing, linked)
      (taken-push_rows lib ask c cursor target (scanned name cursor rows) safe takes
        ∙ ap (map (entry_of name)) (scanned-All name cursor rows readable))

map-take-drop :
    (f : LogRow → LogEntry) (n : ℕ) (rs : List LogRow)
    → map f (take n rs) ++ map f (drop n rs) ≡ map f rs
map-take-drop f n [] = refl
map-take-drop f zero (r ∷ rs) = refl
map-take-drop f (suc n) (r ∷ rs) = ap (λ l. f r ∷ l) (map-take-drop f n rs)

length_zero : {A : Type 0} (xs : List A) → length xs ≤ 0 → xs ≡ []
length_zero [] h = refl
length_zero (x ∷ xs) h = absurd (omega (arith, h))

-- Every entry reaches the primary: where at most `500 * n` of the node's own entries wait, the batches that
-- the primary takes in `n` calls hold each of them once, in order, and nothing else, and none waits
-- afterwards. The primary takes each batch that it is sent, the rows can be scanned and do not change
-- meanwhile, and the URL of the primary passes the checks.
pub rounds-pending :
    (n : ℕ) (lib : UrlLib) (ask : Text → Text → LogBatch → Bool) (rows : List LogRow) (c : Config)
    (cursor : ℕ) (target : Text)
    → IsAscending rows
    → All (λ (r : LogRow). r.readable ≡ true) rows
    → is_sharing c ≡ true
    → is_linked c ≡ true
    → endpoint lib (lit "/api/cluster/logs/ingest") c.cluster_primary_url ≡ some target
    → ((b : LogBatch) → ask target c.cluster_primary_token b ≡ true)
    → length (pending (own_name c) cursor rows) ≤ 500 * n
    → (received n lib ask rows c cursor
        ≡ map (entry_of (own_name c)) (pending (own_name c) cursor rows))
      × (pending (own_name c) (rounds n lib ask rows c cursor) rows ≡ [])
unfolding rounds received
rounds-pending zero lib ask rows c cursor target up readable sharing linked safe takes few =
    let nothing = length_zero (pending (own_name c) cursor rows) (omega (arith, few)) in
    (rw nothing refl, nothing)
rounds-pending (suc n) lib ask rows c cursor target up readable sharing linked safe takes few =
    let cursor' = next_cursor cursor (sync_logs lib ask true rows c cursor) in
    let ps = pending (own_name c) cursor rows in
    let step = round-drop lib ask rows c cursor target up readable sharing linked safe takes in
    let fewer : length (pending (own_name c) cursor' rows) ≤ 500 * n =
      rw (step, length-drop batch_size ps) (omega (arith, few)) in
    let (rest, done) =
      rounds-pending n lib ask rows c cursor' target up readable sharing linked safe takes fewer in
    let now_ = round-taken lib ask rows c cursor target readable sharing linked safe takes in
    let later : received n lib ask rows c cursor'
        ≡ map (entry_of (own_name c)) (drop batch_size ps) =
      rest ∙ ap (map (entry_of (own_name c))) step in
    (
      ap (λ l. l ++ received n lib ask rows c cursor') now_
          ∙ (ap (λ l. map (entry_of (own_name c)) (take batch_size ps) ++ l) later
              ∙ map-take-drop (entry_of (own_name c)) batch_size ps),
      done,
    )

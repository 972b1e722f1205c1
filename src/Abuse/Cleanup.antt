-- ===== src/Abuse/Cleanup.antt =====
-- `startAbuseCleanup` of admin/abuse.go: what it leaves of the times that later queries count. It prunes the
-- table of top-level domains too, of which the analysis counts whole lists, old entries among them.
use shield_dns.Prelude.{
  ℕ, ◌*◌, ◌≤◌, ◌≡◌, refl, arith, true, List, [], ◌∷◌, if◌then◌else◌, none, some, option_or, ◌==◌,
  length, keep, Bool-cases, inl, inr, sym, ◌∙◌, ap, &&-true_parts, some_injective,
}
use shield_dns.Text.{Text, text_eq}
use shield_dns.Text.Equality.{text_eq_sound}
use shield_dns.Table.{Table, IsMap, lookup}
use shield_dns.Abuse.{Counters, new_counters, prune_window, minute, second}
use shield_dns.Abuse.Window.{in_window, keep-prune_window}
use shield_dns.Abuse.Blocking.{prune_table, prune_counters, is_idle, abuse_cleanup}

length_zero {ℓ} : {A : Type ℓ} (ts : List A) → (length ts == 0) ≡ true → ts ≡ []
length_zero [] e = refl
length_zero (t ∷ ts) e = absurd (ground (arith, e))

module _ (now later window : ℕ) (le : now ≤ later) (fits : window ≤ 10 * minute) where
  keep-keep :
      (ts : List ℕ)
      → keep (in_window later window) (keep (in_window now (10 * minute)) ts)
        ≡ keep (in_window later window) ts
  keep-keep [] = refl
  keep-keep (t ∷ ts) = ground (arith, keep-keep ts, le, fits)

  -- What a window holds later is not affected by the pruning.
  keep-pruned :
      (ts : List ℕ)
      → keep (in_window later window) (prune_window ts now (10 * minute))
        ≡ keep (in_window later window) ts
  keep-pruned ts =
      sym (keep-keep (prune_window ts now (10 * minute)))
      ∙ ap (keep (in_window later window)) (keep-prune_window now (10 * minute) ts)
      ∙ keep-keep ts

  keep-idle :
      (ts : List ℕ)
      → (length (prune_window ts now (10 * minute)) == 0) ≡ true
      → keep (in_window later window) ts ≡ []
  keep-idle ts e =
      sym (keep-pruned ts)
      ∙ ap (keep (in_window later window)) (length_zero (prune_window ts now (10 * minute)) e)

lookup-none-abuse_cleanup :
    (now : ℕ) (ip : Text) (all : Table Counters)
    → lookup ip all ≡ none
    → lookup ip (abuse_cleanup now all) ≡ none
unfolding lookup abuse_cleanup
lookup-none-abuse_cleanup now ip [] h = refl
lookup-none-abuse_cleanup now ip ((j, c) ∷ all) h =
    ground (arith, lookup-none-abuse_cleanup now ip all)

lookup-abuse_cleanup :
    (now : ℕ) (ip : Text) (c : Counters) (all : Table Counters)
    → IsMap all
    → lookup ip all ≡ some c
    → lookup ip (abuse_cleanup now all)
      ≡ (if is_idle (prune_counters now c) then none else some (prune_counters now c))
unfolding lookup abuse_cleanup
lookup-abuse_cleanup now ip c [] m h = cc
lookup-abuse_cleanup now ip c ((j, d) ∷ all) m h = elim (Bool-cases (text_eq j ip)) [
  | inl same ↦
      let d_c : d ≡ c = some_injective (rw same at h) in
      let gone : lookup ip all ≡ none = rw (text_eq_sound j ip same) at m.0 in
      elim (Bool-cases (is_idle (prune_counters now d))) [
        | inl e ↦ rw (e, ← d_c, e) (lookup-none-abuse_cleanup now ip all gone)
        | inr e ↦ rw (e, ← d_c, e, same) refl
      ]
  | inr other ↦
      let rest = lookup-abuse_cleanup now ip c all m.1 (rw other at h) in
      elim (Bool-cases (is_idle (prune_counters now d))) [
        | inl e ↦ rw e rest
        | inr e ↦ rw (e, other) rest
      ]
]

lookup-none-prune_table :
    (now : ℕ) (k : Text) (m : Table (List ℕ))
    → lookup k m ≡ none
    → lookup k (prune_table now m) ≡ none
unfolding lookup prune_table
lookup-none-prune_table now k [] h = refl
lookup-none-prune_table now k ((j, ts) ∷ m) h = ground (arith, lookup-none-prune_table now k m)

-- The list of a key, empty where there is none.
abbrev pub times_of : Text → Table (List ℕ) → List ℕ
times_of k m = option_or (lookup k m) []

module _ (now later window : ℕ) (le : now ≤ later) (fits : window ≤ 10 * minute) where
  abbrev seen : List ℕ → List ℕ
  seen ts = keep (in_window later window) ts

  seen-prune_table :
      (k : Text) (m : Table (List ℕ))
      → IsMap m
      → seen (times_of k (prune_table now m)) ≡ seen (times_of k m)
  unfolding lookup prune_table
  seen-prune_table k [] h = refl
  seen-prune_table k ((j, ts) ∷ m) h = elim (Bool-cases (text_eq j k)) [
    | inl same ↦
        let gone : lookup k m ≡ none = rw (text_eq_sound j k same) at h.0 in
        elim (Bool-cases (length (prune_window ts now (10 * minute)) == 0)) [
          | inl e ↦
              rw (e, same, lookup-none-prune_table now k m gone)
                (sym (keep-idle now later window le fits ts e))
          | inr e ↦ rw (e, same) (keep-pruned now later window le fits ts)
        ]
    | inr other ↦
        let rest = seen-prune_table k m h.1 in
        elim (Bool-cases (length (prune_window ts now (10 * minute)) == 0)) [
          | inl e ↦ rw (e, other) rest
          | inr e ↦ rw (e, other) rest
        ]
  ]

-- What the analysis counts at a later time of the queries so far, but for the counts of top-level domains.
pub record SeesSame (later : ℕ) (c d : Counters) : Type 0 where
  pub queries :
      keep (in_window later (60 * second)) c.all_query_times
      ≡ keep (in_window later (60 * second)) d.all_query_times
  pub nxdomains :
      keep (in_window later (60 * second)) c.nxdomain_times
      ≡ keep (in_window later (60 * second)) d.nxdomain_times
  pub labels :
      keep (in_window later (5 * minute)) c.dga_times
      ≡ keep (in_window later (5 * minute)) d.dga_times
  pub domains :
      (k : Text)
      → keep (in_window later (60 * second)) (times_of k c.domain_times)
        ≡ keep (in_window later (60 * second)) (times_of k d.domain_times)

module _ (now later : ℕ) (c : Counters) (le : now ≤ later) (m : IsMap c.domain_times) where
  prune_counters-SeesSame : SeesSame later (prune_counters now c) c
  unfolding prune_counters
  prune_counters-SeesSame = record {
    queries = keep-pruned now later (60 * second) le (omega arith) c.all_query_times;
    nxdomains = keep-pruned now later (60 * second) le (omega arith) c.nxdomain_times;
    labels = keep-pruned now later (5 * minute) le (omega arith) c.dga_times;
    domains = λ k. seen-prune_table now later (60 * second) le (omega arith) k c.domain_times m;
  }

  idle-SeesSame : is_idle (prune_counters now c) ≡ true → SeesSame later new_counters c
  unfolding is_idle prune_counters
  idle-SeesSame e =
      let (front, no_labels) = &&-true_parts _ _ e in
      let (front', no_nxdomains) = &&-true_parts _ _ front in
      let (no_queries, no_domains) = &&-true_parts _ _ front' in
      record {
        queries =
            sym (keep-idle now later (60 * second) le (omega arith) c.all_query_times no_queries);
        nxdomains =
            sym (keep-idle now later (60 * second) le (omega arith) c.nxdomain_times no_nxdomains);
        labels = sym (keep-idle now later (5 * minute) le (omega arith) c.dga_times no_labels);
        domains = λ k.
            ap (λ t. keep (in_window later (60 * second)) (times_of k t))
              (sym (length_zero (prune_table now c.domain_times) no_domains))
            ∙ seen-prune_table now later (60 * second) le (omega arith) k c.domain_times m;
      }

-- A clean-up, which also drops the clients that are idle, does not change these counts of a known client at
-- any later time: the queries of the last minute, all of them, those for each domain and the failed ones, and
-- the generated labels of the last five minutes. The tables name each key once. The counts of top-level
-- domains are not among them.
pub abuse_cleanup-SeesSame :
    (now later : ℕ) (ip : Text) (c : Counters) (all : Table Counters)
    → now ≤ later
    → IsMap all
    → IsMap c.domain_times
    → lookup ip all ≡ some c
    → SeesSame later (option_or (lookup ip (abuse_cleanup now all)) new_counters) c
abuse_cleanup-SeesSame now later ip c all le m md h =
    rw (lookup-abuse_cleanup now ip c all m h) (elim (Bool-cases (is_idle (prune_counters now c))) [
      | inl e ↦ rw e (idle-SeesSame now later c le md e)
      | inr e ↦ rw e (prune_counters-SeesSame now later c le md)
    ])

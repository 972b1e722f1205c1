-- ===== src/Cluster/Redirect.antt =====
-- admin/api_security.go: where `sanitizeRedirect` may send a browser.
use shield_dns.Prelude.{
  ◌≡◌, ◌⊎◌, inl, inr, refl, arith, true, false, ◌||◌, Bool-cases, Option-cases,
}
use shield_dns.Text.{Text, lit, has_prefix, cut_prefix, is_empty, trim_space}
use shield_dns.Cluster.OutboundUrl.{is_outbound_url}
use shield_dns.Cluster.Node.{UrlLib, is_valid_redirect_url, sanitize_redirect}

-- A path of this site: one slash, and no slash or backslash after it.
abbrev pub IsLocal : Text → Type 0
IsLocal t =
    (has_prefix (lit "/") t ≡ true)
    × (has_prefix (lit "//") t ≡ false)
    × (has_prefix (lit "/\\") t ≡ false)

-- The default target, kept shut.
default-IsLocal : IsLocal (lit "/admin/")
unfolding lit has_prefix cut_prefix
default-IsLocal = (refl, refl, refl)

-- A URL with a host of its own, behind `http://` or `https://`.
pub record IsWebUrl (lib : UrlLib) (t : Text) : Type 0 where
  pub scheme : (has_prefix (lit "http://") t ≡ true) ⊎ (has_prefix (lit "https://") t ≡ true)
  pub valid : is_valid_redirect_url lib t ≡ true

outbound-scheme :
    (t : Text)
    → is_outbound_url t ≡ true
    → (has_prefix (lit "http://") t ≡ true) ⊎ (has_prefix (lit "https://") t ≡ true)
unfolding is_outbound_url has_prefix
outbound-scheme t h = elim (Option-cases (cut_prefix (lit "http://") t)) [
  | inr (rest, e) ↦ inl (rw e refl)
  | inl no_http ↦ elim (Option-cases (cut_prefix (lit "https://") t)) [
    | inr (rest, e) ↦ inr (rw e refl)
    | inl no_https ↦ cc (rw (is_outbound_url, no_http, no_https) at h)
  ]
]

valid-IsWebUrl : (lib : UrlLib) (t : Text) → is_valid_redirect_url lib t ≡ true → IsWebUrl lib t
unfolding is_valid_redirect_url
valid-IsWebUrl lib t h = elim (Bool-cases (is_outbound_url t)) [
  | inl e ↦ record { scheme = outbound-scheme t e; valid = h }
  | inr e ↦ absurd (ground (arith, h, e))
]

-- A browser is only sent to a path of this site, which starts with one slash that no slash or backslash
-- follows, or to a URL that starts with `http://` or `https://` and passes `isValidRedirectUrl`: never to
-- `//host` or `/\host`.
pub sanitize_redirect-IsLocal :
    (lib : UrlLib) (target : Text)
    → IsLocal (sanitize_redirect lib target) ⊎ IsWebUrl lib (sanitize_redirect lib target)
unfolding sanitize_redirect
sanitize_redirect-IsLocal lib target =
    let t = trim_space target in
    elim (Bool-cases (is_empty t)) [
      | inl empty ↦ rw empty (inl default-IsLocal)
      | inr full ↦
          elim (Bool-cases
            (has_prefix (lit "//") t || has_prefix (lit "/\\") t || has_prefix (lit "\\") t)) [
              | inl evasive ↦ rw (full, evasive) (inl default-IsLocal)
              | inr plain ↦ elim (Bool-cases (has_prefix (lit "/") t)) [
                | inl local ↦
                    rw (full, plain, local)
                      (inl (local, ground (arith, plain), ground (arith, plain)))
                | inr other ↦ elim (Bool-cases (is_valid_redirect_url lib t)) [
                  | inl valid ↦ rw (full, plain, other, valid) (inr (valid-IsWebUrl lib t valid))
                  | inr bad ↦ rw (full, plain, other, bad) (inl default-IsLocal)
                ]
              ]
            ]
    ]

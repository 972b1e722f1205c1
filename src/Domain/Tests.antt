-- ===== src/Domain/Tests.antt =====
-- Runs of `normalize_domain`, `split_host_port` and `is_valid_domain`.
use shield_dns.Prelude.{◌≡◌, refl, Bool, true, false, some, none, []}
use shield_dns.Text.{Text, lit, text_eq}
use shield_dns.Domain.Normal.{IsNormal, normalize_domain-IsNormal}
use shield_dns.Domain.{split_host_port, normalize_domain, is_valid_domain}

-- An address parser that knows one address.
abbrev one_ip : Text → Bool
one_ip s = text_eq s (lit "::1")

normalize_tests :
    (normalize_domain (lit " HTTPS://Ads.Example.com:8443/x?y ") ≡ lit "ads.example.com")
    × (normalize_domain (lit "example.com.") ≡ lit "example.com")
    × (normalize_domain (lit "//evil.com") ≡ [])
    × (normalize_domain (lit "a..b") ≡ [])
    × (normalize_domain (lit "a b") ≡ [])
    × (normalize_domain (lit "*.example.com") ≡ lit "*.example.com")
    × (normalize_domain (lit "[abc]:80") ≡ lit "abc")
unfolding normalize_domain lit
normalize_tests = (refl, refl, refl, refl, refl, refl, refl)

split_host_port_tests :
    (split_host_port (lit "[::1]:53") ≡ some (lit "::1", lit "53"))
    × (split_host_port (lit "[::1]") ≡ none)
    × (split_host_port (lit "a:b:c") ≡ none)
    × (split_host_port (lit "1.2.3.4:53") ≡ some (lit "1.2.3.4", lit "53"))
    × (split_host_port (lit "host") ≡ none)
unfolding split_host_port lit
split_host_port_tests = (refl, refl, refl, refl, refl)

is_valid_domain_tests :
    (is_valid_domain one_ip (lit "*.a-b.example_x.com") ≡ true)
    × (is_valid_domain one_ip (lit "::1") ≡ true)
    × (is_valid_domain one_ip (lit "a..b") ≡ false)
    × (is_valid_domain one_ip (lit "-a.b") ≡ false)
    × (is_valid_domain one_ip (lit "a-.b") ≡ false)
    × (is_valid_domain one_ip (lit "a.*.b") ≡ false)
unfolding is_valid_domain lit text_eq
is_valid_domain_tests = (refl, refl, refl, refl, refl, refl)

normalize_domain-IsNormal_example :
    IsNormal (normalize_domain (lit " HTTPS://Ads.Example.com:8443/x?y "))
normalize_domain-IsNormal_example =
    normalize_domain-IsNormal (lit " HTTPS://Ads.Example.com:8443/x?y ")

-- ===== src/Auth/Lockout.antt =====
-- The lockout of `handleLogin` in admin/auth.go: how often a password can be tried from one address.
use shield_dns.Prelude.{
  ℕ, suc, ◌+◌, ◌*◌, ◌≤◌, ◌<◌, ◌≡◌, refl, arith, Bool, false, ◌&&◌, List, [], ◌∷◌, Option, none,
  some, if◌then◌else◌, Bool-cases, inl, inr, leb, ◌==◌, lt_of_leb,
}
use shield_dns.Text.{Text, text_eq}
use shield_dns.Text.Equality.{text_eq_sound, text_eq_refl}
use shield_dns.Table.{lookup-insert, lookup-delete}
use shield_dns.Auth.{Request, Auth, get_client_ip}
use shield_dns.Auth.Login.{
  Passwords, failures_of, login_succeeds, login_fails, check_login, handle_login,
}

pub record Attempt : Type 0 where
  pub passwords : Passwords
  pub request : Request
  pub body : Option Text

abbrev pub log_in : Attempt → Auth → Auth × ℕ
log_in a s = handle_login a.passwords a.request a.body s

abbrev pub is_from : Text → Attempt → Bool
is_from ip a = text_eq (get_client_ip a.request) ip

-- How many of the attempts, handled one after the other, come from the address and have this answer.
unfoldable pub count_answers : Text → ℕ → List Attempt → Auth → ℕ
count_answers ip status [] s = 0
count_answers ip status (a ∷ attempts) s =
    let (s', answer) = log_in a s in
    let rest = count_answers ip status attempts s' in
    if is_from ip a && answer == status then suc rest else rest

-- What an attempt from the address does to the count of its failures.
data IsCounted (ip : Text) (before : ℕ) : Auth × ℕ → Type 0 where
  ignored :
      {s : Auth} {status : ℕ}
      → failures_of ip s ≡ before
      → (status == 401) ≡ false
      → (status == 200) ≡ false
      → IsCounted ip before (s, status)
  wrong : {s : Auth} → before < 10 → failures_of ip s ≡ suc before → IsCounted ip before (s, 401)
  right : {s : Auth} → failures_of ip s ≡ 0 → IsCounted ip before (s, 200)

login_fails-failures :
    (req : Request) (s : Auth)
    → failures_of (get_client_ip req) (login_fails req s) ≡ suc (failures_of (get_client_ip req) s)
unfolding login_fails
login_fails-failures req s = rw (lookup-insert, text_eq_refl (get_client_ip req)) refl

login_succeeds-failures :
    (p : Passwords) (req : Request) (s : Auth)
    → failures_of (get_client_ip req) (login_succeeds p req s) ≡ 0
unfolding login_succeeds
login_succeeds-failures p req s = rw (lookup-delete, text_eq_refl (get_client_ip req)) refl

check_login-IsCounted :
    (p : Passwords) (req : Request) (body : Option Text) (s : Auth)
    → failures_of (get_client_ip req) s < 10
    → IsCounted (get_client_ip req) (failures_of (get_client_ip req) s) (check_login p req body s)
unfolding check_login
check_login-IsCounted p req none s few = ignored refl refl refl
check_login-IsCounted p req (some password) s few =
    elim (Bool-cases (p.verify s.server.config.admin_password_hashed password)) [
      | inl good ↦ rw good (right (login_succeeds-failures p req s))
      | inr bad ↦ rw bad (wrong few (login_fails-failures req s))
    ]

handle_login-IsCounted :
    (p : Passwords) (req : Request) (body : Option Text) (s : Auth)
    → IsCounted (get_client_ip req) (failures_of (get_client_ip req) s) (handle_login p req body s)
unfolding handle_login
handle_login-IsCounted p req body s =
    elim (Bool-cases (leb 10 (failures_of (get_client_ip req) s))) [
      | inl e ↦ rw e (ignored refl refl refl)
      | inr e ↦ rw e (check_login-IsCounted p req body s (lt_of_leb 10 _ e))
    ]

-- An attempt from another address does not count.
module _ (ip : Text) (p : Passwords) (req : Request) (s : Auth)
    (other : text_eq (get_client_ip req) ip ≡ false) where
  failures_of-check_login :
      (body : Option Text) → failures_of ip (check_login p req body s).0 ≡ failures_of ip s
  unfolding check_login login_succeeds login_fails
  failures_of-check_login none = refl
  failures_of-check_login (some password) =
      elim (Bool-cases (p.verify s.server.config.admin_password_hashed password)) [
        | inl good ↦ rw good (rw (lookup-delete, other) refl)
        | inr bad ↦ rw bad (rw (lookup-insert, other) refl)
      ]

  failures_of-handle_login :
      (body : Option Text) → failures_of ip (handle_login p req body s).0 ≡ failures_of ip s
  unfolding handle_login
  failures_of-handle_login body = elim (Bool-cases (leb 10 (failures_of (get_client_ip req) s))) [
    | inl e ↦ rw e refl
    | inr e ↦ rw e (failures_of-check_login body)
  ]

counted-le :
    (ip : Text) (before : ℕ) (attempts : List Attempt) (r : Auth × ℕ)
    → IsCounted ip before r
    → before ≤ 10
    → (failures_of ip r.0 ≤ 10
        → count_answers ip 401 attempts r.0 + failures_of ip r.0
          ≤ 10 * suc (count_answers ip 200 attempts r.0))
    → (let rest = count_answers ip 401 attempts r.0 in if r.1 == 401 then suc rest else rest)
        + before
      ≤ 10
        * suc
            (let rest = count_answers ip 200 attempts r.0 in if r.1 == 200 then suc rest else rest)
counted-le ip before attempts (s, status) (ignored same n401 n200) few ih =
    rw (n401, n200) (omega (arith, ih (omega (arith, same, few)), same))
counted-le ip before attempts (s, status) (wrong lt more) few ih =
    omega (arith, ih (omega (arith, lt, more)), more)
counted-le ip before attempts (s, status) (right none_left) few ih =
    omega (arith, ih (omega (arith, none_left)), none_left, few)

-- Of any sequence of logins, those from one address that are answered "wrong password" are at most ten,
-- with the failures before, and ten more for each login from it that succeeds, as long as nothing forgives
-- failures in between. The address has at most ten failures at the start.
pub count_answers-le :
    (ip : Text) (attempts : List Attempt) (s : Auth)
    → failures_of ip s ≤ 10
    → count_answers ip 401 attempts s + failures_of ip s
      ≤ 10 * suc (count_answers ip 200 attempts s)
unfolding count_answers
count_answers-le ip [] s few = omega (arith, few)
count_answers-le ip (a ∷ attempts) s few = elim (Bool-cases (is_from ip a)) [
  | inr other ↦
      let same = failures_of-handle_login ip a.passwords a.request s other a.body in
      let rest = count_answers-le ip attempts (log_in a s).0 (omega (arith, same, few)) in
      rw other (omega (arith, rest, same))
  | inl own ↦
      let counted : IsCounted ip (failures_of ip s) (log_in a s) =
        rw (text_eq_sound _ ip own) at (handle_login-IsCounted a.passwords a.request a.body s) in
      rw own (
        counted-le ip (failures_of ip s) attempts (log_in a s) counted few
          (count_answers-le ip attempts (log_in a s).0))
]

-- ===== src/Rules/Sign/Guards.antt =====
-- What the rule for generic data approves, told without its code.
use dirk.Rules.Env.{Env}
use dirk.Rules.Types
use dirk.Prelude.{
  [], ◌∷◌, ◌⊎◌, ◌↔◌, ◌||◌, inl, inr, false, Bool-cases, bytes_equal, str_eq, eq_iff, sym, ap, subst,
  ◌≡◌, ◌≢◌, refl, true, some, List, arith, bytes_equal_iff, String,
}
use dirk.Go.{ret-inj, panic, first4, Bytes, ret, Go}
use dirk.Rules.Types.{SignData, ReqMetadata}
use dirk.Rules.Sign.{is_admin_ip, check_domain, on_sign, approved}

-- One of the addresses.
abbrev pub OneOf : String → List String → Type 0
OneOf ip [] = ⊥
OneOf ip (a ∷ rest) = (a ≡ ip) ⊎ OneOf ip rest

is_admin_ip-OneOf : (ips : List String) (ip : String) → is_admin_ip ips ip ≡ true → OneOf ip ips
unfolding is_admin_ip
is_admin_ip-OneOf [] ip h = cc
is_admin_ip-OneOf (a ∷ rest) ip h = elim (Bool-cases (str_eq ip a)) [
  | inl same ↦ inl (sym ((eq_iff ip a).0 same))
  | inr other ↦
      inr (is_admin_ip-OneOf rest ip (subst (λ b. (b || is_admin_ip rest ip) ≡ true) other h))
]

OneOf-is_admin_ip : (ips : List String) (ip : String) → OneOf ip ips → is_admin_ip ips ip ≡ true
unfolding is_admin_ip
OneOf-is_admin_ip [] ip h = absurd h
OneOf-is_admin_ip (a ∷ rest) ip (inl e) = rw ((eq_iff ip a).1 (sym e)) refl
OneOf-is_admin_ip (a ∷ rest) ip (inr h) = ground (arith, OneOf-is_admin_ip rest ip h)

bytes_equal-ne : (k j : Bytes) → k ≢ j → bytes_equal k j ≡ false
bytes_equal-ne k j h = ground (arith, bytes_equal_iff k j)

str_eq-ne : (a b : String) → a ≢ b → str_eq a b ≡ false
str_eq-ne a b h = elim (Bool-cases (str_eq a b)) [
  | inl same ↦ absurd (h ((eq_iff a b).0 same))
  | inr other ↦ other
]

module _ (E : Env) (admin_ips : List String) where
  -- The domain is neither of the two types that have a rule of their own; and if it is that of
  -- voluntary exits, the client has an address, which is one of the administrators'.
  pub record Permitted (domain : Bytes) (ip : String) : Type 0 where
    pub not_attester : domain ≢ E.domain_beacon_attester
    pub not_proposer : domain ≢ E.domain_beacon_proposer
    pub exit_is_admin : domain ≡ E.domain_voluntary_exit → (ip ≢ "") × OneOf ip admin_ips

  check_domain-admin :
      (domain : Bytes) (ip : String)
      → check_domain E admin_ips domain ip ≡ approved
      → domain ≡ E.domain_voluntary_exit
      → (str_eq ip "" ≡ false) × (is_admin_ip admin_ips ip ≡ true)
  unfolding check_domain
  check_domain-admin domain ip h e = ground (arith, bytes_equal_iff domain E.domain_voluntary_exit)

  check_domain-Permitted :
      (domain : Bytes) (ip : String)
      → check_domain E admin_ips domain ip ≡ approved
      → Permitted domain ip
  unfolding check_domain
  check_domain-Permitted domain ip h = record {
    not_attester = λ e. ground (arith, bytes_equal_iff domain E.domain_beacon_attester);
    not_proposer = λ e. ground (arith, bytes_equal_iff domain E.domain_beacon_proposer);
    exit_is_admin = λ e.
        let (some_ip, admin) = check_domain-admin domain ip h e in
        (λ none_ip. ground (arith, eq_iff ip ""), is_admin_ip-OneOf admin_ips ip admin);
  }

  Permitted-check_domain :
      (domain : Bytes) (ip : String)
      → Permitted domain ip
      → check_domain E admin_ips domain ip ≡ approved
  unfolding check_domain
  Permitted-check_domain domain ip p =
      elim (Bool-cases (bytes_equal domain E.domain_voluntary_exit)) [
        | inl is_exit ↦
            let e = (bytes_equal_iff domain E.domain_voluntary_exit).0 is_exit in
            let admin = OneOf-is_admin_ip admin_ips ip (p.exit_is_admin e).1 in
            let given = (p.exit_is_admin e).0 in
            rw
              (
                check_domain,
                bytes_equal-ne domain E.domain_beacon_attester p.not_attester,
                bytes_equal-ne domain E.domain_beacon_proposer p.not_proposer,
                is_exit,
                str_eq-ne ip "" given,
                admin,
              )
              refl
        | inr other ↦
            rw
              (
                check_domain,
                bytes_equal-ne domain E.domain_beacon_attester p.not_attester,
                bytes_equal-ne domain E.domain_beacon_proposer p.not_proposer,
                other,
              )
              refl
      ]

  after_first4 :
      (ip : String) (g : Go Bytes)
      → (elim g as (λ x. Go Types.Result) [
        | panic ↦ panic
        | ret domain ↦ ret (check_domain E admin_ips domain ip)
      ]
          ≡ ret approved)
        ↔ ((domain : Bytes) × (g ≡ ret domain) × Permitted domain ip)
  after_first4 ip panic = (λ h. cc, λ (domain, e, p). cc)
  after_first4 ip (ret domain) = (
    λ h. (domain, refl, check_domain-Permitted domain ip (ground arith)),
    λ (d, e, p).
        ap ret (Permitted-check_domain domain ip (subst (λ z. Permitted z ip) (sym (ret-inj e)) p)),
  )

  -- OnSign, on metadata and a request that are not nil, approves exactly if the domain has four
  -- bytes to read, they are neither the attester's nor the proposer's domain type, and if they are
  -- that of voluntary exits, the client has an address and it is one of the administrators'.
  pub on_sign-Permitted :
      (m : ReqMetadata) (req : SignData)
      → (on_sign E admin_ips (some m) (some req) ≡ ret approved)
        ↔ ((domain : Bytes) × (first4 req.domain ≡ ret domain) × Permitted domain m.ip)
  unfolding on_sign
  on_sign-Permitted m req = after_first4 m.ip (first4 req.domain)

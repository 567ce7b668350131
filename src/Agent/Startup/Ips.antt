-- ===== src/Agent/Startup/Ips.antt =====
-- The addresses that `get_local_ips` of src/agent/main_agent.cpp finds.
use drlog_search.Base.{
  ℕ, suc, Bool, true, false, not, ◌&&◌, Option, none, some, List, [], ◌∷◌, ◌++◌, Bytes, ◌≡◌, refl,
  sym, ◌∙◌, ◌≢◌, ◌↔◌, ◌⊎◌, inl, inr, All, Bool-cases, Option-cases, is_empty, eqb_iff, arith, drop,
  length,
}
use mathlib.Core.Option
use drlog_search.Text.{find, starts_with}
use drlog_search.Text.Find.{starts_with-append, starts_with-eq}
use drlog_search.Http.{returned}
use drlog_search.Util.Split.{split}
use drlog_search.Indexer.Files.{begins_with}
use drlog_search.Agent.Startup.{
  Sockaddr, inet, inet6, other_family, Ifaddrs, ip_matches_prefix, has_name, pushed, address_of,
  interface_loop, interface_ips, get_local_ips,
}

-- Some element is so.
abbrev pub OneOf {ℓ} : {A : Type ℓ} → (A → Type 0) → List A → Type 0
OneOf P [] = ⊥
OneOf P (x ∷ xs) = P x ⊎ OneOf P xs

OneOf-append {ℓ} :
    {A : Type ℓ} (P : A → Type 0) (xs ys : List A) → OneOf P (xs ++ ys) ↔ (OneOf P xs ⊎ OneOf P ys)
OneOf-append P [] ys = (λ z. inr z, λ z. elim z [ inl v ↦ absurd v | inr o ↦ o ])
OneOf-append P (x ∷ xs) ys =
    let later = OneOf-append P xs ys in
    (
      λ z. elim z [
        | inl p ↦ inl (inl p)
        | inr o ↦ elim (later.0 o) [ inl q ↦ inl (inr q) | inr q ↦ inr q ]
      ],
      λ z. elim z [
        | inl o ↦ elim o [ inl p ↦ inl p | inr q ↦ inr (later.1 (inl q)) ]
        | inr q ↦ inr (later.1 (inr q))
      ],
    )

abbrev pub Begins : Bytes → Bytes → Type 0
Begins text prefix = (rest : Bytes) × (text ≡ prefix ++ rest)

-- A choice is not made, or the text is so for one of the parts of the choice.
abbrev pub Chosen : Bytes → (Bytes → Type 0) → List Bytes → Type 0
Chosen choice P parts = (choice ≡ []) ⊎ OneOf P parts

begins_with_later : (o : Option ℕ) → begins_with (Option.map suc o) ≡ false
unfolding begins_with
begins_with_later none = refl
begins_with_later (some i) = ground arith

begins_with-find : (text prefix : Bytes) → begins_with (find text prefix) ≡ starts_with text prefix
unfolding begins_with find
begins_with-find [] prefix = elim (Bool-cases (starts_with [] prefix)) [
  | inl y ↦ ground arith
  | inr n ↦ ground arith
]
begins_with-find (c ∷ text) prefix = elim (Bool-cases (starts_with (c ∷ text) prefix)) [
  | inl y ↦ ground arith
  | inr n ↦ ground (arith, begins_with_later (find text prefix))
]

Begins-iff : (text prefix : Bytes) → (begins_with (find text prefix) ≡ true) ↔ Begins text prefix
Begins-iff text prefix = (
  λ h. (
    drop (length prefix) text,
    starts_with-eq text prefix (sym (begins_with-find text prefix) ∙ h),
  ),
  λ b.
      (begins_with-find text prefix
        ∙ (let e : text ≡ prefix ++ b.0 = b.1 in rw e (starts_with-append prefix b.0))),
)

ip_matches_prefix_iff :
    (ip : Bytes) (prefixes : List Bytes)
    → (ip_matches_prefix ip prefixes ≡ true) ↔ OneOf (Begins ip) prefixes
unfolding ip_matches_prefix
ip_matches_prefix_iff ip [] = ((λ e. cc), λ e. absurd e)
ip_matches_prefix_iff ip (prefix ∷ prefixes) =
    ground (arith, Begins-iff ip prefix, ip_matches_prefix_iff ip prefixes)

has_name_iff :
    (name : Bytes) (interfaces : List Bytes)
    → (has_name name interfaces ≡ true) ↔ OneOf (λ n. n ≡ name) interfaces
unfolding has_name
has_name_iff name [] = ((λ e. cc), λ e. absurd e)
has_name_iff name (n ∷ interfaces) = ground (arith, eqb_iff n name, has_name_iff name interfaces)

module _ (interface_names ip_prefixes : Bytes) where
  -- The interface is asked for, and has an IPv4 address that is.
  abbrev pub Offers : Bytes → Ifaddrs → Type 0
  Offers ip ifa =
      Chosen interface_names (λ n. n ≡ ifa.ifa_name) (split interface_names b'|')
      × (ifa.ifa_addr ≡ some (inet ip))
      × Chosen ip_prefixes (Begins ip) (split ip_prefixes b'|')

  Chosen-iff :
      (choice : Bytes) (P : Bytes → Type 0) (parts : List Bytes) (b : Bool)
      → (b ≡ true) ↔ OneOf P parts
      → ((not (is_empty choice) && not b) ≡ false) ↔ Chosen choice P parts
  Chosen-iff [] P parts b h = (λ e. inl refl, λ c. refl)
  Chosen-iff (c ∷ choice) P parts true h = (λ e. inr (h.0 refl), λ z. refl)
  Chosen-iff (c ∷ choice) P parts false h =
      (λ e. cc, λ z. elim z [ inl e ↦ cc | inr o ↦ absurd (let t = h.1 o in cc) ])

  pushed_iff :
      (ip found : Bytes)
      → OneOf (λ x. x ≡ found) (pushed ip_prefixes (split ip_prefixes b'|') ip)
        ↔ ((ip ≡ found) × Chosen ip_prefixes (Begins ip) (split ip_prefixes b'|'))
  unfolding pushed
  pushed_iff ip found =
      let prefixes = split ip_prefixes b'|' in
      let chosen =
        Chosen-iff ip_prefixes (Begins ip) prefixes (ip_matches_prefix ip prefixes)
          (ip_matches_prefix_iff ip prefixes) in
      elim (Bool-cases (not (is_empty ip_prefixes) && not (ip_matches_prefix ip prefixes))) [
        | inl y ↦ rw y (λ z. absurd z, λ z. let f = chosen.1 z.1 in absurd cc)
        | inr n ↦ rw n (λ z. elim z [ inl e ↦ (e, chosen.0 n) | inr v ↦ absurd v ], λ z. inl z.0)
      ]

  address_of_iff :
      (addr : Sockaddr)
      → (ips : List Bytes) × (address_of ip_prefixes (split ip_prefixes b'|') true (some addr)
          ≡ returned ips)
        × ((ip : Bytes)
            → OneOf (λ x. x ≡ ip) ips
              ↔ ((addr ≡ inet ip) × Chosen ip_prefixes (Begins ip) (split ip_prefixes b'|')))
  unfolding address_of
  address_of_iff (inet here) = (
    pushed ip_prefixes (split ip_prefixes b'|') here,
    refl,
    λ ip. (
      λ z.
          (let (e, c) = (pushed_iff here ip).0 z in
            let same : inet here ≡ inet ip = cc in (same, rw (← e) c)),
      λ z.
          (let same : inet here ≡ inet ip = z.0 in
            let e : here ≡ ip = cc in (pushed_iff here ip).1 (e, rw e z.1)),
    ),
  )
  address_of_iff (inet6 here) =
      ([], refl, λ ip. (λ z. absurd z, λ z. absurd (let same : inet6 here ≡ inet ip = z.0 in cc)))
  address_of_iff other_family =
      ([], refl, λ ip. (λ z. absurd z, λ z. absurd (let same : other_family ≡ inet ip = z.0 in cc)))

  named_iff :
      (name : Bytes)
      → ((not (is_empty interface_names) && not (has_name name (split interface_names b'|')))
          ≡ false)
        ↔ Chosen interface_names (λ n. n ≡ name) (split interface_names b'|')
  named_iff name =
      Chosen-iff interface_names (λ n. n ≡ name) (split interface_names b'|')
        (has_name name (split interface_names b'|'))
        (has_name_iff name (split interface_names b'|'))

  interface_loop_iff :
      (ifap : List Ifaddrs)
      → All (λ ifa. ifa.ifa_addr ≢ none) ifap
      → (ips : List Bytes) × (interface_loop interface_names
            (split interface_names b'|')
            ip_prefixes
            (split ip_prefixes b'|')
            true
            ifap
          ≡ returned ips)
        × ((ip : Bytes) → OneOf (λ x. x ≡ ip) ips ↔ OneOf (Offers ip) ifap)
  unfolding interface_loop
  interface_loop_iff [] h = ([], refl, λ ip. (λ z. z, λ z. z))
  interface_loop_iff (ifa ∷ ifap) h =
      let (rest, e, others) = interface_loop_iff ifap h.1 in
      let named = named_iff ifa.ifa_name in
      elim (Bool-cases (
        not (is_empty interface_names)
        && not (has_name ifa.ifa_name (split interface_names b'|')))) [
          | inl y ↦ (
            rest,
            rw (y, e) refl,
            λ ip. (
              λ z. inr ((others ip).0 z),
              λ z. elim z [ inl o ↦ absurd (let f = named.1 o.0 in cc) | inr o ↦ (others ip).1 o ],
            ),
          )
          | inr n ↦ elim (Option-cases ifa.ifa_addr) [
            | inl missing ↦ absurd (h.0 missing)
            | inr (addr, here) ↦
                let (ips, f, those) = address_of_iff addr in
                (
                  ips ++ rest,
                  rw (n, here, f, e) refl,
                  λ ip. (
                    λ z. elim ((OneOf-append (λ x. x ≡ ip) ips rest).0 z) [
                      | inl o ↦
                          let (is, c) = (those ip).0 o in inl (named.0 n, here ∙ rw is refl, c)
                      | inr o ↦ inr ((others ip).0 o)
                    ],
                    λ z. (OneOf-append (λ x. x ≡ ip) ips rest).1 (elim z [
                      | inl o ↦
                          let same : some addr ≡ some (inet ip) = sym here ∙ o.1 in
                          let is : addr ≡ inet ip = cc in inl ((those ip).1 (is, o.2))
                      | inr o ↦ inr ((others ip).1 o)
                    ]),
                  ),
                )
          ]
        ]

  -- Where names or prefixes are given and each interface has an address: the addresses that are
  -- found are exactly the IPv4 addresses of the interfaces that have one of the names, if names are
  -- given, and that begin with one of the prefixes, if prefixes are given.
  pub get_local_ips_iff :
      (ifap : List Ifaddrs)
      → All (λ ifa. ifa.ifa_addr ≢ none) ifap
      → (is_empty interface_names && is_empty ip_prefixes) ≡ false
      → (ips : List Bytes) × (get_local_ips (some ifap) interface_names ip_prefixes true
          ≡ returned ips)
        × ((ip : Bytes) → OneOf (λ x. x ≡ ip) ips ↔ OneOf (Offers ip) ifap)
  unfolding get_local_ips interface_ips
  get_local_ips_iff ifap h given =
      let (ips, e, c) = interface_loop_iff ifap h in (ips, rw given e, c)

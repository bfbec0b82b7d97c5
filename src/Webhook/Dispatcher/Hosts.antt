-- ===== src/Webhook/Dispatcher/Hosts.antt =====
-- The host that the dispatcher takes from a url, as the text of the url has it.
use telegram_rest_gateway.Prelude.{
  ℕ, zero, suc, ◌-◌, ◌≡◌, refl, sym, ap, ◌∙◌, subst, ◌⊎◌, inl, inr, Bool, true, false, ◌||◌, none,
  some, [], ◌∷◌, ◌++◌, arith, Bool-cases, Option-cases, ◌==◌, nat_eq, Bytes, bytes_beq_iff,
  nat_beq_iff, bytes_eq, codes, take, drop, some-injective,
}
use mathlib.Core.List.{append_assoc, append-nil}
use telegram_rest_gateway.Prelude.Text.{find, find-at, find-take}
use telegram_rest_gateway.Webhook.Dispatcher.{split_scheme, ParsedUrl, host_of, url_of, parse_url}
use telegram_rest_gateway.Webhook.Dispatcher.Urls.{
  split_scheme-append, no_scheme, no_slash, with_slash,
}

abbrev pub IsScheme : Bytes → Type 0
IsScheme scheme = (scheme ≡ codes "http") ⊎ (scheme ≡ codes "https")

-- What can follow a host: nothing, a port or a path.
abbrev pub ends_host : Bytes → Bool
ends_host [] = true
ends_host (c ∷ s) = c == b':' || c == b'/'

-- What can follow an authority: nothing or a path.
abbrev pub ends_authority : Bytes → Bool
ends_authority [] = true
ends_authority (c ∷ s) = c == b'/'

abbrev pub begins_bracket : Bytes → Bool
begins_bracket [] = false
begins_bracket (c ∷ s) = c == b'['

-- The host in the authority of a url, by its text: what stands before the port or the path, or between
-- brackets, of which the second may be missing. No host contains a '/'.
pub data HostOf : Bytes → Bytes → Type 0 where
  plain :
      (url host scheme tail : Bytes)
      → IsScheme scheme
      → url ≡ scheme ++ (codes "://" ++ (host ++ tail))
      → ends_host tail ≡ true
      → begins_bracket host ≡ false
      → find b':' host ≡ none
      → find b'/' host ≡ none
      → HostOf url host
  bracketed :
      (url host scheme tail : Bytes)
      → IsScheme scheme
      → url ≡ scheme ++ (codes "://" ++ (b'[' ∷ host ++ b']' ∷ tail))
      → find b']' host ≡ none
      → find b'/' host ≡ none
      → HostOf url host
  unclosed :
      (url host scheme tail : Bytes)
      → IsScheme scheme
      → url ≡ scheme ++ (codes "://" ++ (b'[' ∷ host ++ tail))
      → ends_authority tail ≡ true
      → find b']' host ≡ none
      → find b'/' host ≡ none
      → HostOf url host

find-none-take : (c : ℕ) (s : Bytes) (i : ℕ) → find c s ≡ none → find c (take i s) ≡ none
unfolding find
find-none-take c [] zero h = refl
find-none-take c [] (suc i) h = refl
find-none-take c (x ∷ s) zero h = refl
find-none-take c (x ∷ s) (suc i) h = ground (arith, h, find-none-take c s i)

find-none-tail : (c x : ℕ) (s : Bytes) → find c (x ∷ s) ≡ none → find c s ≡ none
unfolding find
find-none-tail c x s h = ground (arith, h)

find-tail :
    (c x : ℕ) (s : Bytes) (i : ℕ)
    → (x == c) ≡ false
    → find c (x ∷ s) ≡ some i
    → find c s ≡ some (i - 1)
unfolding find
find-tail c x s i ne h = ground (arith, ne, h)

begins_bracket-take :
    (s : Bytes) (i : ℕ) → begins_bracket s ≡ false → begins_bracket (take i s) ≡ false
begins_bracket-take [] zero h = refl
begins_bracket-take [] (suc i) h = refl
begins_bracket-take (c ∷ s) zero h = refl
begins_bracket-take (c ∷ s) (suc i) h = h

ends_authority-host : (t : Bytes) → ends_authority t ≡ true → ends_host t ≡ true
ends_authority-host [] h = refl
ends_authority-host (c ∷ t) h = ground (arith, h)

module _ (url scheme path : Bytes) (is : IsScheme scheme) (ends : ends_authority path ≡ true) where
  host_of-plain :
      (c : ℕ) (cs : Bytes)
      → (c == b'[') ≡ false
      → url ≡ scheme ++ (codes "://" ++ (c ∷ cs ++ path))
      → find b'/' (c ∷ cs) ≡ none
      → HostOf url (host_of (c ∷ cs))
  unfolding host_of
  host_of-plain c cs no_bracket whole flat = elim (Option-cases (find b':' (c ∷ cs))) [
    | inl e ↦
        rw (no_bracket, e)
          (plain url (c ∷ cs) scheme path is whole (ends_authority-host path ends) no_bracket e
            flat)
    | inr (i, e) ↦
        rw (no_bracket, e)
          (plain url (take i (c ∷ cs)) scheme (b':' ∷ drop (suc i) (c ∷ cs) ++ path) is
            (whole
              ∙ ap (λ a. scheme ++ (codes "://" ++ a))
                  (ap (λ a. a ++ path) (find-at b':' (c ∷ cs) i e)
                    ∙ append_assoc (take i (c ∷ cs)) (b':' ∷ drop (suc i) (c ∷ cs)) path))
            refl (begins_bracket-take (c ∷ cs) i no_bracket) (find-take b':' (c ∷ cs) i e)
            (find-none-take b'/' (c ∷ cs) i flat))
  ]

  host_of-bracket :
      (cs : Bytes)
      → url ≡ scheme ++ (codes "://" ++ (b'[' ∷ cs ++ path))
      → find b'/' (b'[' ∷ cs) ≡ none
      → HostOf url (host_of (b'[' ∷ cs))
  unfolding host_of
  host_of-bracket cs whole flat =
      let flat' = find-none-tail b'/' b'[' cs flat in
      elim (Option-cases (find b']' (b'[' ∷ cs))) [
        | inl e ↦
            rw e (unclosed url cs scheme path is whole ends (find-none-tail b']' b'[' cs e) flat')
        | inr (i, e) ↦
            let k = find-tail b']' b'[' cs i refl e in
            rw e (
              bracketed url (take (i - 1) cs) scheme (drop (suc (i - 1)) cs ++ path) is
                (whole
                  ∙ ap (λ a. scheme ++ (codes "://" ++ (b'[' ∷ a)))
                      (ap (λ a. a ++ path) (find-at b']' cs (i - 1) k)
                        ∙ append_assoc (take (i - 1) cs) (b']' ∷ drop (suc (i - 1)) cs) path))
                (find-take b']' cs (i - 1) k) (find-none-take b'/' cs (i - 1) flat'))
      ]

  host_of-HostOf :
      (c : ℕ) (cs : Bytes)
      → url ≡ scheme ++ (codes "://" ++ (c ∷ cs ++ path))
      → find b'/' (c ∷ cs) ≡ none
      → HostOf url (host_of (c ∷ cs))
  host_of-HostOf c cs whole flat = elim (Bool-cases (c == b'[')) [
    | inl e ↦
        let is_bracket = (nat_beq_iff c b'[').0 e in
        subst (λ x. HostOf url (host_of (x ∷ cs))) (sym is_bracket)
          (host_of-bracket cs
            (whole ∙ ap (λ x. scheme ++ (codes "://" ++ (x ∷ cs ++ path))) is_bracket)
            (subst (λ x. find b'/' (x ∷ cs) ≡ none) is_bracket flat))
    | inr e ↦ host_of-plain c cs e whole flat
  ]

  url_of-HostOf :
      (authority given : Bytes) (p : ParsedUrl)
      → url_of scheme authority given ≡ some p
      → url ≡ scheme ++ (codes "://" ++ (authority ++ path))
      → find b'/' authority ≡ none
      → HostOf url p.host
  unfolding url_of
  url_of-HostOf [] given p h whole flat = ground (arith, h)
  url_of-HostOf (c ∷ cs) given p h whole flat =
      subst (HostOf url) (ap (λ (u : ParsedUrl). u.host) (some-injective h))
        (host_of-HostOf c cs whole flat)

split_scheme-IsScheme :
    (url scheme rest : Bytes) (p : ParsedUrl)
    → split_scheme url ≡ some (scheme, rest)
    → parse_url url ≡ some p
    → IsScheme scheme
unfolding parse_url
split_scheme-IsScheme url scheme rest p e h = elim (Bool-cases (scheme == codes "http")) [
  | inl k ↦ inl ((bytes_beq_iff scheme (codes "http")).0 k)
  | inr k ↦ elim (Bool-cases (scheme == codes "https")) [
    | inl k' ↦ inr ((bytes_beq_iff scheme (codes "https")).0 k')
    | inr k' ↦ ground (arith, e, h, k, k')
  ]
]

-- The host that is taken from a url is the one that stands in it.
pub parse_url-HostOf : (url : Bytes) (p : ParsedUrl) → parse_url url ≡ some p → HostOf url p.host
parse_url-HostOf url p h = elim (Option-cases (split_scheme url)) [
  | inl e ↦ no_scheme url p e h
  | inr ((scheme, rest), e) ↦
      let is = split_scheme-IsScheme url scheme rest p e h in
      let whole = split_scheme-append url scheme rest e in
      elim (Option-cases (find b'/' rest)) [
        | inl k ↦
            url_of-HostOf url scheme [] is refl rest (codes "/") p
              (no_slash url scheme rest p e k h)
              (whole ∙ ap (λ r. scheme ++ (codes "://" ++ r)) (sym (append-nil rest))) k
        | inr (slash, k) ↦
            url_of-HostOf url scheme (b'/' ∷ drop (suc slash) rest) is refl (take slash rest)
              (drop slash rest) p (with_slash url scheme rest slash p e k h)
              (whole ∙ ap (λ r. scheme ++ (codes "://" ++ r)) (find-at b'/' rest slash k))
              (find-take b'/' rest slash k)
      ]
]

-- ===== src/Notify/Guard.antt =====
-- Which callback URLs `_is_allowed_callback_url` lets through.
use pretext_plus_build_full.Common.{
  String, true, false, none, some, List, [], ◌∷◌, ◌&&◌, ◌||◌, not, ◌≡◌, ◌⊎◌, ◌↔◌, inl, inr, refl,
  sym, ◌∙◌, arith, Bool-cases, Option-cases, all,
}
use pretext_plus_build_full.Common.Text.{is_truthy}
use pretext_plus_build_full.Config.{Settings}
use pretext_plus_build_full.Config.Load.{member}
use pretext_plus_build_full.World.{World}
use pretext_plus_build_full.Notify.{
  Url, Address, Network, is_blocked, any_blocked, off_list, resolves_to_blocked_ip, host_of,
  allowed_url, is_allowed_callback_url,
}

-- Every address of a name that resolves is one that may be reached.
abbrev pub Public : Network → String → World → Type 0
Public net host w =
    (infos : List Address) × (net.getaddrinfo host w ≡ some infos)
    × (all (λ ip. not (is_blocked ip)) infos ≡ true)

-- What a callback URL must be.
abbrev pub Permitted : Settings → Network → Url → World → Type 0
Permitted settings net parsed w =
    (member parsed.scheme ("http" ∷ "https" ∷ []) ≡ true)
    × (is_truthy (host_of settings net parsed) ≡ true)
    × ((settings.callback_allowed_hosts ≡ [])
        ⊎ (member (host_of settings net parsed) settings.callback_allowed_hosts ≡ true))
    × ((settings.callback_allow_private_ips ≡ true) ⊎ Public net (host_of settings net parsed) w)

any_blocked-all :
    (infos : List Address) → any_blocked infos ≡ not (all (λ ip. not (is_blocked ip)) infos)
unfolding any_blocked
any_blocked-all [] = refl
any_blocked-all (ip ∷ infos) = ground (arith, any_blocked-all infos)

module _ (settings : Settings) (net : Network) (host : String) (w : World) where
  resolves_none : net.getaddrinfo host w ≡ none → resolves_to_blocked_ip settings net host w ≡ true
  unfolding resolves_to_blocked_ip
  resolves_none e = rw (e, resolves_to_blocked_ip)

  resolves_some :
      (infos : List Address)
      → net.getaddrinfo host w ≡ some infos
      → resolves_to_blocked_ip settings net host w ≡ not (all (λ ip. not (is_blocked ip)) infos)
  unfolding resolves_to_blocked_ip
  resolves_some infos e = rw (e, resolves_to_blocked_ip) (any_blocked-all infos)

  resolves-Public : (resolves_to_blocked_ip settings net host w ≡ false) ↔ Public net host w
  resolves-Public = (
    λ h. elim (Option-cases (net.getaddrinfo host w)) [
      | inl e ↦ absurd (cc (resolves_none e))
      | inr (infos, e) ↦ (infos, e, ground (arith, resolves_some infos e))
    ],
    λ (infos, e, h). ground (arith, resolves_some infos e),
  )

off_list_iff :
    (hosts : List String) (host : String)
    → (off_list hosts host ≡ false) ↔ ((hosts ≡ []) ⊎ (member host hosts ≡ true))
unfolding off_list
off_list_iff [] host = (λ h. inl refl, λ h. refl)
off_list_iff (h ∷ hosts) host =
    (λ h. inr (ground arith), λ h. elim h [ inl e ↦ absurd (cc) | inr t ↦ ground arith ])

module _ (settings : Settings) (net : Network) where
  allowed_url_tests :
      (parsed : Url) (w : World)
      → let host = host_of settings net parsed in
        allowed_url settings net parsed w ≡ (
          member parsed.scheme ("http" ∷ "https" ∷ [])
          && (is_truthy host
              && (not (off_list settings.callback_allowed_hosts host)
                  && (settings.callback_allow_private_ips
                      || not (resolves_to_blocked_ip settings net host w)))))
  unfolding allowed_url
  allowed_url_tests parsed w = ground arith

  allowed_url_iff :
      (parsed : Url) (w : World)
      → (allowed_url settings net parsed w ≡ true) ↔ Permitted settings net parsed w
  allowed_url_iff parsed w =
      let host = host_of settings net parsed in
      let tests = allowed_url_tests parsed w in
      let listed = off_list_iff settings.callback_allowed_hosts host in
      let reachable = resolves-Public settings net host w in
      (
        λ h. (
          ground (arith, tests),
          ground (arith, tests),
          listed.0 (ground (arith, tests)),
          elim (Bool-cases settings.callback_allow_private_ips) [
            | inl t ↦ inl t
            | inr f ↦ inr (reachable.0 (ground (arith, tests)))
          ],
        ),
        λ (scheme, named, on_list, addresses).
            let on : off_list settings.callback_allowed_hosts host ≡ false = listed.1 on_list in
            elim addresses [
              | inl t ↦ ground (arith, tests)
              | inr p ↦
                  let reached : resolves_to_blocked_ip settings net host w ≡ false =
                    reachable.1 p in
                  ground (arith, tests)
            ],
      )

  allowed_parsed :
      (url : String) (w : World) (parsed : Url)
      → net.urlparse url ≡ some parsed
      → is_allowed_callback_url settings net url w ≡ allowed_url settings net parsed w
  unfolding is_allowed_callback_url
  allowed_parsed url w parsed e = rw (e, is_allowed_callback_url)

  allowed_unparsed :
      (url : String) (w : World)
      → net.urlparse url ≡ none
      → is_allowed_callback_url settings net url w ≡ false
  unfolding is_allowed_callback_url
  allowed_unparsed url w e = rw (e, is_allowed_callback_url)

  -- A URL is let through exactly if it parses, its scheme is http or https, it has a host, the host
  -- is on the list of allowed hosts if there is one, and, unless private addresses are allowed, the
  -- host resolves and none of its addresses is a blocked one.
  pub is_allowed_callback_url_iff :
      (url : String) (w : World)
      → (is_allowed_callback_url settings net url w ≡ true)
        ↔ ((parsed : Url) × (net.urlparse url ≡ some parsed) × Permitted settings net parsed w)
  is_allowed_callback_url_iff url w = (
    λ h. elim (Option-cases (net.urlparse url)) [
      | inl e ↦ absurd (cc (allowed_unparsed url w e))
      | inr (parsed, e) ↦
          (parsed, e, (allowed_url_iff parsed w).0 (sym (allowed_parsed url w parsed e) ∙ h))
    ],
    λ (parsed, e, permitted).
        allowed_parsed url w parsed e ∙ (allowed_url_iff parsed w).1 permitted,
  )

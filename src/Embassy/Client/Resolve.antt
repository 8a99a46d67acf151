-- ===== src/Embassy/Client/Resolve.antt =====
-- Which address a host resolves to.
use nanofish.Embassy.Client.{first, first_if_ok, resolve_aaaa, resolve_host}
use nanofish.Embassy.{Network, a, aaaa}
use nanofish.Io.{continue, lift}
use nanofish.Prelude.{
  List, [], ◌∷◌, ◌++◌, Option, none, some, Bytes, ◌≡◌, refl, sym, ◌∙◌, ◌↔◌, inl, inr, Option-cases,
}
use nanofish.Result.{ok, ok_or, dns_error, ip_address_empty}

-- The addresses of an answer.
abbrev pub addresses : {A : Type 0} → Option (List A) → List A
addresses none = []
addresses (some addrs) = addrs

first_if_ok-addresses :
    {A : Type 0} (answer : Option (List A)) → first_if_ok answer ≡ first (addresses answer)
first_if_ok-addresses none = refl
first_if_ok-addresses (some addrs) = refl

first-append_none : {A : Type 0} (xs ys : List A) → first xs ≡ none → first (xs ++ ys) ≡ first ys
first-append_none [] ys h = refl
first-append_none (x ∷ xs) ys h = cc

first-append_some :
    {A : Type 0} (xs ys : List A) (x : A) → first xs ≡ some x → first (xs ++ ys) ≡ some x
first-append_some [] ys x h = cc
first-append_some (y ∷ xs) ys x h = h

module _ (net : Network) where
  aaaa_iff :
      (answer : Option (List net.IpAddress) × net.stream.State) (addr : net.IpAddress)
      → ((continue
            (ok_or answer.0 dns_error, answer.1)
            (λ addrs. lift (ok_or (first addrs) ip_address_empty))).0
          ≡ ok addr)
        ↔ (first (addresses answer.0) ≡ some addr)
  aaaa_iff (none, st) addr = (λ e. cc, λ e. cc)
  aaaa_iff (some [], st) addr = (λ e. cc, λ e. cc)
  aaaa_iff (some (x ∷ xs), st) addr = (λ e. cc, λ e. cc)

  -- A host resolves to the first of the addresses that its A query and its AAAA query give, those of
  -- the A query before the others, where an error of a query is no address; and if these have none it
  -- does not resolve. The AAAA query comes second.
  pub resolve_host_iff :
      (host : Bytes) (st : net.stream.State) (addr : net.IpAddress)
      → let ip4 = net.query host a st in
        ((resolve_host net host st).0 ≡ ok addr)
        ↔ (first (addresses ip4.0 ++ addresses (net.query host aaaa ip4.1).0) ≡ some addr)
  unfolding resolve_host resolve_aaaa
  resolve_host_iff host st addr =
      let ip4 = net.query host a st in
      let ip6 = net.query host aaaa ip4.1 in
      let same = first_if_ok-addresses ip4.0 in
      elim (Option-cases (first_if_ok ip4.0)) [
        | inl absent ↦
            rw (absent, resolve_host)
              (rw (first-append_none (addresses ip4.0) (addresses ip6.0) (sym same ∙ absent))
                (aaaa_iff ip6 addr))
        | inr (x, found) ↦
            rw (found, resolve_host)
              (rw (first-append_some (addresses ip4.0) (addresses ip6.0) x (sym same ∙ found))
                (λ e. cc, λ e. cc))
      ]

-- ===== src/Router/Tests.antt =====
-- The theorems on the router with three plugins, two of which speak protocol 5.
use rtimv.Common.{ℕ, ◌≡◌, some, none, refl, true, false, [], ◌∷◌, ◌==◌, if◌then◌else◌}
use rtimv.Router.{
  World, Provider, Error, Outcome, returns, throws, add_provider, provider, send, hand_over,
  unavailable, text, settle,
}
use rtimv.Router.Lookup.{provider-only, only, matches}

abbrev plugin : ℕ → Provider ℕ ℕ
plugin n = record {
  protocol = n;
  send_commands = λ cs. if n == 6 then returns true none else throws 1;
  property_snapshot = λ d p. none;
}

abbrev plugins : World ℕ ℕ
plugins = record {
  alive = λ i. true;
  cast = λ i. if i == 3 then none else some (plugin (if i == 2 then 6 else 5));
}

provider-only_example :
    provider plugins 5 (0 ∷ 1 ∷ 2 ∷ []) ≡ only (matches plugins 5 (0 ∷ 1 ∷ 2 ∷ []))
provider-only_example = provider-only plugins 5 (0 ∷ 1 ∷ 2 ∷ [])

ambiguous : send plugins 5 (9 ∷ []) (0 ∷ 1 ∷ 2 ∷ []) ≡ (false, some unavailable)
unfolding send rtimv.Router.hand_over rtimv.Router.provider rtimv.Router.scan
ambiguous = refl

accepted : (send plugins 6 (9 ∷ []) (0 ∷ 1 ∷ 2 ∷ [])).0 ≡ true
unfolding send rtimv.Router.hand_over rtimv.Router.provider rtimv.Router.scan rtimv.Router.settle
accepted = refl

-- ===== src/Identity/Tests.antt =====
-- Comparisons of identities, for tests.
use pyverge.Prelude.{ℕ, ◌≡◌, refl, true}
use pyverge.Prelude.Text.{codes}
use pyverge.Prelude.Linear.{linear_nat}
use pyverge.Prelude.Effects.{ok}
use pyverge.Identity.{NodeId}
use pyverge.Identity.Order.{linear_node}
use pyverge.Identity.Mixed.{VersionValue, semver, node_lt, compared}

abbrev user : VersionValue ℕ ℕ → NodeId (VersionValue ℕ ℕ)
user v = record { namespace = codes "n"; kind = codes "User"; version = v }

less12 : node_lt (user (semver 1)) (user (semver 2)) ≡ ok true
unfolding node_lt compared
less12 = refl

less23 : node_lt (user (semver 2)) (user (semver 3)) ≡ ok true
unfolding node_lt compared
less23 = refl

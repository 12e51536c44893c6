-- ===== src/Identity/Mixed.antt =====
-- core/versioning/identity/nodes.py: comparisons where the version strategies may differ. A
-- version is tagged with its type, and each type has its own order.
use pyverge.Prelude.{Bool, true, false, ◌≡◌, refl, ap, Ordering, arith}
use pyverge.Prelude.Text.{codes}
use pyverge.Prelude.Linear.{Linear, is_lt, is_eq, swapped}
use pyverge.Prelude.Effects.{Result, ok, raised, exception, plain}
use pyverge.Identity.{NodeId}
use pyverge.Identity.Order.{linear_node}

-- A version of strategy `semver.Version` or `pendulum.Date`.
pub data VersionValue (S D : Type 0) : Type 0 where
  semver : S → VersionValue S D
  date : D → VersionValue S D

abbrev mismatch : Result Bool
mismatch = raised (exception plain (codes "TypeError: Cannot compare version strategies"))

abbrev is_gt : Ordering → Bool
is_gt Ordering.lt = false
is_gt Ordering.eq = false
is_gt Ordering.gt = true

is_gt-swapped : (o : Ordering) → is_gt (swapped o) ≡ is_lt o
is_gt-swapped Ordering.lt = refl
is_gt-swapped Ordering.eq = refl
is_gt-swapped Ordering.gt = refl

lt_of_less : (o : Ordering) → ◌≡◌ {A = Result Bool} (ok (is_lt o)) (ok true) → o ≡ Ordering.lt
lt_of_less o h = ground arith

module _ {S D : Type 0} ⦃s : Linear S⦄ ⦃d : Linear D⦄ where
  abbrev with_version : {V : Type 0} → NodeId (VersionValue S D) → V → NodeId V
  with_version n v = record { namespace = n.namespace; kind = n.kind; version = v }

  -- A comparison of two identities: a `TypeError` where the strategies differ.
  unfoldable pub compared :
      (Ordering → Bool) → (n m : NodeId (VersionValue S D)) (v w : VersionValue S D) → Result Bool
  compared p n m (semver v) (semver w) =
      ok (p (linear_node.cmp (with_version n v) (with_version m w)))
  compared p n m (date v) (date w) = ok (p (linear_node.cmp (with_version n v) (with_version m w)))
  compared p n m (semver v) (date w) = mismatch
  compared p n m (date v) (semver w) = mismatch

  -- `NodeId.__eq__`, `__lt__` and `__gt__`
  unfoldable pub node_eq : NodeId (VersionValue S D) → NodeId (VersionValue S D) → Result Bool
  unfolding compared
  node_eq n m = compared is_eq n m n.version m.version

  unfoldable pub node_lt : NodeId (VersionValue S D) → NodeId (VersionValue S D) → Result Bool
  unfolding compared
  node_lt n m = compared is_lt n m n.version m.version

  unfoldable pub node_gt : NodeId (VersionValue S D) → NodeId (VersionValue S D) → Result Bool
  unfolding compared
  node_gt n m = compared is_gt n m n.version m.version

  -- `m > n` answers as `n < m` does, and raises where it raises.
  pub node_gt-swap : (n m : NodeId (VersionValue S D)) → node_gt m n ≡ node_lt n m
  unfolding node_gt node_lt
  node_gt-swap n m = go n.version m.version
    where
      go : (v w : VersionValue S D) → compared is_gt m n w v ≡ compared is_lt n m v w
      go (semver v) (semver w) =
          ap ok (rw (linear_node.cmp_swap (with_version n v) (with_version m w)) (is_gt-swapped _))
      go (date v) (date w) =
          ap ok (rw (linear_node.cmp_swap (with_version n v) (with_version m w)) (is_gt-swapped _))
      go (semver v) (date w) = refl
      go (date v) (semver w) = refl

  module _ (a b c : NodeId (VersionValue S D)) where
    trans_at :
        (u v w : VersionValue S D)
        → compared is_lt a b u v ≡ ok true
        → compared is_lt b c v w ≡ ok true
        → compared is_lt a c u w ≡ ok true
    unfolding compared
    trans_at (semver u) (semver v) (semver w) h k =
        ap (λ o. ok (is_lt o))
          (linear_node.cmp_trans (with_version a u) (with_version b v) (with_version c w)
            (lt_of_less _ h) (lt_of_less _ k))
    trans_at (date u) (date v) (date w) h k =
        ap (λ o. ok (is_lt o))
          (linear_node.cmp_trans (with_version a u) (with_version b v) (with_version c w)
            (lt_of_less _ h) (lt_of_less _ k))
    trans_at (semver u) (semver v) (date w) h k = cc
    trans_at (semver u) (date v) w h k = cc
    trans_at (date u) (date v) (semver w) h k = cc
    trans_at (date u) (semver v) w h k = cc

    -- Where two comparisons in a row answer that the left side is less, the outer one answers so
    -- too, and raises nothing: identities of one strategy are ordered transitively.
    pub node_lt_trans : node_lt a b ≡ ok true → node_lt b c ≡ ok true → node_lt a c ≡ ok true
    unfolding node_lt
    node_lt_trans h k = trans_at a.version b.version c.version h k

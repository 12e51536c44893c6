-- ===== src/PlanCache.antt =====
-- runtime/plan_cache.py: the cache of path plans. One call holds the lock from its first read to
-- its last write, so a run is a sequence of whole calls.
pub mod Bounds
pub mod Keys
pub mod Coherence
mod Tests
use pyverge.Prelude.{
  ℕ, zero, suc, ◌≡◌, Bool, true, false, Option, none, some, List, [], ◌∷◌, length, ltb,
  if◌then◌else◌, Eq,
}
use pyverge.Prelude.Int.{ℤ, pos, negsuc}
use pyverge.Prelude.Dict.{Dict, get, set_item, move_to_end}

pub record PlanCache {ℓ} (K V : Type ℓ) : Type ℓ where
  pub size : ℤ
  pub entries : Dict K V

module _ {ℓ} {K V : Type ℓ} where
  -- `__init__`; `none` is its ValueError.
  unfoldable pub init : ℤ → Option (PlanCache K V)
  init (pos n) = some (record { size = pos n; entries = [] })
  init (negsuc zero) = some (record { size = negsuc zero; entries = [] })
  init (negsuc (suc n)) = none

  unfoldable pub len : PlanCache K V → ℕ
  len c = length c.entries

  -- `while len(self._entries) > n: self._entries.popitem(last=False)`
  unfoldable pub evict : ℕ → Dict K V → Dict K V
  evict n [] = []
  evict n (x ∷ d) = let rest = evict n d in if ltb n (length (x ∷ d)) then rest else x ∷ d

  -- `if self._size > 0: while ...`
  unfoldable pub bounded : ℤ → Dict K V → Dict K V
  unfolding evict
  bounded (pos (suc n)) d = evict (suc n) d
  bounded (pos zero) d = d
  bounded (negsuc n) d = d

  unfoldable pub clear : PlanCache K V → PlanCache K V
  clear c = record c { entries = [] }

-- `self._size == 0`
abbrev pub is_disabled : ℤ → Bool
is_disabled (pos zero) = true
is_disabled (pos (suc n)) = false
is_disabled (negsuc n) = false

module _ {ℓ} {K V : Type ℓ} ⦃e : Eq K⦄ where
  abbrev touched : K → Option V → PlanCache K V → PlanCache K V
  touched key none c = c
  touched key (some plan) c = record c { entries = move_to_end key c.entries }

  -- `get`: the cached plan, and the cache with its key moved to the end.
  unfoldable pub lookup : K → PlanCache K V → Option V × PlanCache K V
  lookup key c =
      if is_disabled c.size
      then (none, c)
      else (get key c.entries, touched key (get key c.entries) c)

  unfoldable pub put : K → V → PlanCache K V → PlanCache K V
  unfolding bounded
  put key plan c =
      if is_disabled c.size
      then c
      else record c { entries = bounded c.size (move_to_end key (set_item key plan c.entries)) }

-- ===== src/PlanCache/Coherence.antt =====
-- Runs of the cache: it stays a bounded dictionary, and a hit returns what was put last.
use pyverge.Prelude.{
  some_inj, subst, ℕ, zero, suc, ◌≤◌, ◌≡◌, Option, none, some, List, [], ◌∷◌, length, if◌then◌else◌,
  Eq, ◌==◌, arith, Bool-cases, Option-cases, inl, inr,
}
use pyverge.Prelude.Int.{ℤ, pos, negsuc}
use pyverge.Prelude.Dict.{Dict, get, set_item, move_to_end, get-set_item, get-move_to_end}
use pyverge.Prelude.Keys.{
  IsDict, set_item-IsDict, move_to_end-IsDict, length-move_to_end-le, get_empty,
}
use pyverge.PlanCache.{PlanCache, init, bounded, clear, lookup, put, is_disabled, touched}
use pyverge.PlanCache.Bounds.{length-evict-le, get-evict, evict-IsDict}

-- The calls that change the cache.
pub data Call {ℓ} (K V : Type ℓ) : Type ℓ where
  get_call : K → Call K V
  put_call : K → V → Call K V
  clear_call : Call K V

abbrev pub Fits : ℤ → ℕ → Type 0
Fits (pos (suc n)) m = m ≤ suc n
Fits (pos zero) m = m ≤ 0
Fits (negsuc n) m = Unit

Fits-mono : (size : ℤ) (m n : ℕ) → m ≤ n → Fits size n → Fits size m
Fits-mono (pos zero) m n h f = omega arith
Fits-mono (pos (suc k)) m n h f = omega arith
Fits-mono (negsuc k) m n h f = tt

Fits-zero : (size : ℤ) → Fits size 0
Fits-zero (pos zero) = omega arith
Fits-zero (pos (suc k)) = omega arith
Fits-zero (negsuc k) = tt

module _ {ℓ} {K V : Type ℓ} ⦃e : Eq K⦄ where
  unfoldable pub step : PlanCache K V → Call K V → PlanCache K V
  unfolding lookup put clear
  step c (get_call key) = (lookup key c).1
  step c (put_call key plan) = put key plan c
  step c clear_call = clear c

  -- A run, the last call first.
  unfoldable pub run : PlanCache K V → List (Call K V) → PlanCache K V
  run c [] = c
  run c (x ∷ calls) = step (run c calls) x

  -- What was put last under the key and not cleared since, read off the calls alone.
  unfoldable pub last_put : K → List (Call K V) → Option V
  last_put key [] = none
  last_put key (get_call k ∷ calls) = last_put key calls
  last_put key (put_call k plan ∷ calls) = if k == key then some plan else last_put key calls
  last_put key (clear_call ∷ calls) = none

  -- The cache after the calls: a dictionary, within its bound, of plans that were put last.
  pub record IsCache (c : PlanCache K V) (calls : List (Call K V)) : Type ℓ where
    pub unique : IsDict c.entries
    pub fits : Fits c.size (length c.entries)
    pub kept : (key : K) (v : V) → get key c.entries ≡ some v → last_put key calls ≡ some v

  touched-IsCache :
      (key : K) (c : PlanCache K V) (calls : List (Call K V))
      → IsCache c calls
      → IsCache (touched key (get key c.entries) c) (get_call key ∷ calls)
  unfolding last_put
  touched-IsCache key c calls i = elim (Option-cases (get key c.entries)) [
    | inl missing ↦ rw missing (record { unique = i.unique; fits = i.fits; kept = i.kept })
    | inr (v, here) ↦ rw here (record {
      unique = move_to_end-IsDict key c.entries i.unique;
      fits = Fits-mono c.size _ _ (length-move_to_end-le key c.entries) i.fits;
      kept = λ k v h. i.kept k v (rw get-move_to_end at h);
    })
  ]

  lookup-IsCache :
      (key : K) (c : PlanCache K V) (calls : List (Call K V))
      → IsCache c calls
      → IsCache (lookup key c).1 (get_call key ∷ calls)
  unfolding lookup last_put
  lookup-IsCache key c calls i = elim (Bool-cases (is_disabled c.size)) [
    | inl off ↦ rw off (record { unique = i.unique; fits = i.fits; kept = i.kept })
    | inr on ↦ rw on (touched-IsCache key c calls i)
  ]

  module _ (key : K) (plan : V) (c : PlanCache K V) (calls : List (Call K V))
      (i : IsCache c calls) where
    placed : Dict K V
    placed = move_to_end key (set_item key plan c.entries)

    placed-IsDict : IsDict placed
    unfolding placed
    placed-IsDict = move_to_end-IsDict key _ (set_item-IsDict key plan c.entries i.unique)

    get-placed :
        (k : K) (v : V) → get k placed ≡ some v → last_put k (put_call key plan ∷ calls) ≡ some v
    unfolding placed last_put
    get-placed k v h =
        let h' : (if key == k then some plan else get k c.entries) ≡ some v =
          rw (get-move_to_end, get-set_item) at h in
        ground (arith, i.kept k v)

    put-IsCache : IsCache (put key plan c) (put_call key plan ∷ calls)
    unfolding put bounded placed
    put-IsCache = go c.size i.fits
      where
        go :
            (size : ℤ)
            → Fits size (length c.entries)
            → IsCache
                (put key plan (record { size = size; entries = c.entries }))
                (put_call key plan ∷ calls)
        go (pos zero) f = record {
          unique = i.unique;
          fits = f;
          kept = λ k v h. cc (get_empty k c.entries f);
        }
        go (pos (suc n)) f = record {
          unique = evict-IsDict (suc n) placed placed-IsDict;
          fits = length-evict-le (suc n) placed;
          kept = λ k v h. get-placed k v (get-evict (suc n) k placed placed-IsDict h);
        }
        go (negsuc n) f = record { unique = placed-IsDict; fits = tt; kept = get-placed }

  fresh-IsCache : (size : ℤ) → IsCache (record { size = size; entries = [] }) []
  unfolding get
  fresh-IsCache size = record { unique = tt; fits = Fits-zero size; kept = λ key v h. cc }

  init-IsCache : (size : ℤ) (c : PlanCache K V) → init size ≡ some c → IsCache c []
  unfolding init
  init-IsCache (pos n) c made = subst (λ c. IsCache c []) (some_inj made) (fresh-IsCache (pos n))
  init-IsCache (negsuc zero) c made =
      subst (λ c. IsCache c []) (some_inj made) (fresh-IsCache (negsuc zero))
  init-IsCache (negsuc (suc n)) c made = cc

  clear-IsCache :
      (c : PlanCache K V) (calls : List (Call K V))
      → IsCache c calls
      → IsCache (clear c) (clear_call ∷ calls)
  unfolding clear get last_put
  clear-IsCache c calls i = record { unique = tt; fits = Fits-zero c.size; kept = λ key v h. cc }

  -- Whatever the calls, from a new cache: each key stands once, a positive size bounds the number
  -- of plans, a cache of size 0 is empty, and every plan held under a key is the one that was put
  -- there last, with no clear since.
  pub run-IsCache :
      (size : ℤ) (c : PlanCache K V) (calls : List (Call K V))
      → init size ≡ some c
      → IsCache (run c calls) calls
  unfolding run step
  run-IsCache size c [] made = init-IsCache size c made
  run-IsCache size c (get_call key ∷ calls) made =
      lookup-IsCache key _ calls (run-IsCache size c calls made)
  run-IsCache size c (put_call key plan ∷ calls) made =
      put-IsCache key plan _ calls (run-IsCache size c calls made)
  run-IsCache size c (clear_call ∷ calls) made =
      clear-IsCache _ calls (run-IsCache size c calls made)

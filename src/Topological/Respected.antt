-- ===== src/Topological/Respected.antt =====
-- The orders that the loop of `topological_sort` builds.
use mathlib.Core.List.{append_assoc, append-nil}
use pyverge.Prelude.{
  ℕ, zero, suc, ◌+◌, ◌≤◌, ◌<◌, ◌≡◌, refl, sym, subst, Bool, List, [], ◌∷◌, ◌++◌, length,
  length-append, ◌⊎◌, inl, inr, arith,
}
use pyverge.Prelude.Int.{ℤ}
use pyverge.Prelude.Dict.{Dict}
use pyverge.Prelude.Linear.{Linear}
use pyverge.Errors.{Fault, Outcome, ok, err}
use pyverge.Identity.{NodeId, EdgeId}
use pyverge.Identity.Order.{linear_node, eq_node}
use pyverge.Topological.{release, order, out_of_fuel, drain}
use pyverge.Topological.Counts.{tally, arrivals, waiting}
use pyverge.Topological.Kahn.{IsKahn, release_lem, unused, taken}

pub Outcome-cases :
    {A : Type 0} (r : Outcome A) → ((a : A) × (r ≡ ok a)) ⊎ ((f : Fault) × (r ≡ err f))
Outcome-cases (ok a) = inl (a, refl)
Outcome-cases (err f) = inr (f, refl)

module _ {V : Type 0} ⦃o : Linear V⦄ (edges : List (EdgeId V)) where
  -- No edge comes to a node from one that does not stand before it.
  abbrev pub IsRespected : List (NodeId V) → List (NodeId V) → Type 0
  IsRespected before [] = Unit
  IsRespected before (n ∷ ns) = (waiting before n edges ≡ 0) × IsRespected (before ++ n ∷ []) ns

  IsRespected-snoc :
      (before ns : List (NodeId V)) (c : NodeId V)
      → IsRespected before ns
      → waiting (before ++ ns) c edges ≡ 0
      → IsRespected before (ns ++ c ∷ [])
  IsRespected-snoc before [] c r h = (subst (λ z. waiting z c edges ≡ 0) (append-nil before) h, tt)
  IsRespected-snoc before (n ∷ ns) c r h = (
    r.0,
    IsRespected-snoc (before ++ n ∷ []) ns c r.1
        (subst (λ z. waiting z c edges ≡ 0) (sym (append_assoc before (n ∷ []) ns)) h),
  )

  pub IsRespected-at :
      (before ls rs : List (NodeId V)) (n : NodeId V)
      → IsRespected before (ls ++ n ∷ rs)
      → waiting (before ++ ls) n edges ≡ 0
  IsRespected-at before [] rs n r = subst (λ z. waiting z n edges ≡ 0) (sym (append-nil before)) r.0
  IsRespected-at before (a ∷ ls) rs n r =
      subst (λ z. waiting z n edges ≡ 0) (append_assoc before (a ∷ []) ls)
        (IsRespected-at (before ++ a ∷ []) ls rs n r.1)

  module _ (known : NodeId V → Bool) (size : ℕ) (out : NodeId V → List (EdgeId V))
      (split : (done : List (NodeId V)) (c n : NodeId V)
        → tally c done ≡ 0
        → waiting (done ++ c ∷ []) n edges + arrivals n (out c) ≤ waiting done n edges) where
    -- One round of the loop.
    round_lem :
        (d d' : Dict (NodeId V) ℤ) (c : NodeId V) (ready ready' ordered : List (NodeId V))
        → release (out c) d ready ≡ ok (d', ready')
        → IsKahn edges known size [] d (c ∷ ready) ordered
        → IsKahn edges known size [] d' ready' (ordered ++ c ∷ [])
    round_lem d d' c ready ready' ordered h k =
        release_lem edges known size (out c) d d' ready ready' (ordered ++ c ∷ []) h (
          taken edges known size (out c) d c ready ordered
            (λ n. split ordered c n (unused edges known size d c ready ordered k)) k)

    pub drain_order :
        (fuel : ℕ) (d : Dict (NodeId V) ℤ) (ready ordered ns : List (NodeId V))
        → drain out fuel d ready ordered ≡ order ns
        → IsKahn edges known size [] d ready ordered
        → IsRespected [] ordered
        → (d' : Dict (NodeId V) ℤ) × IsKahn edges known size [] d' [] ns × IsRespected [] ns
    unfolding drain
    drain_order zero d ready ordered ns h k r = absurd cc
    drain_order (suc fuel) d [] ordered ns h k r =
        let same : ordered ≡ ns = cc in
        (d, subst (λ z. IsKahn edges known size [] d [] z) same k, subst (IsRespected []) same r)
    drain_order (suc fuel) d (c ∷ ready) ordered ns h k r =
        elim (Outcome-cases (release (out c) d ready)) [
          | inr (f, e) ↦ absurd (let m = rw (drain, e) at h in cc)
          | inl ((d', ready'), e) ↦
              drain_order fuel d' ready' (ordered ++ c ∷ []) ns (rw (drain, e) at h)
                (round_lem d d' c ready ready' ordered e k)
                (IsRespected-snoc [] ordered c r k.free.0)
        ]

    pub drain_total :
        (fuel : ℕ) (d : Dict (NodeId V) ℤ) (ready ordered : List (NodeId V))
        → IsKahn edges known size [] d ready ordered
        → size < fuel + length ordered
        → ¬ (drain out fuel d ready ordered ≡ out_of_fuel)
    unfolding drain
    drain_total zero d ready ordered k b h = let r = k.room in omega arith
    drain_total (suc fuel) d [] ordered k b h = cc
    drain_total (suc fuel) d (c ∷ ready) ordered k b h =
        elim (Outcome-cases (release (out c) d ready)) [
          | inr (f, e) ↦ let m = rw (drain, e) at h in cc
          | inl ((d', ready'), e) ↦
              let l = length-append ordered (c ∷ []) in
              drain_total fuel d' ready' (ordered ++ c ∷ [])
                (round_lem d d' c ready ready' ordered e k) (omega arith) (rw (drain, e) at h)
        ]

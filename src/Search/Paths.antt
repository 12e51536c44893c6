-- ===== src/Search/Paths.antt =====
-- Routes through a graph, and the paths that the predecessors of a search record.
use mathlib.Core.List.{append_assoc}
use pyverge.Prelude.{
  ℕ, zero, suc, ◌<◌, ◌≡◌, refl, sym, ap, ◌∙◌, Bool, true, false, none, some, List, [], ◌∷◌, ◌++◌,
  length, length-append, Bool-cases, inl, inr, ◌==◌, arith, beq_refl,
}
use pyverge.Prelude.Dict.{Dict, get, set_item, get-set_item}
use pyverge.Prelude.Linear.{Linear}
use pyverge.Prelude.Groups.{contains}
use pyverge.Identity.{NodeId, EdgeId}
use pyverge.Identity.Order.{linear_node, linear_edge, eq_node, eq_edge}
use pyverge.Search.{path, reconstruct}

module _ {V : Type 0} ⦃o : Linear V⦄ (out : NodeId V → List (EdgeId V))
    (allowed : EdgeId V → Bool) where
  -- The edges lead from the first node to the last, each an allowed edge that goes out of its node.
  abbrev pub IsRoute : NodeId V → List (EdgeId V) → NodeId V → Type 0
  IsRoute a [] b = a ≡ b
  IsRoute a (e ∷ es) b = (contains e (out a) ≡ true) × (allowed e ≡ true) × IsRoute e.target es b

  -- What the predecessors record of a node: the route by which it was met.
  pub data Traced (predecessor : Dict (NodeId V) (EdgeId V)) (start : NodeId V)
      : NodeId V → List (EdgeId V) → Type 0 where
    here : Traced predecessor start start []
    step :
        {n : NodeId V} {es : List (EdgeId V)} (e : EdgeId V)
        → Traced predecessor start e.source es
        → get n predecessor ≡ some e
        → e.target ≡ n
        → (n == start) ≡ false
        → contains e (out e.source) ≡ true
        → allowed e ≡ true
        → Traced predecessor start n (es ++ e ∷ [])

  IsRoute-snoc :
      (a b : NodeId V) (es : List (EdgeId V)) (e : EdgeId V)
      → IsRoute a es b
      → contains e (out b) ≡ true
      → allowed e ≡ true
      → IsRoute a (es ++ e ∷ []) e.target
  IsRoute-snoc a b [] e r h k = (rw r h, k, refl)
  IsRoute-snoc a b (x ∷ es) e r h k = (r.0, r.1, IsRoute-snoc x.target b es e r.2 h k)

  pub Traced-IsRoute :
      (p : Dict (NodeId V) (EdgeId V)) (start : NodeId V) {n : NodeId V} {es : List (EdgeId V)}
      → Traced p start n es
      → IsRoute start es n
  Traced-IsRoute p start here = refl
  Traced-IsRoute p start (step {es = es} e t g tgt s c a) =
      rw (← tgt) (IsRoute-snoc start e.source es e (Traced-IsRoute p start t) c a)

  -- A new key does not disturb what is recorded.
  pub Traced-set_item :
      (p : Dict (NodeId V) (EdgeId V)) (start k : NodeId V) (x : EdgeId V) {n : NodeId V}
      {es : List (EdgeId V)}
      → get k p ≡ none
      → Traced p start n es
      → Traced (set_item k x p) start n es
  Traced-set_item p start k x h here = here
  Traced-set_item p start k x h (step {n} e t g tgt s c a) =
      step e (Traced-set_item p start k x h t)
        (rw (get-set_item k n x p) (elim (Bool-cases (k == n)) [
          | inl same ↦ absurd (
              let kn = (eq_node.same_iff k n).0 same in
              let m : some e ≡ none = sym g ∙ ap (λ z. get z p) (sym kn) ∙ h in cc)
          | inr other ↦ rw other g
        ]))
        tgt s c a

  -- `_reconstruct` gives the recorded route.
  pub reconstruct-Traced :
      (p : Dict (NodeId V) (EdgeId V)) (start : NodeId V) (fuel : ℕ) {n : NodeId V}
      {es : List (EdgeId V)} (collected : List (EdgeId V))
      → Traced p start n es
      → length es < fuel
      → reconstruct fuel p start n collected ≡ path (es ++ collected)
  unfolding reconstruct
  reconstruct-Traced p start zero collected t h = absurd (omega arith)
  reconstruct-Traced p start (suc fuel) collected here h = rw (beq_refl start) refl
  reconstruct-Traced p start (suc fuel) collected (step {es = es} e t g tgt s c a) h =
      let shorter = length-append es (e ∷ []) in
      rw (s, g)
        (reconstruct-Traced p start fuel (e ∷ collected) t (omega arith)
          ∙ ap path (sym (append_assoc es (e ∷ []) collected)))

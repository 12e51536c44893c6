-- ===== src/Execution/Applied.antt =====
-- `apply_results` on the results of one level, whose paths do not lead through one another.
use mathlib.Core.List.{Permᴰ}
use pyverge.Prelude.{◌≡◌, refl, subst, ◌∙◌, true, List, [], ◌∷◌, All, All-map}
use pyverge.Errors.{ok}
use pyverge.Planning.{Step}
use pyverge.Payload.{Value}
use pyverge.Payload
use pyverge.Payload.Places.{diverge, diverge_swap}
use pyverge.Execution.{EntryResult, replace_at, apply_results}
use pyverge.Execution.Results.{
  IsPlace, get-replace_at, get-replace_at_ne, replace_at_total, IsPlace-replace_at,
}
use pyverge.Execution.Order.{replace_at-Diamond}

-- The results' paths diverge from one another.
abbrev pub AreApart : List EntryResult → Type 0
AreApart [] = Unit
AreApart (r ∷ rs) = All (λ x. diverge r.path x.path ≡ true) rs × AreApart rs

-- The results' paths lead to values.
abbrev pub ArePlaces : Value → List EntryResult → Type 0
ArePlaces v rs = All (λ r. IsPlace v r.path) rs

-- The payload `u` is `v` with the results in it: each at its path, and all else as it was.
pub record Holds (v : Value) (rs : List EntryResult) (u : Value) : Type 0 where
  pub placed : All (λ r. Payload.get r.path u ≡ ok r.value) rs
  pub kept :
      (q : List Step) → All (λ r. diverge r.path q ≡ true) rs → Payload.get q u ≡ Payload.get q v

ArePlaces-replace_at :
    (p : List Step) (a v u : Value) (rs : List EntryResult)
    → replace_at v p a ≡ ok u
    → All (λ r. diverge p r.path ≡ true) rs
    → ArePlaces v rs
    → ArePlaces u rs
ArePlaces-replace_at p a v u [] e d h = tt
ArePlaces-replace_at p a v u (r ∷ rs) e d h =
    (IsPlace-replace_at a p r.path v d.0 e h.0, ArePlaces-replace_at p a v u rs e d.1 h.1)

-- Results whose paths lead to values of the payload and diverge from one another are all applied:
-- no error is raised, each value stands at its path afterwards, and every path that diverges from
-- them reads as before.
pub apply_results_total :
    (v : Value) (rs : List EntryResult)
    → AreApart rs
    → ArePlaces v rs
    → (u : Value) × (apply_results v rs ≡ ok u) × Holds v rs u
unfolding apply_results
apply_results_total v [] d h = (v, refl, record { placed = tt; kept = λ q e. refl })
apply_results_total v (r ∷ rs) d h =
    let (w, done) = replace_at_total r.value r.path v h.0 in
    let (u, rest, held) =
      apply_results_total w rs d.1 (ArePlaces-replace_at r.path r.value v w rs done d.0 h.1) in
    (
      u,
      rw done rest,
      record {
        placed = (
          held.kept r.path (All-map (λ x e. diverge_swap r.path x.path e) rs d.0)
              ∙ get-replace_at r.path v r.value done,
          held.placed,
        );
        kept = λ q e. held.kept q e.1 ∙ get-replace_at_ne r.value r.path q v e.0 done;
      },
    )

apply_results_swap :
    (v : Value) (r r' : EntryResult) (rs : List EntryResult)
    → diverge r.path r'.path ≡ true
    → IsPlace v r.path
    → IsPlace v r'.path
    → apply_results v (r ∷ r' ∷ rs) ≡ apply_results v (r' ∷ r ∷ rs)
unfolding apply_results
apply_results_swap v r r' rs d h h' =
    let m = replace_at-Diamond r.path r'.path v r.value r'.value d h h' in
    rw (m.first, m.second, m.then_second, m.then_first) refl

All-Perm {ℓ κ} : {A : Type ℓ} (P : A → Type κ) {xs ys : List A} → Permᴰ xs ys → All P xs → All P ys
All-Perm P Permᴰ.nil h = tt
All-Perm P (Permᴰ.cons e p) h = (subst P e h.0, All-Perm P p h.1)
All-Perm P (Permᴰ.swap e f) h = (subst P f h.1.0, (subst P e h.0, h.1.1))
All-Perm P (Permᴰ.trans p q) h = All-Perm P q (All-Perm P p h)

AreApart-Perm : {rs rs' : List EntryResult} → Permᴰ rs rs' → AreApart rs → AreApart rs'
AreApart-Perm Permᴰ.nil h = tt
AreApart-Perm (Permᴰ.cons e p) h =
    rw (← e) (All-Perm (λ x. diverge _ x.path ≡ true) p h.0, AreApart-Perm p h.1)
AreApart-Perm (Permᴰ.swap {a} {b} {a'} {l = l} e f) h =
    subst (λ z. AreApart (a' ∷ z ∷ l)) e
      (subst (λ z. AreApart (z ∷ a ∷ l)) f
        ((diverge_swap a.path b.path h.0.0, h.1.0), (h.0.1, h.1.1)))
AreApart-Perm (Permᴰ.trans p q) h = AreApart-Perm q (AreApart-Perm p h)

-- The results of a level may come in any order: the payload that they leave is the same.
pub apply_results-perm :
    {rs rs' : List EntryResult}
    → Permᴰ rs rs'
    → (v : Value) → AreApart rs
    → ArePlaces v rs
    → apply_results v rs ≡ apply_results v rs'
unfolding apply_results
apply_results-perm Permᴰ.nil v d h = refl
apply_results-perm (Permᴰ.cons {a} e p) v d h =
    let (w, done) = replace_at_total a.value a.path v h.0 in
    rw (← e, done)
      (apply_results-perm p w d.1 (ArePlaces-replace_at a.path a.value v w _ done d.0 h.1))
apply_results-perm (Permᴰ.swap {a} {b} {l = l} e f) v d h =
    rw (← e, ← f) (apply_results_swap v a b l d.0.0 h.0 h.1.0)
apply_results-perm (Permᴰ.trans p q) v d h =
    apply_results-perm p v d h
    ∙ apply_results-perm q v (AreApart-Perm p d) (All-Perm (λ r. IsPlace v r.path) p h)

-- ===== src/Execution/Stamps.antt =====
-- What an executed entry returns.
use pyverge.Prelude.{
  ℕ, zero, suc, ◌+◌, ◌≡◌, refl, sym, subst, ap, ◌∙◌, some, List, [], ◌∷◌, length, get_elem?, arith,
}
use pyverge.Prelude.Text.{Text}
use pyverge.Prelude.Effects.{Result, ok, raised, Action, ◌>>=◌, continue}
use pyverge.Errors
use pyverge.Identity.{NodeId}
use pyverge.Planning.{key}
use pyverge.Payload.{Value, null, boolean, integer, text, list, dict, field_at}
use pyverge.Payload.Places.{field_at-put_field, step_eq_refl}
use pyverge.Execution.{EntryResult}
use pyverge.Execution.Steps.{Returned, Hook, Naming, run_sync}
use pyverge.Telemetry.{TelemetryPublisher, StepContext}
use pyverge.Execution.Entries.{
  ExecutionEntry, Run, item, step_context, invoke, round, loop, stamped, execute_sync,
}

-- A bind that returns has returned at both of its parts.
bind-eq-ok :
    {W A B : Type 0} (m : Action W A) (k : A → Action W B) {b : B} (w : W)
    → ((m >>= k) w).0 ≡ ok b
    → (a : A) × (u : W) × ((m w).0 ≡ ok a) × ((k a u).0 ≡ ok b)
bind-eq-ok {W = W} {A = A} {B = B} m k {b} w h = go (m w) h
  where
    go :
        (x : Result A × W)
        → (continue x.0 k x.1).0 ≡ ok b
        → (a : A) × (u : W) × (x.0 ≡ ok a) × ((k a u).0 ≡ ok b)
    go (ok a, u) e = (a, u, refl, e)
    go (raised e', u) e = cc

-- A mapping holds the text at the key.
abbrev pub HoldsText : Text → Text → Value → Type 0
HoldsText property version (dict fs) = field_at fs (key property) ≡ Errors.ok (text version)
HoldsText property version v = Unit

HoldsText-stamped :
    (property version : Text) (v : Value) → HoldsText property version (stamped property version v)
unfolding stamped
HoldsText-stamped property version (dict fs) =
    field_at-put_field fs (key property) (key property) (text version)
    ∙ rw (step_eq_refl (key property)) refl
HoldsText-stamped property version null = tt
HoldsText-stamped property version (boolean b) = tt
HoldsText-stamped property version (integer n) = tt
HoldsText-stamped property version (text t) = tt
HoldsText-stamped property version (list vs) = tt

item-eq-ok :
    {W A : Type 0} (l : List A) (i : ℕ) (w : W) {a : A}
    → (item l i w).0 ≡ ok a
    → get_elem? l i ≡ some a
item-eq-ok [] i w h = cc
item-eq-ok (x ∷ l) zero w h = cc
item-eq-ok (x ∷ l) (suc i) w h = item-eq-ok l i w h

module _ {W V C : Type 0} (run : Run W V C) (entry : ExecutionEntry W V C) where
  -- The value names the version of the step's target, if it is a mapping.
  abbrev Named : ℕ → Value → Type 0
  Named i v =
      (ends : NodeId V × NodeId V) × (get_elem? entry.plan.steps i ≡ some ends)
      × HoldsText run.version_property (run.show ends.1.version) v

  step_context-eq-ok :
      (i : ℕ) (w : W) {s : StepContext V}
      → (step_context run entry i w).0 ≡ ok s
      → (ends : NodeId V × NodeId V) × (get_elem? entry.plan.steps i ≡ some ends)
        × (s.target ≡ ends.1)
  unfolding step_context
  step_context-eq-ok i w h =
      let (ends, u, at, rest) = bind-eq-ok (item entry.plan.steps i) _ w h in
      let (edge, u', _, rest') = bind-eq-ok (item entry.plan.edges i) _ u rest in
      let (m, u'', _, last) = bind-eq-ok (item entry.migrations i) _ u' rest' in
      (ends, item-eq-ok entry.plan.steps i w at, cc)

  module _
      (runner : Naming
        → TelemetryPublisher W V
        → Action W (List (Hook W V))
        → StepContext V
        → Value
        → Action W (Returned W Value)
        → Action W Value)
      (invoker : ℕ → Value → Action W (Returned W Value)) where
    Named-round :
        (i : ℕ) (v : Value) (w : W) {r : Value}
        → (round run entry runner invoker i v w).0 ≡ ok r
        → Named i r
    unfolding round
    Named-round i v w {r} h =
        let (s, u, at, rest) = bind-eq-ok (step_context run entry i) _ w h in
        let (m, u', _, last) =
          bind-eq-ok
            (runner (run.names entry.plan.source entry.plan.target) run.telemetry
              (item entry.hooks i) s v (invoker i v))
            _ u rest in
        let (ends, found, same) = step_context-eq-ok i w at in
        let stamp : stamped run.version_property (run.show s.target.version) m ≡ r = cc in
        (
          ends,
          found,
          rw (← stamp, ← same)
              (HoldsText-stamped run.version_property (run.show s.target.version) m),
        )

    Named-loop :
        (n i : ℕ) (v : Value) (w : W) {r : Value}
        → (loop run entry runner invoker (suc n) i v w).0 ≡ ok r
        → Named (n + i) r
    unfolding loop
    Named-loop zero i v w {r} h =
        let (m, u, at, last) = bind-eq-ok (round run entry runner invoker i v) _ w h in
        let e : m ≡ r = cc in
        subst (λ k. Named k r) (omega arith) (subst (λ x. Named i x) e (Named-round i v w at))
    Named-loop (suc n) i v w {r} h =
        let (m, u, at, rest) = bind-eq-ok (round run entry runner invoker i v) _ w h in
        let e : n + suc i ≡ suc n + i = omega arith in
        subst (λ k. Named k r) e (Named-loop n (suc i) m u rest)

  -- An entry of n + 1 steps that `execute_sync` returns keeps its path and, if its value is a
  -- mapping, names the version of the last step's target under the adapter's property, whatever
  -- its hooks and migrations do.
  pub execute_sync-version :
      (n : ℕ) (v : Value) (w : W) {r : EntryResult}
      → length entry.plan.steps ≡ suc n
      → (execute_sync run entry v w).0 ≡ ok r
      → (r.path ≡ entry.plan.path)
        × ((ends : NodeId V × NodeId V) × (get_elem? entry.plan.steps n ≡ some ends)
            × HoldsText run.version_property (run.show ends.1.version) r.value)
  unfolding execute_sync
  execute_sync-version n v w {r} len h =
      let (m, u, at, last) =
        bind-eq-ok (loop run entry run_sync (invoke run entry) (length entry.plan.steps) 0 v) _ w
          h in
      let made : EntryResult = record { path = entry.plan.path; value = m } in
      let e : made ≡ r = cc in
      let ran = subst (λ k. (loop run entry run_sync (invoke run entry) k 0 v w).0 ≡ ok m) len at in
      let (ends, found, stamp) = Named-loop run_sync (invoke run entry) n 0 v w ran in
      let k : n + 0 ≡ n = omega arith in
      (
        ap (λ (x : EntryResult). x.path) (sym e),
        (
          ends,
          subst (λ j. get_elem? entry.plan.steps j ≡ some ends) k found,
          subst
              (λ (x : EntryResult).
                HoldsText run.version_property (run.show ends.1.version) x.value)
              e stamp,
        ),
      )

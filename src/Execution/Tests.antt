-- ===== src/Execution/Tests.antt =====
-- Results applied to a payload, and the theorems at concrete inputs.
use mathlib.Core.List.{Permᴰ}
use pyverge.Prelude.{ℕ, ◌+◌, ◌≡◌, refl, List, [], ◌∷◌, All, true}
use pyverge.Prelude.Text.{codes}
use pyverge.Prelude.Int.{pos}
use pyverge.Prelude.Effects.{ok, Action}
use pyverge.Errors
use pyverge.Planning.{Step, key, index, PlanEntry, levels}
use pyverge.Payload.{Value, null, integer, text, list, dict, cons, nil, field, end}
use pyverge.Payload
use pyverge.Payload.Places.{diverge}
use pyverge.Execution.{EntryResult, child_of, put_child, replace_at, apply_results}
use pyverge.Execution.Results.{find, IsPlace}
use pyverge.Execution.Applied.{ArePlaces, Holds, apply_results_total, apply_results-perm}
use pyverge.Execution.InPlace.{set-replace_at}
use pyverge.Execution.Backends.{run_levels}
use pyverge.Execution.Layout.{AreDistinct, AreDistinct-of}
use pyverge.Execution.Total.{run_levels_total}

-- { "user": { "name": "Ada", "tags": [1, 2] }, "id": 3 }
abbrev tags : Value
tags = list (cons (integer (pos 1)) (cons (integer (pos 2)) nil))

abbrev user : Value
user = dict (field (key (codes "name")) (text (codes "Ada")) (field (key (codes "tags")) tags end))

abbrev payload : Value
payload = dict (field (key (codes "user")) user (field (key (codes "id")) (integer (pos 3)) end))

abbrev name_path : List Step
name_path = key (codes "user") ∷ key (codes "name") ∷ []

abbrev tag_path : List Step
tag_path = key (codes "user") ∷ key (codes "tags") ∷ index 1 ∷ []

abbrev renamed : Value
renamed = dict (
    field (key (codes "user"))
      (dict (field (key (codes "name")) null (field (key (codes "tags")) tags end)))
      (field (key (codes "id")) (integer (pos 3)) end))

abbrev name_result : EntryResult
name_result = record { path = name_path; value = text (codes "Bea") }

abbrev tag_result : EntryResult
tag_result = record { path = tag_path; value = null }

abbrev results : List EntryResult
results = name_result ∷ tag_result ∷ []

places : ArePlaces payload results
unfolding find child_of
places = ((text (codes "Ada"), refl), ((integer (pos 2), refl), tt))

apply_results_total_example :
    (u : Value) × (apply_results payload results ≡ Errors.ok u) × Holds payload results u
apply_results_total_example = apply_results_total payload results ((refl, tt), (tt, tt)) places

apply_results-perm_example :
    apply_results payload results ≡ apply_results payload (tag_result ∷ name_result ∷ [])
apply_results-perm_example =
    apply_results-perm (Permᴰ.swap {a = name_result} {b = tag_result} refl refl) payload
      ((refl, tt), (tt, tt)) places

replaced : replace_at payload name_path null ≡ Errors.ok renamed
unfolding replace_at child_of put_child
replaced = refl

set-replace_at_example : Payload.set name_path payload null ≡ Errors.ok renamed
set-replace_at_example =
    set-replace_at (key (codes "user")) (key (codes "name") ∷ []) payload null replaced

-- The leaf runs before its parent, which finds the leaf's result.
abbrev entry : ℕ → List Step → PlanEntry ℕ
entry n path = record { object = n; path = path; item = n }

abbrev entries : List (PlanEntry ℕ)
entries = entry 0 (key (codes "user") ∷ []) ∷ entry 1 tag_path ∷ entry 2 name_path ∷ []

abbrev echo : PlanEntry ℕ → Value → Action ℕ EntryResult
echo e v w = (ok (record { path = e.path; value = v }), w + 1)

distinct : AreDistinct entries
distinct = AreDistinct-of entries ((refl, (refl, tt)), ((refl, tt), (tt, tt)))

entry_places : All (λ e. IsPlace payload e.path) entries
unfolding find child_of
entry_places = ((user, refl), ((integer (pos 2), refl), ((text (codes "Ada"), refl), tt)))

run_levels_total_example :
    (u : Value) × ((run_levels (λ e. e.path) echo payload (levels entries) 0).0 ≡ ok u)
    × ((q : List Step)
        → All (λ e. diverge e.path q ≡ true) entries
        → Payload.get q u ≡ Payload.get q payload)
run_levels_total_example =
    run_levels_total echo (λ e v w. (v, refl)) entries payload 0
      (
        (λ h. refl, (λ h. cc, (λ h. cc, tt))),
        ((λ h. cc, (λ h. refl, (λ h. cc, tt))), ((λ h. cc, (λ h. cc, (λ h. refl, tt))), tt)),
      )
      distinct entry_places

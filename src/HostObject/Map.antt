-- ===== src/HostObject/Map.antt =====
-- std::map<std::string, T>: an association list in the order of its keys.
use Prim.Native.Nat.{Ordering}
use Prim.Native.String.{compare}
use text.Mathlib.Text.{◌==◌}
use text.Mathlib.TextEquality.{eq_iff}
use iroh_react_native_bridge.Base.{
  String, ◌≡◌, refl, ◌∙◌, ap, List, [], ◌∷◌, Option, none, some, if◌then◌else◌, arith, All,
  Bool-cases, inl, inr,
}
use mathlib.Core.Path.{subst₂}

abbrev pub StringMap : Type 0 → Type 0
StringMap V = List (String × V)

module _ {V : Type 0} where
  unfoldable pub lookup : String → StringMap V → Option V
  lookup k [] = none
  lookup k ((j, v) ∷ m) = if j == k then some v else lookup k m

  unfoldable pub insert_or_assign : String → V → StringMap V → StringMap V
  insert_or_assign k v [] = (k, v) ∷ []
  insert_or_assign k v ((j, w) ∷ m) =
      let rest = (j, w) ∷ insert_or_assign k v m in
      elim (compare k j) [
        | Ordering.lt ↦ (k, v) ∷ (j, w) ∷ m
        | Ordering.eq ↦ (k, v) ∷ m
        | Ordering.gt ↦ rest
      ]

  -- Assignments in order.
  unfoldable pub assign_all : List (String × V) → StringMap V → StringMap V
  assign_all [] m = m
  assign_all ((k, v) ∷ es) m = assign_all es (insert_or_assign k v m)

  pub lookup-insert_or_assign :
      (k j : String) (v : V) (m : StringMap V)
      → lookup j (insert_or_assign k v m) ≡ (if k == j then some v else lookup j m)
  unfolding lookup insert_or_assign
  lookup-insert_or_assign k j v [] = refl
  lookup-insert_or_assign k j v ((i, w) ∷ m) =
      ground
        (arith, eq_iff k j, eq_iff i k, eq_iff k i, eq_iff i j, lookup-insert_or_assign k j v m)

  -- The last assignment to a name, or what was there before.
  abbrev pub last_assigned : String → List (String × V) → Option V → Option V
  last_assigned k [] old = old
  last_assigned k ((j, v) ∷ es) old = last_assigned k es (if j == k then some v else old)

  pub lookup-assign_all :
      (k : String) (es : List (String × V)) (m : StringMap V)
      → lookup k (assign_all es m) ≡ last_assigned k es (lookup k m)
  unfolding assign_all
  lookup-assign_all k [] m = refl
  lookup-assign_all k ((j, v) ∷ es) m =
      lookup-assign_all k es (insert_or_assign j v m)
      ∙ ap (last_assigned k es) (lookup-insert_or_assign j k v m)

  -- What holds of every assignment holds of the last one.
  pub last_assigned_all {κ} :
      (P : String → V → Type κ) (es : List (String × V)) (k : String) (old : Option V) {v : V}
      → All (λ e. P e.0 e.1) es
      → ((u : V) → old ≡ some u → P k u)
      → last_assigned k es old ≡ some v
      → P k v
  last_assigned_all P [] k old {v} h before e = before v e
  last_assigned_all P ((j, w) ∷ es) k old h before e =
      last_assigned_all P es k (if j == k then some w else old) h.1 now e
    where
      now : (u : V) → (if j == k then some w else old) ≡ some u → P k u
      now u eq = elim (Bool-cases (j == k)) [
        | inl same ↦ let e : w ≡ u = ground arith in subst₂ P ((eq_iff j k).0 same) e h.0
        | inr other ↦ before u (ground arith)
      ]

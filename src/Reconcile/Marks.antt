-- ===== src/Reconcile/Marks.antt =====
-- The marks that keep the output connections of a Release from being deleted as orphans.
use mathlib.Core.Path.{subst}
use kubocd.Common.{ℕ, suc, String, Bool, true, false, ◌≡◌, ◌≢◌, refl, ◌⊎◌, inl, inr}
use kubocd.Common.{List, [], ◌∷◌, ok, ok-injective, err-ne-ok, arith, ap, sym, ◌∙◌}
use mathlib.Core.Bool.{true≢false}
use kubocd.Common.{All, contains, ◌==◌, ==→≡, string_eq, Bool-cases, Result-cases}
use kubocd.Config.Spec.{NamespacedName}
use kubocd.Package.Kinds.{kind_cluster_connection}
use kubocd.Inputs.Connection.{Reference}
use kubocd.Reconcile.Outputs.{OutputFetched, output_found, output_missing, output_unknown}
use kubocd.Reconcile.Outputs.{OutputCalls, Outputs, handle_output, handle_outputs, orphans}
use kubocd.Reconcile.Outputs.{
  build_connection_name, build_cluster_connection_name, created, patched,
}
use kubocd.Reconcile.Outputs.{handle_output_connection, handle_output_cluster_connection}
use kubocd.Reconcile.Outputs.{mark_connection, mark_cluster_connection}

abbrev pub IsMarked : NamespacedName → Outputs → OutputCalls → Type 0
IsMarked release outputs o =
    ((o.kind ≡ kind_cluster_connection)
      × (contains outputs.cluster_connection_names
            (build_cluster_connection_name release.name release.namespace o.name)
          ≡ true))
    ⊎ ((o.kind ≢ kind_cluster_connection)
        × (contains outputs.connection_names (build_connection_name release.name o.name) ≡ true))

-- Marks stay.
record Extends (outputs outputs' : Outputs) : Type 0 where
  connections :
      (n : String)
      → contains outputs.connection_names n ≡ true
      → contains outputs'.connection_names n ≡ true
  cluster_connections :
      (n : String)
      → contains outputs.cluster_connection_names n ≡ true
      → contains outputs'.cluster_connection_names n ≡ true

-- The marks are the same.
abbrev SameMarks : Outputs → Outputs → Type 0
SameMarks outputs outputs' =
    (outputs.connection_names ≡ outputs'.connection_names)
    × (outputs.cluster_connection_names ≡ outputs'.cluster_connection_names)

created-SameMarks :
    (o : OutputCalls) (reference : Reference) (outputs outputs' : Outputs)
    → created o reference outputs ≡ ok outputs'
    → SameMarks outputs outputs'
unfolding created
created-SameMarks o reference outputs outputs' h = elim (Result-cases o.create) [
  | inl (done, e) ↦ subst (SameMarks outputs) (ok-injective (rw (e, created) at h)) (refl, refl)
  | inr (failure, e) ↦ absurd (err-ne-ok (rw (e, created) at h))
]

patched-SameMarks :
    (reason : String) (o : OutputCalls) (reference : Reference) (outputs outputs' : Outputs)
    → patched reason o reference outputs ≡ ok outputs'
    → SameMarks outputs outputs'
unfolding patched
patched-SameMarks reason o reference outputs outputs' h = elim (Result-cases o.patch) [
  | inl (done, e) ↦ subst (SameMarks outputs) (ok-injective (rw (e, patched) at h)) (refl, refl)
  | inr (failure, e) ↦ absurd (err-ne-ok (rw (e, patched) at h))
]

OutputFetched-cases :
    (get : OutputFetched)
    → ((foreign : Bool) × (get ≡ output_found foreign))
      ⊎ (get ≡ output_missing)
      ⊎ ((e : String) × (get ≡ output_unknown e))
OutputFetched-cases (output_found foreign) = inl (foreign, refl)
OutputFetched-cases output_missing = inr (inl refl)
OutputFetched-cases (output_unknown e) = inr (inr (e, refl))

handle_output_connection-SameMarks :
    (name : String) (release : NamespacedName) (o : OutputCalls) (outputs outputs' : Outputs)
    → handle_output_connection name release o outputs ≡ ok outputs'
    → SameMarks (mark_connection name outputs) outputs'
unfolding handle_output_connection
handle_output_connection-SameMarks name release o outputs outputs' h =
    elim (OutputFetched-cases o.get) [
      | inl (foreign, e) ↦
          patched-SameMarks _ o _ _ outputs' (rw (e, handle_output_connection) at h)
      | inr (inl e) ↦ created-SameMarks o _ _ outputs' (rw (e, handle_output_connection) at h)
      | inr (inr (failure, e)) ↦ absurd (err-ne-ok (rw (e, handle_output_connection) at h))
    ]

handle_output_cluster_connection-SameMarks :
    (name : String) (o : OutputCalls) (outputs outputs' : Outputs)
    → handle_output_cluster_connection name o outputs ≡ ok outputs'
    → SameMarks (mark_cluster_connection name outputs) outputs'
unfolding handle_output_cluster_connection
handle_output_cluster_connection-SameMarks name o outputs outputs' h =
    elim (OutputFetched-cases o.get) [
      | inl (true, e) ↦ absurd (err-ne-ok (rw (e, handle_output_cluster_connection) at h))
      | inl (false, e) ↦
          patched-SameMarks _ o _ _ outputs' (rw (e, handle_output_cluster_connection) at h)
      | inr (inl e) ↦
          created-SameMarks o _ _ outputs' (rw (e, handle_output_cluster_connection) at h)
      | inr (inr (failure, e)) ↦ absurd (err-ne-ok (rw (e, handle_output_cluster_connection) at h))
    ]

contains-later :
    (x : String) (l : List String) (n : String) → contains l n ≡ true → contains (x ∷ l) n ≡ true
contains-later x l n h = ground (arith, h)

contains-first : (x : String) (l : List String) → contains (x ∷ l) x ≡ true
contains-first x l = ground arith

SameMarks-Extends :
    (start outputs outputs' : Outputs)
    → Extends start outputs
    → SameMarks outputs outputs'
    → Extends start outputs'
SameMarks-Extends start outputs outputs' h (e₁, e₂) = record {
  connections = λ n c. subst (λ l. contains l n ≡ true) e₁ (h.connections n c);
  cluster_connections = λ n c. subst (λ l. contains l n ≡ true) e₂ (h.cluster_connections n c);
}

handle_output-IsMarked :
    (release : NamespacedName) (o : OutputCalls) (outputs outputs' : Outputs)
    → handle_output release o outputs ≡ ok outputs'
    → IsMarked release outputs' o × Extends outputs outputs'
unfolding handle_output
handle_output-IsMarked release o outputs outputs' h =
    elim (Bool-cases (o.kind == kind_cluster_connection)) [
      | inl e ↦
          let name = build_cluster_connection_name release.name release.namespace o.name in
          let same =
            handle_output_cluster_connection-SameMarks name o outputs outputs'
              (rw (e, handle_output) at h) in
          (
            inl (
              ==→≡ o.kind _ e,
              subst (λ l. contains l name ≡ true) same.1
                  (contains-first name outputs.cluster_connection_names),
            ),
            SameMarks-Extends outputs (mark_cluster_connection name outputs) outputs'
                (record {
                  connections = λ n c. c;
                  cluster_connections = λ n. contains-later name outputs.cluster_connection_names n;
                })
                same,
          )
      | inr e ↦
          let name = build_connection_name release.name o.name in
          let same =
            handle_output_connection-SameMarks name release o outputs outputs'
              (rw (e, handle_output) at h) in
          (
            inr (
              ground (arith, e),
              subst (λ l. contains l name ≡ true) same.0
                  (contains-first name outputs.connection_names),
            ),
            SameMarks-Extends outputs (mark_connection name outputs) outputs'
                (record {
                  connections = λ n. contains-later name outputs.connection_names n;
                  cluster_connections = λ n c. c;
                })
                same,
          )
    ]

extend_mark :
    (release : NamespacedName) (o : OutputCalls) (outputs outputs' : Outputs)
    → Extends outputs outputs'
    → IsMarked release outputs o
    → IsMarked release outputs' o
extend_mark release o outputs outputs' h (inl (e, c)) = inl (e, h.cluster_connections _ c)
extend_mark release o outputs outputs' h (inr (e, c)) = inr (e, h.connections _ c)

handle_outputs-marks :
    (itoa : ℕ → String) (release : NamespacedName) (idx : ℕ) (l : List OutputCalls)
    (outputs outputs' : Outputs)
    → handle_outputs itoa release idx l outputs ≡ ok outputs'
    → All (IsMarked release outputs') l × Extends outputs outputs'
unfolding handle_outputs
handle_outputs-marks itoa release idx [] outputs outputs' h = (
  tt,
  subst (Extends outputs) (ok-injective h)
      (record { connections = λ n c. c; cluster_connections = λ n c. c }),
)
handle_outputs-marks itoa release idx (o ∷ l) outputs outputs' h =
    elim (Result-cases (handle_output release o outputs)) [
      | inr (failure, e) ↦ absurd (err-ne-ok (rw (e, handle_outputs) at h))
      | inl (outputs₁, e) ↦
          let (marked, first) = handle_output-IsMarked release o outputs outputs₁ e in
          let (rest, later) =
            handle_outputs-marks itoa release (suc idx) l outputs₁ outputs'
              (rw (e, handle_outputs) at h) in
          (
            (extend_mark release o outputs₁ outputs' later marked, rest),
            record {
              connections = λ n c. later.connections n (first.connections n c);
              cluster_connections =
                  λ n c. later.cluster_connections n (first.cluster_connections n c);
            },
          )
    ]

pub handle_outputs-IsMarked :
    (itoa : ℕ → String) (release : NamespacedName) (idx : ℕ) (l : List OutputCalls)
    (outputs outputs' : Outputs)
    → handle_outputs itoa release idx l outputs ≡ ok outputs'
    → All (IsMarked release outputs') l
handle_outputs-IsMarked itoa release idx l outputs outputs' h =
    (handle_outputs-marks itoa release idx l outputs outputs' h).0

-- No orphan has a marked name.
pub orphans-ne :
    (marked : List String) (l : List Reference) (name : String)
    → contains marked name ≡ true
    → All (λ (c : Reference). c.name ≢ name) (orphans marked l)
unfolding orphans
orphans-ne marked [] name h = tt
orphans-ne marked (c ∷ l) name h = elim (Bool-cases (contains marked c.name)) [
  | inl e ↦ rw (e, orphans) (orphans-ne marked l name h)
  | inr e ↦
      rw (e, orphans)
        ((
          λ same. true≢false (sym h ∙ (ap (contains marked) (sym same) ∙ e)),
          orphans-ne marked l name h,
        ))
]

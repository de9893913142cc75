-- ===== src/Refs/Generate/Aliases.antt =====
-- Two paths with one alias.
use text.Mathlib.TextLemmas.{append_assoc}
use kubocd.Common.{String, ◌<>◌, ◌≡◌, refl, ap, ◌∙◌, Bool, none, [], ◌∷◌, if◌then◌else◌}
use kubocd.Refs.Path.{Strconv}
use kubocd.Refs.Generate.{format_alias, format_segment}

format_segment_name :
    (S : Strconv) (seg : String) → S.atoi seg ≡ none → format_segment S seg ≡ "." <> seg
unfolding format_segment
format_segment_name S seg h = rw (h, format_segment) refl

-- The alias of a name under another is that of the one name with a dot between them, where none of
-- the three is read as a number: two different paths of a tree may have one alias.
pub format_alias_dot :
    (S : Strconv) (a b : String) (in_context : Bool)
    → S.atoi a ≡ none
    → S.atoi b ≡ none
    → S.atoi (a <> ("." <> b)) ≡ none
    → format_alias S (a ∷ b ∷ []) in_context ≡ format_alias S ((a <> ("." <> b)) ∷ []) in_context
unfolding format_alias
format_alias_dot S a b in_context ha hb hab =
    let start : String = if in_context then "context" else "parameters" in
    rw
      (
        format_segment_name S a ha,
        format_segment_name S b hb,
        format_segment_name S (a <> ("." <> b)) hab,
      )
      (append_assoc start ("." <> a) ("." <> b)
        ∙ ap (λ rest. start <> rest) (append_assoc "." a ("." <> b)))

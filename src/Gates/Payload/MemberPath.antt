-- ===== src/Gates/Payload/MemberPath.antt =====
-- Names from a stream never leave the item (dropin/pipeline/verify.py).
use dropin.Prelude.{
  ◌≡◌, ◌⊎◌, refl, ap, ◌∙◌, ◌++◌, append_assoc, false, ◌||◌, [], ◌∷◌, Text, codes, text_eq_iff,
  strip_prefix, strip_prefix_sound, any, any-append, ok, arith, Option-cases, inl, inr,
}
use dropin.Gates.Payload.{split, is_dot, member_rel_path}

split-append : (s t : Text) → split (s ++ (b'/' ∷ t)) ≡ split s ++ split t
unfolding split
split-append [] t = refl
split-append (c ∷ s) t = ground (arith, split-append s t)

-- The name of a member that is accepted is the item's own path or a path below it, and the path
-- below has no segment `.` or `..`.
pub member_rel_path_sound :
    (name prefix rel : Text)
    → member_rel_path name prefix ≡ ok rel
    → ((name ≡ prefix) × (rel ≡ []))
      ⊎ ((name ≡ prefix ++ (b'/' ∷ rel)) × (any is_dot (split rel) ≡ false))
unfolding member_rel_path
member_rel_path_sound name prefix rel h =
    elim (Option-cases (strip_prefix (prefix ++ codes "/") name)) [
      | inl e ↦ ground (arith, e, text_eq_iff name prefix)
      | inr (r, e) ↦
          let whole : name ≡ prefix ++ (b'/' ∷ r) =
            strip_prefix_sound (prefix ++ codes "/") name r e ∙ append_assoc prefix (codes "/") r in
          let parts : any is_dot (split name) ≡ any is_dot (split prefix) || any is_dot (split r) =
            ap (λ t. any is_dot (split t)) whole
            ∙ ap (any is_dot) (split-append prefix r)
            ∙ any-append is_dot (split prefix) (split r) in
          ground (arith, e, text_eq_iff name prefix, whole, parts)
    ]

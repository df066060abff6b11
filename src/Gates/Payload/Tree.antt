-- ===== src/Gates/Payload/Tree.antt =====
-- Which tar streams verify (dropin/pipeline/verify.py).
use dropin.Prelude.{
  ◌≡◌, refl, Bool, true, false, ◌||◌, Option, none, some, List, [], ◌∷◌, Text, text_eq, any, All,
  ok, err, arith, Option-cases, Bool-cases, inl, inr,
}
use dropin.Errors.{Exn, Raises}
use dropin.Gates.Equal.{type_eq_iff, opt_text_eq_iff}
use dropin.Gates.Payload.{
  member_rel_path, check_member, entry_at, check_path, check_members, missing_rows, check_end,
  lstrip_slash, verify_tree,
}
use dropin.Gates.Repository.{Member, MemberType}
use dropin.Store.{Entry, EntryType}

-- What a member must be for its row: a link with the target, a directory, or a file of which the
-- content has the recorded hash.
abbrev pub MatchesType : Member → Entry → MemberType → Type 0
MatchesType m row MemberType.sym =
    (row.entry_type ≡ EntryType.symlink) × (row.link_target ≡ some m.linkname)
MatchesType m row MemberType.dir = row.entry_type ≡ EntryType.dir
MatchesType m row MemberType.reg =
    (row.entry_type ≡ EntryType.file) × (d : Text) × (m.digest ≡ some d) × (row.sha256 ≡ some d)
MatchesType m row _ = ⊥

check_member_sound :
    (m : Member) (row : Entry) (rel : Text) (t : MemberType)
    → m.member_type ≡ t
    → check_member m row rel ≡ ok tt
    → MatchesType m row t
unfolding check_member
check_member_sound m row rel MemberType.sym e h = ground (
  arith,
  type_eq_iff row.entry_type EntryType.symlink,
  opt_text_eq_iff (some m.linkname) row.link_target,
)
check_member_sound m row rel MemberType.dir e h =
    ground (arith, type_eq_iff row.entry_type EntryType.dir)
check_member_sound m row rel MemberType.reg e h = elim (Option-cases m.digest) [
  | inl unread ↦ ground (arith, unread)
  | inr (d, read) ↦ (
    ground (arith, type_eq_iff row.entry_type EntryType.file),
    d,
    read,
    ground (arith, read, opt_text_eq_iff (some d) row.sha256),
  )
]
check_member_sound m row rel MemberType.lnk e h = ground arith
check_member_sound m row rel MemberType.other e h = ground arith

-- A member with a path in the item, a row at that path, and what the row wants of it.
pub record IsProven (rows : List Entry) (prefix : Text) (m : Member) : Type 0 where
  pub rel : Text
  pub path : member_rel_path m.name prefix ≡ ok rel
  pub row : Entry
  pub found : entry_at rows rel ≡ some row
  pub matches : MatchesType m row m.member_type

check_path_sound :
    (rows : List Entry) (seen : List Text) (m : Member) (rel : Text) (seen' : List Text)
    → check_path rows seen m rel ≡ ok seen'
    → (row : Entry) × (entry_at rows rel ≡ some row)
      × MatchesType m row m.member_type
      × (seen' ≡ rel ∷ seen)
unfolding check_path
check_path_sound rows seen m rel seen' h = elim (Bool-cases (any (text_eq rel) seen)) [
  | inl twice ↦ absurd (cc (rw (twice, check_path) at h))
  | inr new ↦ elim (Option-cases (entry_at rows rel)) [
    | inl unknown ↦ absurd (cc (rw unknown at (rw (new, check_path) at h)))
    | inr (row, found) ↦
        go row found (check_member m row rel) refl (rw found at (rw (new, check_path) at h))
  ]
]
  where
    go :
        (row : Entry)
        → entry_at rows rel ≡ some row
        → (r : Raises (Unit {0})) → check_member m row rel ≡ r
        → elim (check_member m row rel) [ ok _ ↦ ok (rel ∷ seen) | err x ↦ err x ] ≡ ok seen'
        → (row : Entry) × (entry_at rows rel ≡ some row)
          × MatchesType m row m.member_type
          × (seen' ≡ rel ∷ seen)
    go row found (err x) q e = absurd (cc (rw q at e))
    go row found (ok tt) q e =
        (row, found, check_member_sound m row rel m.member_type refl q, ground (arith, rw q at e))

-- The member stands at path `p` in the item.
abbrev pub is_at : Text → Text → Member → Bool
is_at prefix p m = elim (member_rel_path m.name prefix) [ ok rel ↦ text_eq p rel | err _ ↦ false ]

abbrev Proven : List Entry → Text → List Text → List Member → List Text → Type 0
Proven rows prefix seen ms seen' =
    All (IsProven rows prefix) ms
    × ((p : Text) → any (text_eq p) seen' ≡ any (text_eq p) seen || any (is_at prefix p) ms)

check_members_sound :
    (rows : List Entry) (prefix : Text) (seen : List Text) (ms : List Member) (seen' : List Text)
    → check_members rows prefix seen ms ≡ ok seen'
    → Proven rows prefix seen ms seen'
unfolding check_members
check_members_sound rows prefix seen [] seen' h = (tt, λ p. ground arith)
check_members_sound rows prefix seen (m ∷ ms) seen' h =
    go (member_rel_path m.name prefix) refl λ s. check_members_sound rows prefix s ms seen'
  where
    step :
        (rel : Text)
        → member_rel_path m.name prefix ≡ ok rel
        → (r : Raises (List Text)) → check_path rows seen m rel ≡ r
        → elim r [ ok s ↦ check_members rows prefix s ms | err x ↦ err x ] ≡ ok seen'
        → ((s : List Text)
            → check_members rows prefix s ms ≡ ok seen'
            → Proven rows prefix s ms seen')
        → Proven rows prefix seen (m ∷ ms) seen'
    step rel e (err x) q k ih = absurd (cc k)
    step rel e (ok s) q k ih =
        let (row, found, matches, grown) = check_path_sound rows seen m rel s q in
        let (rest, paths) = ih s k in
        (
          (record { rel = rel; path = e; row = row; found = found; matches = matches }, rest),
          λ p. ground (arith, e, grown, paths p),
        )

    go :
        (r : Raises Text)
        → member_rel_path m.name prefix ≡ r
        → ((s : List Text)
            → check_members rows prefix s ms ≡ ok seen'
            → Proven rows prefix s ms seen')
        → Proven rows prefix seen (m ∷ ms) seen'
    go (err x) q ih = absurd (cc (rw (q, check_members) at h))
    go (ok rel) q ih = step rel q (check_path rows seen m rel) refl (rw (q, check_members) at h) ih

-- A row below the root is carried by a member of the stream.
abbrev pub IsCarried : Text → List Member → Entry → Type 0
IsCarried prefix ms row =
    text_eq row.rel_path [] ≡ false → any (is_at prefix row.rel_path) ms ≡ true

missing_rows-nil :
    (prefix : Text) (seen : List Text) (ms : List Member) (rows : List Entry)
    → ((p : Text) → any (text_eq p) seen ≡ any (is_at prefix p) ms)
    → missing_rows rows seen ≡ []
    → All (IsCarried prefix ms) rows
missing_rows-nil prefix seen ms [] paths h = tt
missing_rows-nil prefix seen ms (row ∷ rows) paths h = elim (Bool-cases (text_eq row.rel_path [])) [
  | inl root ↦
      (λ e. absurd (cc e), missing_rows-nil prefix seen ms rows paths (ground (arith, root)))
  | inr inner ↦ elim (Bool-cases (any (text_eq row.rel_path) seen)) [
    | inl met ↦ (
      λ e. ground (arith, paths row.rel_path),
      missing_rows-nil prefix seen ms rows paths (ground (arith, inner, met)),
    )
    | inr gone ↦ absurd (ground (arith, inner, gone))
  ]
]

check_end_sound :
    (rows : List Entry) (ended : Option Exn) (seen : List Text)
    → check_end rows ended seen ≡ ok tt
    → (ended ≡ none) × (missing_rows rows seen ≡ [])
check_end_sound rows none seen h = (refl, ground arith)
check_end_sound rows (some x) seen h = absurd (ground arith)

-- A tar stream verifies only if it ended by itself, every member of it has a path in the item and a
-- row there whose type it has, with the link target or the content hash of the row, and every row
-- below the root is carried by a member.
pub verify_tree_sound :
    (spool_path : Text) (rows : List Entry) (ms : List Member) (ended : Option Exn)
    → verify_tree spool_path rows (ms, ended) ≡ ok tt
    → (ended ≡ none)
      × All (IsProven rows (lstrip_slash spool_path)) ms
      × All (IsCarried (lstrip_slash spool_path) ms) rows
unfolding verify_tree
verify_tree_sound spool_path rows ms ended h =
    go (check_members rows (lstrip_slash spool_path) [] ms) refl
  where
    go :
        (r : Raises (List Text))
        → check_members rows (lstrip_slash spool_path) [] ms ≡ r
        → (ended ≡ none)
          × All (IsProven rows (lstrip_slash spool_path)) ms
          × All (IsCarried (lstrip_slash spool_path) ms) rows
    go (err x) q = absurd (cc (rw (q, verify_tree) at h))
    go (ok seen) q =
        let (proven, paths) = check_members_sound rows (lstrip_slash spool_path) [] ms seen q in
        let (done, gone) = check_end_sound rows ended seen (rw (q, verify_tree) at h) in
        (done, proven, missing_rows-nil (lstrip_slash spool_path) seen ms rows paths gone)

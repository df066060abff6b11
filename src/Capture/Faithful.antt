-- ===== src/Capture/Faithful.antt =====
-- What dropin/capture/extract.py records of an item.
use mathlib.Core.Path.{subst}
use dropin.Gates.Reconcile.{absolute}
use dropin.Prelude.{
  find_by, All, All-map, ◌≡◌, refl, Bool, true, false, Option, none, some, List, [], ◌∷◌, map, Text,
  text_eq, text_eq_sound, text_eq_refl, if◌then◌else◌, ok, arith,
}
use dropin.Capture.{
  walk_now, listed, is_file_entry, hash_at, hash_files, same_walk, build_item, capture_item,
  captured_entry, captured_entries, captured_item,
}
use dropin.Capture.Sound.{Walks}
use dropin.Errors.{capture_aborted}
use dropin.Record.{CapturedEntry, CapturedItem}
use dropin.Session.{Env, Session, pure, raise, lift, ask, call, ◌>>=◌}
use dropin.Session.Result.{bind-ok, pure-ok, call-ok}
use dropin.Spool.Walk.{WalkEntry, Walked, walk}

module _ {W : Type 0} (e : Env W) where
  walk_now-Walks :
      (path : Text) (s : Session W) (entries : List WalkEntry)
      → (walk_now e path s).0 ≡ ok entries
      → Walks e path s.world entries
  unfolding walk_now ask lift ◌>>=◌
  walk_now-Walks path s entries h = go (walk (e.tree path s.world).0) h
    where
      go : (w : Walked) → listed w ≡ ok entries → w ≡ (entries, none)
      go (xs, none) k = ground (arith, k)
      go (xs, some x) k = cc

  -- A hash of the item's file was read, in some world.
  abbrev pub Read : Text → Text → Text → Type 0
  Read path rel_path digest = (w : W) × ((e.sha256_stream (absolute path rel_path) w).0 ≡ ok digest)

  abbrev Hashes : Text → List WalkEntry → List (Text × Text) → Type 0
  Hashes path ws hashes =
      All (λ h. Read path h.0 h.1) hashes
      × All
          (λ w.
            is_file_entry w.entry_type ≡ true → (d : Text) × (hash_at hashes w.rel_path ≡ some d))
          ws

  -- A hash that is found was read from the file of the path that was asked.
  hash_at-Read :
      (path : Text) (hashes : List (Text × Text)) (rel_path digest : Text)
      → All (λ h. Read path h.0 h.1) hashes
      → hash_at hashes rel_path ≡ some digest
      → Read path rel_path digest
  hash_at-Read path [] rel_path digest r h = cc
  hash_at-Read path ((rel, d) ∷ rest) rel_path digest r h =
      go (text_eq rel_path rel) refl h (hash_at-Read path rest rel_path digest r.1)
    where
      go :
          (b : Bool)
          → text_eq rel_path rel ≡ b
          → elim (if b then some (rel, d) else find_by (λ q. text_eq rel_path q.0) rest) [
            | none ↦ none
            | some q ↦ some q.1
          ]
            ≡ some digest
          → (hash_at rest rel_path ≡ some digest → Read path rel_path digest)
          → Read path rel_path digest
      go true k f next =
          rw (text_eq_sound rel_path rel k) (subst (λ x. Read path rel x) (same f) r.0)
        where
          same : ◌≡◌ {A = Option Text} (some d) (some digest) → d ≡ digest
          same f = cc
      go false k f next = next f

  abbrev Covers : List (Text × Text) → WalkEntry → Type 0
  Covers hashes w =
      is_file_entry w.entry_type ≡ true → (d : Text) × (hash_at hashes w.rel_path ≡ some d)

  Covers-cons :
      (hashes : List (Text × Text)) (h : Text × Text) (w : WalkEntry)
      → Covers hashes w
      → Covers (h ∷ hashes) w
  Covers-cons hashes h w k f = go (text_eq w.rel_path h.0) refl (k f)
    where
      go :
          (b : Bool)
          → text_eq w.rel_path h.0 ≡ b
          → (d : Text) × (hash_at hashes w.rel_path ≡ some d)
          → (d : Text) × (hash_at (h ∷ hashes) w.rel_path ≡ some d)
      go true q k = (h.1, rw (hash_at, q) refl)
      go false q k = (k.0, rw (hash_at, q) k.1)

  Hashes-cons :
      (path : Text) (w : WalkEntry) (rest : List WalkEntry) (digest : Text)
      (others : List (Text × Text))
      → Read path w.rel_path digest
      → Hashes path rest others
      → Hashes path (w ∷ rest) ((w.rel_path, digest) ∷ others)
  Hashes-cons path w rest digest others r h = (
    (r, h.0),
    (
      (λ f. (digest, rw (hash_at, text_eq_refl w.rel_path) refl)),
      All-map (λ v. Covers-cons others (w.rel_path, digest) v) rest h.1,
    ),
  )

  hash_files-Hashes :
      (path : Text) (ws : List WalkEntry) (s : Session W) (hashes : List (Text × Text))
      → (hash_files e path ws s).0 ≡ ok hashes
      → Hashes path ws hashes
  unfolding hash_files
  hash_files-Hashes path [] s hashes h = subst (Hashes path []) (pure-ok s [] hashes h) (tt, tt)
  hash_files-Hashes path (w ∷ rest) s hashes h =
      go (is_file_entry w.entry_type) refl h
        (λ s1 others k. hash_files-Hashes path rest s1 others k)
    where
      go :
          (b : Bool)
          → is_file_entry w.entry_type ≡ b
          → ((if b
                then (do
                  digest ← call (e.sha256_stream (absolute path w.rel_path))
                  others ← hash_files e path rest
                  pure ((w.rel_path, digest) ∷ others))
                else hash_files e path rest)
              s).0
            ≡ ok hashes
          → ((s1 : Session W) (others : List (Text × Text))
              → (hash_files e path rest s1).0 ≡ ok others
              → Hashes path rest others)
          → Hashes path (w ∷ rest) hashes
      go false q k next = ((next s hashes k).0, ((λ f. ground (arith, f, q)), (next s hashes k).1))
      go true q k next =
          let first = bind-ok _ _ s hashes k in
          let second = bind-ok _ _ _ hashes first.2 in
          subst (Hashes path (w ∷ rest))
            (pure-ok _ ((w.rel_path, first.0) ∷ second.0) hashes second.2)
            (Hashes-cons path w rest first.0 second.0 (s.world, call-ok _ s first.0 first.1)
              (next _ second.0 second.1))

  -- What is recorded of an entry is what was walked, and the hash of a file is one that was read.
  abbrev pub IsFaithful : Text → CapturedEntry → Type 0
  IsFaithful path c =
      (c.rel_path ≡ c.fingerprint.rel_path)
      × (c.entry_type ≡ c.fingerprint.entry_type)
      × (c.size_bytes ≡ c.fingerprint.size_bytes)
      × (c.link_target ≡ c.fingerprint.link_target)
      × (c.mode ≡ c.fingerprint.mode)
      × (is_file_entry c.entry_type ≡ true
          → (d : Text) × (c.sha256 ≡ some d) × Read path c.rel_path d)

  captured_entry-IsFaithful :
      (path kind : Text) (hashes : List (Text × Text)) (w : WalkEntry) (s : Session W)
      (c : CapturedEntry)
      → All (λ h. Read path h.0 h.1) hashes
      → Covers hashes w
      → (captured_entry e path w (hash_at hashes w.rel_path) kind s).0 ≡ ok c
      → (c.fingerprint ≡ w) × IsFaithful path c
  unfolding captured_entry
  captured_entry-IsFaithful path kind hashes w s c r k h =
      let rest = bind-ok _ _ s c h in
      subst (λ q. (q.fingerprint ≡ w) × IsFaithful path q) (pure-ok _ _ c rest.2)
        (
          refl,
          (
            refl,
            refl,
            refl,
            refl,
            refl,
            λ f. ((k f).0, (k f).1, hash_at-Read path hashes _ _ r (k f).1),
          ),
        )

  captured_entries-IsFaithful :
      (path kind : Text) (hashes : List (Text × Text)) (ws : List WalkEntry) (s : Session W)
      (cs : List CapturedEntry)
      → Hashes path ws hashes
      → (captured_entries e path hashes kind ws s).0 ≡ ok cs
      → (map (λ c. c.fingerprint) cs ≡ ws) × All (IsFaithful path) cs
  unfolding captured_entries
  captured_entries-IsFaithful path kind hashes [] s cs k h =
      subst (λ q. (map (λ c. c.fingerprint) q ≡ []) × All (IsFaithful path) q) (pure-ok s [] cs h)
        (refl, tt)
  captured_entries-IsFaithful path kind hashes (w ∷ rest) s cs k h =
      let first = bind-ok _ _ s cs h in
      let second = bind-ok _ _ _ cs first.2 in
      let one = captured_entry-IsFaithful path kind hashes w s first.0 k.0 k.1.0 first.1 in
      let others =
        captured_entries-IsFaithful path kind hashes rest _ second.0 (k.0, k.1.1) second.1 in
      subst (λ q. (map (λ c. c.fingerprint) q ≡ w ∷ rest) × All (IsFaithful path) q)
        (pure-ok _ (first.0 ∷ second.0) cs second.2)
        (ground (arith, one.0, others.0), (one.1, others.1))

  build_item-IsFaithful :
      (path name : Text) (hashes : List (Text × Text)) (ws : List WalkEntry) (s : Session W)
      (item : CapturedItem)
      → Hashes path ws hashes
      → (build_item e path name hashes ws s).0 ≡ ok item
      → (map (λ c. c.fingerprint) item.entries ≡ ws) × All (IsFaithful path) item.entries
  unfolding build_item raise captured_item
  build_item-IsFaithful path name hashes [] s item k h = cc
  build_item-IsFaithful path name hashes (w ∷ rest) s item k h =
      let first = bind-ok _ _ s item h in
      let second = bind-ok _ _ _ item first.2 in
      subst (λ q. (map (λ c. c.fingerprint) q.entries ≡ w ∷ rest) × All (IsFaithful path) q.entries)
        (pure-ok _ (captured_item e path name first.0 second.0) item second.2)
        (captured_entries-IsFaithful path first.0 hashes (w ∷ rest) _ second.0 k second.1)

  -- The session after the first walk and the hashes of the files it lists.
  abbrev pub after_hashes : Text → List WalkEntry → Session W → Session W
  after_hashes path before s = (hash_files e path before (walk_now e path s).1).1

  -- The second walk agrees with the first, and the entries are those of the first.
  abbrev pub IsCaptured : Text → Session W → CapturedItem → Type 0
  IsCaptured path s item =
      (before second : List WalkEntry) × (map (λ c. c.fingerprint) item.entries ≡ before)
      × Walks e path s.world before
      × Walks e path (after_hashes path before s).world second
      × (same_walk before second ≡ true)
      × All (IsFaithful path) item.entries

  -- If an item is captured, then the walk that starts at once ended by itself; the walk that starts
  -- in the world after it and the hashes of the files it lists ended by itself and agrees with it;
  -- the entries that are recorded are those of the first walk, in its order, each with its path,
  -- type, size, link target and mode; and every file is recorded with a hash that was read from its
  -- path.
  pub capture_item_sound :
      (path name : Text) (s : Session W) (item : CapturedItem)
      → (capture_item e path name s).0 ≡ ok item
      → IsCaptured path s item
  unfolding capture_item raise
  capture_item_sound path name s item h =
      let first = bind-ok (walk_now e path) _ s item h in
      let second = bind-ok (hash_files e path first.0) _ _ item first.2 in
      let third = bind-ok (walk_now e path) _ _ item second.2 in
      go first.0 (walk_now-Walks path s first.0 first.1) second.0
        (hash_files-Hashes path first.0 _ second.0 second.1) third.0
        (walk_now-Walks path _ third.0 third.1) (same_walk first.0 third.0) refl _ third.2
    where
      go :
          (before : List WalkEntry)
          → Walks e path s.world before
          → (hashes : List (Text × Text)) → Hashes path before hashes
          → (second : List WalkEntry) → Walks e path (after_hashes path before s).world second
          → (b : Bool) → same_walk before second ≡ b
          → (s1 : Session W)
          → ((if b then build_item e path name hashes before else raise capture_aborted) s1).0
            ≡ ok item
          → IsCaptured path s item
      go before x hashes k second y false q s1 r = cc
      go before x hashes k second y true q s1 r =
          let built = build_item-IsFaithful path name hashes before s1 item k r in
          (before, second, built.0, x, y, q, built.1)

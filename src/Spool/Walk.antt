-- ===== src/Spool/Walk.antt =====
-- dropin/spool/walk.py: the preflight walk.
use dropin.Prelude.{ℕ, ◌++◌, Option, none, some, List, [], ◌∷◌, Text, codes, text_lt, if◌then◌else◌}
use dropin.Errors.{Exn, special, os_error}
use dropin.Spool.{
  FileType, regular, directory, link, fifo, socket, char_device, block_device, unknown, Stat, Tree,
  unreadable, leaf, folder, closed, Forest, empty, child,
}
use dropin.Store.{EntryType}

pub record WalkEntry : Type 0 where
  pub rel_path : Text
  pub entry_type : EntryType
  pub size_bytes : Option ℕ
  pub mode : ℕ
  pub mtime_ns : ℕ
  pub ctime_ns : ℕ
  pub inode : ℕ
  pub dev : ℕ
  pub link_target : Option Text

-- The entries that the walk yields, and the exception that ends it early.
abbrev pub Walked : Type 0
Walked = List WalkEntry × Option Exn

abbrev entry_of : Text → Stat → EntryType → Option ℕ → Option Text → WalkEntry
entry_of rel s entry_type size link_target = record {
  rel_path = rel;
  entry_type = entry_type;
  size_bytes = size;
  mode = s.mode;
  mtime_ns = s.mtime_ns;
  ctime_ns = s.ctime_ns;
  inode = s.inode;
  dev = s.dev;
  link_target = link_target;
}

abbrev classify : Text → Stat → FileType → Walked
classify rel s regular = (entry_of rel s EntryType.file (some s.size) none ∷ [], none)
classify rel s directory = (entry_of rel s EntryType.dir none none ∷ [], none)
classify rel s link = (entry_of rel s EntryType.symlink none (some s.link_target) ∷ [], none)
classify rel s fifo = ([], some (special rel (codes "fifo")))
classify rel s socket = ([], some (special rel (codes "socket")))
classify rel s char_device = ([], some (special rel (codes "device")))
classify rel s block_device = ([], some (special rel (codes "device")))
classify rel s unknown = ([], some (special rel (codes "unsupported")))

-- `_entry`
unfoldable pub entry : Text → Stat → Walked
entry rel s = classify rel s s.file_type

infixr 60 ◌then_walk◌
-- What is yielded first, and what follows if no exception ended it.
abbrev pub ◌then_walk◌ : Walked → Walked → Walked
(xs, some e) then_walk rest = (xs, some e)
(xs, none) then_walk rest = (xs ++ rest.0, rest.1)

-- `f"{rel}/{name}" if rel else name`
abbrev pub join_rel : Text → Text → Text
join_rel [] name = name
join_rel (c ∷ rel) name = (c ∷ rel) ++ (b'/' ∷ name)

-- `sorted(os.listdir(directory), key=os.fsencode)`
unfoldable pub insert_child : Text → Tree → Forest → Forest
insert_child name t empty = child name t empty
insert_child name t (child other u rest) =
    if text_lt other name
    then child other u (insert_child name t rest)
    else child name t (child other u rest)

unfoldable pub sort_children : Forest → Forest
unfolding insert_child
sort_children empty = empty
sort_children (child name t rest) = insert_child name t (sort_children rest)

-- Every directory lists its children in the order of their names.
unfoldable mutual
  pub sort_tree : Tree → Tree
  sort_tree (unreadable e) = unreadable e
  sort_tree (leaf s) = leaf s
  sort_tree (closed s e) = closed s e
  sort_tree (folder s f) = folder s (sort_forest f)

  pub sort_forest : Forest → Forest
  sort_forest empty = empty
  sort_forest (child name t rest) = insert_child name (sort_tree t) (sort_forest rest)

-- `walk` and `_descend`, on children in order.
unfoldable mutual
  pub walk_tree : Text → Tree → Walked
  walk_tree rel (unreadable e) = ([], some (os_error e))
  walk_tree rel (leaf s) = entry rel s
  walk_tree rel (closed s e) = entry rel s then_walk ([], some (os_error e))
  walk_tree rel (folder s f) = entry rel s then_walk walk_forest rel f

  pub walk_forest : Text → Forest → Walked
  walk_forest rel empty = ([], none)
  walk_forest rel (child name t rest) =
      walk_tree (join_rel rel name) t then_walk walk_forest rel rest

unfoldable pub walk : Tree → Walked
unfolding walk_tree sort_tree entry
walk t = walk_tree [] (sort_tree t)

-- ===== src/Gates/Reconcile/Exact.antt =====
-- Which listings reconcile (dropin/pipeline/reconcile.py).
use dropin.Prelude.{
  ◌≡◌, refl, true, Option, none, some, List, [], ◌∷◌, Text, ok, err, All, Option-cases, inl, inr,
  arith,
}
use dropin.Errors.{Exn, Raises}
use dropin.Gates.Equal.{size_eq_iff}
use dropin.Gates.Reconcile.{
  same_type, expected_at, check_node, check_nodes, is_listed, check_missing, reconcile,
}
use dropin.Gates.Repository.{Node}
use dropin.Store.{Entry, EntryType}

-- A node that the manifest has, with its type, and with its size if it is a file.
pub record IsExpected (spool_path : Text) (rows : List Entry) (node : Node) : Type 0 where
  pub row : Entry
  pub found : expected_at spool_path rows node.path ≡ some row
  pub same : same_type node.node_type row.entry_type ≡ true
  pub size : row.entry_type ≡ EntryType.file → node.size ≡ row.size_bytes

check_node_sound :
    (spool_path : Text) (rows : List Entry) (node : Node)
    → check_node spool_path rows node ≡ ok tt
    → IsExpected spool_path rows node
unfolding check_node
check_node_sound spool_path rows node h =
    elim (Option-cases (expected_at spool_path rows node.path)) [
      | inl e ↦ absurd (cc (rw (e, check_node) at h))
      | inr (row, e) ↦
          let h' = rw (e, check_node) at h in
          record {
            row = row;
            found = e;
            same = ground arith;
            size = λ f. ground (arith, size_eq_iff node.size row.size_bytes);
          }
    ]

check_nodes_sound :
    (spool_path : Text) (rows : List Entry) (nodes : List Node)
    → check_nodes spool_path rows nodes ≡ ok tt
    → All (IsExpected spool_path rows) nodes
unfolding check_nodes
check_nodes_sound spool_path rows [] h = tt
check_nodes_sound spool_path rows (n ∷ ns) h =
    go (check_node spool_path rows n) refl (check_nodes_sound spool_path rows ns)
  where
    go :
        (r : Raises (Unit {0}))
        → check_node spool_path rows n ≡ r
        → (check_nodes spool_path rows ns ≡ ok tt → All (IsExpected spool_path rows) ns)
        → All (IsExpected spool_path rows) (n ∷ ns)
    go (err x) q ih = absurd (cc (rw (q, check_nodes) at h))
    go (ok tt) q ih = (check_node_sound spool_path rows n q, ih (rw (q, check_nodes) at h))

check_missing_iff :
    (spool_path : Text) (nodes : List Node) (rows : List Entry)
    → check_missing spool_path nodes rows ≡ ok tt
    → All (λ row. is_listed spool_path nodes row ≡ true) rows
unfolding check_missing
check_missing_iff spool_path nodes [] h = tt
check_missing_iff spool_path nodes (row ∷ rows) h =
    ground (arith, check_missing_iff spool_path nodes rows)

-- A listing reconciles only if it ended by itself, every node of it is in the manifest with its
-- type and, for a file, its size, and every entry of the manifest is listed.
pub reconcile_sound :
    (spool_path : Text) (rows : List Entry) (nodes : List Node) (ended : Option Exn)
    → reconcile spool_path rows (nodes, ended) ≡ ok tt
    → (ended ≡ none)
      × All (IsExpected spool_path rows) nodes
      × All (λ row. is_listed spool_path nodes row ≡ true) rows
unfolding reconcile
reconcile_sound spool_path rows nodes ended h =
    go (check_nodes spool_path rows nodes) refl ended refl
  where
    go :
        (r : Raises (Unit {0}))
        → check_nodes spool_path rows nodes ≡ r
        → (ended' : Option Exn) → ended ≡ ended'
        → (ended ≡ none)
          × All (IsExpected spool_path rows) nodes
          × All (λ row. is_listed spool_path nodes row ≡ true) rows
    go (err x) q _ _ = absurd (cc (rw (q, reconcile) at h))
    go (ok tt) q none e = (
      e,
      check_nodes_sound spool_path rows nodes q,
      check_missing_iff spool_path nodes rows (rw e at (rw (q, reconcile) at h)),
    )
    go (ok tt) q (some x) e = absurd (cc (rw e at (rw (q, reconcile) at h)))

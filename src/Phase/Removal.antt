-- ===== src/Phase/Removal.antt =====
-- The eviction (dropin/pipeline/evict.py) and its two steps in dropin/pipeline/drain.py leave the
-- occurrence where it may stand.
use dropin.Prelude.{arith, ℕ, Bool, true, false, Option, none, some, List, [], ◌∷◌, Text, text_eq}
use dropin.Drain.Base.{is_source_change}
use dropin.Drain.Intend.{intend, delete, after_intent, as_stop}
use dropin.Errors.{Exn, unsupported, os_error, retained_error}
use dropin.Evict.{
  as_retained, as_not_removed, require_capability, no_holders, check_writers, is_dir,
  begin_eviction, empty_or_refuse, remove_now, remove_found, remove, remove_all, remove_root,
  finish, evict_intended, run_eviction, deepest_first,
}
use dropin.Phase.{Proven, Below, recoverable, evicting, evicted, abandoned}
use dropin.Phase.Moves.{intended_store-Proven, finished_store-Proven}
use dropin.Phase.Settle.{Fine, abandon-confirmed}
use dropin.Session.{Env, Run}
use dropin.Session.Triple.{
  Triple, Triple-pure, Triple-raise, Triple-weaken, Triple-catch, Triple-bind, Triple-call,
  Triple-write,
}
use dropin.Session.Rules.{
  Triple-if, Triple-peek, Triple-asked, Triple-called, Triple-lifted, Triple-lift-same,
  Triple-transaction,
}
use dropin.Spool.{Stat}
use dropin.States.{State}
use dropin.Store.{Store, Occurrence, Fingerprint, Intent}

-- An action that leaves the store alone, whether it returns or raises.
abbrev Same : {W A : Type 0} → (Store → Type 0) → Run W A → Type 0
Same P m = Triple P m (λ _. P) (λ _. P)

module _ {W : Type 0} {P : Store → Type 0} where
  as_retained-Same : (A : Type 0) (x : Exn) → Same P (as_retained {A = A} {W = W} x)
  as_retained-Same A (unsupported m) = Triple-raise _ (λ db p. p)
  as_retained-Same A x = Triple-raise _ (λ db p. p)

  as_not_removed-Same :
      (A : Type 0) (rel : Text) (x : Exn) → Same P (as_not_removed {A = A} {W = W} rel x)
  as_not_removed-Same A rel (os_error m) = Triple-raise _ (λ db p. p)
  as_not_removed-Same A rel x = Triple-raise _ (λ db p. p)

module _ {W : Type 0} (e : Env W) {P : Store → Type 0} where
  require_capability-Same : Same P (require_capability e)
  unfolding require_capability
  require_capability-Same =
      Triple-asked _ _ λ c.
        Triple-if c.ownership_check _ _ (Triple-pure tt (λ db p. p)) (Triple-raise _ (λ db p. p))

  no_holders-Same : (rel : Text) (holders : List ℕ) → Same P (no_holders e rel holders)
  no_holders-Same rel [] = Triple-pure tt (λ db p. p)
  no_holders-Same rel (h ∷ hs) = Triple-raise _ (λ db p. p)

  check_writers-Same : (rel path : Text) (dir : Bool) → Same P (check_writers e rel path dir)
  unfolding check_writers
  check_writers-Same rel path dir =
      Triple-bind (Triple-catch (Triple-call _ (λ r db p. p) (λ x db p. p)) (as_retained-Same _))
        (no_holders-Same rel)

  is_dir-Same : (path : Text) → Same P (is_dir e path)
  unfolding is_dir
  is_dir-Same path =
      Triple-bind
        (Triple-catch (Triple-call _ (λ r db p. p) (λ x db p. p))
          (λ x. Triple-pure none (λ db p. p)))
        (λ i. Triple-pure _ (λ db p. p))

  empty_or_refuse-Same : (rel : Text) (names : List Text) → Same P (empty_or_refuse e rel names)
  empty_or_refuse-Same rel [] = Triple-pure tt (λ db p. p)
  empty_or_refuse-Same rel (n ∷ rest) = Triple-raise _ (λ db p. p)

  remove_now-Same : (rel path : Text) (dir : Bool) → Same P (remove_now e rel path dir)
  remove_now-Same rel path true =
      Triple-called _ _ (λ x db p. p)
        λ names.
          Triple-bind (empty_or_refuse-Same rel names)
            (λ _. Triple-call _ (λ r db p. p) (λ x db p. p))
  remove_now-Same rel path false = Triple-call _ (λ r db p. p) (λ x db p. p)

  remove_found-Same :
      (path : Text) (expected : Fingerprint) (info : Option Stat)
      → Same P (remove_found e path expected info)
  remove_found-Same path expected none = Triple-pure false (λ db p. p)
  remove_found-Same path expected (some info) =
      Triple-bind (check_writers-Same expected.rel_path path _) λ _.
        Triple-bind (Triple-lift-same _ (λ x db p. p)) λ _.
          Triple-called _ _ (λ x db p. p)
            λ _.
              Triple-bind
                (Triple-catch (remove_now-Same expected.rel_path path _)
                  (as_not_removed-Same _ expected.rel_path))
                (λ _. Triple-pure true (λ db p. p))

  remove-Same : (path : Text) (expected : Fingerprint) → Same P (remove e path expected)
  unfolding remove
  remove-Same path expected = Triple-called _ _ (λ x db p. p) (remove_found-Same path expected)

  remove_all-Same :
      (spool_path : Text) (entries : List Fingerprint) → Same P (remove_all e spool_path entries)
  unfolding remove_all
  remove_all-Same spool_path [] = Triple-pure tt (λ db p. p)
  remove_all-Same spool_path (x ∷ xs) =
      Triple-if (text_eq x.rel_path []) _ _ (remove_all-Same spool_path xs)
        (Triple-bind (remove-Same _ x) (λ _. remove_all-Same spool_path xs))

  remove_root-Same :
      (spool_path : Text) (root : Option Fingerprint) → Same P (remove_root e spool_path root)
  remove_root-Same spool_path none = Triple-raise _ (λ db p. p)
  remove_root-Same spool_path (some r) =
      Triple-bind (remove-Same spool_path r) (λ _. Triple-pure tt (λ db p. p))

module _ {W : Type 0} (e : Env W) {s0 : State} {occ_id : Text} (spool_path : Text) where
  begin_eviction-Proven :
      Triple
        (Proven s0 occ_id State.recoverable)
        (begin_eviction e occ_id spool_path)
        (λ _. Proven s0 occ_id State.evicting)
        (λ _. Proven s0 occ_id State.recoverable)
  unfolding begin_eviction
  begin_eviction-Proven = Triple-bind (require_capability-Same e) λ _.
      Triple-bind (is_dir-Same e spool_path) λ dir.
        Triple-bind (check_writers-Same e [] spool_path dir) λ _.
          Triple-transaction _
            (Triple-asked _ _ λ t. Triple-peek _ _ λ db.
              Triple-lifted _ _ (λ x db p. tt)
                λ u q. Triple-peek _ _ λ n. Triple-write _ (λ db p. intended_store-Proven n p))
            (λ x db p. p)

  finish-Proven :
      Triple
        (Proven s0 occ_id State.evicting)
        (finish e occ_id)
        (λ _. Proven s0 occ_id State.evicted)
        (λ _. Proven s0 occ_id State.evicting)
  unfolding finish
  finish-Proven = Triple-peek _ _ λ n. Triple-write _ (λ db p. finished_store-Proven n p)

  evict_intended-Proven :
      (intent : Option Intent)
      → Triple
          (Proven s0 occ_id State.evicting)
          (evict_intended e occ_id spool_path intent)
          (λ _. Proven s0 occ_id State.evicted)
          (λ _. Proven s0 occ_id State.evicting)
  evict_intended-Proven none = Triple-raise _ (λ db p. p)
  evict_intended-Proven (some i) = Triple-bind (require_capability-Same e) λ _.
      Triple-asked _ _ λ exists.
        Triple-if exists _ _
          (Triple-bind (is_dir-Same e spool_path) λ dir.
            Triple-bind (check_writers-Same e [] spool_path dir) λ _.
              Triple-bind (remove_all-Same e spool_path (deepest_first i.fingerprint))
                λ _. Triple-bind (remove_root-Same e spool_path _) (λ _. finish-Proven))
          (Triple-if i.recovered_without_local_history _ _ (Triple-raise _ (λ db p. p))
            finish-Proven)

module _ {W : Type 0} (e : Env W) {s0 : State} (o : Occurrence) (spool_path : Text) where
  after_intent-Fine :
      (change : Option (Text × Text)) (x : Exn)
      → Triple
          (Proven s0 o.occ_id State.recoverable)
          (after_intent e o spool_path change x)
          (λ _. Below 3 s0 o.occ_id)
          (Fine s0 o.occ_id)
  after_intent-Fine none (retained_error reason) = Triple-raise _ (λ db p. recoverable p)
  after_intent-Fine none x = Triple-raise _ (λ db p. recoverable p)
  after_intent-Fine (some d) x = Triple-asked _ _ λ exists.
      Triple-if exists _ _
        (Triple-bind (abandon-confirmed e _ none) (λ _. Triple-raise _ (λ db i. abandoned i)))
        (Triple-raise _ (λ db p. recoverable p))

  pub intend-Consistent :
      Triple
        (Proven s0 o.occ_id State.recoverable)
        (intend e o spool_path)
        (λ _. Below 3 s0 o.occ_id)
        (Fine s0 o.occ_id)
  unfolding intend
  intend-Consistent =
      Triple-catch
        (Triple-weaken (begin_eviction-Proven e spool_path) (λ db p. p)
          (λ _ db p. (evicting p, omega arith)) (λ x db p. p))
        (λ x. after_intent-Fine (is_source_change x) x)

  as_stop-Fine :
      (x : Exn)
      → Triple
          (Proven s0 o.occ_id State.evicting)
          (as_stop e x)
          (λ _. Below 2 s0 o.occ_id)
          (Fine s0 o.occ_id)
  as_stop-Fine (retained_error reason) = Triple-raise _ (λ db p. evicting p)
  as_stop-Fine x = Triple-raise _ (λ db p. evicting p)

  pub delete-Consistent :
      Triple
        (Proven s0 o.occ_id State.evicting)
        (delete e o spool_path)
        (λ _. Below 2 s0 o.occ_id)
        (Fine s0 o.occ_id)
  unfolding delete run_eviction
  delete-Consistent =
      Triple-catch
        (Triple-weaken (Triple-peek _ _ λ db. evict_intended-Proven e spool_path _) (λ db p. p)
          (λ _ db p. (evicted p, omega arith)) (λ x db p. p))
        as_stop-Fine

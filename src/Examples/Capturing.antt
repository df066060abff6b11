-- ===== src/Examples/Capturing.antt =====
-- A file that has been quiet, scanned, admitted and captured; and a drain that is refused.
use dropin.Prelude.{
  ℕ, ◌≡◌, ◌≢◌, refl, true, not, ◌&&◌, none, some, List, [], ◌∷◌, Text, codes, text_eq, any,
  starts_with, ok,
}
use dropin.Capture.{capture_item}
use dropin.Capture.Admission.{admit}
use dropin.Capture.Faithful.{IsCaptured, capture_item_sound}
use dropin.Capture.Scan.{scan}
use dropin.Capture.Sound.{scan_iff, IsQuiet, admit_sound}
use dropin.Drain.Execute.{GateVerdict, refusal_text, frontier, execute, passes}
use dropin.Drain.Refused.{Untouched, execute_refused}
use dropin.Engine.Tags.{missing_tags, reserved_keys}
use dropin.Examples.Pipeline.{world, settings, start_store, session}
use dropin.Gates.Frontier.{Refusal}
use dropin.Record.{CapturedItem}
use dropin.Session.{Env, Session}
use dropin.Spool.{FileType, leaf}
use dropin.Spool.Walk.{WalkEntry}
use dropin.Store.{EntryType}

abbrev names : List Text
names = codes "a" ∷ codes ".DS_Store" ∷ []

scan_iff_example : any (text_eq (codes "a")) (scan (some names)) ≡ (
    any (text_eq (codes "a")) names
    && (not (text_eq (codes "a") (codes ".DS_Store"))
        && (not (text_eq (codes "a") (codes ".localized"))
            && not (starts_with (codes "a") (codes ".dropin-")))))
scan_iff_example = scan_iff (codes "a") names

abbrev quiet_world : Env ℕ
quiet_world = record world {
  tree = λ p w. (
    leaf (record {
      file_type = FileType.regular;
      mode = 33188;
      size = 3;
      mtime_ns = 1000000000;
      ctime_ns = 1000000000;
      inode = 11;
      dev = 1;
      link_target = [];
    }),
    w,
  );
}

admitted : (admit quiet_world (codes "/s/a") 5000000000 1 session).0 ≡ ok true
unfolding admit dropin.Session.◌>>=◌ dropin.Session.ask dropin.Session.gets dropin.Session.pure
    text_eq
admitted = refl

admit_sound_example : IsQuiet quiet_world (codes "/s/a") 5000000000 1 session
admit_sound_example = admit_sound quiet_world (codes "/s/a") 5000000000 1 session admitted

abbrev walked : WalkEntry
walked = record {
  rel_path = [];
  entry_type = EntryType.file;
  size_bytes = some 3;
  mode = 33188;
  mtime_ns = 1000000000;
  ctime_ns = 1000000000;
  inode = 11;
  dev = 1;
  link_target = none;
}

abbrev captured_file : CapturedItem
captured_file = record {
  spool_path = codes "/s/a";
  item_name = codes "a";
  kind = codes "file";
  root_sha256 = some (codes "d0");
  size_bytes = 3;
  entries =
      record {
        rel_path = [];
        entry_type = EntryType.file;
        size_bytes = some 3;
        sha256 = some (codes "d0");
        link_target = none;
        mode = 33188;
        fingerprint = walked;
        searchable = true;
        capture_status = codes "ok";
      }
      ∷ [];
}

captured : (capture_item quiet_world (codes "/s/a") (codes "a") session).0 ≡ ok captured_file
unfolding capture_item dropin.Session.◌>>=◌ dropin.Session.ask dropin.Session.lift
    dropin.Session.call dropin.Session.pure text_eq
captured = refl

capture_item_sound_example : IsCaptured quiet_world (codes "/s/a") session captured_file
capture_item_sound_example =
    capture_item_sound quiet_world (codes "/s/a") (codes "a") session captured_file captured

-- A repository that holds one snapshot without tags.
abbrev strange_world : Env ℕ
strange_world = record world {
  snapshots = λ t w. (ok (record { id = codes "n1"; time = []; paths = []; tags = [] } ∷ []), w);
}

abbrev refusal : GateVerdict
refusal =
    GateVerdict.refused (refusal_text (Refusal.malformed (codes "n1") (missing_tags reserved_keys)))

gate_refuses : (frontier strange_world settings 8 session).0 ≡ ok refusal
unfolding frontier dropin.Session.catch dropin.Session.◌>>=◌ dropin.Session.call dropin.Session.gets
    dropin.Session.write dropin.Gates.Frontier.check_snapshots dropin.Gates.Frontier.check_parsed
    dropin.Engine.Tags.parse_tags dropin.Session.pure
gate_refuses = refl

no_pass : refusal ≢ passes
no_pass h = cc

execute_refused_example : Untouched start_store (execute strange_world settings 8 session).1.db
execute_refused_example =
    execute_refused strange_world settings 8 refusal session gate_refuses no_pass

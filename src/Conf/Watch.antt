-- ===== src/Conf/Watch.antt =====
-- conf/watch.go: the watch of the configuration file as a run over what happens. A goroutine that
-- waits five seconds before it looks at the file is a check that is pending; looking and loading is
-- one step. Times are in nanoseconds since Go's zero time, and the hash of a content is SHA-256.
pub mod Burst
mod Tests
use zicnode.Prelude.{
  ℕ, zero, suc, Bool, true, false, String, Option, none, some, List, [], ◌∷◌, ℤ, pos, ◌+ℤ◌, ltb_ℤ,
  string_key, ◌==◌, if◌then◌else◌,
}
use zicnode.Conf.{Conf, new_conf, load_from_path}

-- Decoding a content over a configuration, the hash of a content.
pub record Reading : Type 0 where
  pub decode : String → Conf → Option Conf
  pub sha256 : String → String

-- The file, the time of the last event that was taken, the hash of the content that was loaded last,
-- the configuration, the checks that are pending, and the number of reloads.
pub record Watcher : Type 0 where
  pub file : Option String
  pub pre : ℤ
  pub last_hash : String
  pub conf : Conf
  pub pending : ℕ
  pub reloads : ℕ

pub data Happening : Type 0 where
  written : Option String → Happening
  -- A notification, at a time; whether it is of a change of the mode alone.
  notified : ℤ → Bool → Happening
  -- A pending check looks at the file.
  woken : Happening

abbrev pub quiet_time : ℤ
quiet_time = pos 10000000000

-- fileHash
unfoldable pub file_hash : Reading → Option String → Option String
file_hash r none = none
file_hash r (some content) = some (r.sha256 content)

abbrev hash_or_empty : Option String → String
hash_or_empty none = ""
hash_or_empty (some h) = h

unfoldable pub watch : Reading → Option String → Conf → Watcher
unfolding file_hash
watch r file c = record {
  file = file;
  pre = pos 0;
  last_hash = hash_or_empty (file_hash r file);
  conf = c;
  pending = 0;
  reloads = 0;
}

unfoldable pub take_event : ℤ → Bool → Watcher → Watcher
take_event now true w = w
take_event now false w =
    if ltb_ℤ now (w.pre +ℤ quiet_time) then w else record w { pre = now; pending = suc w.pending }

-- The configuration is reset before the file is loaded into it. What a decoding that fails has already
-- set is left out.
abbrev pub loaded : String → Option Conf → Watcher → Watcher
loaded hash none w = record w { conf = new_conf }
loaded hash (some c) w = record w { conf = c; last_hash = hash; reloads = suc w.reloads }

abbrev pub changed_to : Reading → String → String → Watcher → Watcher
changed_to r content hash w =
    if hash == w.last_hash then w else loaded hash (load_from_path (r.decode content) new_conf) w

abbrev pub look : Reading → Option String → Watcher → Watcher
look r none w = w
look r (some content) w = changed_to r content (r.sha256 content) w

abbrev pub wake : Reading → ℕ → Watcher → Watcher
wake r zero w = w
wake r (suc n) w = look r w.file (record w { pending = n })

unfoldable pub happen : Reading → Happening → Watcher → Watcher
unfolding take_event load_from_path
happen r (written file) w = record w { file = file }
happen r (notified now is_chmod) w = take_event now is_chmod w
happen r woken w = wake r w.pending w

unfoldable pub happen_all : Reading → List Happening → Watcher → Watcher
unfolding happen
happen_all r [] w = w
happen_all r (h ∷ hs) w = happen_all r hs (happen r h w)

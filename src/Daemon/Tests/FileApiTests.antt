-- ===== src/Daemon/Tests/FileApiTests.antt =====
-- The laws of the file API at concrete inputs, and runs of its functions.
use maid_cafe.Base.{
  ltb, if◌then◌else◌, length, take, drop, All, ok, err, ℕ, ◌-◌, ◌*◌, ◌^◌, ◌≡◌, refl, true, false,
  none, some, List, [], ◌∷◌, ◌++◌, arith, ◌≢◌, ◌≢◌,
}
use maid_cafe.Base.Int.{pos, negsuc}
use maid_cafe.Base.Text.{
  Bytes, codes, str_eq, has_prefix, strip_prefix, contains_byte, split, cons_to_first, join,
}
use maid_cafe.Base.Filepath.{is_abs, clean, render, clean_elems, clean_step}
use maid_cafe.Daemon.Files.{
  FileRoot, FilesConfig, FilePolicy, FileTarget, new_file_policy, clean_roots, limit_or, resolve,
  best_root, better, path_inside, relative_to, trim_prefix, outside_roots,
}
use maid_cafe.Daemon.Files.Host.{Host, DirEntry, regular, unreadable, Call, OsError}
use maid_cafe.Daemon.Files.Resolve.{Located, Absolute, resolve-Located}
use maid_cafe.Daemon.Files.Reads.{unfinished, read_dir_limited, FileReadResult}
use maid_cafe.Daemon.Files.Reads.Listing.{Delivers, read_dir_limited-exact, read_dir_limited-stops}
use maid_cafe.Daemon.Files.Dispatch.{FileActionRequest, run_file_action}
use maid_cafe.Daemon.Files.Dispatch.Permitted.{Permitted}
use maid_cafe.Daemon.Files.Dispatch.Routing.{run_file_action-Permitted}

abbrev served : FilesConfig
served = record {
  enabled = true;
  secret = [];
  roots =
      record { path = codes "/srv/"; privileged = false; profile = [] }
      ∷ record { path = codes "/srv/conf"; privileged = true; profile = codes "conf" }
      ∷ [];
  allow_write = true;
  max_read_bytes = pos 4;
  max_write_bytes = pos 0;
  max_list_entries = negsuc 0;
}

abbrev policy : FilePolicy
policy = record {
  secret = [];
  allow_write = true;
  max_read = 4;
  max_write = 8 * 2 ^ 20;
  max_list = 5000;
  roots =
      record { path = codes "/srv"; privileged = false; profile = [] }
      ∷ record { path = codes "/srv/conf"; privileged = true; profile = codes "conf" }
      ∷ [];
}

abbrev nested : FileTarget
nested = record {
  root_path = codes "/srv/conf";
  rel = codes "a/b";
  path = codes "/srv/conf/a/b";
  privileged = true;
  profile = codes "conf";
}

new_file_policy-served : new_file_policy served ≡ some policy
unfolding new_file_policy limit_or clean_roots clean is_abs has_prefix render clean_elems clean_step
    split cons_to_first str_eq join
new_file_policy-served = refl

resolve-nested : resolve policy (codes "/srv//conf/./x/../a/b/") ≡ ok nested
unfolding resolve contains_byte is_abs has_prefix clean render clean_elems clean_step split
    cons_to_first str_eq join best_root better path_inside relative_to trim_prefix strip_prefix
resolve-nested = refl

resolve-outside : resolve policy (codes "/srv/../etc/passwd") ≡ err outside_roots
unfolding resolve contains_byte is_abs has_prefix clean render clean_elems clean_step split
    cons_to_first str_eq join best_root better path_inside relative_to trim_prefix strip_prefix
resolve-outside = refl

resolve-Located_example :
    (root : FileRoot) × Located policy (codes "/srv//conf/./x/../a/b/") nested root
unfolding is_abs has_prefix Absolute
resolve-Located_example =
    resolve-Located served policy (codes "/srv//conf/./x/../a/b/") nested (refl, (refl, tt))
      new_file_policy-served resolve-nested

abbrev text : Bytes
text = codes "hello!"

abbrev entries : List DirEntry
entries =
    record {
      name = codes "b";
      info = ok (record { kind = regular; size = 6; perm = 0o644; modified = 7 });
    }
    ∷ record {
      name = codes "a";
      info = ok (record { kind = regular; size = 0; perm = 0o600; modified = 8 });
    }
    ∷ []

abbrev none_such : OsError
none_such = record { is = λ s. false; escapes = false }

-- how many of the entries follow, at most as many as asked for
batch_of : ℕ → ℕ → ℕ
batch_of k n = if ltb (2 - k) n then 2 - k else n

abbrev system : Host
system = record {
  opens = λ calls root. true;
  stat = λ calls root rel. err none_such;
  lstat = λ calls root rel. ok (record { kind = regular; size = 6; perm = 0o644; modified = 7 });
  stat_at = λ calls path. err none_such;
  read_link = λ calls root rel. err none_such;
  open_file =
      λ calls root rel. ok (record { kind = regular; size = 6; perm = 0o644; modified = 7 });
  seek = λ calls root rel o. ok tt;
  read_at = λ calls root rel o n. ok (take n (drop o text));
  open_dir = λ calls root rel. ok tt;
  read_dir = λ calls root rel k n. ok (take (batch_of k n) (drop k entries));
  change = λ calls change root rel. ok tt;
  sudo = some (codes "sudo" ∷ codes "-n" ∷ []);
  start =
      λ calls args payload. record { failed = false; timed_out = false; stderr = []; failure = [] };
  read_tree = λ calls root rel. unreadable none_such;
}

abbrev write_request : FileActionRequest
write_request = record {
  path = codes "/srv/conf/a/b";
  source = [];
  destination = [];
  parents = false;
  recursive = false;
  overwrite = false;
  follow = none;
  offset = pos 0;
  limit = pos 0;
  content = some text;
}

run_file_action-Permitted_example :
    (made : List Call) × ((run_file_action system [] policy
        (codes "http")
        (codes "files.write")
        (codes "me")
        write_request
        []).1
      ≡ made ++ [])
    × All (Permitted system [] policy) made
run_file_action-Permitted_example =
    run_file_action-Permitted system [] policy (codes "http") (codes "files.write") (codes "me")
      write_request []

abbrev last_two : FileReadResult
last_two = record { path = codes "/srv/conf/a/b"; offset = 4; size = 6; content = codes "o!" }

system-Delivers : (root rel : Bytes) → Delivers system root rel entries
unfolding batch_of
system-Delivers root rel = record {
  batch = λ calls k n. batch_of k n;
  answers = λ calls k n. refl;
  at_most = λ calls k n. ground arith;
  there = λ calls k n h. ground arith;
  goes_on = λ calls k n h h'. ground arith;
}

read_dir_limited-exact_example :
    (read_dir_limited system (codes "/srv") (codes "sub") 1 []).0
    ≡ ok (take 1 entries, ltb 1 (length entries))
read_dir_limited-exact_example =
    read_dir_limited-exact system (codes "/srv") (codes "sub") entries
      (system-Delivers (codes "/srv") (codes "sub")) 1 []

read_dir_limited-stops_example :
    (read_dir_limited system (codes "/srv") (codes "sub") 1 []).0 ≢ err unfinished
read_dir_limited-stops_example = read_dir_limited-stops system (codes "/srv") (codes "sub") 1 []

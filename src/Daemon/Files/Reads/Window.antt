-- ===== src/Daemon/Files/Reads/Window.antt =====
-- What `read` returns is the part of the file that the request and the limits allow.
use maid_cafe.Base.{length, take, drop, ok, ℕ, ◌≤◌, ◌<◌, ◌≡◌, List}
use maid_cafe.Base.Int.{ℤ, pos}
use maid_cafe.Base.Text.{Bytes}
use maid_cafe.Daemon.Files.{FilePolicy, FileTarget}
use maid_cafe.Daemon.Files.Host.{Host, Call, FileInfo}
use maid_cafe.Daemon.Files.Gives.{Gives}
use maid_cafe.Daemon.Files.Reads.{FileReadResult}

-- The window of what is left of a file behind an offset: all of it without a limit, which 0 stands
-- for, and else up to the limit.
pub record IsCut (max_read remaining limit window : ℕ) : Type 0 where
  pub capped : window ≤ max_read
  pub whole : limit ≡ 0 → window ≡ remaining
  pub all_left : remaining ≤ limit → window ≡ remaining
  pub part : 0 < limit → limit ≤ remaining → window ≡ limit

-- The file has this content while it is read: the system reports its length, and reads what is
-- there, up to its end.
pub record Holds (host : Host) (t : FileTarget) (stored : Bytes) : Type 0 where
  pub reads :
      (calls : List Call) (o n : ℕ)
      → host.read_at calls t.root_path t.rel o n ≡ ok (take n (drop o stored))
  pub sized :
      (calls : List Call) (info : FileInfo)
      → host.open_file calls t.root_path t.rel ≡ ok info
      → info.size ≡ length stored

-- content that is returned for a request, of a file with this content
pub record IsWindow (p : FilePolicy) (stored : Bytes) (offset limit : ℤ) (r : FileReadResult)
    : Type 0 where
  pub same_offset : offset ≡ pos r.offset
  pub given_limit : ℕ
  pub same_limit : limit ≡ pos given_limit
  pub inside : r.offset ≤ length stored
  pub same_size : r.size ≡ length stored
  pub capped : length r.content ≤ p.max_read
  pub whole : given_limit ≡ 0 → r.content ≡ drop r.offset stored
  pub part : 0 < given_limit → r.content ≡ take given_limit (drop r.offset stored)

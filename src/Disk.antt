-- ===== src/Disk.antt =====
-- The files that pingoo reads and writes: contents by path, which are texts, and the paths on which
-- the system's calls fail.
use pingoo.Prelude.{
  String, Option, none, some, Bool, HashMap, get, insert, string_eq, if◌then◌else◌, ◌==◌, ◌≡◌,
  arith, get-insert, is_some, true,
}

pub record Disk : Type 0 where
  pub files : HashMap String String
  pub fails : String → Bool

-- `io::Result`, with `ErrorKind::NotFound` apart from the other errors
pub data Access : Type 0 where
  content : String → Access
  not_found : Access
  failed : Access

-- `fs::read`; `fs::metadata`, of which only the success is looked at, answers alike
unfoldable pub read : Disk → String → Access
read disk path =
    if disk.fails path
    then failed
    else elim (get disk.files path) [ none ↦ not_found | some text ↦ content text ]

unfoldable pub write : Disk → String → String → Option Disk
write disk path text =
    if disk.fails path then none else some (record disk { files = insert disk.files path text })

pub read-write :
    (disk after : Disk) (path text other : String)
    → write disk path text ≡ some after
    → read after other ≡ (if path == other then content text else read disk other)
unfolding read write
read-write disk after path text other h =
    ground (arith, get-insert disk.files path text other, string_eq.same_iff path other)

-- `fs::try_exists`
unfoldable pub try_exists : Disk → String → Option Bool
try_exists disk path = if disk.fails path then none else some (is_some (get disk.files path))

pub write-exists :
    (disk after : Disk) (path text : String)
    → write disk path text ≡ some after
    → try_exists after path ≡ some true
unfolding write try_exists
write-exists disk after path text h =
    ground (arith, get-insert disk.files path text path, string_eq.same_iff path path)

-- ===== src/Inode.antt =====
-- crates/openfs-fuse/src/inode.rs: the numbers that the FUSE file system gives to paths.
-- The table is the value of its four locks; what `SystemTime::now` reads, and the user and the group
-- of the process, are an argument `Process`.
pub mod Table
pub mod Steps
pub mod Links
mod Tests
use open_fs.Prelude.{
  ℕ, ◌+◌, ◌-◌, ◌/◌, ◌*◌, ◌^◌, Bool, true, false, ◌&&◌, Option, none, some, List, [], ◌∷◌, ◌++◌,
  length, ltb, leb, nat_eq, list_eq, ◌==◌, if◌then◌else◌,
}
use open_fs.Prelude.Map
use open_fs.Prelude.Text.{Str, slash, starts_with, ends_with, pop}

abbrev pub root_ino : ℕ
root_ino = 1

abbrev pub virtual_ino_base : ℕ
virtual_ino_base = 2 ^ 60

pub data InodeKind : Type 0 where
  file_kind directory_kind symlink_kind : InodeKind

pub record Process : Type 0 where
  pub now : ℕ
  pub process_uid : ℕ
  pub process_gid : ℕ

pub record InodeAttr : Type 0 where
  pub ino : ℕ
  pub size : ℕ
  pub blocks : ℕ
  pub atime : ℕ
  pub mtime : ℕ
  pub ctime : ℕ
  pub crtime : ℕ
  pub kind : InodeKind
  pub perm : ℕ
  pub nlink : ℕ
  pub uid : ℕ
  pub gid : ℕ

abbrev pub div_ceil : ℕ → ℕ → ℕ
div_ceil a b = (a + (b - 1)) / b

abbrev new_attr : Process → ℕ → ℕ → ℕ → InodeKind → ℕ → ℕ → InodeAttr
new_attr p ino size blocks kind perm nlink = record {
  ino = ino;
  size = size;
  blocks = blocks;
  atime = p.now;
  mtime = p.now;
  ctime = p.now;
  crtime = p.now;
  kind = kind;
  perm = perm;
  nlink = nlink;
  uid = p.process_uid;
  gid = p.process_gid;
}

-- 0o755
unfoldable pub directory : Process → ℕ → InodeAttr
directory p ino = new_attr p ino 4096 8 directory_kind (7 * 64 + 5 * 8 + 5) 2

-- 0o644
unfoldable pub file : Process → ℕ → ℕ → InodeAttr
file p ino size = new_attr p ino size (div_ceil size 512) file_kind (6 * 64 + 4 * 8 + 4) 1

-- 0o777
unfoldable pub symlink : Process → ℕ → ℕ → InodeAttr
symlink p ino target_len = new_attr p ino target_len 0 symlink_kind (7 * 64 + 7 * 8 + 7) 1

abbrev pub touch : ℕ → InodeAttr → InodeAttr
touch now a = record a { mtime = now; ctime = now }

abbrev pub set_size : ℕ → ℕ → InodeAttr → InodeAttr
set_size now size a = touch now (record a { size = size; blocks = div_ceil size 512 })

pub record InodeTable : Type 0 where
  pub path_to_ino : Map.Map Str ℕ
  pub ino_to_path : Map.Map ℕ Str
  pub attrs : Map.Map ℕ InodeAttr
  pub next_ino : ℕ

unfoldable pub new : Process → InodeTable
unfolding directory
new p = record {
  path_to_ino = (slash ∷ [], root_ino) ∷ [];
  ino_to_path = (root_ino, slash ∷ []) ∷ [];
  attrs = (root_ino, directory p root_ino) ∷ [];
  next_ino = root_ino + 1;
}

unfoldable pub normalize_path : Str → Str
normalize_path path =
    let normalized = if starts_with slash path then path else slash ∷ path in
    if ltb 1 (length normalized) && ends_with slash normalized then pop normalized else normalized

-- `attrs.get_mut(&ino)`, with the change of a size where the inode is no directory
unfoldable pub update_attr : Process → ℕ → ℕ → Bool → InodeTable → InodeTable
update_attr p ino size is_dir t = elim (Map.get ino t.attrs) [
  | none ↦ t
  | some a ↦
      if is_dir then t else record t { attrs = Map.insert ino (set_size p.now size a) t.attrs }
]

-- The maps with a path, its number and the attributes of that.
abbrev pub with_mapping : Str → ℕ → InodeAttr → InodeTable → InodeTable
with_mapping path ino attr t = record t {
  path_to_ino = Map.insert path ino t.path_to_ino;
  ino_to_path = Map.insert ino path t.ino_to_path;
  attrs = Map.insert ino attr t.attrs;
  next_ino = t.next_ino + 1;
}

unfoldable pub get_or_create : Process → Str → Bool → ℕ → InodeTable → InodeTable × ℕ
unfolding normalize_path update_attr directory file
get_or_create p path is_dir size t =
    let normalized = normalize_path path in
    elim (Map.get normalized t.path_to_ino) [
      | some ino ↦ (update_attr p ino size is_dir t, ino)
      | none ↦
          let ino = t.next_ino in
          let attr = if is_dir then directory p ino else file p ino size in
          (with_mapping normalized ino attr t, ino)
    ]

unfoldable pub get_ino : Str → InodeTable → Option ℕ
unfolding normalize_path
get_ino path t = Map.get (normalize_path path) t.path_to_ino

unfoldable pub get_path : ℕ → InodeTable → Option Str
get_path ino t = Map.get ino t.ino_to_path

unfoldable pub get_attr : ℕ → InodeTable → Option InodeAttr
get_attr ino t = Map.get ino t.attrs

unfoldable pub remove : ℕ → InodeTable → InodeTable
remove ino t = elim (Map.get ino t.ino_to_path) [
  | none ↦ t
  | some path ↦ record t {
    path_to_ino = Map.remove path t.path_to_ino;
    ino_to_path = Map.remove ino t.ino_to_path;
    attrs = Map.remove ino t.attrs;
  }
]

unfoldable pub remove_path : Str → InodeTable → InodeTable
unfolding normalize_path remove
remove_path path t = elim (Map.get (normalize_path path) t.path_to_ino) [
  | none ↦ t
  | some ino ↦ remove ino t
]

unfoldable pub create_symlink : Process → Str → Str → InodeTable → InodeTable × ℕ
unfolding normalize_path symlink
create_symlink p path target t =
    let ino = t.next_ino in
    (with_mapping (normalize_path path) ino (symlink p ino (length target)) t, ino)

unfoldable pub is_virtual : ℕ → Bool
is_virtual ino = leb virtual_ino_base ino

unfoldable pub alloc_virtual_ino : InodeTable → InodeTable × ℕ
alloc_virtual_ino t = (record t { next_ino = t.next_ino + 1 }, virtual_ino_base + t.next_ino)

unfoldable pub resolve_child : ℕ → Str → InodeTable → Option Str
unfolding get_path
resolve_child parent_ino name t = elim (get_path parent_ino t) [
  | none ↦ none
  | some parent_path ↦
      some (if parent_path == slash ∷ [] then slash ∷ name else parent_path ++ slash ∷ name)
]
